-- ===== src/Traceflow/Laws/Expiry.antt =====
-- Which traceflows the collection deletes (pkg/handlers/traceflow/handler.go: doGC).
use antrea_ui.Base.{
  ℕ, String, ◌≡◌, refl, ◌∙◌, Bool, true, false, ◌&&◌, ◌||◌, Option, none, some, List, [], ◌∷◌,
  arith, str_eq, str_eq→eq, Bool-cases, inl, inr, subst, sym, Option-cases,
}
use antrea_ui.Upstream.Errors.{ApiFailure}
use antrea_ui.Traceflow.Handler.{
  Cluster, Item, traceflow_labels, has_expired, expired_traceflows, delete_expired, do_gc,
}

-- `find` looks an object up by its name. A deletion that is accepted removes the object of that name,
-- and no deletion touches an object of another name.
pub record IsDeleting (cluster : Cluster) (client : cluster.Client)
    (find : String → cluster.World → Option cluster.Object) : Type 0 where
  pub drops :
      (name : String) (w : cluster.World)
      → (cluster.delete client name w).0 ≡ none
      → find name (cluster.delete client name w).1 ≡ none
  pub spares :
      (name m : String) (w : cluster.World)
      → str_eq name m ≡ false
      → find m (cluster.delete client name w).1 ≡ find m w

abbrev pub names_it : String → List String → Bool
names_it m [] = false
names_it m (name ∷ names) = str_eq name m || names_it m names

-- Whether a traceflow of this name is listed and more than an hour old.
abbrev pub is_due : ℕ → String → List Item → Bool
is_due now m [] = false
is_due now m (i ∷ is) = (has_expired now i && str_eq i.name m) || is_due now m is

names_it-expired_traceflows :
    (now : ℕ) (m : String) (items : List Item)
    → names_it m (expired_traceflows now items) ≡ is_due now m items
unfolding expired_traceflows
names_it-expired_traceflows now m [] = refl
names_it-expired_traceflows now m (i ∷ is) = elim (Bool-cases (has_expired now i)) [
  | inl e ↦ rw e (ground (arith, names_it-expired_traceflows now m is))
  | inr e ↦ rw e (ground (arith, names_it-expired_traceflows now m is))
]

module _ (cluster : Cluster) (client : cluster.Client)
    (find : String → cluster.World → Option cluster.Object)
    (laws : IsDeleting cluster client find) where
  spared :
      (m : String) (names : List String) (w : cluster.World)
      → names_it m names ≡ false
      → find m (delete_expired cluster client names w) ≡ find m w
  unfolding delete_expired
  spared m [] w e = refl
  spared m (name ∷ names) w e =
      spared m names (cluster.delete client name w).1 (ground arith)
      ∙ laws.spares name m w (ground arith)

  -- What becomes of the traceflow `m` in the world `w`, where `due` tells whether it is to be deleted.
  pub data Fate (due : Bool) (m : String) (w : cluster.World) : cluster.World → Type 0 where
    kept : (w' : cluster.World) → due ≡ false → find m w' ≡ find m w → Fate due m w w'
    gone : (w' : cluster.World) → due ≡ true → find m w' ≡ none → Fate due m w w'
    deletion_failed :
        (w' at : cluster.World) (e : ApiFailure)
        → due ≡ true
        → (cluster.delete client m at).0 ≡ some e
        → Fate due m w w'

  last_deleted :
      (m name : String) (names : List String) (w : cluster.World)
      → name ≡ m
      → names_it m names ≡ false
      → Fate true m w (delete_expired cluster client names (cluster.delete client name w).1)
  last_deleted m name names w same last =
      let after = spared m names (cluster.delete client name w).1 last in
      elim (Option-cases (cluster.delete client m w).0) [
        | inr (e, failed) ↦ Fate.deletion_failed _ w e refl failed
        | inl done ↦ Fate.gone _ refl (
            after
            ∙ subst (λ n. find m (cluster.delete client n w).1 ≡ none) (sym same)
                (laws.drops m w done))
      ]

  later : (m : String) (w w' v : cluster.World) → Fate true m w v → Fate true m w' v
  later m w w' v (Fate.kept _ due e) = absurd (ground arith)
  later m w w' v (Fate.gone _ due e) = Fate.gone v due e
  later m w w' v (Fate.deletion_failed _ at e due failed) = Fate.deletion_failed v at e due failed

  dropped :
      (m : String) (names : List String) (w : cluster.World)
      → names_it m names ≡ true
      → Fate true m w (delete_expired cluster client names w)
  unfolding delete_expired
  dropped m [] w e = absurd (ground arith)
  dropped m (name ∷ names) w e = elim (Bool-cases (names_it m names)) [
    | inl again ↦ later m _ w _ (dropped m names (cluster.delete client name w).1 again)
    | inr last ↦ last_deleted m name names w (str_eq→eq name m (ground arith)) last
  ]

  -- Where an accepted deletion removes the object of that name, no deletion touches another, and the
  -- list of labelled traceflows can be had: a collection deletes just those of them that are more than
  -- an hour old. One of these is gone afterwards unless the API server has refused to delete it; the
  -- failure of another deletion does not save it. Any other object is left as it was.
  pub do_gc-Fate :
      (now : ℕ) (m : String) (items : List Item) (w : cluster.World)
      → cluster.list client traceflow_labels w ≡ some items
      → Fate (is_due now m items) m w (do_gc cluster client now w)
  unfolding do_gc
  do_gc-Fate now m items w e = elim (Bool-cases (is_due now m items)) [
    | inl due ↦
        rw (e, due, do_gc)
          (dropped m (expired_traceflows now items) w
            (names_it-expired_traceflows now m items ∙ due))
    | inr due ↦
        rw (e, do_gc)
          (Fate.kept _ due (
            spared m (expired_traceflows now items) w
              (names_it-expired_traceflows now m items ∙ due)))
  ]
