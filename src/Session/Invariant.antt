-- ===== src/Session/Invariant.antt =====
-- The invariant of the session store, and what keeps it: an operation that takes sessions out of
-- the map and leaves each session's identity alone.
pub mod Caps
pub mod Operations
pub mod Lookups
pub mod Room
pub mod Creation
pub mod Ownership
pub mod Eviction
use antrea_ui.Base.{
  ℕ, ◌+◌, ◌≤◌, ◌<◌, ◌≡◌, refl, ap, inl, inr, String, false, some, [], ◌∷◌, Table, lookup, delete,
  keys, length, Distinct, str_eq, arith, delete-Distinct, length-delete-le, lookup-delete,
  Bool-cases, str_eq→eq, map, after,
}
use antrea_ui.Session.Types.{Heap, Options, Store}
use antrea_ui.Session.Memory.Keeping.{Keeps, Keeps-refl, Keeps-trans}
use antrea_ui.Session.Expiry.{IsSane}
use antrea_ui.Session.Store.{owned}

-- An entry of the map is keyed by its session's ID, and its session ends within the absolute cap.
pub record IsEntry (max_lifetime : ℕ) (h : Heap) (id : String) (p : ℕ) : Type 0 where
  pub keyed : (h.objects p).id ≡ id
  pub capped : (h.objects p).expires_at ≤ (h.objects p).created_at + max_lifetime
  pub allocated : p < h.next_object

abbrev pub Entries : ℕ → Heap → Table ℕ → Type 0
Entries m h [] = Unit
Entries m h ((id, p) ∷ t) = IsEntry m h id p × Entries m h t

pub record IsWellFormed (st : Store) : Type 0 where
  pub sane : IsSane st.opts
  pub distinct : Distinct (keys st.sessions)
  pub entries : Entries st.opts.max_lifetime st.heap st.sessions
  pub within : length st.sessions ≤ st.opts.max_sessions
  pub shares :
      (cap_key : String)
      → str_eq cap_key "" ≡ false
      → length (owned st.heap cap_key st.sessions) ≤ st.opts.max_sessions_per_user

-- The second map is the first one after some deletions.
pub data Pruned : Table ℕ → Table ℕ → Type 0 where
  same : {t : Table ℕ} → Pruned t t
  without : {t u : Table ℕ} (id : String) → Pruned (delete id t) u → Pruned t u

pub Pruned-trans : {t u v : Table ℕ} → Pruned t u → Pruned u v → Pruned t v
Pruned-trans same q = q
Pruned-trans (without id p) q = without id (Pruned-trans p q)

pub Pruned-length : {t u : Table ℕ} → Pruned t u → length u ≤ length t
Pruned-length same = omega arith
Pruned-length (without {t} id p) = omega (arith, Pruned-length p, length-delete-le id t)

pub Pruned-Distinct : {t u : Table ℕ} → Pruned t u → Distinct (keys t) → Distinct (keys u)
Pruned-Distinct same d = d
Pruned-Distinct (without {t} id p) d = Pruned-Distinct p (delete-Distinct id t d)

-- What is in the map at the end was in it at the start.
pub Pruned-lookup :
    {t u : Table ℕ}
    → Pruned t u
    → (id : String) (p : ℕ) → lookup id u ≡ some p
    → lookup id t ≡ some p
Pruned-lookup same id p e = e
Pruned-lookup (without {t} k q) id p e =
    ground (arith, Pruned-lookup q id p e, lookup-delete k id t)

module _ (m : ℕ) (h : Heap) where
  Entries-delete : (id : String) (t : Table ℕ) → Entries m h t → Entries m h (delete id t)
  unfolding delete
  Entries-delete id [] e = e
  Entries-delete id ((j, p) ∷ t) e = elim (Bool-cases (str_eq id j)) [
    | inl hit ↦ rw hit (Entries-delete id t e.1)
    | inr miss ↦ rw miss (e.0, Entries-delete id t e.1)
  ]

  pub Pruned-Entries : {t u : Table ℕ} → Pruned t u → Entries m h t → Entries m h u
  Pruned-Entries same e = e
  Pruned-Entries (without {t} id p) e = Pruned-Entries p (Entries-delete id t e)

  pub Entries-lookup :
      (id : String) (p : ℕ) (t : Table ℕ) → Entries m h t → lookup id t ≡ some p → IsEntry m h id p
  unfolding lookup
  Entries-lookup id p [] e f = absurd (ground arith)
  Entries-lookup id p ((j, q) ∷ t) e f = elim (Bool-cases (str_eq id j)) [
    | inl hit ↦
        let same_id : id ≡ j = str_eq→eq id j hit in
        let same_p : q ≡ p = ground arith in rw (same_id, ← same_p) e.0
    | inr miss ↦ Entries-lookup id p t e.1 (ground arith)
  ]

module _ {m : ℕ} where
  IsEntry-Keeps :
      {h k : Heap} {id : String} {p : ℕ} → Keeps m h k → IsEntry m h id p → IsEntry m k id p
  IsEntry-Keeps {h} {k} {id} {p} keeps e =
      let l = keeps.later p e.allocated in
      record {
        keyed = cc (l.id, e.keyed);
        capped = l.capped e.capped;
        allocated = omega (arith, keeps.grows, e.allocated);
      }

  pub Entries-Keeps : {h k : Heap} (t : Table ℕ) → Keeps m h k → Entries m h t → Entries m k t
  Entries-Keeps [] keeps e = e
  Entries-Keeps ((id, p) ∷ t) keeps e = (IsEntry-Keeps keeps e.0, Entries-Keeps t keeps e.1)

  -- The sessions under a cap key are the same ones, since no cap key changes.
  pub owned-Keeps :
      {h k : Heap} (c : String) (t : Table ℕ)
      → Keeps m h k
      → Entries m h t
      → owned k c t ≡ owned h c t
  unfolding owned
  owned-Keeps c [] keeps e = refl
  owned-Keeps c ((id, p) ∷ t) keeps e =
      ground (arith, (keeps.later p e.0.allocated).cap_key, owned-Keeps c t keeps e.1)

length-owned-delete :
    (h : Heap) (c id : String) (t : Table ℕ)
    → length (owned h c (delete id t)) ≤ length (owned h c t)
unfolding owned delete
length-owned-delete h c id [] = omega arith
length-owned-delete h c id ((j, p) ∷ t) = ground (arith, length-owned-delete h c id t)

pub Pruned-owned :
    {t u : Table ℕ}
    → Pruned t u
    → (h : Heap) (c : String) → length (owned h c u) ≤ length (owned h c t)
Pruned-owned same h c = omega arith
Pruned-owned (without {t} id p) h c =
    omega (arith, Pruned-owned p h c, length-owned-delete h c id t)

-- From one store to a later one by operations that create no session.
pub record Evolves (st su : Store) : Type 0 where
  pub same_opts : su.opts ≡ st.opts
  pub keeps : Keeps st.opts.max_lifetime st.heap su.heap
  pub pruned : Pruned st.sessions su.sessions

pub Evolves-refl : (st : Store) → Evolves st st
Evolves-refl st = record { same_opts = refl; keeps = Keeps-refl st.heap; pruned = same }

pub Evolves-trans : {st su sv : Store} → Evolves st su → Evolves su sv → Evolves st sv
Evolves-trans a b = record {
  same_opts = cc (a.same_opts, b.same_opts);
  keeps = Keeps-trans a.keeps (rw a.same_opts at b.keeps);
  pruned = Pruned-trans a.pruned b.pruned;
}

pub Evolves-IsWellFormed : {st su : Store} → Evolves st su → IsWellFormed st → IsWellFormed su
Evolves-IsWellFormed {st} {su} e w =
    let kept = Entries-Keeps st.sessions e.keeps w.entries in
    record {
      sane = rw e.same_opts w.sane;
      distinct = Pruned-Distinct e.pruned w.distinct;
      entries = rw e.same_opts (Pruned-Entries _ _ e.pruned kept);
      within = rw e.same_opts (omega (arith, Pruned-length e.pruned, w.within));
      shares = λ c named. rw e.same_opts (
          omega (
            arith,
            Pruned-owned e.pruned su.heap c,
            ap length (owned-Keeps c st.sessions e.keeps w.entries),
            w.shares c named,
          ));
    }
