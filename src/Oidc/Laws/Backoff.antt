-- ===== src/Oidc/Laws/Backoff.antt =====
-- The waits between attempts at discovery.
use antrea_ui.Base.{
  ℕ, zero, suc, ◌*◌, ◌^◌, ◌≤◌, ◌≡◌, refl, List, [], ◌∷◌, ltb, if◌then◌else◌, All, arith,
}
use antrea_ui.Session.Types.{second}
use antrea_ui.Oidc.Provider.{Round, Progress, init_provider, init_rounds, next_wait, max_wait}

-- The wait after as many failures: 1, 2, 4 and 8 seconds, then 10 seconds each time.
abbrev pub backoff : ℕ → ℕ
backoff n = if ltb n 4 then 2 ^ n * second else max_wait

abbrev pub waits_from : ℕ → ℕ → List ℕ
waits_from k zero = []
waits_from k (suc n) = backoff k ∷ waits_from (suc k) n

-- The failures at the start, and how the loop stands after them.
abbrev pub failures : List Round → ℕ
failures [] = 0
failures (Round.waits ∷ later) = suc (failures later)
failures (_ ∷ later) = 0

abbrev pub ending : List Round → Progress
ending [] = Progress.running
ending (Round.succeeds ∷ later) = Progress.ready
ending (Round.ends ∷ later) = Progress.cancelled
ending (Round.waits ∷ later) = ending later

backoff_far : (k : ℕ) → backoff (suc (suc (suc (suc k)))) ≡ max_wait
backoff_far k = ground arith

next_wait-backoff : (k : ℕ) → next_wait (backoff k) ≡ backoff (suc k)
unfolding next_wait
next_wait-backoff zero = refl
next_wait-backoff (suc zero) = refl
next_wait-backoff (suc (suc zero)) = refl
next_wait-backoff (suc (suc (suc zero))) = refl
next_wait-backoff (suc (suc (suc (suc k)))) = rw (backoff_far k, backoff_far (suc k)) refl

init_rounds-waits_from :
    (k : ℕ) (rounds : List Round)
    → init_rounds (backoff k) rounds ≡ (ending rounds, waits_from k (failures rounds))
unfolding init_rounds
init_rounds-waits_from k [] = refl
init_rounds-waits_from k (Round.succeeds ∷ later) = refl
init_rounds-waits_from k (Round.ends ∷ later) = refl
init_rounds-waits_from k (Round.waits ∷ later) =
    rw (next_wait-backoff k, init_rounds-waits_from (suc k) later) refl

backoff_le : (n : ℕ) → backoff n ≤ max_wait
backoff_le zero = omega arith
backoff_le (suc zero) = omega arith
backoff_le (suc (suc zero)) = omega arith
backoff_le (suc (suc (suc zero))) = omega arith
backoff_le (suc (suc (suc (suc k)))) = rw (backoff_far k) (omega arith)

waits_from-bounded : (k n : ℕ) → All (λ w. w ≤ max_wait) (waits_from k n)
waits_from-bounded k zero = tt
waits_from-bounded k (suc n) = (backoff_le k, waits_from-bounded (suc k) n)

-- After any rounds, `Init` has waited 1, 2, 4 and 8 seconds and then 10 seconds each time, once for
-- each failed discovery so far, and never longer than 10 seconds. It has returned success as soon as
-- one discovery has succeeded, an error if its context has ended first, and goes on otherwise.
pub init_provider-Backoff :
    (rounds : List Round)
    → (init_provider rounds ≡ (ending rounds, waits_from 0 (failures rounds)))
      × All (λ w. w ≤ max_wait) (init_provider rounds).1
unfolding init_provider
init_provider-Backoff rounds =
    let e : init_provider rounds ≡ (ending rounds, waits_from 0 (failures rounds)) =
      init_rounds-waits_from 0 rounds in
    (e, rw e (waits_from-bounded 0 (failures rounds)))
