-- ===== src/Health/History.antt =====
-- The verdict on a target as a function of the observations alone.
use gatepup.Prelude.{
  ℕ, suc, ◌^◌, ◌≤◌, ◌<◌, max, ◌≡◌, refl, ◌∙◌, Bool, true, false, List, [], ◌∷◌, arith, ltb, leb,
  if◌then◌else◌,
}
use gatepup.Health.{HealthState, new, observe, after}
use gatepup.Health.Invariant.{IsValid, new-IsValid, after-IsValid, after_frame}

-- How many of the latest observations are failures, and how many are successes.
unfoldable pub failing : List (ℕ × Bool) → ℕ
failing [] = 0
failing ((_, true) ∷ os) = 0
failing ((_, false) ∷ os) = suc (failing os)

unfoldable pub passing : List (ℕ × Bool) → ℕ
passing [] = 0
passing ((_, true) ∷ os) = suc (passing os)
passing ((_, false) ∷ os) = 0

-- The promise: a healthy target is ejected by `u` failures in a row, an ejected one recovers by
-- `h` successes in a row, and nothing else changes the verdict.
unfoldable pub verdict : ℕ → ℕ → List (ℕ × Bool) → Bool
unfolding failing passing
verdict h u [] = true
verdict h u (o ∷ os) = if verdict h u os then ltb (failing (o ∷ os)) u else leb h (passing (o ∷ os))

-- The code's state stands for the history: the counter that matters is the length of the run.
record Tracks (h u : ℕ) (os : List (ℕ × Bool)) (s : HealthState) : Type 0 where
  same : s.healthy ≡ verdict h u os
  failed : s.healthy ≡ true → s.failures ≡ failing os
  passed : s.healthy ≡ false → s.successes ≡ passing os

module _ (h u : ℕ) where
  step-Tracks :
      (now : ℕ) (b : Bool) (os : List (ℕ × Bool)) (s : HealthState)
      → IsValid s
      → s.managed ≡ true
      → s.healthy_threshold ≡ h
      → s.unhealthy_threshold ≡ u
      → Tracks h u os s
      → Tracks h u ((now, b) ∷ os) (observe now b s)
  unfolding observe verdict failing passing
  step-Tracks now true os s v m p q t = ground arith
  step-Tracks now false os s v m p q t = ground arith

after_new :
    (h u : ℕ) (os : List (ℕ × Bool))
    → ((after (new true h u) os).managed ≡ true)
      × ((after (new true h u) os).healthy_threshold ≡ max h 1)
      × ((after (new true h u) os).unhealthy_threshold ≡ max u 1)
unfolding new
after_new h u os = let (p, q, r) = after_frame (new true h u) os in (r, p, q)

after-Tracks :
    (h u : ℕ) (os : List (ℕ × Bool))
    → h < 2 ^ 32
    → u < 2 ^ 32
    → Tracks (max h 1) (max u 1) os (after (new true h u) os)
unfolding after
after-Tracks h u [] p q = unfold new verdict failing passing in ground arith
after-Tracks h u ((now, b) ∷ os) p q =
    let (m, e, f) = after_new h u os in
    step-Tracks (max h 1) (max u 1) now b os (after (new true h u) os)
      (after-IsValid _ os (new-IsValid true h u p q)) m e f (after-Tracks h u os p q)

-- After any history of observations a managed target is healthy exactly when the promise says so,
-- whatever the wrap-around of its 32-bit counters.
pub after-verdict :
    (h u : ℕ) (os : List (ℕ × Bool))
    → h < 2 ^ 32
    → u < 2 ^ 32
    → (after (new true h u) os).healthy ≡ verdict (max h 1) (max u 1) os
after-verdict h u os p q = (after-Tracks h u os p q).same

verdict-passing :
    (h u : ℕ) (os : List (ℕ × Bool)) → 1 ≤ h → 1 ≤ u → h ≤ passing os → verdict h u os ≡ true
unfolding verdict passing failing
verdict-passing h u [] a b p = refl
verdict-passing h u ((_, true) ∷ os) a b p = ground arith
verdict-passing h u ((_, false) ∷ os) a b p = absurd (omega arith)

verdict-failing :
    (h u : ℕ) (os : List (ℕ × Bool)) → 1 ≤ h → 1 ≤ u → u ≤ failing os → verdict h u os ≡ false
unfolding verdict passing failing
verdict-failing h u [] a b p = absurd (omega arith)
verdict-failing h u ((_, false) ∷ os) a b p = ground arith
verdict-failing h u ((_, true) ∷ os) a b p = absurd (omega arith)

-- As many successes in a row as the healthy threshold asks make a managed target healthy, whatever
-- came before.
pub after_passing :
    (h u : ℕ) (os : List (ℕ × Bool))
    → h < 2 ^ 32
    → u < 2 ^ 32
    → max h 1 ≤ passing os
    → (after (new true h u) os).healthy ≡ true
after_passing h u os p q r =
    after-verdict h u os p q ∙ verdict-passing _ _ os (omega arith) (omega arith) r

-- As many failures in a row as the unhealthy threshold asks make a managed target unhealthy,
-- whatever came before.
pub after_failing :
    (h u : ℕ) (os : List (ℕ × Bool))
    → h < 2 ^ 32
    → u < 2 ^ 32
    → max u 1 ≤ failing os
    → (after (new true h u) os).healthy ≡ false
after_failing h u os p q r =
    after-verdict h u os p q ∙ verdict-failing _ _ os (omega arith) (omega arith) r
