-- ===== src/Health/Invariant.antt =====
-- What holds of a target's health between two observations.
use gatepup.Prelude.{ℕ, ◌+◌, ◌^◌, ◌≤◌, ◌<◌, ◌≡◌, ◌↔◌, refl, Bool, true, false, List, [], ◌∷◌, arith}
use gatepup.Health.{HealthState, new, observe, after}

-- The counter that decides the next transition is below its threshold, so the wrap-around of the
-- counters is never seen.
pub record IsValid (s : HealthState) : Type 0 where
  pub recovers : 1 ≤ s.healthy_threshold
  pub ejects : 1 ≤ s.unhealthy_threshold
  pub healthy_fits : s.healthy_threshold < 2 ^ 32
  pub unhealthy_fits : s.unhealthy_threshold < 2 ^ 32
  pub ejected_below : s.healthy ≡ false → s.successes < s.healthy_threshold
  pub healthy_below : s.healthy ≡ true → s.failures < s.unhealthy_threshold
  pub unmanaged_healthy : s.managed ≡ false → s.healthy ≡ true

pub new-IsValid : (m : Bool) (h u : ℕ) → h < 2 ^ 32 → u < 2 ^ 32 → IsValid (new m h u)
unfolding new
new-IsValid m h u p q = ground arith

pub observe-IsValid : (now : ℕ) (b : Bool) (s : HealthState) → IsValid s → IsValid (observe now b s)
unfolding observe
observe-IsValid now b s v = ground arith

-- A valid health state stays valid under any history of observations: its thresholds are at least 1,
-- and the counter of the streak that would change the verdict is below its threshold.
pub after-IsValid : (s : HealthState) (os : List (ℕ × Bool)) → IsValid s → IsValid (after s os)
unfolding after
after-IsValid s [] v = v
after-IsValid s ((now, b) ∷ os) v = observe-IsValid now b (after s os) (after-IsValid s os v)

-- The thresholds and the management flag are set once.
pub observe_frame :
    (now : ℕ) (b : Bool) (s : HealthState)
    → ((observe now b s).healthy_threshold ≡ s.healthy_threshold)
      × ((observe now b s).unhealthy_threshold ≡ s.unhealthy_threshold)
      × ((observe now b s).managed ≡ s.managed)
unfolding observe
observe_frame now b s = ground arith

pub after_frame :
    (s : HealthState) (os : List (ℕ × Bool))
    → ((after s os).healthy_threshold ≡ s.healthy_threshold)
      × ((after s os).unhealthy_threshold ≡ s.unhealthy_threshold)
      × ((after s os).managed ≡ s.managed)
unfolding after
after_frame s [] = (refl, refl, refl)
after_frame s ((now, b) ∷ os) = ground (arith, observe_frame now b (after s os), after_frame s os)

-- A managed healthy target is ejected by an observation exactly when this is a failure that brings
-- the run of failures to the threshold.
pub observe_ejects_iff :
    (now : ℕ) (b : Bool) (s : HealthState)
    → IsValid s
    → s.managed ≡ true
    → s.healthy ≡ true
    → ((observe now b s).healthy ≡ false) ↔ ((b ≡ false) × (s.failures + 1 ≡ s.unhealthy_threshold))
unfolding observe
observe_ejects_iff now b s v m h = ground arith

-- A managed ejected target recovers by an observation exactly when this is a success that brings
-- the run of successes to the threshold.
pub observe_recovers_iff :
    (now : ℕ) (b : Bool) (s : HealthState)
    → IsValid s
    → s.managed ≡ true
    → s.healthy ≡ false
    → ((observe now b s).healthy ≡ true) ↔ ((b ≡ true) × (s.successes + 1 ≡ s.healthy_threshold))
unfolding observe
observe_recovers_iff now b s v m h = ground arith

-- Without health management no observation changes anything.
pub after_unmanaged : (s : HealthState) (os : List (ℕ × Bool)) → s.managed ≡ false → after s os ≡ s
unfolding after observe
after_unmanaged s [] m = refl
after_unmanaged s ((now, b) ∷ os) m = ground (arith, after_unmanaged s os m)
