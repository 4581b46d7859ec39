-- ===== src/Health/Tests.antt =====
-- Observations at concrete targets, and the theorems at inputs that meet their hypotheses.
use gatepup.Prelude.{ℕ, ◌≡◌, refl, Bool, true, false, List, [], ◌∷◌, arith}
use gatepup.Health.{HealthState, new, observe, after}
use gatepup.Health.Invariant.{IsValid}
use gatepup.Health.History.{verdict, after-verdict}

abbrev fails : List (ℕ × Bool)
fails = (30, false) ∷ (20, false) ∷ (10, true) ∷ (5, false) ∷ []

abbrev recovering : List (ℕ × Bool)
recovering = (60, true) ∷ (50, true) ∷ (40, false) ∷ fails

abbrev start : HealthState
start = record {
  healthy = true;
  successes = 0;
  failures = 2;
  last_check_ms = 20;
  healthy_threshold = 2;
  unhealthy_threshold = 3;
  managed = true;
}

abbrev ejected : HealthState
ejected = record start { healthy = false; successes = 1 }

start-IsValid : IsValid start
start-IsValid = ground arith

ejected-IsValid : IsValid ejected
ejected-IsValid = ground arith

below_threshold : (after (new true 2 3) fails).healthy ≡ true
unfolding after observe new
below_threshold = refl

at_threshold : (after (new true 2 3) ((40, false) ∷ fails)).healthy ≡ false
unfolding after observe new
at_threshold = refl

recovered : (after (new true 2 3) recovering).healthy ≡ true
unfolding after observe new
recovered = refl

after-verdict_example : (after (new true 2 3) recovering).healthy ≡ verdict 2 3 recovering
after-verdict_example = after-verdict 2 3 recovering (omega arith) (omega arith)
