-- ===== src/Health.antt =====
-- crates/gatepup-proxy/src/health.rs: the health of one upstream target. The atomics of
-- `HealthState` are the fields of a record, and `observe` returns the new record. The clock is an
-- argument. `fetch_add` on an `AtomicU32` wraps, and so does the `+ 1` behind it in a release build.
pub mod Invariant
pub mod History
mod Tests
use gatepup.Prelude.{
  ℕ, ◌+◌, ◌%◌, ◌^◌, max, Bool, true, false, not, ◌&&◌, List, [], ◌∷◌, leb, if◌then◌else◌,
}

pub record HealthState : Type 0 where
  pub healthy : Bool
  pub successes : ℕ
  pub failures : ℕ
  pub last_check_ms : ℕ
  pub healthy_threshold : ℕ
  pub unhealthy_threshold : ℕ
  pub managed : Bool

unfoldable pub new : Bool → ℕ → ℕ → HealthState
new managed healthy_threshold unhealthy_threshold = record {
  healthy = true;
  successes = 0;
  failures = 0;
  last_check_ms = 0;
  healthy_threshold = max healthy_threshold 1;
  unhealthy_threshold = max unhealthy_threshold 1;
  managed = managed;
}

abbrev pub is_healthy : HealthState → Bool
is_healthy s = s.healthy

-- The value that `fetch_add(1)` leaves in the counter, and that `fetch_add(1) + 1` is.
abbrev pub add_one : ℕ → ℕ
add_one n = (n + 1) % 2 ^ 32

-- One observation with success, after the time is stored.
observe_success : HealthState → HealthState
observe_success s =
    let t = record s { failures = 0; successes = add_one s.successes } in
    if not (is_healthy t) && leb t.healthy_threshold (add_one s.successes)
    then record t { healthy = true }
    else t

observe_failure : HealthState → HealthState
observe_failure s =
    let t = record s { successes = 0; failures = add_one s.failures } in
    if is_healthy t && leb t.unhealthy_threshold (add_one s.failures)
    then record t { healthy = false }
    else t

unfoldable pub observe : ℕ → Bool → HealthState → HealthState
unfolding observe_success observe_failure
observe now success s =
    if not s.managed
    then s
    else (let t = record s { last_check_ms = now } in
        if success then observe_success t else observe_failure t)

-- The state after a history of observations, the newest first, each with its time.
unfoldable pub after : HealthState → List (ℕ × Bool) → HealthState
after s [] = s
after s ((now, success) ∷ history) = observe now success (after s history)
