-- ===== src/Upstream.antt =====
-- crates/gatepup-proxy/src/snapshot.rs: an upstream at run time, and the choice of a target. The
-- atomic `next` is a field of the record, a `usize` of 64 bits that wraps; a target is named by its
-- index, since its health is shared and changes. An index out of range panics.
pub mod Cycle
pub mod Pick
pub mod Fair
pub mod Keeps
pub mod Shared
mod Tests
use gatepup.Prelude.{
  ℕ, zero, suc, ◌+◌, ◌%◌, ◌^◌, Bool, true, false, Option, none, some, List, [], ◌∷◌, ◌==◌, length,
  get_elem?, set, Text, if◌then◌else◌,
}
use gatepup.Health.{HealthState, is_healthy, observe}

pub record HealthCheckSettings : Type 0 where
  pub path : Text
  pub interval : ℕ
  pub timeout : ℕ

pub record RetryPolicy : Type 0 where
  pub max_attempts : ℕ
  pub methods : List Text
  pub on_connect_failure : Bool
  pub on_5xx : Bool

pub record TargetRuntime : Type 0 where
  pub url : Text
  pub state : HealthState

pub record UpstreamRuntime : Type 0 where
  pub targets : List TargetRuntime
  pub health : Option HealthCheckSettings
  pub retry : Option RetryPolicy
  pub tls_insecure : Bool
  pub schedule : List ℕ
  pub next : ℕ

pub data Picked : Type 0 where
  target : ℕ → Picked
  no_target : Picked
  panic : Picked

-- `fetch_add(1)` on the `AtomicUsize`.
abbrev pub advance : UpstreamRuntime → UpstreamRuntime
advance u = record u { next = (u.next + 1) % 2 ^ 64 }

abbrev pub target_at : UpstreamRuntime → ℕ → Option TargetRuntime
target_at u i = get_elem? u.targets i

-- The rounds left of the loop over `0..len`.
unfoldable pub pick_loop : ℕ → UpstreamRuntime → Picked × UpstreamRuntime
pick_loop zero u = (no_target, u)
pick_loop (suc k) u =
    let rest = pick_loop k (advance u) in
    elim (get_elem? u.schedule (u.next % length u.schedule)) [
      | none ↦ (panic, advance u)
      | some i ↦ elim (target_at u i) [
        | none ↦ (panic, advance u)
        | some t ↦ if is_healthy t.state then (target i, advance u) else rest
      ]
    ]

unfoldable pub pick_target : UpstreamRuntime → Picked × UpstreamRuntime
pick_target u = if length u.schedule == 0 then (no_target, u) else pick_loop (length u.schedule) u

-- `target.state.observe(…)` on the target that was picked.
abbrev pub observe_option :
    ℕ → Bool → List TargetRuntime → ℕ → Option TargetRuntime → List TargetRuntime
observe_option now ok ts i none = ts
observe_option now ok ts i (some t) = set ts i (record t { state = observe now ok t.state })

unfoldable pub observe_target : ℕ → Bool → ℕ → UpstreamRuntime → UpstreamRuntime
observe_target now ok i u = record u { targets = observe_option now ok u.targets i (target_at u i) }

-- Picks in a row, with no change of health between them.
unfoldable pub pick_many : ℕ → UpstreamRuntime → List Picked × UpstreamRuntime
pick_many zero u = ([], u)
pick_many (suc k) u = let p = pick_target u in let rest = pick_many k p.1 in (p.0 ∷ rest.0, rest.1)
