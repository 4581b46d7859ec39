-- ===== src/Upstream/Tests.antt =====
-- Picks at a concrete upstream: two targets with weights 3 and 1, the second ejected or not.
use gatepup.Prelude.{
  ℕ, zero, suc, ◌*◌, ◌^◌, ◌<◌, ◌≡◌, refl, Bool, true, false, none, [], ◌∷◌, arith, All, In, here,
  there, codes,
}
use gatepup.Health.{HealthState}
use gatepup.Schedule.{gcd, gcd_all, divisor, pass, rounds, build_schedule}
use gatepup.Schedule.Weights.{slots}
use gatepup.Upstream.{UpstreamRuntime, target, no_target, pick_loop, pick_target, pick_many}
use gatepup.Upstream.Pick.{IsValid}
use gatepup.Upstream.Shared.{pick_among}
use gatepup.Upstream.Shared.Misses.{one_pick, pick_among_misses}
use gatepup.Upstream.Fair.{AllUp, picks_of, weighted_round_robin}

abbrev state : Bool → HealthState
state up = record {
  healthy = up;
  successes = 0;
  failures = 0;
  last_check_ms = 0;
  healthy_threshold = 1;
  unhealthy_threshold = 1;
  managed = true;
}

abbrev two : Bool → Bool → ℕ → UpstreamRuntime
two a b n = record {
  targets =
      record { url = codes "http://a"; state = state a }
      ∷ record { url = codes "http://b"; state = state b }
      ∷ [];
  health = none;
  retry = none;
  tls_insecure = false;
  schedule = 0 ∷ 1 ∷ 0 ∷ 0 ∷ [];
  next = n;
}

two-served : (i : ℕ) → i < 2 → In i (0 ∷ 1 ∷ 0 ∷ 0 ∷ [])
two-served zero h = here
two-served (suc zero) h = there here
two-served (suc (suc i)) h = absurd (omega arith)

two-bounded : All (λ i. i < 2) (0 ∷ 1 ∷ 0 ∷ 0 ∷ [])
two-bounded = omega arith

two-IsValid : (a b : Bool) (n : ℕ) → n < 2 ^ 64 → IsValid (two a b n)
two-IsValid a b n h = record { bounded = two-bounded; served = two-served; counted = h }

two-AllUp : (n : ℕ) → AllUp (two true true n)
two-AllUp n zero h = (_, refl, refl)
two-AllUp n (suc zero) h = (_, refl, refl)
two-AllUp n (suc (suc i)) h = absurd (omega arith)

skips_ejected : (pick_target (two true false 5)).0 ≡ target 0
unfolding pick_target pick_loop
skips_ejected = refl

weighted_round_robin_example :
    picks_of 0 (pick_many (slots (6 ∷ 2 ∷ [])) (two true true 6)).0 * divisor (6 ∷ 2 ∷ []) ≡ 6
unfolding build_schedule rounds pass divisor gcd_all gcd
weighted_round_robin_example =
    weighted_round_robin (6 ∷ 2 ∷ []) (two true true 6) 0 (omega arith) refl two-bounded
      (two-AllUp 6) (omega arith)

abbrev even_weights : UpstreamRuntime
even_weights = record (two true false 1) { schedule = 0 ∷ 1 ∷ [] }

pick_among_misses_example :
    ((pick_target even_weights).0 ≡ target 0)
    × ((pick_among one_pick even_weights).0 ≡ no_target)
    × ((pick_among one_pick even_weights).1.targets ≡ even_weights.targets)
pick_among_misses_example =
    pick_among_misses even_weights 0 1 refl (_, refl, refl) (_, refl, refl) refl (omega arith)
