-- ===== src/Schedule/Tests.antt =====
-- Schedules of concrete weights.
use gatepup.Prelude.{ℕ, ◌^◌, ◌<◌, ◌≡◌, refl, List, [], ◌∷◌, arith}
use gatepup.Schedule.{gcd, gcd_all, divisor, pass, rounds, build_schedule, schedule_for, indices}
use gatepup.Schedule.Weights.{slots, schedule_for_wraps}

gcd_runs : gcd 12 18 ≡ 6
unfolding gcd
gcd_runs = refl

equal_weights : build_schedule (1 ∷ 1 ∷ 1 ∷ []) ≡ 0 ∷ 1 ∷ 2 ∷ []
unfolding build_schedule rounds pass divisor gcd_all gcd
equal_weights = refl

interleaved : build_schedule (6 ∷ 2 ∷ []) ≡ 0 ∷ 1 ∷ 0 ∷ 0 ∷ []
unfolding build_schedule rounds pass divisor gcd_all gcd
interleaved = refl

abbrev three_to_one : List ℕ
three_to_one = 6 ∷ 2 ∷ []

three_to_one_fits : slots three_to_one < 2 ^ 32
unfolding divisor gcd_all gcd
three_to_one_fits = omega arith

-- Two weights whose sum is 2^32.
abbrev too_heavy : List ℕ
too_heavy = 4294967295 ∷ 1 ∷ []

schedule_for_wraps_example : schedule_for too_heavy ≡ 0 ∷ 1 ∷ []
unfolding indices divisor gcd_all gcd
schedule_for_wraps_example = schedule_for_wraps too_heavy refl
