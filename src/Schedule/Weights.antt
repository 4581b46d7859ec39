-- ===== src/Schedule/Weights.antt =====
-- The schedule serves each target in proportion to its weight.
use Prim.Native.Nat.{◌∣◌}
use native.Mathlib.Nat.{div-mul_cancel, dvd-zero, zero-div}
use native.Mathlib.Decide.{dec_lt}
use gatepup.Prelude.{
  ap, All-of_In, ℕ, zero, suc, ◌+◌, ◌*◌, ◌/◌, ◌%◌, ◌^◌, ◌≤◌, ◌<◌, ◌≡◌, refl, sym, List, [], ◌∷◌,
  map, arith, length, count, get_or, All, In, here, there,
}
use gatepup.Schedule.{sum, divisor, rounds, build_schedule, schedule_for, indices}
use gatepup.Schedule.Gcd.{divisor-dvd}
use gatepup.Schedule.Rounds.{rounds-count, rounds-length}

-- The number of slots: the sum of the weights, each divided by the common divisor.
abbrev pub slots : List ℕ → ℕ
slots ws = sum (map (λ w. w / divisor ws) ws)

get_or-map_div :
    (d : ℕ) (ws : List ℕ) (k : ℕ) → get_or (map (λ w. w / d) ws) k 0 ≡ get_or ws k 0 / d
get_or-map_div d [] k = omega arith
get_or-map_div d (w ∷ ws) zero = refl
get_or-map_div d (w ∷ ws) (suc k) = get_or-map_div d ws k

All-get_or : (d : ℕ) (ws : List ℕ) (k : ℕ) → All (λ w. d ∣ w) ws → d ∣ get_or ws k 0
All-get_or d [] k h = dvd-zero d
All-get_or d (w ∷ ws) zero h = h.0
All-get_or d (w ∷ ws) (suc k) h = All-get_or d ws k h.1

build_schedule-count :
    (ws : List ℕ) (k : ℕ)
    → slots ws < 2 ^ 32
    → count k (build_schedule ws) ≡ get_or ws k 0 / divisor ws
unfolding build_schedule
build_schedule-count [] k h = sym (zero-div _)
build_schedule-count (w ∷ ws) k h =
    let reduced = map (λ v. v / divisor (w ∷ ws)) (w ∷ ws) in
    let fits : sum reduced % 2 ^ 32 ≡ sum reduced = omega arith in
    let counted =
      rounds-count (sum reduced + 1) (sum reduced) [] reduced k (omega arith) h (omega arith) in
    rw fits (omega (arith, counted, get_or-map_div (divisor (w ∷ ws)) (w ∷ ws) k))

-- Where the sum of the reduced weights fits in 32 bits, each target has a number of slots that is
-- its weight divided by the common divisor, exactly: shares are proportional to weights.
pub build_schedule_proportional :
    (ws : List ℕ) (k : ℕ)
    → slots ws < 2 ^ 32
    → count k (build_schedule ws) * divisor ws ≡ get_or ws k 0
build_schedule_proportional ws k h =
    rw (build_schedule-count ws k h) (div-mul_cancel _ (All-get_or _ ws k (divisor-dvd ws)))

-- The loop stops at the total.
pub build_schedule-length :
    (ws : List ℕ) → slots ws < 2 ^ 32 → length (build_schedule ws) ≡ slots ws
unfolding build_schedule
build_schedule-length [] h = refl
build_schedule-length (w ∷ ws) h =
    let reduced = map (λ v. v / divisor (w ∷ ws)) (w ∷ ws) in
    let fits : sum reduced % 2 ^ 32 ≡ sum reduced = omega arith in
    rw fits (rounds-length (sum reduced + 1) (sum reduced) [] reduced (omega arith) h (omega arith))

count_of_In : {i : ℕ} (is : List ℕ) → In i is → 0 < count i is
count_of_In (i ∷ is) here = ground arith
count_of_In (j ∷ is) (there m) = omega (arith, count_of_In is m)
count_of_In [] m = elim m [ ]

get_or_past : (ws : List ℕ) (k : ℕ) → length ws ≤ k → get_or ws k 0 ≡ 0
get_or_past [] k h = refl
get_or_past (w ∷ ws) zero h = absurd (omega arith)
get_or_past (w ∷ ws) (suc k) h = get_or_past ws k (omega arith)

-- Every slot names a target.
pub build_schedule_bounded :
    (ws : List ℕ) → slots ws < 2 ^ 32 → All (λ i. i < length ws) (build_schedule ws)
build_schedule_bounded ws h = All-of_In _ (build_schedule ws) bound
  where
    bound : (i : ℕ) → In i (build_schedule ws) → i < length ws
    bound i m = elim (dec_lt i (length ws)) [
      | yes p ↦ p
      | no p ↦ absurd (
          omega (
            arith,
            count_of_In (build_schedule ws) m,
            build_schedule-count ws i h,
            get_or_past ws i (omega arith),
            zero-div (divisor ws),
            ap (λ n. n / divisor ws) (get_or_past ws i (omega arith)),
          ))
    ]

-- A positive weight has a slot: no target is starved.
pub build_schedule_serves :
    (ws : List ℕ) (k : ℕ) → slots ws < 2 ^ 32 → 0 < get_or ws k 0 → 0 < count k (build_schedule ws)
build_schedule_serves ws k h p =
    pos_factor _ (divisor ws) (rw (build_schedule_proportional ws k h) p)
  where
    pos_factor : (a b : ℕ) → 0 < a * b → 0 < a
    pos_factor zero b q = absurd (omega arith)
    pos_factor (suc a) b q = omega arith

rounds-zero : (fuel : ℕ) (remaining : List ℕ) → rounds fuel 0 [] remaining ≡ []
unfolding rounds
rounds-zero zero remaining = refl
rounds-zero (suc fuel) remaining = refl

build_schedule_wraps : (ws : List ℕ) → slots ws % 2 ^ 32 ≡ 0 → build_schedule ws ≡ []
unfolding build_schedule
build_schedule_wraps [] h = refl
build_schedule_wraps (w ∷ ws) h = rw h (rounds-zero (0 + 1) _)

-- Where the sum of the reduced weights is a multiple of 2^32, the wrapped total is 0 and the
-- schedule is the default: the weights are lost, and every target has one slot.
pub schedule_for_wraps :
    (ws : List ℕ) → slots ws % 2 ^ 32 ≡ 0 → schedule_for ws ≡ indices (length ws) 0
unfolding schedule_for
schedule_for_wraps ws h = rw (build_schedule_wraps ws h) refl
