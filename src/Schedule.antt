-- ===== src/Schedule.antt =====
-- crates/gatepup-proxy/src/snapshot.rs: the weighted schedule of an upstream, `gcd` and
-- `build_schedule`. A weight is a `u32`, and the sum of the reduced weights is taken in `u32` too:
-- it wraps in a release build. The `while` loop takes fuel.
pub mod Gcd
pub mod Rounds
pub mod Weights
mod Tests
use mathlib.Core.WellFounded.{Acc, WellFounded}
use gatepup.Prelude.{
  ℕ, zero, suc, ◌+◌, ◌-◌, ◌/◌, ◌%◌, ◌^◌, ◌<◌, max, List, [], ◌∷◌, ◌++◌, map, arith, ltb, length,
  keep, if◌then◌else◌,
}

Acc-below : (k n : ℕ) → n < k → Acc ◌<◌ n
Acc-below zero n h = elim h [ ]
Acc-below (suc k) n h = Acc.intro n (λ m hm. Acc-below k m (omega arith))

lt_wf : WellFounded ◌<◌
unfolding Acc-below
lt_wf = record { apply = λ n. Acc-below (suc n) n (omega arith) }

pub mod-lt-suc : (a c : ℕ) → a % suc c < suc c
mod-lt-suc a c = omega arith

-- The recursion of `gcd`, on the second argument.
gcd_acc : (a b : ℕ) → Acc ◌<◌ b → ℕ
gcd_acc a b (Acc.intro zero _) = a
gcd_acc a b (Acc.intro (suc c) smaller) = gcd_acc (suc c) (a % suc c) (smaller _ (mod-lt-suc a c))

unfoldable pub gcd : ℕ → ℕ → ℕ
unfolding gcd_acc lt_wf
gcd a b = gcd_acc a b (lt_wf.apply b)

unfoldable pub gcd_all : ℕ → List ℕ → ℕ
gcd_all acc [] = acc
gcd_all acc (w ∷ ws) = gcd_all (gcd acc w) ws

-- The gcd of the positive weights, and at least 1.
unfoldable pub divisor : List ℕ → ℕ
divisor weights = max (gcd_all 0 (keep (λ w. ltb 0 w) weights)) 1

abbrev pub sum : List ℕ → ℕ
sum [] = 0
sum (x ∷ xs) = x + sum xs

-- One pass of the `for` loop from index `idx`: the indices that it pushes, and what remains.
unfoldable pub pass : ℕ → List ℕ → List ℕ × List ℕ
pass idx [] = ([], [])
pass idx (rem ∷ rems) =
    let (pushed, left) = pass (idx + 1) rems in
    if ltb 0 rem then (idx ∷ pushed, (rem - 1) ∷ left) else (pushed, rem ∷ left)

-- The `while` loop; the cast of the length to `u32` wraps.
unfoldable pub rounds : ℕ → ℕ → List ℕ → List ℕ → List ℕ
rounds zero total schedule remaining = schedule
rounds (suc fuel) total schedule remaining =
    let p = pass 0 remaining in
    let rest = rounds fuel total (schedule ++ p.0) p.1 in
    if ltb (length schedule % 2 ^ 32) total then rest else schedule

unfoldable pub build_schedule : List ℕ → List ℕ
build_schedule [] = []
build_schedule (w ∷ ws) =
    let weights = w ∷ ws in
    let remaining = map (λ v. v / divisor weights) weights in
    let total = sum remaining % 2 ^ 32 in rounds (total + 1) total [] remaining

-- The default of `build_snapshot_inner`: `schedule = (0..targets.len())` where the schedule is empty.
unfoldable pub indices : ℕ → ℕ → List ℕ
indices zero from = []
indices (suc n) from = from ∷ indices n (from + 1)

abbrev pub default_if_empty : List ℕ → ℕ → List ℕ
default_if_empty [] n = indices n 0
default_if_empty (i ∷ is) n = i ∷ is

unfoldable pub schedule_for : List ℕ → List ℕ
schedule_for weights = default_if_empty (build_schedule weights) (length weights)
