-- ===== src/Schedule/Gcd.antt =====
-- `gcd` and `divisor` are greatest common divisors.
use Prim.Native.Nat.{◌∣◌}
use mathlib.Core.WellFounded.{Acc}
use native.Mathlib.Nat.{dvd_refl, dvd-zero, dvd-mod_iff, dvd_trans, one-dvd}
use gatepup.Prelude.{
  ℕ, zero, suc, ◌%◌, ◌<◌, max, ◌≡◌, List, [], ◌∷◌, arith, ltb, All, keep, lt→ltb, true,
}
use gatepup.Schedule.{mod-lt-suc, gcd_acc, gcd, gcd_all, divisor, lt_wf}

gcd_acc-dvd : (a b : ℕ) (w : Acc ◌<◌ b) → (gcd_acc a b w ∣ a) × (gcd_acc a b w ∣ b)
unfolding gcd_acc
gcd_acc-dvd a b (Acc.intro zero _) = (dvd_refl a, dvd-zero a)
gcd_acc-dvd a b (Acc.intro (suc c) smaller) =
    let (left, right) = gcd_acc-dvd (suc c) (a % suc c) (smaller _ (mod-lt-suc a c)) in
    ((dvd-mod_iff _ left).0 right, left)

pub gcd-dvd : (a b : ℕ) → (gcd a b ∣ a) × (gcd a b ∣ b)
unfolding gcd
gcd-dvd a b = gcd_acc-dvd a b (lt_wf.apply b)

gcd_all-dvd : (acc : ℕ) (ws : List ℕ) → (gcd_all acc ws ∣ acc) × All (λ w. gcd_all acc ws ∣ w) ws
unfolding gcd_all
gcd_all-dvd acc [] = (dvd_refl acc, tt)
gcd_all-dvd acc (w ∷ ws) =
    let (left, rest) = gcd_all-dvd (gcd acc w) ws in
    let (ga, gw) = gcd-dvd acc w in (dvd_trans _ left ga, (dvd_trans _ left gw, rest))

abbrev positive : List ℕ → List ℕ
positive ws = keep (λ w. ltb 0 w) ws

-- A divisor of all positive weights divides every weight.
dvd-weights : (g : ℕ) (ws : List ℕ) → All (λ w. g ∣ w) (positive ws) → All (λ w. g ∣ w) ws
dvd-weights g [] h = tt
dvd-weights g (zero ∷ ws) h = (dvd-zero g, dvd-weights g ws h)
dvd-weights g (suc w ∷ ws) h =
    let e : ltb 0 (suc w) ≡ true = lt→ltb 0 (suc w) (omega arith) in
    let k : (g ∣ suc w) × All (λ w. g ∣ w) (positive ws) = rw e at h in (k.0, dvd-weights g ws k.1)

All-dvd_max : (g : ℕ) (ws : List ℕ) → All (λ w. g ∣ w) ws → All (λ w. max g 1 ∣ w) ws
All-dvd_max zero [] h = tt
All-dvd_max zero (w ∷ ws) h = (one-dvd w, All-dvd_max zero ws h.1)
All-dvd_max (suc g) ws h = let e : max (suc g) 1 ≡ suc g = omega arith in rw e h

-- The divisor divides every weight.
pub divisor-dvd : (ws : List ℕ) → All (λ w. divisor ws ∣ w) ws
unfolding divisor
divisor-dvd ws = All-dvd_max _ ws (dvd-weights _ ws (gcd_all-dvd 0 (positive ws)).1)
