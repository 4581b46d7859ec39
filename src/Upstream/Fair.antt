-- ===== src/Upstream/Fair.antt =====
-- Fairness of the choice while every target is healthy.
use native.Mathlib.Decide.{dec_lt}
use native.Mathlib.Nat.{mod-lt}
use gatepup.Prelude.{
  ℕ, zero, suc, ◌+◌, ◌-◌, ◌*◌, ◌%◌, ◌^◌, ◌<◌, ◌≡◌, refl, ap, ◌∙◌, List, [], ◌∷◌, map, arith, length,
  get_or, count, All, All-In, ◌==◌, if◌then◌else◌,
}
use gatepup.Schedule.{build_schedule, divisor}
use gatepup.Schedule.Weights.{slots, build_schedule_proportional, build_schedule-length}
use gatepup.Upstream.{
  UpstreamRuntime, Picked, target, no_target, panic, advance, pick_loop, pick_target, pick_many,
}
use gatepup.Upstream.Cycle.{slot, visited, count-visited}
use gatepup.Upstream.Pick.{IsUp, slot_target, pick_loop_up, pick_target-pos, get_or-get_elem?}

abbrev pub AllUp : UpstreamRuntime → Type 0
AllUp u = (i : ℕ) → i < length u.targets → IsUp u i

-- How many of the picks are of the target `i`.
abbrev pub picks_of : ℕ → List Picked → ℕ
picks_of i [] = 0
picks_of i (target j ∷ ps) = (if j == i then 1 else 0) + picks_of i ps
picks_of i (no_target ∷ ps) = picks_of i ps
picks_of i (panic ∷ ps) = picks_of i ps

picks_of-target : (i : ℕ) (is : List ℕ) → picks_of i (map target is) ≡ count i is
picks_of-target i [] = refl
picks_of-target i (j ∷ is) = omega (arith, picks_of-target i is)

module _ (u : UpstreamRuntime) (bounded : All (λ i. i < length u.targets) u.schedule)
    (up : AllUp u) where
  pub pick_next :
      0 < length u.schedule → pick_target u ≡ (target (slot u.schedule u.next), advance u)
  pick_next p =
      let (i, t, e, g, m) = slot_target u bounded (u.next % length u.schedule) (mod-lt u.next p) in
      let (s, f, h) = up i (All-In _ bounded m) in
      let same : t ≡ s = ground arith in
      let size : length u.schedule ≡ suc (length u.schedule - 1) = omega arith in
      let at_slot : slot u.schedule u.next ≡ i = get_or-get_elem? u.schedule _ i e in
      pick_target-pos u p
      ∙ ap (λ n. pick_loop n u) size
      ∙ pick_loop_up (length u.schedule - 1) u i t e g (rw same h)
      ∙ (rw at_slot)

pick_many_up :
    (k : ℕ) (u : UpstreamRuntime)
    → All (λ i. i < length u.targets) u.schedule
    → AllUp u
    → 0 < length u.schedule
    → u.next + k < 2 ^ 64
    → (pick_many k u).0 ≡ map target (visited u.schedule k u.next)
unfolding pick_many
pick_many_up zero u b up p f = refl
pick_many_up (suc k) u b up p f =
    let n : (u.next + 1) % 2 ^ 64 ≡ u.next + 1 = omega arith in
    let room : (u.next + 1) % 2 ^ 64 + k < 2 ^ 64 = omega arith in
    rw (pick_next u b up p) (
      ap (◌∷◌ (target (slot u.schedule u.next)))
        (pick_many_up k (advance u) b up p room ∙ ap (λ m. map target (visited u.schedule k m)) n))

-- While all targets are healthy and the counter does not wrap, one round of picks takes each target
-- as often as the schedule names it, from whatever position it starts.
pub pick_many_fair :
    (u : UpstreamRuntime) (i : ℕ)
    → All (λ i. i < length u.targets) u.schedule
    → AllUp u
    → u.next + length u.schedule < 2 ^ 64
    → picks_of i (pick_many (length u.schedule) u).0 ≡ count i u.schedule
pick_many_fair u i b up f = elim (dec_lt 0 (length u.schedule)) [
  | yes p ↦
      rw (pick_many_up (length u.schedule) u b up p f)
        (picks_of-target i _ ∙ count-visited u.schedule i u.next)
  | no p ↦ let z : length u.schedule ≡ 0 = omega arith in rw z (none_of i u.schedule z)
]
  where
    none_of : (i : ℕ) (xs : List ℕ) → length xs ≡ 0 → picks_of i (pick_many 0 u).0 ≡ count i xs
    none_of i [] e = unfold pick_many in refl
    none_of i (x ∷ xs) e = absurd (omega arith)

-- Weighted round robin: with the schedule built from weights whose reduced sum fits in 32 bits, all
-- targets healthy and no wrap of the counter, a round of picks takes each target in exact proportion
-- to its weight.
pub weighted_round_robin :
    (ws : List ℕ) (u : UpstreamRuntime) (i : ℕ)
    → slots ws < 2 ^ 32
    → u.schedule ≡ build_schedule ws
    → All (λ i. i < length u.targets) u.schedule
    → AllUp u
    → u.next + slots ws < 2 ^ 64
    → picks_of i (pick_many (slots ws) u).0 * divisor ws ≡ get_or ws i 0
weighted_round_robin ws u i fits same b up f =
    let size : length u.schedule ≡ slots ws = ap length same ∙ build_schedule-length ws fits in
    let fair : picks_of i (pick_many (slots ws) u).0 ≡ count i u.schedule =
      rw size at (pick_many_fair u i b up (rw size f)) in
    ap (λ n. n * divisor ws) (fair ∙ ap (count i) same) ∙ build_schedule_proportional ws i fits
