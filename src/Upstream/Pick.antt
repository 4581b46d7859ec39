-- ===== src/Upstream/Pick.antt =====
-- What `pick_target` returns, and when it returns nothing.
use native.Mathlib.Nat.{mod-lt}
use native.Mathlib.Decide.{dec_lt}
use gatepup.Prelude.{
  ℕ, zero, suc, ◌+◌, ◌%◌, ◌^◌, ◌<◌, ◌≡◌, ◌≢◌, ◌↔◌, refl, sym, ap, ◌∙◌, true, false, some, List, [],
  ◌∷◌, arith, length, get_elem?, get_or, count, All, All-In, In, here, there, get_elem?-some,
  In-get_elem?, Bool-cases, inl, inr, ◌==◌,
}
use gatepup.Health.{is_healthy}
use gatepup.Upstream.{
  TargetRuntime, UpstreamRuntime, Picked, target, no_target, panic, advance, target_at, pick_loop,
  pick_target,
}
use gatepup.Upstream.Cycle.{slot, visited, count-visited}

-- Each slot names a target, each target has a slot, and the counter is a `usize`.
pub record IsValid (u : UpstreamRuntime) : Type 0 where
  pub bounded : All (λ i. i < length u.targets) u.schedule
  pub served : (i : ℕ) → i < length u.targets → In i u.schedule
  pub counted : u.next < 2 ^ 64

-- The target of a slot, by its index.
abbrev pub IsUp : UpstreamRuntime → ℕ → Type 0
IsUp u i = (t : TargetRuntime) × (target_at u i ≡ some t) × (is_healthy t.state ≡ true)

abbrev pub IsDown : UpstreamRuntime → ℕ → Type 0
IsDown u i = (t : TargetRuntime) × (target_at u i ≡ some t) × (is_healthy t.state ≡ false)

module _ (u : UpstreamRuntime) (bounded : All (λ i. i < length u.targets) u.schedule) where
  pub slot_target :
      (n : ℕ)
      → n < length u.schedule
      → (i : ℕ) × (t : TargetRuntime) × (get_elem? u.schedule n ≡ some i)
        × (target_at u i ≡ some t)
        × In i u.schedule
  slot_target n h =
      let (i, e) = get_elem?-some u.schedule n h in
      let m = In-get_elem? u.schedule n e in
      let (t, f) = get_elem?-some u.targets i (All-In _ bounded m) in (i, t, e, f, m)

-- What one run of the loop promises of its result: a picked target is up and has a slot; if there
-- is none, each slot that was visited is down; and nothing but the counter changes.
abbrev Promise : ℕ → UpstreamRuntime → Picked × UpstreamRuntime → Type 0
Promise k u (target i, v) = IsUp u i × In i u.schedule × (v ≡ record u { next = v.next })
Promise k u (no_target, v) =
    (u.next + k < 2 ^ 64 → All (IsDown u) (visited u.schedule k u.next))
    × (v ≡ record u { next = (u.next + k) % 2 ^ 64 })
Promise k u (panic, v) = ⊥

pub get_or-get_elem? : (xs : List ℕ) (n i : ℕ) → get_elem? xs n ≡ some i → get_or xs n 0 ≡ i
get_or-get_elem? [] n i h = absurd (ground arith)
get_or-get_elem? (x ∷ xs) zero i h = ground arith
get_or-get_elem? (x ∷ xs) (suc n) i h = get_or-get_elem? xs n i h

module _ (k : ℕ) (u : UpstreamRuntime) (i : ℕ) (t : TargetRuntime)
    (e : get_elem? u.schedule (u.next % length u.schedule) ≡ some i)
    (g : target_at u i ≡ some t) where
  pub pick_loop_up : is_healthy t.state ≡ true → pick_loop (suc k) u ≡ (target i, advance u)
  unfolding pick_loop
  pick_loop_up up = ground arith

  pub pick_loop_down : is_healthy t.state ≡ false → pick_loop (suc k) u ≡ pick_loop k (advance u)
  unfolding pick_loop
  pick_loop_down down = ground arith

advance_next : (n : ℕ) → n + 1 < 2 ^ 64 → (n + 1) % 2 ^ 64 ≡ n + 1
advance_next n h = omega arith

visited_next :
    (k : ℕ) (u : UpstreamRuntime)
    → (u.next + suc k < 2 ^ 64)
    → ((advance u).next + k < 2 ^ 64 → All (IsDown u) (visited u.schedule k (advance u).next))
    → All (IsDown u) (visited u.schedule k (u.next + 1))
visited_next k u f h =
    let e : (u.next + 1) % 2 ^ 64 ≡ u.next + 1 = omega arith in rw e at (h (omega arith))

Promise-step :
    (k : ℕ) (u : UpstreamRuntime) (r : Picked × UpstreamRuntime)
    → IsDown u (slot u.schedule u.next)
    → Promise k (advance u) r
    → Promise (suc k) u r
Promise-step k u (target i, v) d h = h
Promise-step k u (no_target, v) d (others, same) =
    let n : ((u.next + 1) % 2 ^ 64 + k) % 2 ^ 64 ≡ (u.next + suc k) % 2 ^ 64 = omega arith in
    (λ f. (d, visited_next k u f others), same ∙ (λ j. record u { next = n j }))
Promise-step k u (panic, v) d h = h

advance_fits : (n : ℕ) → (n + 1) % 2 ^ 64 < 2 ^ 64
advance_fits n = omega arith

pick_loop-Promise :
    (k : ℕ) (u : UpstreamRuntime)
    → All (λ i. i < length u.targets) u.schedule
    → 0 < length u.schedule
    → u.next < 2 ^ 64
    → Promise k u (pick_loop k u)
unfolding pick_loop
pick_loop-Promise zero u b p f =
    let e : (u.next + 0) % 2 ^ 64 ≡ u.next = omega arith in
    (λ _. tt, λ j. record u { next = sym e j })
pick_loop-Promise (suc k) u b p f =
    let (i, t, e, g, m) = slot_target u b (u.next % length u.schedule) (mod-lt u.next p) in
    let at_slot : target_at u (slot u.schedule u.next) ≡ some t =
      ap (target_at u) (get_or-get_elem? u.schedule _ i e) ∙ g in
    elim (Bool-cases (is_healthy t.state)) [
      | inl up ↦ rw (pick_loop_up k u i t e g up) ((t, g, up), m, refl)
      | inr down ↦ rw (pick_loop_down k u i t e g down) (
          Promise-step k u _ (t, at_slot, down)
            (pick_loop-Promise k (advance u) b p (advance_fits u.next)))
    ]

pub length_pos : {i : ℕ} (xs : List ℕ) → In i xs → 0 < length xs
length_pos [] m = elim m [ ]
length_pos (x ∷ xs) m = omega arith

pub In-count : (i : ℕ) (xs : List ℕ) → 0 < count i xs → In i xs
In-count i [] h = absurd (omega arith)
In-count i (x ∷ xs) h = elim (Bool-cases (x == i)) [
  | inl e ↦ let same : x ≡ i = ground arith in rw same here
  | inr e ↦ there (In-count i xs (ground arith))
]

count_of_In : {i : ℕ} (is : List ℕ) → In i is → 0 < count i is
count_of_In [] m = elim m [ ]
count_of_In (i ∷ is) here = ground arith
count_of_In (j ∷ is) (there m) = omega (arith, count_of_In is m)

pub pick_target-pos :
    (u : UpstreamRuntime) → 0 < length u.schedule → pick_target u ≡ pick_loop (length u.schedule) u
unfolding pick_target
pick_target-pos u h = ground arith

pick_target-zero : (u : UpstreamRuntime) → length u.schedule ≡ 0 → pick_target u ≡ (no_target, u)
unfolding pick_target
pick_target-zero u h = ground arith

pick_target-Promise :
    (u : UpstreamRuntime)
    → All (λ i. i < length u.targets) u.schedule
    → u.next < 2 ^ 64
    → Promise (length u.schedule) u (pick_target u)
pick_target-Promise u b f = elim (dec_lt 0 (length u.schedule)) [
  | yes p ↦ rw (pick_target-pos u p) (pick_loop-Promise (length u.schedule) u b p f)
  | no p ↦
      let z : length u.schedule ≡ 0 = omega arith in
      let e : (u.next + 0) % 2 ^ 64 ≡ u.next = omega arith in
      rw (pick_target-zero u z) (rw z (λ _. tt, λ j. record u { next = sym e j }))
]

Promise-target :
    (k : ℕ) (u : UpstreamRuntime) (r : Picked × UpstreamRuntime) (i : ℕ)
    → Promise k u r
    → r.0 ≡ target i
    → IsUp u i × In i u.schedule
Promise-target k u (target j, v) i h e = let s : i ≡ j = cc in rw s (h.0, h.1)
Promise-target k u (no_target, v) i h e = absurd (ground arith)
Promise-target k u (panic, v) i h e = absurd h

Promise-none :
    (k : ℕ) (u : UpstreamRuntime) (r : Picked × UpstreamRuntime)
    → Promise k u r
    → u.next + k < 2 ^ 64
    → r.0 ≡ no_target
    → All (IsDown u) (visited u.schedule k u.next)
Promise-none k u (target j, v) h f e = absurd (ground arith)
Promise-none k u (no_target, v) h f e = h.0 f
Promise-none k u (panic, v) h f e = absurd h

Promise-panic :
    (k : ℕ) (u : UpstreamRuntime) (r : Picked × UpstreamRuntime) → Promise k u r → r.0 ≢ panic
Promise-panic k u (target j, v) h e = ground arith
Promise-panic k u (no_target, v) h e = ground arith
Promise-panic k u (panic, v) h e = absurd h

-- A target that `pick_target` returns exists, is healthy, and has a slot in the schedule.
pub pick_target_sound :
    (u : UpstreamRuntime) (i : ℕ)
    → IsValid u
    → (pick_target u).0 ≡ target i
    → IsUp u i × In i u.schedule
pick_target_sound u i v e = Promise-target _ u _ i (pick_target-Promise u v.bounded v.counted) e

-- It never indexes out of range.
pub pick_target-ne-panic : (u : UpstreamRuntime) → IsValid u → (pick_target u).0 ≢ panic
pick_target-ne-panic u v = Promise-panic _ u _ (pick_target-Promise u v.bounded v.counted)

abbrev pub AllDown : UpstreamRuntime → Type 0
AllDown u = (i : ℕ) → i < length u.targets → IsDown u i

pub AllDown-no_target :
    (u : UpstreamRuntime) → IsValid u → AllDown u → (pick_target u).0 ≡ no_target
AllDown-no_target u v h = decide (pick_target u) (pick_target-Promise u v.bounded v.counted)
  where
    decide : (r : Picked × UpstreamRuntime) → Promise (length u.schedule) u r → r.0 ≡ no_target
    decide (target i, w) p =
        let (t, e, up) = p.0 in
        let (s, f, down) = h i (All-In _ v.bounded p.1) in absurd (ground arith)
    decide (no_target, w) p = refl
    decide (panic, w) p = absurd p

-- As long as the counter does not wrap within the call, `pick_target` returns nothing exactly when
-- every target is unhealthy.
pub pick_target-eq-none_iff :
    (u : UpstreamRuntime)
    → IsValid u
    → u.next + length u.schedule < 2 ^ 64
    → ((pick_target u).0 ≡ no_target) ↔ AllDown u
pick_target-eq-none_iff u v f = (
  λ e i h. All-In (IsDown u) (Promise-none _ u _ (pick_target-Promise u v.bounded v.counted) f e) (
      In-count i _
        (rw (count-visited u.schedule i u.next) (count_of_In u.schedule (v.served i h)))),
  AllDown-no_target u v,
)
