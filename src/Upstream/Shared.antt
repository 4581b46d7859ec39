-- ===== src/Upstream/Shared.antt =====
-- `pick_target` of crates/gatepup-proxy/src/snapshot.rs beside other requests. The counter and the health
-- are atomics, so between any two of its reads others may have moved the counter or observed a target.
pub mod Sound
pub mod Misses
use native.Mathlib.Nat.{mod-lt}
use native.Mathlib.Decide.{dec_lt}
use gatepup.Prelude.{
  ℕ, zero, suc, ◌+◌, ◌%◌, ◌^◌, ◌<◌, ◌≡◌, ◌≢◌, refl, ap, ◌∙◌, true, false, none, some, List, [], ◌∷◌,
  arith, length, get_elem?, All, In, Bool-cases, inl, inr, ◌==◌, if◌then◌else◌,
}
use gatepup.Health.{is_healthy}
use gatepup.Upstream.{
  TargetRuntime, UpstreamRuntime, Picked, target, no_target, panic, advance, target_at, pick_loop,
  pick_target,
}
use gatepup.Upstream.Pick.{
  IsValid, IsUp, IsDown, slot_target, pick_target-pos, pick_loop_up, pick_loop_down,
}

-- What the others do before the `fetch_add` and before the load of a round, by the rounds left after it.
pub record Others : Type 0 where
  pub before_count : ℕ → UpstreamRuntime → UpstreamRuntime
  pub before_load : ℕ → UpstreamRuntime → UpstreamRuntime

-- The state of the `fetch_add` of a round, and that of its load.
abbrev pub counting : Others → ℕ → UpstreamRuntime → UpstreamRuntime
counting o k u = o.before_count k u

abbrev pub loading : Others → ℕ → UpstreamRuntime → UpstreamRuntime
loading o k u = o.before_load k (advance (counting o k u))

-- A round that got `n` from the `fetch_add`, with the rounds after it.
abbrev pub seen : UpstreamRuntime → ℕ → Picked × UpstreamRuntime → Picked × UpstreamRuntime
seen w n rest = elim (get_elem? w.schedule (n % length w.schedule)) [
  | none ↦ (panic, w)
  | some i ↦ elim (target_at w i) [
    | none ↦ (panic, w)
    | some t ↦ if is_healthy t.state then (target i, w) else rest
  ]
]

-- The loop over `0..len`.
unfoldable pub rounds_among : Others → ℕ → UpstreamRuntime → Picked × UpstreamRuntime
rounds_among o zero u = (no_target, u)
rounds_among o (suc k) u =
    let w = loading o k u in seen w (counting o k u).next (rounds_among o k w)

unfoldable pub pick_among : Others → UpstreamRuntime → Picked × UpstreamRuntime
pick_among o u =
    if length u.schedule == 0 then (no_target, u) else rounds_among o (length u.schedule) u

module _ (o : Others) (k : ℕ) (u : UpstreamRuntime) (i : ℕ) (t : TargetRuntime)
    (e : get_elem?
        (loading o k u).schedule
        ((counting o k u).next % length (loading o k u).schedule)
      ≡ some i)
    (g : target_at (loading o k u) i ≡ some t) where
  pub among_up : is_healthy t.state ≡ true → rounds_among o (suc k) u ≡ (target i, loading o k u)
  unfolding rounds_among
  among_up up = rw (rounds_among, seen, e, g, up) refl

  pub among_down :
      is_healthy t.state ≡ false → rounds_among o (suc k) u ≡ rounds_among o k (loading o k u)
  unfolding rounds_among
  among_down down = rw (rounds_among, seen, e, g, down) refl

-- With nobody else, it is `pick_target`.
abbrev pub nobody : Others
nobody = record { before_count = λ k u. u; before_load = λ k u. u }

rounds_among-nobody : (k : ℕ) (u : UpstreamRuntime) → rounds_among nobody k u ≡ pick_loop k u
unfolding rounds_among pick_loop
rounds_among-nobody zero u = refl
rounds_among-nobody (suc k) u =
    ap (λ rest. seen (advance u) u.next rest) (rounds_among-nobody k (advance u))

pub pick_among-nobody : (u : UpstreamRuntime) → pick_among nobody u ≡ pick_target u
unfolding pick_among pick_target
pick_among-nobody u = rw (rounds_among-nobody (length u.schedule) u) refl
