-- ===== src/Upstream/Shared/Misses.antt =====
-- What `pick_target` misses when another request picks between its rounds.
use gatepup.Prelude.{
  ℕ, ◌+◌, ◌%◌, ◌^◌, ◌<◌, ◌≡◌, refl, ap, ◌∙◌, some, [], ◌∷◌, arith, length, get_elem?, ◌==◌,
  if◌then◌else◌,
}
use gatepup.Upstream.{UpstreamRuntime, target, no_target, advance, pick_target}
use gatepup.Upstream.Pick.{IsUp, IsDown, pick_target-pos, pick_loop_up, pick_loop_down}
use gatepup.Upstream.Shared.{Others, rounds_among, pick_among, among_down}

-- The others do nothing until the last round, and then pick a target themselves.
abbrev pub one_pick : Others
one_pick = record {
  before_count = λ k u. if k == 0 then (pick_target u).1 else u;
  before_load = λ k u. u;
}

module _ (u : UpstreamRuntime) (i j : ℕ) (two : u.schedule ≡ i ∷ j ∷ []) where
  even_slot : u.next % 2 ≡ 0 → get_elem? u.schedule (u.next % length u.schedule) ≡ some i
  even_slot e = rw (two, e) refl

  odd_slot : u.next % 2 ≡ 1 → get_elem? u.schedule (u.next % length u.schedule) ≡ some j
  odd_slot e = rw (two, e) refl

  pick_even : u.next % 2 ≡ 0 → IsUp u i → pick_target u ≡ (target i, advance u)
  pick_even e (t, g, up) =
      let p : 0 < length u.schedule = rw two (omega arith) in
      let n : length u.schedule ≡ 2 = rw two refl in
      rw (pick_target-pos u p, n) (pick_loop_up 1 u i t (even_slot e) g up)

module _ (u : UpstreamRuntime) (i j : ℕ) (two : u.schedule ≡ i ∷ j ∷ []) (up : IsUp u i)
    (down : IsDown u j) (odd : u.next % 2 ≡ 1) (fits : u.next + 4 < 2 ^ 64) where
  second : pick_target (advance u) ≡ (target i, advance (advance u))
  second = pick_even (advance u) i j two (omega arith) up

  finds : pick_target u ≡ (target i, advance (advance u))
  finds =
      let p : 0 < length u.schedule = rw two (omega arith) in
      let n : length u.schedule ≡ 2 = rw two refl in
      let (t, g, d) = down in
      let (s, f, h) = up in
      rw (pick_target-pos u p, n, pick_loop_down 1 u j t (odd_slot u i j two odd) g d)
        (pick_loop_up 0 (advance u) i s (even_slot (advance u) i j two (omega arith)) f h)

  skips : rounds_among one_pick 2 u ≡ rounds_among one_pick 1 (advance u)
  skips = let (t, g, d) = down in among_down one_pick 1 u j t (odd_slot u i j two odd) g d

  misses : rounds_among one_pick 1 (advance u) ≡ (no_target, advance (advance (advance u)))
  unfolding rounds_among
  misses =
      let (t, g, d) = down in
      let third = odd_slot (advance (advance u)) i j two (omega arith) in
      among_down one_pick 0 (advance u) j t (rw second third) (rw second g) d
      ∙ ap (λ r. (no_target, advance r.1)) second

  -- With two slots, one of a target that is up and one of a target that is down, and the counter at the
  -- one that is down and not about to wrap, a pick alone returns the target that is up. If one other
  -- request picks between the two rounds of its loop, it returns nothing, although no target changes.
  pub pick_among_misses :
      ((pick_target u).0 ≡ target i)
      × ((pick_among one_pick u).0 ≡ no_target)
      × ((pick_among one_pick u).1.targets ≡ u.targets)
  unfolding pick_among
  pick_among_misses =
      let n : length u.schedule ≡ 2 = rw two refl in
      let e = skips ∙ misses in
      (ap (λ r. r.0) finds, rw n (ap (λ r. r.0) e), rw n (ap (λ r. r.1.targets) e))
