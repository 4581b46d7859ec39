-- ===== src/Upstream/Keeps.antt =====
-- The operations on an upstream keep it valid, and keep its targets apart from their health.
use gatepup.Prelude.{
  ℕ, zero, suc, ◌%◌, ◌^◌, ◌<◌, ◌≡◌, refl, ◌∙◌, Bool, Option, none, some, List, length, length-set,
  get_elem?, Bool-cases, Option-cases, inl, inr, ◌==◌, arith,
}
use gatepup.Health.{is_healthy}
use gatepup.Upstream.{
  TargetRuntime, UpstreamRuntime, advance, target_at, pick_loop, pick_target, observe_option,
  observe_target,
}
use gatepup.Upstream.Pick.{IsValid}

-- The same but for the counter.
pub record Same (u v : UpstreamRuntime) : Type 0 where
  pub targets : v.targets ≡ u.targets
  pub schedule : v.schedule ≡ u.schedule
  pub counted : v.next < 2 ^ 64

pub Same-IsValid : (u v : UpstreamRuntime) → Same u v → IsValid u → IsValid v
Same-IsValid u v s h = record {
  bounded = rw (s.targets, s.schedule) h.bounded;
  served = rw (s.targets, s.schedule) h.served;
  counted = s.counted;
}

advance-Same : (u : UpstreamRuntime) → Same u (advance u)
advance-Same u = record { targets = refl; schedule = refl; counted = omega arith }

Same-trans : (u v w : UpstreamRuntime) → Same u v → Same v w → Same u w
Same-trans u v w p q = record {
  targets = q.targets ∙ p.targets;
  schedule = q.schedule ∙ p.schedule;
  counted = q.counted;
}

pick_loop-Same : (k : ℕ) (u : UpstreamRuntime) → u.next < 2 ^ 64 → Same u (pick_loop k u).1
unfolding pick_loop
pick_loop-Same zero u h = record { targets = refl; schedule = refl; counted = h }
pick_loop-Same (suc k) u h =
    let a = advance-Same u in
    let rest = Same-trans u (advance u) _ a (pick_loop-Same k (advance u) a.counted) in
    elim (Option-cases (get_elem? u.schedule (u.next % length u.schedule))) [
      | inl e ↦ rw (pick_loop, e) a
      | inr c ↦ elim (Option-cases (target_at u c.0)) [
        | inl e ↦ rw (pick_loop, c.1, e) a
        | inr t ↦ elim (Bool-cases (is_healthy t.0.state)) [
          | inl up ↦ rw (pick_loop, c.1, t.1, up) a
          | inr down ↦ rw (pick_loop, c.1, t.1, down) rest
        ]
      ]
    ]

pub pick_target-Same : (u : UpstreamRuntime) → IsValid u → Same u (pick_target u).1
unfolding pick_target
pick_target-Same u h = elim (Bool-cases (length u.schedule == 0)) [
  | inl e ↦ rw e (record { targets = refl; schedule = refl; counted = h.counted })
  | inr e ↦ rw e (pick_loop-Same (length u.schedule) u h.counted)
]

pub pick_target-IsValid : (u : UpstreamRuntime) → IsValid u → IsValid (pick_target u).1
pick_target-IsValid u h = Same-IsValid u _ (pick_target-Same u h) h

-- With as many targets as before.
pub resized-IsValid :
    (u : UpstreamRuntime) (ts : List TargetRuntime)
    → length ts ≡ length u.targets
    → IsValid u
    → IsValid (record u { targets = ts })
resized-IsValid u ts e h = record {
  bounded = rw e h.bounded;
  served = rw e h.served;
  counted = h.counted;
}

pub observe_option-length :
    (now : ℕ) (ok : Bool) (ts : List TargetRuntime) (i : ℕ) (o : Option TargetRuntime)
    → length (observe_option now ok ts i o) ≡ length ts
observe_option-length now ok ts i none = refl
observe_option-length now ok ts i (some t) = length-set ts i _

pub observe_target-IsValid :
    (now : ℕ) (ok : Bool) (i : ℕ) (u : UpstreamRuntime)
    → IsValid u
    → IsValid (observe_target now ok i u)
unfolding observe_target
observe_target-IsValid now ok i u h =
    resized-IsValid u _ (observe_option-length now ok u.targets i (target_at u i)) h
