-- ===== src/Upstream/Shared/Sound.antt =====
-- What other requests and the probes leave of an upstream, whatever happens between its steps.
use gatepup.Prelude.{refl, Bool, ℕ, ◌<◌, ◌≡◌, ◌∙◌, length, All}
use gatepup.Upstream.{observe_target, target_at, UpstreamRuntime}
use gatepup.Upstream.Keeps.{observe_option-length}

-- What others cannot change: the schedule and the number of targets.
pub record Shape (u v : UpstreamRuntime) : Type 0 where
  pub schedule : v.schedule ≡ u.schedule
  pub targets : length v.targets ≡ length u.targets

pub Shape-trans : (u v w : UpstreamRuntime) → Shape u v → Shape v w → Shape u w
Shape-trans u v w p q = record {
  schedule = q.schedule ∙ p.schedule;
  targets = q.targets ∙ p.targets;
}

pub observe_target-Shape :
    (now : ℕ) (ok : Bool) (i : ℕ) (u : UpstreamRuntime) → Shape u (observe_target now ok i u)
unfolding observe_target
observe_target-Shape now ok i u = record {
  schedule = refl;
  targets = observe_option-length now ok u.targets i (target_at u i);
}

-- Each slot names a target.
abbrev pub Bounded : UpstreamRuntime → Type 0
Bounded u = All (λ i. i < length u.targets) u.schedule

pub Shape-Bounded : (u v : UpstreamRuntime) → Shape u v → Bounded u → Bounded v
Shape-Bounded u v s b = rw (s.schedule, s.targets) b
