-- ===== src/Probes/Recovery.antt =====
-- What a series of passes does to an upstream whose targets are probed, with no other observation in
-- between.
use gatepup.Prelude.{
  ℕ, zero, suc, ◌+◌, ◌≤◌, ◌<◌, ◌≡◌, ◌⊎◌, inl, inr, refl, ap, ◌∙◌, Bool, true, false, some, List, [],
  ◌∷◌, map, length, get_elem?, All, Bool-cases, arith,
}
use gatepup.Health.{HealthState, observe, is_healthy}
use gatepup.Health.Invariant.{IsValid, observe-IsValid}
use gatepup.Upstream.{
  HealthCheckSettings, TargetRuntime, UpstreamRuntime, target, no_target, pick_target,
}
use gatepup.Upstream.Pick
use gatepup.Upstream.Pick.{AllDown, AllDown-no_target, length_pos}
use gatepup.Upstream.Fair.{AllUp, pick_next}
use gatepup.Probes.{Round, tick, probe, probe_targets, run_health_checks}

-- What `n` equal observations bring a managed state to, healthy or not.
abbrev Recovers : ℕ → HealthState → Type 0
Recovers n s =
    IsValid s
    × (s.managed ≡ true)
    × ((s.healthy ≡ true) ⊎ ((s.healthy ≡ false) × (s.healthy_threshold ≤ s.successes + n)))

abbrev Falls : ℕ → HealthState → Type 0
Falls n s =
    IsValid s
    × (s.managed ≡ true)
    × ((s.healthy ≡ false) ⊎ ((s.healthy ≡ true) × (s.unhealthy_threshold ≤ s.failures + n)))

observe-Recovers :
    (n now : ℕ) (s : HealthState) → Recovers (suc n) s → Recovers n (observe now true s)
unfolding observe
observe-Recovers n now s (v, m, c) = (observe-IsValid now true s v, ground arith, ground arith)

observe-Falls : (n now : ℕ) (s : HealthState) → Falls (suc n) s → Falls n (observe now false s)
unfolding observe
observe-Falls n now s (v, m, c) = (observe-IsValid now false s v, ground arith, ground arith)

Recovers-zero : (s : HealthState) → Recovers 0 s → is_healthy s ≡ true
Recovers-zero s (v, m, c) = ground arith

Falls-zero : (s : HealthState) → Falls 0 s → is_healthy s ≡ false
Falls-zero s (v, m, c) = ground arith

-- A property of all members, at an index.
All-at :
    (P : TargetRuntime → Type 0) (ts : List TargetRuntime) (i : ℕ)
    → All P ts
    → i < length ts
    → (t : TargetRuntime) × (get_elem? ts i ≡ some t) × P t
All-at P [] i h l = absurd (omega arith)
All-at P (t ∷ ts) zero h l = (t, refl, h.0)
All-at P (t ∷ ts) (suc i) h l = All-at P ts i h.1 (omega arith)

-- What a series of equal passes leaves of an upstream.
record Outcome (P : HealthState → Type 0) (u v : UpstreamRuntime) : Type 0 where
  holds : All (λ t. P (TargetRuntime.state t)) v.targets
  same_schedule : v.schedule ≡ u.schedule
  same_next : v.next ≡ u.next
  same_length : length v.targets ≡ length u.targets

Outcome-IsValid :
    (P : HealthState → Type 0) (u v : UpstreamRuntime)
    → Pick.IsValid u
    → Outcome P u v
    → Pick.IsValid v
Outcome-IsValid P u v h o = record {
  bounded = rw (o.same_schedule, o.same_length) h.bounded;
  served = rw (o.same_schedule, o.same_length) h.served;
  counted = rw (o.same_next) h.counted;
}

AllUp-Outcome : (u v : UpstreamRuntime) → Outcome (Recovers 0) u v → AllUp v
AllUp-Outcome u v o i h =
    let (t, e, r) = All-at (λ t. Recovers 0 (TargetRuntime.state t)) v.targets i o.holds h in
    (t, e, Recovers-zero t.state r)

AllDown-Outcome : (u v : UpstreamRuntime) → Outcome (Falls 0) u v → AllDown v
AllDown-Outcome u v o i h =
    let (t, e, r) = All-at (λ t. Falls 0 (TargetRuntime.state t)) v.targets i o.holds h in
    (t, e, Falls-zero t.state r)

All-map :
    (P Q : TargetRuntime → Type 0) (ts : List TargetRuntime)
    → ((t : TargetRuntime) → P t → Q t)
    → All P ts
    → All Q ts
All-map P Q [] f h = tt
All-map P Q (t ∷ ts) f h = (f t h.0, All-map P Q ts f h.1)

-- A target that probes can make healthy, or eject, in `n` passes.
abbrev pub IsProbed : ℕ → TargetRuntime → Type 0
IsProbed n t = IsValid t.state × (t.state.managed ≡ true) × (t.state.healthy_threshold ≤ n)

abbrev pub IsEjectable : ℕ → TargetRuntime → Type 0
IsEjectable n t = IsValid t.state × (t.state.managed ≡ true) × (t.state.unhealthy_threshold ≤ n)

IsProbed-Recovers : (n : ℕ) (t : TargetRuntime) → IsProbed n t → Recovers n t.state
IsProbed-Recovers n t (v, m, h) = elim (Bool-cases t.state.healthy) [
  | inl e ↦ (v, m, inl e)
  | inr e ↦ (v, m, inr (e, omega arith))
]

IsEjectable-Falls : (n : ℕ) (t : TargetRuntime) → IsEjectable n t → Falls n t.state
IsEjectable-Falls n t (v, m, h) = elim (Bool-cases t.state.healthy) [
  | inl e ↦ (v, m, inr (e, omega arith))
  | inr e ↦ (v, m, inl e)
]

pick_up :
    (v : UpstreamRuntime)
    → Pick.IsValid v
    → AllUp v
    → 0 < length v.targets
    → (i : ℕ) × ((pick_target v).0 ≡ target i)
pick_up v h up p =
    (_, ap (λ r. r.0) (pick_next v h.bounded up (length_pos v.schedule (h.served 0 p))))

module _ {Uri Query : Type 0} (settings : HealthCheckSettings) where
  -- In this pass every probe of these targets comes to `ok`.
  abbrev pub Hears : Bool → List TargetRuntime → Round Uri Query → Type 0
  Hears ok ts r = All (λ t. probe r.client t.url settings.path settings.timeout ≡ ok) ts

  pub length-probe_targets :
      (r : Round Uri Query) (i : ℕ) (ts : List TargetRuntime)
      → length (probe_targets r settings i ts) ≡ length ts
  unfolding probe_targets
  length-probe_targets r i [] = refl
  length-probe_targets r i (t ∷ ts) = ap suc (length-probe_targets r (i + 1) ts)

  Hears-probe_targets :
      (ok : Bool) (q r : Round Uri Query) (i : ℕ) (ts : List TargetRuntime)
      → Hears ok ts q
      → Hears ok (probe_targets r settings i ts) q
  unfolding probe_targets
  Hears-probe_targets ok q r i [] h = tt
  Hears-probe_targets ok q r i (t ∷ ts) h = (h.0, Hears-probe_targets ok q r (i + 1) ts h.1)

  All-Hears :
      (ok : Bool) (r : Round Uri Query) (ts : List TargetRuntime) (rs : List (Round Uri Query))
      → All (Hears ok ts) rs
      → All (Hears ok (probe_targets r settings 0 ts)) rs
  All-Hears ok r ts [] h = tt
  All-Hears ok r ts (q ∷ rs) h = (Hears-probe_targets ok q r 0 ts h.0, All-Hears ok r ts rs h.1)

  module _ (ok : Bool) (P : ℕ → HealthState → Type 0)
      (step : (n now : ℕ) (s : HealthState) → P (suc n) s → P n (observe now ok s)) where
    pass-All :
        (n : ℕ) (r : Round Uri Query) (i : ℕ) (ts : List TargetRuntime)
        → Hears ok ts r
        → All (λ t. P (suc n) (TargetRuntime.state t)) ts
        → All (λ t. P n (TargetRuntime.state t)) (probe_targets r settings i ts)
    unfolding probe_targets
    pass-All n r i [] h a = tt
    pass-All n r i (t ∷ ts) h a =
        (rw (h.0) (step n (r.clock i) t.state a.0), pass-All n r (i + 1) ts h.1 a.1)

    checks-Outcome :
        (rs : List (Round Uri Query)) (u : UpstreamRuntime)
        → All (Hears ok u.targets) rs
        → All (λ t. P (length rs) (TargetRuntime.state t)) u.targets
        → Outcome (P 0) u (run_health_checks settings (map tick rs) u)
    unfolding run_health_checks
    checks-Outcome [] u h a = record {
      holds = a;
      same_schedule = refl;
      same_next = refl;
      same_length = refl;
    }
    checks-Outcome (r ∷ rs) u h a =
        let o =
          checks-Outcome rs (record u { targets = probe_targets r settings 0 u.targets })
            (All-Hears ok r u.targets rs h.1) (pass-All (length rs) r 0 u.targets h.0 a) in
        record {
          holds = o.holds;
          same_schedule = o.same_schedule;
          same_next = o.same_next;
          same_length = o.same_length ∙ length-probe_targets r 0 u.targets;
        }

  -- Targets that are probed come back: after as many passes in a row in which every probe succeeds as
  -- the largest healthy threshold, whatever the health before, all targets are healthy, and a request
  -- finds one.
  pub recovery :
      (rs : List (Round Uri Query)) (u : UpstreamRuntime)
      → Pick.IsValid u
      → 0 < length u.targets
      → All (IsProbed (length rs)) u.targets
      → All (Hears true u.targets) rs
      → let v = run_health_checks settings (map tick rs) u in
        AllUp v × (i : ℕ) × ((pick_target v).0 ≡ target i)
  recovery rs u h p a b =
      let v = run_health_checks settings (map tick rs) u in
      let o =
        checks-Outcome true Recovers observe-Recovers rs u b
          (All-map _ _ u.targets (IsProbed-Recovers (length rs)) a) in
      let up = AllUp-Outcome u v o in
      let (i, e) = pick_up v (Outcome-IsValid (Recovers 0) u v h o) up (rw (o.same_length) p) in
      (up, i, e)

  -- After as many passes in a row in which no probe succeeds as the largest unhealthy threshold, no
  -- target is picked any more.
  pub ejection :
      (rs : List (Round Uri Query)) (u : UpstreamRuntime)
      → Pick.IsValid u
      → All (IsEjectable (length rs)) u.targets
      → All (Hears false u.targets) rs
      → let v = run_health_checks settings (map tick rs) u in
        AllDown v × ((pick_target v).0 ≡ no_target)
  ejection rs u h a b =
      let v = run_health_checks settings (map tick rs) u in
      let o =
        checks-Outcome false Falls observe-Falls rs u b
          (All-map _ _ u.targets (IsEjectable-Falls (length rs)) a) in
      let down = AllDown-Outcome u v o in
      (down, AllDown-no_target v (Outcome-IsValid (Falls 0) u v h o) down)
