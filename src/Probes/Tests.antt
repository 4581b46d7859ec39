-- ===== src/Probes/Tests.antt =====
-- Probes of one target that was ejected, and a supervisor that follows one reload.
use gatepup.Prelude.{
  ℕ, zero, suc, ◌<◌, ◌≡◌, refl, Bool, true, false, none, some, [], ◌∷◌, ◌++◌, In, here, length,
  Text, codes, arith,
}
use gatepup.Health.{HealthState}
use gatepup.Health.Invariant
use gatepup.Upstream.{HealthCheckSettings, UpstreamRuntime, target, pick_target}
use gatepup.Upstream.Pick.{IsValid}
use gatepup.Upstream.Fair.{AllUp}
use gatepup.Probes.{
  ProbeClient, status, Round, tick, gen_stop, probe, probe_uri, run_health_checks, running, spawn,
  respawn,
}
use gatepup.Probes.Recovery.{recovery}
use gatepup.Probes.Supervisor.{
  System, Upstreams, woken, waiting, ended, at_start, Reach, next, store, notify, wake, spawned,
}
use gatepup.Probes.Supervisor
use gatepup.Probes.Supervisor.Invariant.{no_lost_reload}

abbrev settings : HealthCheckSettings
settings = record { path = codes "/health"; interval = 10000; timeout = 1000 }

abbrev upstream : Bool → UpstreamRuntime
upstream up = record {
  targets =
      record {
        url = codes "http://a";
        state = record {
          healthy = up;
          successes = 0;
          failures = 0;
          last_check_ms = 0;
          healthy_threshold = 2;
          unhealthy_threshold = 1;
          managed = true;
        };
      }
      ∷ [];
  health = some settings;
  retry = none;
  tls_insecure = false;
  schedule = 0 ∷ [];
  next = 0;
}

abbrev client : ℕ → ProbeClient Text Text
client code = record {
  parse_uri = some;
  parse_path = some;
  with_path = λ u p. some (u ++ p);
  buildable = λ u. true;
  request = λ timeout u. status code;
}

abbrev round : ℕ → Round Text Text
round code = record { client = client code; clock = λ i. 5 }

one-served : (i : ℕ) → i < 1 → In i (0 ∷ [])
one-served zero h = here
one-served (suc i) h = absurd (omega arith)

upstream-IsValid : (up : Bool) → IsValid (upstream up)
upstream-IsValid up = record {
  bounded = (omega arith, tt);
  served = one-served;
  counted = omega arith;
}

abbrev ejected : HealthState
ejected = record {
  healthy = false;
  successes = 0;
  failures = 0;
  last_check_ms = 0;
  healthy_threshold = 2;
  unhealthy_threshold = 1;
  managed = true;
}

ejected-IsValid : Invariant.IsValid ejected
ejected-IsValid = ground arith

healthy-IsValid : Invariant.IsValid (record ejected { healthy = true })
healthy-IsValid = ground arith

-- The ejected target answers 200 twice, which is its threshold.
recovery_example :
    let v =
      run_health_checks settings (tick (round 200) ∷ tick (round 200) ∷ []) (upstream false) in
    AllUp v × (i : ℕ) × ((pick_target v).0 ≡ target i)
unfolding probe probe_uri
recovery_example =
    recovery settings (round 200 ∷ round 200 ∷ []) (upstream false) (upstream-IsValid false)
      (omega arith) ((ejected-IsValid, refl, omega arith), tt) ((refl, tt), ((refl, tt), tt))

-- A probe after the stop of its generation is not sent.
stopped :
    run_health_checks settings (gen_stop ∷ tick (round 302) ∷ []) (upstream true) ≡ upstream true
unfolding run_health_checks
stopped = refl

abbrev before : Upstreams
before = (codes "u", upstream true) ∷ []

abbrev after_reload : Upstreams
after_reload = (codes "v", upstream true) ∷ []

abbrev reloaded : System
reloaded = record {
  shared = after_reload;
  storing = false;
  pending = true;
  phase = waiting;
  tasks = respawn before (at_start before).tasks;
}

reloaded-Reach : Reach (at_start before) reloaded
reloaded-Reach =
    next (next (next Supervisor.here (spawned refl)) (store after_reload refl)) (notify refl)

abbrev followed : System
followed = record {
  shared = after_reload;
  storing = false;
  pending = false;
  phase = waiting;
  tasks = respawn after_reload reloaded.tasks;
}

followed-Reach : Reach (at_start before) followed
followed-Reach = next (next reloaded-Reach (wake refl refl)) (spawned refl)

no_lost_reload_example : (k : ℕ) × (running followed.tasks ≡ spawn k after_reload)
no_lost_reload_example = no_lost_reload followed-Reach refl refl refl

-- The task of the first generation was told to stop.
one_task : length (running followed.tasks) ≡ 1
unfolding running respawn
one_task = refl
