-- ===== src/Probes/Supervisor.antt =====
-- `run_health_supervisor` beside the reloads. A reload stores the snapshot and then notifies; the
-- supervisor wakes, loads whatever is stored then, and respawns. Notifications between two wakes
-- are one, as `watch` keeps only its newest value.
pub mod Newest
pub mod Invariant
use gatepup.Prelude.{
  ℕ, zero, suc, ◌+◌, ◌<◌, ◌≡◌, ◌⊎◌, inl, inr, refl, ap, sym, ◌∙◌, Bool, true, false, not, Option,
  none, some, List, [], ◌∷◌, ◌++◌, append-nil, length, length-append, replicate, set, get_elem?,
  keep, filter_map, unwrap_or, All, In, Bool-cases, Option-cases, Text, if◌then◌else◌, arith,
}
use gatepup.Upstream.{UpstreamRuntime}
use gatepup.Probes.{
  Task, Generations, no_generation, send_stop, task_of, spawn, respawn, stop_all, goes_on, running,
}

abbrev pub Upstreams : Type 0
Upstreams = List (Text × UpstreamRuntime)

pub data Phase : Type 0 where
  woken waiting ended : Phase

-- `storing` is set between the two effects of a reload, and `pending` while a notification is unseen.
pub record System : Type 0 where
  pub shared : Upstreams
  pub storing : Bool
  pub pending : Bool
  pub phase : Phase
  pub tasks : Generations

abbrev pub at_start : Upstreams → System
at_start ups = record {
  shared = ups;
  storing = false;
  pending = false;
  phase = woken;
  tasks = no_generation;
}

pub data Step (s : System) : System → Type 0 where
  store : (ups : Upstreams) → s.storing ≡ false → Step s (record s { shared = ups; storing = true })
  notify : s.storing ≡ true → Step s (record s { storing = false; pending = true })
  -- The return when a client of the probes cannot be built, before anything is spawned.
  no_clients : s.phase ≡ woken → s.tasks ≡ no_generation → Step s (record s { phase = ended })
  wake : s.phase ≡ waiting → s.pending ≡ true → Step s (record s { pending = false; phase = woken })
  spawned :
      s.phase ≡ woken → Step s (record s { phase = waiting; tasks = respawn s.shared s.tasks })
  finish : s.phase ≡ waiting → Step s (record s { phase = ended; tasks = stop_all s.tasks })

pub data Reach (s : System) : System → Type 0 where
  here : Reach s s
  next : {t u : System} → Reach s t → Step t u → Reach s u
