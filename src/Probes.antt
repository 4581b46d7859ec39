-- ===== src/Probes.antt =====
-- crates/gatepup-proxy/src/health.rs: the active probes. What the network replies to a probe and the
-- clock are arguments. `run_health_checks` reads the list of what its `select!` sees, one entry for
-- each turn of its loop.
pub mod Recovery
pub mod Supervisor
mod Tests
use gatepup.Prelude.{
  ℕ, ◌+◌, Bool, true, false, not, ◌&&◌, Option, none, some, List, [], ◌∷◌, ◌++◌, ltb, leb, length,
  set, get_elem?, keep, filter_map, ◌>>=◌, unwrap_or, is_empty, Text, codes, if◌then◌else◌,
}
use mathlib.Core.Option
use gatepup.Health.{observe}
use gatepup.Upstream.{HealthCheckSettings, TargetRuntime, UpstreamRuntime}

-- `timeout(…, client.request(req)).await`.
pub data Reply : Type 0 where
  late : Reply
  broken : Reply
  status : ℕ → Reply

-- The URIs of the package http, by `parse` and `into_parts`, `PathAndQuery::try_from` and
-- `from_parts`, and the client: whether it can build the request, and the reply within a time.
pub record ProbeClient (Uri Query : Type 0) : Type 0 where
  pub parse_uri : Text → Option Uri
  pub parse_path : Text → Option Query
  pub with_path : Uri → Query → Option Uri
  pub buildable : Uri → Bool
  pub request : ℕ → Uri → Reply

-- `resp.status().is_success()`.
abbrev pub is_success : Reply → Bool
is_success late = false
is_success broken = false
is_success (status n) = leb 200 n && ltb n 300

-- The network and the clock during one pass over the targets.
pub record Round (Uri Query : Type 0) : Type 0 where
  pub client : ProbeClient Uri Query
  pub clock : ℕ → ℕ

pub data Turn (Uri Query : Type 0) : Type 0 where
  shutdown gen_stop : Turn Uri Query
  tick : Round Uri Query → Turn Uri Query

module _ {Uri Query : Type 0} where
  unfoldable pub probe_uri : ProbeClient Uri Query → Text → Text → Option Uri
  probe_uri client base path = client.parse_uri base >>= (λ uri.
      client.parse_path (if is_empty path then codes "/" else path) >>= client.with_path uri)

  abbrev pub answer_to : ProbeClient Uri Query → ℕ → Option Uri → Bool
  answer_to client timeout none = false
  answer_to client timeout (some uri) =
      if client.buildable uri then is_success (client.request timeout uri) else false

  -- `probe`.
  unfoldable pub probe : ProbeClient Uri Query → Text → Text → ℕ → Bool
  probe client base path timeout = answer_to client timeout (probe_uri client base path)

  -- The loop over the targets, from an index on.
  unfoldable pub probe_targets :
      Round Uri Query → HealthCheckSettings → ℕ → List TargetRuntime → List TargetRuntime
  probe_targets r settings i [] = []
  probe_targets r settings i (t ∷ ts) =
      record t {
        state = observe (r.clock i) (probe r.client t.url settings.path settings.timeout) t.state;
      }
      ∷ probe_targets r settings (i + 1) ts

  unfoldable pub run_health_checks :
      HealthCheckSettings → List (Turn Uri Query) → UpstreamRuntime → UpstreamRuntime
  run_health_checks settings [] u = u
  run_health_checks settings (shutdown ∷ turns) u = u
  run_health_checks settings (gen_stop ∷ turns) u = u
  run_health_checks settings (tick r ∷ turns) u =
      run_health_checks settings turns (record u { targets = probe_targets r settings 0 u.targets })

-- What `tokio::spawn` gets for one upstream; `stop` is the channel of its generation.
pub record Task : Type 0 where
  pub stop : ℕ
  pub name : Text
  pub settings : HealthCheckSettings
  pub insecure : Bool

-- The stop channels, by their last value, and the sender of the newest.
pub record Generations : Type 0 where
  pub flags : List Bool
  pub gen_stop : Option ℕ
  pub tasks : List Task

abbrev pub no_generation : Generations
no_generation = record { flags = []; gen_stop = none; tasks = [] }

-- `stop.send(true)`, if there is a sender.
abbrev pub send_stop : Option ℕ → List Bool → List Bool
send_stop none flags = flags
send_stop (some k) flags = set flags k true

abbrev pub task_of : ℕ → Text × UpstreamRuntime → Option Task
task_of stop e =
    Option.map (λ s. record { stop = stop; name = e.0; settings = s; insecure = e.1.tls_insecure })
      e.1.health

-- The loop over the upstreams of the snapshot.
abbrev pub spawn : ℕ → List (Text × UpstreamRuntime) → List Task
spawn stop = filter_map (task_of stop)

-- One turn of the loop of `run_health_supervisor`, up to its `select!`.
unfoldable pub respawn : List (Text × UpstreamRuntime) → Generations → Generations
respawn upstreams g =
    let flags = send_stop g.gen_stop g.flags in
    record {
      flags = flags ++ false ∷ [];
      gen_stop = some (length flags);
      tasks = g.tasks ++ spawn (length flags) upstreams;
    }

-- After the loop.
unfoldable pub stop_all : Generations → Generations
stop_all g = record { flags = send_stop g.gen_stop g.flags; gen_stop = none; tasks = g.tasks }

abbrev pub goes_on : List Bool → Task → Bool
goes_on flags t = not (unwrap_or true (get_elem? flags t.stop))

-- The tasks that are not told to stop.
unfoldable pub running : Generations → List Task
running g = keep (goes_on g.flags) g.tasks
