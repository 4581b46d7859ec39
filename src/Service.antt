-- ===== src/Service.antt =====
-- The proxy as it runs: requests, passes of probes and reloads, in any order, on one world. A request
-- and a pass are one step each; the listeners are those of crates/gatepup-proxy/src/server.rs, which
-- call `handle`, and the reloads those of crates/gatepup-core/src/app.rs.
pub mod Valid
pub mod Forwarded
pub mod Upgraded
pub mod Answered
pub mod Oversized
pub mod Example
mod Tests
use gatepup.Prelude.{ℕ, ◌≡◌, ◌⊎◌, inr, Option, some, List, table_get, table_insert, All, Text}
use gatepup.Interfaces.{IpLib, HttpLib, Float}
use gatepup.Config.Model.{GatePupConfig, TlsConfig}
use gatepup.Upstream.{HealthCheckSettings, UpstreamRuntime}
use gatepup.Snapshot.{RuntimeConfig, build_snapshot, build_reload_snapshot}
use gatepup.Snapshot.Build.{IsBalanced}
use gatepup.Probes.{Turn, run_health_checks}
use gatepup.Proxy.Body.{Incoming}
use gatepup.Proxy.Forward.{World, Context}
use gatepup.Proxy.Handle.{Dialer, Arrival, handle}

module _ {F Headers Addr Net Tls : Type 0} (fl : Float F) (ip : IpLib Addr Net) where
  -- The world with another snapshot.
  abbrev pub swapped : World fl ip Headers Tls → RuntimeConfig F Net Tls → World fl ip Headers Tls
  swapped w s = record w { snapshot = s }

  abbrev pub probed : World fl ip Headers Tls → Text → UpstreamRuntime → World fl ip Headers Tls
  probed w name u =
      swapped w (record w.snapshot { upstreams = table_insert name u w.snapshot.upstreams })

-- `Uri` and `Query` are the types of the client of the probes.
module _ {F Headers Addr Net Tls : Type 0} (Uri Query : Type 0) (fl : Float F) (ip : IpLib Addr Net)
    (http : HttpLib Headers) (acceptor : TlsConfig → Text ⊎ Tls) where
  pub data Step (w : World fl ip Headers Tls) : World fl ip Headers Tls → Type 0 where
    request :
        (d : Dialer Headers) (c : Context Headers Addr) (generated : Text) (req : Arrival Headers)
        (body : Incoming)
        → Step w (handle fl ip http d c generated req body w).1
    probes :
        (name : Text) (u : UpstreamRuntime) (settings : HealthCheckSettings)
        (turns : List (Turn Uri Query))
        → table_get name w.snapshot.upstreams ≡ some u
        → Step w (probed fl ip w name (run_health_checks settings turns u))
    reload :
        (config : GatePupConfig F) (s : RuntimeConfig F Net Tls)
        → All IsBalanced config.upstreams
        → build_reload_snapshot fl ip http acceptor config ≡ inr s
        → Step w (swapped fl ip w s)

  -- From the snapshot of a configuration, with nothing counted or sent.
  pub data Reach (w : World fl ip Headers Tls) : World fl ip Headers Tls → Type 0 where
    here : Reach w w
    next : {v x : World fl ip Headers Tls} → Reach w v → Step v x → Reach w x
