-- ===== src/Traffic/Run.antt =====
-- All requests in flight, beside probes and reloads, in any order: crates/gatepup-proxy/src/proxy.rs,
-- `handle`, with the observations of crates/gatepup-proxy/src/health.rs and the swap of
-- crates/gatepup-core/src/app.rs. A client that goes away drops the future of its request.
use gatepup.Prelude.{
  ℕ, ◌+◌, Bool, ◌≡◌, ◌⊎◌, inr, Option, none, some, List, [], ◌∷◌, ◌++◌, length, get_elem?,
  table_get, All, Text,
}
use gatepup.Interfaces.{IpLib, HttpLib, Float}
use gatepup.Config.Model.{GatePupConfig, TlsConfig}
use gatepup.Metrics.{inc_requests}
use gatepup.Metrics
use gatepup.RateLimiter.{RateLimiter}
use gatepup.Upstream.{UpstreamRuntime, observe_target}
use gatepup.Snapshot.{RuntimeConfig, build_reload_snapshot}
use gatepup.Snapshot.Build.{IsBalanced}
use gatepup.Proxy.Body.{Incoming}
use gatepup.Proxy.Forwarding.{is_upgrade}
use gatepup.Proxy.Forward.{Context, Outcome, err}
use gatepup.Proxy.Handle.{Dialer, Arrival, arrive, count_outcome, ensure_request_id}
use gatepup.Traffic.{Stage, arrived, refused, ended, Flight, Shared, write, act}

-- What `forward` or `handle_upgrade` returned.
abbrev pub outcome_of : {F Headers Net : Type 0} → Stage F Headers Net → Option (Outcome Headers)
outcome_of (refused e) = some (err e)
outcome_of (ended o go) = some o
outcome_of st = none

module _ {F Addr Net : Type 0} (fl : Float F) (ip : IpLib Addr Net) where
  -- The snapshot that new requests load is `current`; `cancelled` counts the dropped futures.
  pub record System (Headers Tls : Type 0) : Type 0 where
    pub shared : Shared fl ip Tls
    pub current : ℕ
    pub flights : List (Flight F Headers Addr Net)
    pub cancelled : ℕ

  module _ {Headers Tls : Type 0} where
    abbrev pub started : RuntimeConfig F Net Tls → RateLimiter fl ip.same → System Headers Tls
    started s limiter = record {
      shared = record { heap = s ∷ []; limiter = limiter; metrics = Metrics.new };
      current = 0;
      flights = [];
      cancelled = 0;
    }

    module _ (http : HttpLib Headers) where
      -- `handle`, up to `forward` or `handle_upgrade`.
      abbrev pub flight_of :
          Dialer Headers
          → Context Headers Addr
          → Text
          → Arrival Headers
          → Incoming
          → ℕ
          → RuntimeConfig F Net Tls
          → Flight F Headers Addr Net
      flight_of d c generated req body g snap = record {
        call = record {
          context = record c { request_id = ensure_request_id fl ip http d generated req.headers };
          dialer = d;
          request = arrive fl ip http d c snap req;
          body = body;
          upgrade = is_upgrade http req.headers;
          snapshot = g;
        };
        stage = arrived;
      }

      pub data Step (acceptor : TlsConfig → Text ⊎ Tls) (w : System Headers Tls)
          : System Headers Tls → Type 0 where
        arrives :
            (d : Dialer Headers) (c : Context Headers Addr) (generated : Text)
            (req : Arrival Headers) (body : Incoming) (snap : RuntimeConfig F Net Tls)
            → get_elem? w.shared.heap w.current ≡ some snap
            → Step acceptor w (record w {
              shared = record w.shared { metrics = inc_requests w.shared.metrics };
              flights = flight_of d c generated req body w.current snap ∷ w.flights;
            })
        acts :
            (before after : List (Flight F Headers Addr Net)) (f : Flight F Headers Addr Net)
            → w.flights ≡ before ++ f ∷ after
            → Step acceptor w (record w {
              shared = (act fl ip http f.call w.shared f.stage).1;
              flights =
                  before ++ record f { stage = (act fl ip http f.call w.shared f.stage).0 } ∷ after;
            })
        answers :
            (before after : List (Flight F Headers Addr Net)) (f : Flight F Headers Addr Net)
            (o : Outcome Headers)
            → w.flights ≡ before ++ f ∷ after
            → outcome_of f.stage ≡ some o
            → Step acceptor w (record w {
              shared = record w.shared { metrics = count_outcome o w.shared.metrics };
              flights = before ++ after;
            })
        leaves :
            (before after : List (Flight F Headers Addr Net)) (f : Flight F Headers Addr Net)
            → w.flights ≡ before ++ f ∷ after
            → Step acceptor w (record w { flights = before ++ after; cancelled = w.cancelled + 1 })
        probes :
            (g : ℕ) (snap : RuntimeConfig F Net Tls) (name : Text) (u : UpstreamRuntime) (now i : ℕ)
            (ok : Bool)
            → get_elem? w.shared.heap g ≡ some snap
            → table_get name snap.upstreams ≡ some u
            → Step acceptor w
                (record w { shared = write fl ip g name (observe_target now ok i u) w.shared })
        reloads :
            (config : GatePupConfig F) (s : RuntimeConfig F Net Tls)
            → All IsBalanced config.upstreams
            → build_reload_snapshot fl ip http acceptor config ≡ inr s
            → Step acceptor w (record w {
              shared = record w.shared { heap = w.shared.heap ++ s ∷ [] };
              current = length w.shared.heap;
            })

      pub data Reach (acceptor : TlsConfig → Text ⊎ Tls) (w : System Headers Tls)
          : System Headers Tls → Type 0 where
        here : Reach acceptor w w
        next :
            {v x : System Headers Tls} → Reach acceptor w v → Step acceptor v x → Reach acceptor w x
