-- ===== src/Traffic.antt =====
-- Many requests at once: crates/gatepup-proxy/src/proxy.rs, `handle` with `forward` and `handle_upgrade`,
-- cut at every access to what requests share. A snapshot that a reload has replaced lives on for the
-- requests that loaded it, so the heap keeps them all. A pick takes its slot from the counter in one
-- action and reads the health of the target in another.
pub mod Heap
pub mod Tunnels
pub mod Flights
pub mod Acts
pub mod Run
pub mod Invariant
pub mod Answers
pub mod Budget
pub mod Ends
pub mod Alone
mod Tests
use gatepup.Prelude.{
  ℕ, zero, suc, ◌+◌, ◌%◌, ◌≡◌, ◌⊎◌, not, ◌&&◌, inl, inr, Bool, true, false, Option, none, some,
  List, [], ◌∷◌, ◌++◌, ◌==◌, ◌>>=◌, length, get_elem?, set, table_get, table_insert, unwrap_or, All,
  Text, codes, if◌then◌else◌,
}
use gatepup.Interfaces.{IpLib, HttpLib, Float}
use gatepup.Health.{is_healthy}
use gatepup.RateLimiter.{RateLimiter}
use gatepup.Upstream.{TargetRuntime, UpstreamRuntime, advance, target_at}
use gatepup.Snapshot.{RuntimeConfig}
use gatepup.Metrics.{Metrics, inc_requests}
use gatepup.Proxy.Errors.{GatewayError, payload_too_large, no_healthy_upstream}
use gatepup.Proxy.Body.{Body, BodySource, Incoming, next, prepare_body_source, body_exceeds_limit}
use gatepup.Proxy.Admission.{Request, Admitted, admit}
use gatepup.Proxy.Attempts
use gatepup.Proxy.Attempts.{Sent, Answer, Next, done, again, send_to}
use gatepup.Proxy.Forwarding.{is_upgrade}
use gatepup.Proxy.Forward.{
  World, Context, Outcome, err, crash, can_replay, max_attempts, network_of, finish,
}
use gatepup.Proxy.Handle.{
  Dialer, Arrival, arrive, parse_authority, on_authority, count_outcome, ensure_request_id,
}

-- What `forward` has in its local variables from the attempts on: `left` attempts come after this one.
pub record Going (F Headers Net : Type 0) : Type 0 where
  pub admitted : Admitted F Net
  pub left : ℕ
  pub attempt : ℕ
  pub body : BodySource
  pub last_err : GatewayError
  pub sent : List (ℕ × Sent Headers)

-- Where a request stands: before its admission; in a pick with some rounds left; with a value of the
-- counter, and rounds left after it; on its way to a target; and with its outcome.
pub data Stage (F Headers Net : Type 0) : Type 0 where
  arrived : Stage F Headers Net
  picking : ℕ → Going F Headers Net → Stage F Headers Net
  counted : ℕ → ℕ → Going F Headers Net → Stage F Headers Net
  waiting : ℕ → TargetRuntime → Option Body → Going F Headers Net → Stage F Headers Net
  refused : GatewayError → Stage F Headers Net
  ended : Outcome Headers → Going F Headers Net → Stage F Headers Net

-- What one `handle` works with, and the snapshot that it loaded, by its place in the heap.
pub record Call (Headers Addr : Type 0) : Type 0 where
  pub context : Context Headers Addr
  pub dialer : Dialer Headers
  pub request : Request Headers Addr
  pub body : Incoming
  pub upgrade : Bool
  pub snapshot : ℕ

-- The future of one `handle`.
pub record Flight (F Headers Addr Net : Type 0) : Type 0 where
  pub call : Call Headers Addr
  pub stage : Stage F Headers Net

module _ {F Addr Net : Type 0} (fl : Float F) (ip : IpLib Addr Net) where
  -- What the requests share.
  pub record Shared (Tls : Type 0) : Type 0 where
    pub heap : List (RuntimeConfig F Net Tls)
    pub limiter : RateLimiter fl ip.same
    pub metrics : Metrics

  abbrev pub write_on :
      {Tls : Type 0}
      → ℕ
      → Text
      → UpstreamRuntime
      → Shared Tls
      → Option (RuntimeConfig F Net Tls)
      → Shared Tls
  write_on g name u s none = s
  write_on g name u s (some snap) = record s {
    heap = set s.heap g (record snap { upstreams = table_insert name u snap.upstreams });
  }

  -- An upstream of the snapshot at `g` changes.
  abbrev pub write : {Tls : Type 0} → ℕ → Text → UpstreamRuntime → Shared Tls → Shared Tls
  write g name u s = write_on g name u s (get_elem? s.heap g)

  module _ {Headers : Type 0} (http : HttpLib Headers) (f : Call Headers Addr) where
    abbrev pub name_of : Going F Headers Net → Text
    name_of go = go.admitted.route.upstream

    -- An attempt begins, with `left` attempts from this one on.
    abbrev pub begin : ℕ → ℕ → Going F Headers Net → UpstreamRuntime → Stage F Headers Net
    begin zero attempt go u = ended (err go.last_err) go
    begin (suc left) attempt go u =
        picking (length u.schedule) (record go { left = left; attempt = attempt })

    abbrev pub attempts : Admitted F Net → ℕ
    attempts a = if f.upgrade then 1 else max_attempts fl ip http f.context f.request a

    -- The load of the health, of the target in the slot of `n`.
    abbrev pub loaded :
        ℕ → ℕ → Going F Headers Net → UpstreamRuntime → Option ℕ → Stage F Headers Net
    loaded n k go u none = ended crash go
    loaded n k go u (some i) = elim (target_at u i) [
      | none ↦ ended crash go
      | some t ↦
          let b = next go.body in
          if is_healthy t.state then waiting i t b.0 (record go { body = b.1 }) else picking k go
    ]

    -- The local variables of `forward` as the state of its loop.
    abbrev pub state_of : Going F Headers Net → UpstreamRuntime → ℕ → Attempts.State Headers
    state_of go u retries = record {
      upstream = u;
      body = go.body;
      retries = retries;
      last_err = go.last_err;
      log = go.sent;
    }

    abbrev pub going_of : Going F Headers Net → Attempts.State Headers → Going F Headers Net
    going_of go t = record go { body = t.body; last_err = t.last_err; sent = t.log }

    abbrev pub accept_encoding : Text
    accept_encoding =
        unwrap_or [] (http.get (codes "accept-encoding") f.request.headers >>= http.to_str)

    module _ {Tls : Type 0} where
      abbrev pub going : RuntimeConfig F Net Tls → Admitted F Net → Going F Headers Net
      going snap a = record {
        admitted = a;
        left = 0;
        attempt = 0;
        body =
            prepare_body_source f.body (can_replay fl ip http f.context f.request a)
              snap.max_body_bytes;
        last_err = no_healthy_upstream;
        sent = [];
      }

      -- From the admission to the first pick. An upgrade has no body.
      abbrev pub entered :
          RuntimeConfig F Net Tls → GatewayError ⊎ Admitted F Net → Stage F Headers Net
      entered snap (inl e) = refused e
      entered snap (inr a) =
          if not f.upgrade && body_exceeds_limit http f.request.headers snap.max_body_bytes
          then refused payload_too_large
          else begin (attempts a) 0 (going snap a) a.upstream

      abbrev pub settled_on :
          RuntimeConfig F Net Tls
          → Going F Headers Net
          → Shared Tls
          → Next Headers
          → Stage F Headers Net × Shared Tls
      settled_on snap go s (done a t) = (
        ended (finish fl ip http f.context snap.compression accept_encoding go.admitted a)
            (going_of go t),
        write f.snapshot (name_of go) t.upstream
            (record s { metrics = record s.metrics { upstream_retries = t.retries } }),
      )
      settled_on snap go s (again t) = (
        begin go.left (go.attempt + 1) (going_of go t) t.upstream,
        write f.snapshot (name_of go) t.upstream
            (record s { metrics = record s.metrics { upstream_retries = t.retries } }),
      )

      -- The attempt's answer.
      abbrev pub forwarded_on :
          RuntimeConfig F Net Tls
          → ℕ
          → TargetRuntime
          → Option Body
          → Going F Headers Net
          → UpstreamRuntime
          → Shared Tls
          → Stage F Headers Net × Shared Tls
      forwarded_on snap i t b go u s = settled_on snap go s (
          send_to (network_of fl ip http f.context f.request go.admitted) go.admitted.upstream.retry
            go.attempt (go.attempt + 1 == attempts go.admitted) i
            (state_of go u s.metrics.upstream_retries) (some t) b)

      abbrev pub world_of :
          RuntimeConfig F Net Tls → Going F Headers Net → Shared Tls → World fl ip Headers Tls
      world_of snap go s = record {
        snapshot = snap;
        limiter = s.limiter;
        metrics = s.metrics;
        log = go.sent;
      }

      -- The tunnel of an upgrade.
      abbrev pub tunnelled_on :
          RuntimeConfig F Net Tls
          → ℕ
          → TargetRuntime
          → Going F Headers Net
          → UpstreamRuntime
          → Shared Tls
          → Stage F Headers Net × Shared Tls
      tunnelled_on snap i t go u s =
          let r =
            on_authority fl ip http f.dialer f.context f.request (world_of snap go s) go.admitted u
              i (parse_authority f.dialer t.url) in
          (
            ended r.0 (record go { sent = r.1.log }),
            record s { heap = set s.heap f.snapshot r.1.snapshot; metrics = r.1.metrics },
          )

      abbrev pub act_on :
          RuntimeConfig F Net Tls
          → Shared Tls
          → Stage F Headers Net
          → Option UpstreamRuntime
          → Stage F Headers Net × Shared Tls
      act_on snap s (picking zero go) (some u) = (ended (err no_healthy_upstream) go, s)
      act_on snap s (picking (suc k) go) (some u) =
          (counted u.next k go, write f.snapshot (name_of go) (advance u) s)
      act_on snap s (counted n k go) (some u) =
          (loaded n k go u (get_elem? u.schedule (n % length u.schedule)), s)
      act_on snap s (waiting i t b go) (some u) =
          if f.upgrade then tunnelled_on snap i t go u s else forwarded_on snap i t b go u s
      act_on snap s st u = (st, s)

      abbrev pub upstream_of :
          RuntimeConfig F Net Tls → Stage F Headers Net → Option UpstreamRuntime
      upstream_of snap (picking k go) = table_get (name_of go) snap.upstreams
      upstream_of snap (counted n k go) = table_get (name_of go) snap.upstreams
      upstream_of snap (waiting i t b go) = table_get (name_of go) snap.upstreams
      upstream_of snap st = none

      -- One action of a request, on the snapshot that it holds.
      abbrev pub stage_act :
          Shared Tls
          → Stage F Headers Net
          → Option (RuntimeConfig F Net Tls)
          → Stage F Headers Net × Shared Tls
      stage_act s st none = (st, s)
      stage_act s arrived (some snap) =
          let v =
            admit fl ip http f.context.decode f.context.hash snap f.context.listener_name f.request
              s.limiter in
          (entered snap v.0, record s { limiter = v.1 })
      stage_act s st (some snap) = act_on snap s st (upstream_of snap st)

      unfoldable pub act : Shared Tls → Stage F Headers Net → Stage F Headers Net × Shared Tls
      act s st = stage_act s st (get_elem? s.heap f.snapshot)
