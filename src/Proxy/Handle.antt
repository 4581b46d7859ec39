-- ===== src/Proxy/Handle.antt =====
-- crates/gatepup-proxy/src/proxy.rs: `handle` and `handle_upgrade`. The tunnel of bytes that an
-- upgrade opens, the duration histogram and the log lines are left out.
pub mod Accounts
pub mod Guarded
pub mod Example
pub mod Stripped
mod Tests
use gatepup.Prelude.{
  table_insert, ℕ, suc, ◌+◌, Bool, true, false, not, Option, none, some, List, [], ◌∷◌, ◌++◌, ◌==◌,
  ltb, ◌>>=◌, unwrap_or, is_empty, ◌⊎◌, inl, inr, Text, codes, if◌then◌else◌,
}
use gatepup.Interfaces.{IpLib, HttpLib, Float}
use gatepup.Metrics.{
  Metrics, inc_requests, observe_duration, inc_upstream_requests, inc_upstream_errors,
  inc_route_not_found, inc_websocket,
}
use gatepup.Upstream.{
  TargetRuntime, UpstreamRuntime, Picked, target, no_target, panic, target_at, pick_target,
  observe_target,
}
use gatepup.Snapshot.{RuntimeConfig}
use gatepup.Proxy.Errors.{
  GatewayError, route_not_found, no_healthy_upstream, bad_gateway, upstream_connect,
  is_client_error, Response, error_response,
}
use gatepup.Proxy.ClientIp.{resolve_client_ip}
use gatepup.Proxy.Host.{request_host}
use gatepup.Proxy.Body.{Incoming}
use gatepup.Proxy.Forwarding.{get_str, is_upgrade, upgrade_headers}
use gatepup.Proxy.Admission.{Request, Admitted}
use gatepup.Proxy.Attempts.{Sent, failed, answered}
use gatepup.Router.Rewrite.{rewritten_path_and_query}
use gatepup.Proxy.Forward.{Forwarded, Outcome, ok, err, crash, World, Context, decide, forward}

-- What a connection of its own to the target comes to.
pub data Tunnel (Headers : Type 0) : Type 0 where
  unreachable no_handshake no_reply : Tunnel Headers
  replied : Response Headers → Tunnel Headers

-- The parser of URIs, by host and port; whether a request can be built of a path and query with
-- headers; the connection; the clock.
pub record Dialer (Headers : Type 0) : Type 0 where
  pub parse_uri : Text → Option (Option Text × Option ℕ)
  pub buildable : Text → Headers → Bool
  pub dial : Text × ℕ → Text → Headers → Tunnel Headers
  pub clock : ℕ
  pub authority_of : Text × ℕ → Text

-- `parse_authority`.
unfoldable pub parse_authority : {Headers : Type 0} → Dialer Headers → Text → Option (Text × ℕ)
parse_authority d url = d.parse_uri url >>= (λ u. u.0 >>= (λ host. some (host, unwrap_or 80 u.1)))

abbrev pub url_of : Option TargetRuntime → Text
url_of none = []
url_of (some t) = t.url

-- A request as it arrives.
pub record Arrival (Headers : Type 0) : Type 0 where
  pub method : Text
  pub path : Text
  pub path_and_query : Option Text
  pub authority : Option Text
  pub headers : Headers
  pub now : ℕ

abbrev pub is_route_not_found : GatewayError → Bool
is_route_not_found route_not_found = true
is_route_not_found _ = false

abbrev pub count_error : GatewayError → Metrics → Metrics
count_error e m =
    if is_route_not_found e
    then inc_route_not_found m
    else if not (is_client_error e)
    then inc_upstream_errors m
    else m

-- `match outcome`, with `observe_duration` behind it; a crash gives no response and no duration.
abbrev pub count_outcome : {Headers : Type 0} → Outcome Headers → Metrics → Metrics
count_outcome (ok f) m = observe_duration (inc_upstream_requests m)
count_outcome (err e) m = observe_duration (count_error e m)
count_outcome crash m = m

module _ {F Headers Addr Net : Type 0} (fl : Float F) (ip : IpLib Addr Net) (http : HttpLib Headers)
    (d : Dialer Headers) where
  abbrev pub header_of_upgrade : Context Headers Addr → Request Headers Addr → Text × ℕ → Headers
  header_of_upgrade c req authority =
      upgrade_headers http (d.authority_of authority) req.host c.scheme (ip.to_string c.remote)
        c.request_id req.headers

  module _ {Tls : Type 0} where
    abbrev pub with_target :
        World fl ip Headers Tls → Admitted F Net → UpstreamRuntime → World fl ip Headers Tls
    with_target w a u = record w {
      snapshot = record w.snapshot {
        upstreams = table_insert a.route.upstream u w.snapshot.upstreams;
      };
    }

    abbrev pub tunnelled :
        World fl ip Headers Tls
        → Admitted F Net
        → UpstreamRuntime
        → ℕ
        → Tunnel Headers
        → Outcome Headers × World fl ip Headers Tls
    tunnelled w a u i unreachable =
        (err upstream_connect, with_target w a (observe_target d.clock false i u))
    tunnelled w a u i no_handshake =
        (err upstream_connect, with_target w a (observe_target d.clock false i u))
    tunnelled w a u i no_reply = (
      err upstream_connect,
      with_target (record w { log = w.log ++ (i, failed false) ∷ [] }) a
          (observe_target d.clock false i u),
    )
    tunnelled w a u i (replied resp) =
        let switched = resp.status == 101 in
        let relayed = if switched then record resp { body = [] } else resp in
        let good = if switched then true else ltb resp.status 500 in
        (
          ok (record { response = relayed; route = a.route.name; upstream = a.route.upstream }),
          with_target
              (record w {
                log = w.log ++ (i, answered resp) ∷ [];
                metrics = if switched then inc_websocket w.metrics else w.metrics;
              })
              a (observe_target d.clock good i u),
        )

    abbrev pub on_authority :
        Context Headers Addr
        → Request Headers Addr
        → World fl ip Headers Tls
        → Admitted F Net
        → UpstreamRuntime
        → ℕ
        → Option (Text × ℕ)
        → Outcome Headers × World fl ip Headers Tls
    on_authority c req w a u i none = (err bad_gateway, with_target w a u)
    on_authority c req w a u i (some authority) =
        let pq = rewritten_path_and_query a.route req.path_and_query in
        let m = header_of_upgrade c req authority in
        if d.buildable pq m
        then tunnelled w a u i (d.dial authority pq m)
        else (err bad_gateway, with_target w a u)

    abbrev pub on_pick :
        Context Headers Addr
        → Request Headers Addr
        → World fl ip Headers Tls
        → Admitted F Net
        → UpstreamRuntime
        → Picked
        → Outcome Headers × World fl ip Headers Tls
    on_pick c req w a u no_target = (err no_healthy_upstream, with_target w a u)
    on_pick c req w a u panic = (crash, with_target w a u)
    on_pick c req w a u (target i) =
        on_authority c req w a u i (parse_authority d (url_of (target_at u i)))

    abbrev pub on_admitted :
        Context Headers Addr
        → Request Headers Addr
        → World fl ip Headers Tls
        → GatewayError ⊎ Admitted F Net
        → Outcome Headers × World fl ip Headers Tls
    on_admitted c req w (inl e) = (err e, w)
    on_admitted c req w (inr a) = let p = pick_target a.upstream in on_pick c req w a p.1 p.0

    -- `handle_upgrade`.
    unfoldable pub handle_upgrade :
        Context Headers Addr
        → Request Headers Addr
        → World fl ip Headers Tls
        → Outcome Headers × World fl ip Headers Tls
    handle_upgrade c req w =
        let v = decide fl ip http c req w in on_admitted c req (record w { limiter = v.1 }) v.0

  -- The values that `handle` takes from the request: the id is the client's, or a new one.
  abbrev pub non_empty_or : Text → Option Text → Text
  non_empty_or generated none = generated
  non_empty_or generated (some t) = if is_empty t then generated else t

  -- `ensure_request_id`.
  unfoldable pub ensure_request_id : Text → Headers → Text
  ensure_request_id generated m = non_empty_or generated (get_str http (codes "x-request-id") m)

  abbrev pub respond : Text → Outcome Headers → Option (Response Headers)
  respond request_id (ok f) = some f.response
  respond request_id (err e) = some (error_response http e request_id)
  respond request_id crash = none

  module _ {Tls : Type 0} where
    abbrev pub arrive :
        Context Headers Addr → RuntimeConfig F Net Tls → Arrival Headers → Request Headers Addr
    arrive c snapshot req = record {
      method = req.method;
      path = req.path;
      path_and_query = req.path_and_query;
      headers = req.headers;
      host = request_host http req.headers req.authority;
      client_ip =
          resolve_client_ip ip c.remote (get_str http (codes "x-forwarded-for") req.headers)
            snapshot.trusted_proxies;
      now = req.now;
    }

    -- The outcome of one request, after `metrics.inc_requests()`.
    abbrev pub dispatch :
        Context Headers Addr
        → Arrival Headers
        → Incoming
        → World fl ip Headers Tls
        → Outcome Headers × World fl ip Headers Tls
    dispatch c req body w =
        let v = record w { metrics = inc_requests w.metrics } in
        if is_upgrade http req.headers
        then handle_upgrade c (arrive c w.snapshot req) v
        else forward fl ip http c (arrive c w.snapshot req) body v

    -- `handle`, with the text that `generate_request_id` would make.
    unfoldable pub handle :
        Context Headers Addr
        → Text
        → Arrival Headers
        → Incoming
        → World fl ip Headers Tls
        → Option (Response Headers) × World fl ip Headers Tls
    handle c generated req body w =
        let id = ensure_request_id generated req.headers in
        let r = dispatch (record c { request_id = id }) req body w in
        (respond id r.0, record r.1 { metrics = count_outcome r.0 r.1.metrics })
