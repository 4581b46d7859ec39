-- ===== src/Proxy/Handle/Accounts.antt =====
-- How the metrics count the requests.
use gatepup.Prelude.{
  ℕ, ◌+◌, ◌≡◌, refl, ap, ◌∙◌, Option, none, some, ◌==◌, ltb, ◌⊎◌, inl, inr, Text, Bool-cases,
  if◌then◌else◌, arith,
}
use gatepup.Interfaces.{IpLib, HttpLib, Float}
use gatepup.Upstream.{UpstreamRuntime, Picked, target, no_target, panic, target_at, pick_target}
use gatepup.Proxy.Errors.{GatewayError, parts, is_client_error}
use gatepup.Proxy.Body.{Incoming, body_exceeds_limit}
use gatepup.Proxy.Forwarding.{is_upgrade}
use gatepup.Proxy.Admission.{Request, Admitted}
use gatepup.Metrics.{Metrics}
use gatepup.Proxy.Forward.{Outcome, ok, err, crash, World, Context, decide, forward}
use gatepup.Proxy.Forward
use gatepup.Proxy.Handle.{
  Tunnel, unreachable, no_handshake, no_reply, replied, Dialer, Arrival, tunnelled, on_authority,
  on_pick, on_admitted, handle_upgrade, parse_authority, url_of, count_outcome, arrive, dispatch,
  handle, ensure_request_id, header_of_upgrade,
}
use gatepup.Router.Rewrite.{rewritten_path_and_query}

-- The counters that `handle` alone moves.
abbrev pub counters : Metrics → ℕ × ℕ × ℕ × ℕ
counters m = (m.requests, m.upstream_requests, m.route_not_found, m.upstream_errors)

-- One request in each counter, by the status that the client gets: a forwarded response, a 404 of the
-- proxy, or a 5xx of the proxy.
abbrev pub tally : {Headers : Type 0} → Outcome Headers → ℕ × ℕ × ℕ
tally (ok f) = (1, 0, 0)
tally (err e) =
    if (parts e).0 == 404 then (0, 1, 0) else if ltb (parts e).0 500 then (0, 0, 0) else (0, 0, 1)
tally crash = (0, 0, 0)

abbrev pub plus : ℕ × ℕ × ℕ × ℕ → ℕ × ℕ × ℕ → ℕ × ℕ × ℕ × ℕ
plus (r, u, n, e) (a, b, c) = (r, u + a, n + b, e + c)

count_outcome-tally :
    {Headers : Type 0} (o : Outcome Headers) (m : Metrics)
    → counters (count_outcome o m) ≡ plus (counters m) (tally o)
unfolding parts is_client_error
count_outcome-tally (ok f) m = grind arith
count_outcome-tally (err e) m = grind arith
count_outcome-tally crash m = grind arith

module _ {F Headers Addr Net Tls : Type 0} (fl : Float F) (ip : IpLib Addr Net)
    (http : HttpLib Headers) (d : Dialer Headers) (c : Context Headers Addr) where
  admitted-counters :
      (req : Request Headers Addr) (body : Incoming) (w : World fl ip Headers Tls)
      (v : GatewayError ⊎ Admitted F Net)
      → counters (Forward.on_admitted fl ip http c req body w v).1.metrics ≡ counters w.metrics
  admitted-counters req body w (inl e) = refl
  admitted-counters req body w (inr a) =
      elim (Bool-cases (body_exceeds_limit http req.headers w.snapshot.max_body_bytes)) [
        | inl e ↦ rw e refl
        | inr e ↦ rw e refl
      ]

  forward-counters :
      (req : Request Headers Addr) (body : Incoming) (w : World fl ip Headers Tls)
      → counters (forward fl ip http c req body w).1.metrics ≡ counters w.metrics
  unfolding forward
  forward-counters req body w =
      admitted-counters req body (record w { limiter = (decide fl ip http c req w).1 })
        (decide fl ip http c req w).0

  tunnelled-counters :
      (w : World fl ip Headers Tls) (a : Admitted F Net) (u : UpstreamRuntime) (i : ℕ)
      (t : Tunnel Headers)
      → counters (tunnelled fl ip http d w a u i t).1.metrics ≡ counters w.metrics
  tunnelled-counters w a u i unreachable = refl
  tunnelled-counters w a u i no_handshake = refl
  tunnelled-counters w a u i no_reply = refl
  tunnelled-counters w a u i (replied resp) = elim (Bool-cases (resp.status == 101)) [
    | inl e ↦ rw e refl
    | inr e ↦ rw e refl
  ]

  authority-counters :
      (req : Request Headers Addr) (w : World fl ip Headers Tls) (a : Admitted F Net)
      (u : UpstreamRuntime) (i : ℕ) (o : Option (Text × ℕ))
      → counters (on_authority fl ip http d c req w a u i o).1.metrics ≡ counters w.metrics
  authority-counters req w a u i none = refl
  authority-counters req w a u i (some t) =
      let pq = rewritten_path_and_query a.route req.path_and_query in
      let m = header_of_upgrade fl ip http d c req t in
      elim (Bool-cases (d.buildable pq m)) [
        | inl e ↦ rw e (tunnelled-counters w a u i (d.dial t pq m))
        | inr e ↦ rw e refl
      ]

  pick-counters :
      (req : Request Headers Addr) (w : World fl ip Headers Tls) (a : Admitted F Net)
      (u : UpstreamRuntime) (p : Picked)
      → counters (on_pick fl ip http d c req w a u p).1.metrics ≡ counters w.metrics
  pick-counters req w a u no_target = refl
  pick-counters req w a u panic = refl
  pick-counters req w a u (target i) =
      authority-counters req w a u i (parse_authority d (url_of (target_at u i)))

  upgrade-counters :
      (req : Request Headers Addr) (w : World fl ip Headers Tls) (v : GatewayError ⊎ Admitted F Net)
      → counters (on_admitted fl ip http d c req w v).1.metrics ≡ counters w.metrics
  upgrade-counters req w (inl e) = refl
  upgrade-counters req w (inr a) =
      pick-counters req w a (pick_target a.upstream).1 (pick_target a.upstream).0

  handle_upgrade-counters :
      (req : Request Headers Addr) (w : World fl ip Headers Tls)
      → counters (handle_upgrade fl ip http d c req w).1.metrics ≡ counters w.metrics
  unfolding handle_upgrade
  handle_upgrade-counters req w =
      upgrade-counters req (record w { limiter = (decide fl ip http c req w).1 })
        (decide fl ip http c req w).0

  dispatch-counters :
      (req : Arrival Headers) (body : Incoming) (w : World fl ip Headers Tls)
      → counters (dispatch fl ip http d c req body w).1.metrics
        ≡ counters (record w.metrics { requests = w.metrics.requests + 1 })
  dispatch-counters req body w =
      let v = record w { metrics = record w.metrics { requests = w.metrics.requests + 1 } } in
      elim (Bool-cases (is_upgrade http req.headers)) [
        | inl e ↦ rw e (handle_upgrade-counters (arrive fl ip http d c w.snapshot req) v)
        | inr e ↦ rw e (forward-counters (arrive fl ip http d c w.snapshot req) body v)
      ]

-- Each request is counted once in the total, and once more by its outcome: a response of an upstream,
-- a 404 of the proxy or a 5xx of the proxy. Other refusals are in the total alone.
pub handle_accounts :
    {F Headers Addr Net Tls : Type 0} (fl : Float F) (ip : IpLib Addr Net) (http : HttpLib Headers)
    (d : Dialer Headers) (c : Context Headers Addr) (generated : Text) (req : Arrival Headers)
    (body : Incoming) (w : World fl ip Headers Tls)
    → let id = ensure_request_id fl ip http d generated req.headers in
      let o = (dispatch fl ip http d (record c { request_id = id }) req body w).0 in
      counters (handle fl ip http d c generated req body w).1.metrics
      ≡ plus (counters (record w.metrics { requests = w.metrics.requests + 1 })) (tally o)
unfolding handle
handle_accounts fl ip http d c generated req body w =
    let id = ensure_request_id fl ip http d generated req.headers in
    let r = dispatch fl ip http d (record c { request_id = id }) req body w in
    count_outcome-tally r.0 r.1.metrics
    ∙ ap (λ m. plus m (tally r.0))
        (dispatch-counters fl ip http d (record c { request_id = id }) req body w)
