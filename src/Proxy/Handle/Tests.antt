-- ===== src/Proxy/Handle/Tests.antt =====
-- Requests to a proxy with one listener, one route and two targets.
use gatepup.Prelude.{
  ◌||◌, ℕ, List, get_elem?, ◌≢◌, table_get, refl, ◌≡◌, true, false, some, none, [], ◌∷◌, replicate,
  codes, or_else, if◌then◌else◌, arith, text_eq, strip_prefix,
}
use gatepup.Interfaces.{whole}
use gatepup.Interfaces.Assoc.{assoc-IsHeaderMap, Headers, assoc, lookup, delete}
use gatepup.Interfaces.Bytes.{bytes_ip}
use gatepup.Health
use gatepup.Upstream.{pick_target, pick_loop, observe_target}
use gatepup.Router.Filters.{allows, apply, remove_all, set_all}
use gatepup.Router.Host.{host_matches, rank}
use gatepup.Router.Table.{route_matches, specificity}
use gatepup.Snapshot.{allows_method}
use gatepup.Proxy.Errors.{no_healthy_upstream}
use gatepup.Router.Select.{match_route, max_by_key}
use gatepup.Router.Rewrite.{rewritten_path_and_query}
use gatepup.Proxy.Forwarding.{rewrite_headers, set_header, append_forwarded_for}
use gatepup.Proxy.Body.{buffered, content_length, body_exceeds_limit, prepare_body_source, next}
use gatepup.Proxy.Admission.{Decision, admit, admit-Decision, find_route}
use gatepup.Proxy.Attempts.{answered, failed, State, attempts_loop, once_through, settle}
use gatepup.Proxy.Attempts.Trace.{IsTrace, attempts_loop-IsTrace}
use gatepup.Proxy.RequestId.{hex, generate_request_id, ensure_all, ensure_all_distinct}
use gatepup.Proxy.Client.{for_upstream}
use gatepup.Proxy.Forward.Verified.{without_insecure, forward_verified}
use gatepup.Proxy.Forward.{forward, upstream_headers}
use gatepup.Proxy.Handle.{
  Dialer, Arrival, unreachable, replied, dispatch, ensure_request_id, handle, handle_upgrade,
  parse_authority, header_of_upgrade,
}
use gatepup.Proxy.Handle.Example.{
  admitted, is_admitted, twice, upstream, page, network, snapshot, world, context, get, no_body,
}
use gatepup.Proxy.Handle.Stripped.{hop_by_hop_stripped}
use gatepup.Router.Filters.Headers.{assigned}
use gatepup.Proxy.Handle.Guarded.{Grows, handle_upgrade-Grows}
use gatepup.Proxy.Handle.Accounts.{counters, plus, tally, handle_accounts}

abbrev at_start : State Headers
at_start = record {
  upstream = upstream;
  body = buffered [];
  retries = 0;
  last_err = no_healthy_upstream;
  log = [];
}

attempts_loop-IsTrace_example :
    let r = attempts_loop network (some twice) 2 2 0 at_start in
    IsTrace (some twice) network 2 0 at_start r.0 r.1
attempts_loop-IsTrace_example =
    attempts_loop-IsTrace (some twice) network 2 2 0 at_start (omega arith)

admit-Decision_example :
    Decision whole bytes_ip assoc context.decode context.hash snapshot
      (codes "l")
      get
      (replicate 32 [])
      (admit whole bytes_ip assoc context.decode context.hash snapshot
        (codes "l")
        get
        (replicate 32 []))
admit-Decision_example =
    admit-Decision whole bytes_ip assoc context.decode context.hash snapshot (codes "l") get
      (replicate 32 [])

abbrev dialer : Dialer Headers
dialer = record {
  parse_uri = λ t. some (some t, none);
  buildable = λ t m. true;
  dial = λ a t m. unreachable;
  clock = 0;
  authority_of = λ a. a.0;
}

abbrev arrival : Arrival Headers
arrival = record {
  method = codes "GET";
  path = codes "/";
  path_and_query = some (codes "/");
  authority = none;
  headers = [];
  now = 0;
}

handle_accounts_example :
    let id = ensure_request_id whole bytes_ip assoc dialer (codes "1") [] in
    let o =
      (dispatch whole bytes_ip assoc dialer
        (record context { request_id = id })
        arrival
        no_body
        world).0 in
    counters
      (handle whole bytes_ip assoc dialer context (codes "1") arrival no_body world).1.metrics
    ≡ plus (1, 0, 0, 0) (tally o)
handle_accounts_example =
    handle_accounts whole bytes_ip assoc dialer context (codes "1") arrival no_body world

-- The first target cannot be reached, and the second answers.
retried_once :
    (forward whole bytes_ip assoc context get no_body world).1.log
    ≡ (0, failed false) ∷ (1, answered page) ∷ []
unfolding forward for_upstream admit find_route match_route max_by_key route_matches specificity
    host_matches rank allows table_get rewritten_path_and_query text_eq strip_prefix rewrite_headers
    apply remove_all set_all content_length body_exceeds_limit prepare_body_source allows_method
    attempts_loop once_through settle next pick_target pick_loop lookup delete set_header
    append_forwarded_for Health.new observe_target
retried_once = refl

abbrev upgrading : Dialer Headers
upgrading = record dialer { dial = λ a t m. replied (record page { status = 101 }) }

-- The upgrade goes to the first target.
handle_upgrade-Grows_example :
    Grows whole bytes_ip assoc upgrading context get world
      (handle_upgrade whole bytes_ip assoc upgrading context get world).1.log
handle_upgrade-Grows_example = handle_upgrade-Grows whole bytes_ip assoc upgrading context get world

upgraded_once :
    (handle_upgrade whole bytes_ip assoc upgrading context get world).1.metrics.websockets ≡ 1
unfolding handle_upgrade admit find_route match_route max_by_key route_matches specificity
    host_matches rank allows table_get rewritten_path_and_query text_eq strip_prefix pick_target
    pick_loop lookup delete set_header append_forwarded_for Health.new parse_authority
upgraded_once = refl

-- A client that always fails in place of the one that is not used.
forward_verified_example :
    forward whole bytes_ip assoc
      (without_insecure context (λ m h pq. record network { send = λ k i b. failed true }))
      get
      no_body
      world
    ≡ forward whole bytes_ip assoc context get no_body world
forward_verified_example =
    forward_verified whole bytes_ip assoc context get no_body
      (λ m h pq. record network { send = λ k i b. failed true }) world admitted is_admitted refl

-- Two requests at the same time.
abbrev at_once : List (ℕ × Headers)
at_once = (5, []) ∷ (5, []) ∷ []

first_id : get_elem? (ensure_all whole bytes_ip assoc dialer 0 at_once) 0 ≡ some (codes "500000000")
unfolding ensure_all generate_request_id hex ensure_request_id lookup
first_id = refl

second_id :
    get_elem? (ensure_all whole bytes_ip assoc dialer 0 at_once) 1 ≡ some (codes "500000001")
unfolding ensure_all generate_request_id hex ensure_request_id lookup
second_id = refl

ensure_all_distinct_example : codes "500000000" ≢ codes "500000001"
unfolding lookup
ensure_all_distinct_example =
    ensure_all_distinct whole bytes_ip assoc dialer 0 at_once 0 1 (5, []) (5, [])
      (codes "500000000") (codes "500000001") (omega arith) (omega arith) refl refl refl refl
      first_id second_id

-- From 2^32 ids on, two can be the same: the number then runs into the time.
wide_id : (generate_request_id 8589934592 1).0 ≡ (generate_request_id 0 18).0
unfolding generate_request_id hex
wide_id = refl

-- A client names its connection, and the route says nothing of it.
hop_by_hop_stripped_example :
    let req = record get { headers = (codes "connection", codes "close") ∷ [] } in
    let k = codes "connection" in
    (assoc.get k (upstream_headers whole bytes_ip assoc context req admitted.route)
      ≡ assigned k admitted.route.request_headers.set none)
    × (assoc.get k (header_of_upgrade whole bytes_ip assoc dialer context req (codes "a", 80)) ≡ (
        if text_eq (codes "host") k
        then or_else (assoc.header_value (codes "a")) none
        else if text_eq (codes "connection") k || text_eq (codes "upgrade") k
        then assoc.get k req.headers
        else none))
unfolding text_eq
hop_by_hop_stripped_example =
    hop_by_hop_stripped whole bytes_ip assoc assoc-IsHeaderMap dialer context
      (record get { headers = (codes "connection", codes "close") ∷ [] }) (codes "connection")
      admitted.route (codes "a", 80) refl
