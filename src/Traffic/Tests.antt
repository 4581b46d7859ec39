-- ===== src/Traffic/Tests.antt =====
-- A request that a reload overtakes, and one whose client leaves.
use gatepup.Prelude.{
  table_get, table_insert, text_eq, strip_prefix, split_from, split_once, parse_digits, ℕ, ◌+◌, ◌≡◌,
  refl, none, [], ◌∷◌, ◌++◌, length, replicate, codes, arith,
}
use gatepup.Interfaces.{whole}
use gatepup.Interfaces.Assoc.{Headers, assoc}
use gatepup.Interfaces.Bytes.{bytes_ip}
use gatepup.Snapshot.{build_upstream}
use gatepup.Router.Table.{build_route}
use gatepup.Proxy.Errors.{no_healthy_upstream}
use gatepup.Proxy.Body.{once}
use gatepup.Proxy.Attempts.{timed_out}
use gatepup.Proxy.Admission.{Admitted}
use gatepup.Service.Example.{
  config, route, pair, pair-IsBalanced, no_tls, snapshot, builds, rebuilds, context, dialer,
  arrival, no_body,
}
use gatepup.Router.Table.{route_matches, specificity, build}
use gatepup.Router.Select.{max_from, max_by_key, match_route}
use gatepup.Router.Host.{compile_host, host_matches, rank}
use gatepup.Router.Filters.{compile_rate, compile_access, allows, compile_ops}
use gatepup.Snapshot.{build_upstreams}
use gatepup.Schedule.{gcd, gcd_all, divisor, pass, rounds, build_schedule, indices, schedule_for}
use gatepup.Interfaces.Assoc.{lookup}
use gatepup.Proxy.Body
use gatepup.Health
use gatepup.Proxy.Admission.{find_route, admit}
use gatepup.Proxy.Body.{content_length}
use gatepup.Proxy.Forwarding.{rewrite_headers, is_upgrade, set_header, append_forwarded_for}
use gatepup.Proxy.ClientIp.{is_trusted, walk, resolve_client_ip}
use gatepup.Proxy.Host.{request_host}
use gatepup.Traffic.{Going, Flight, Shared, act}
use gatepup.Service.Valid.{build_snapshot-AllValid}
use gatepup.Traffic.Heap.{KeptAll-append, append-Sounds}
use gatepup.Traffic.Invariant.{IsRunning, started-IsRunning}
use gatepup.Traffic.Budget.{IsOver, allowance}
use gatepup.Traffic.Ends.{act_among, KeepHeap, request_ends}
use gatepup.Proxy.Handle.{handle}
use gatepup.Traffic.Alone.Whole.{world_at}
use gatepup.Traffic.Alone.Handle.{IsHandled, alone-eq-handle}
use gatepup.Traffic.Run.{System, started, flight_of, Reach, here, next, arrives, acts, reloads}
use gatepup.Traffic.Answers.{requests_accounted}

abbrev start : System whole bytes_ip Headers ℕ
start = started whole bytes_ip snapshot (replicate 32 [])

abbrev f0 : Flight ℕ Headers ℕ ℕ
f0 = flight_of whole bytes_ip assoc dialer context (codes "1") arrival no_body 0 snapshot

abbrev begun : System whole bytes_ip Headers ℕ
begun = record start {
  shared = record start.shared { metrics = record start.shared.metrics { requests = 1 } };
  flights = f0 ∷ [];
}

abbrev moved : System whole bytes_ip Headers ℕ → Flight ℕ Headers ℕ ℕ → Flight ℕ Headers ℕ ℕ
moved w f = record f { stage = (act whole bytes_ip assoc f.call w.shared f.stage).0 }

-- The state after an action of the only request.
abbrev acted :
    System whole bytes_ip Headers ℕ → Flight ℕ Headers ℕ ℕ → System whole bytes_ip Headers ℕ
acted w f = record w {
  shared = (act whole bytes_ip assoc f.call w.shared f.stage).1;
  flights = [] ++ moved w f ∷ [];
}

abbrev reloaded : System whole bytes_ip Headers ℕ → System whole bytes_ip Headers ℕ
reloaded w = record w {
  shared = record w.shared { heap = w.shared.heap ++ snapshot ∷ [] };
  current = length w.shared.heap;
}

abbrev f1 : Flight ℕ Headers ℕ ℕ
f1 = moved begun f0

abbrev admitted_shared : Shared whole bytes_ip ℕ
admitted_shared = (act whole bytes_ip assoc f0.call begun.shared f0.stage).1

abbrev w1 : System whole bytes_ip Headers ℕ
w1 = reloaded (acted begun f0)

abbrev f2 : Flight ℕ Headers ℕ ℕ
f2 = moved w1 f1

abbrev w2 : System whole bytes_ip Headers ℕ
w2 = acted w1 f1

abbrev f3 : Flight ℕ Headers ℕ ℕ
f3 = moved w2 f2

abbrev w3 : System whole bytes_ip Headers ℕ
w3 = reloaded (acted w2 f2)

abbrev f4 : Flight ℕ Headers ℕ ℕ
f4 = moved w3 f3

abbrev w4 : System whole bytes_ip Headers ℕ
w4 = acted w3 f3

reloaded-Reach :
    {w : System whole bytes_ip Headers ℕ}
    → Reach whole bytes_ip assoc no_tls start w
    → Reach whole bytes_ip assoc no_tls start (reloaded w)
reloaded-Reach r = next r (reloads config snapshot (pair-IsBalanced, tt) rebuilds)

w4-Reach : Reach whole bytes_ip assoc no_tls start w4
w4-Reach =
    let r0 : Reach whole bytes_ip assoc no_tls start begun =
      next here (arrives dialer context (codes "1") arrival no_body snapshot refl) in
    let r1 = reloaded-Reach (next r0 (acts [] [] f0 refl)) in
    let r2 = next r1 (acts [] [] f1 refl) in
    let r3 = reloaded-Reach (next r2 (acts [] [] f2 refl)) in next r3 (acts [] [] f3 refl)

abbrev compiled : Admitted ℕ ℕ
compiled = record {
  route = build_route whole bytes_ip assoc route;
  upstream = build_upstream assoc.method pair;
}

abbrev over : Going ℕ Headers ℕ
over = record {
  admitted = compiled;
  left = 0;
  attempt = 0;
  body = once none;
  last_err = no_healthy_upstream;
  sent = (0, timed_out) ∷ [];
}

requests_accounted_example : w4.shared.metrics.requests ≡ 1 + (w4.shared.metrics.durations + 0)
requests_accounted_example =
    requests_accounted whole bytes_ip assoc no_tls config (pair-IsBalanced, tt) builds w4-Reach

-- A reload before every action.
abbrev reloading : ℕ → Shared whole bytes_ip ℕ → Shared whole bytes_ip ℕ
reloading k s = record s { heap = s.heap ++ snapshot ∷ [] }

start-IsRunning : IsRunning whole bytes_ip assoc start
start-IsRunning = started-IsRunning whole bytes_ip assoc snapshot (replicate 32 []) (
    build_snapshot-AllValid whole bytes_ip assoc no_tls config snapshot (pair-IsBalanced, tt)
      builds)

reloading-KeepHeap : KeepHeap whole bytes_ip reloading
reloading-KeepHeap = record {
  kept = λ k s h. KeptAll-append s.heap (snapshot ∷ []);
  sound = λ k s h. append-Sounds s.heap snapshot h (start-IsRunning.sound 0 snapshot refl);
}

eight_actions :
    allowance whole bytes_ip assoc f0.call
      (admit whole bytes_ip assoc context.decode context.hash snapshot context.listener_name
        f0.call.request start.shared.limiter).0
    ≡ 8
unfolding table_get table_insert text_eq strip_prefix split_from split_once parse_digits
    route_matches specificity build_route build max_from max_by_key match_route compile_host
    host_matches rank compile_rate compile_access allows compile_ops build_upstream build_upstreams
    gcd gcd_all divisor pass rounds build_schedule indices schedule_for find_route admit
    content_length rewrite_headers is_upgrade set_header append_forwarded_for is_trusted walk
    resolve_client_ip request_host lookup Health.new
eight_actions = refl

request_ends_example :
    IsOver (act_among whole bytes_ip assoc f0.call reloading 8 admitted_shared f1.stage).0
request_ends_example =
    request_ends whole bytes_ip assoc f0.call reloading reloading-KeepHeap 8 begun.shared snapshot
      start-IsRunning.sound refl (rw eight_actions (omega arith))

alone-eq-handle_example : IsHandled whole bytes_ip assoc f0.call start.shared (
    handle whole bytes_ip assoc dialer context
      (codes "1")
      arrival
      no_body
      (world_at whole bytes_ip assoc f0.call start.shared snapshot))
alone-eq-handle_example =
    alone-eq-handle whole bytes_ip assoc dialer context (codes "1") arrival no_body 0 start.shared
      snapshot refl
