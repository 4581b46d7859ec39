-- ===== src/Server/Tests.antt =====
-- A TLS listener with one client, and a start whose second address is in use.
use gatepup.Prelude.{
  any, ℕ, ◌+◌, ◌≤◌, ◌≡◌, refl, true, not, none, some, [], ◌∷◌, codes, arith, text_eq,
}
use gatepup.Snapshot.{bind_error, RuntimeConfig}
use gatepup.Server.{
  Sockets, bind_listeners, AcceptLoop, Conn, State, at_start, accept, leave, begin, after_handshake,
  accepting, draining, finished, drain_timeout, serve_shared, serving,
}
use gatepup.Server.Bind.{Serves, serve_shared-Serves}
use gatepup.Server.Lifecycle.{
  Step, signal, accepts, leaves, moves, tick, Reach, next, begins, secures, requests,
}
use gatepup.Server.Lifecycle
use gatepup.Server.Lifecycle.Safety.{handshake_first}
use gatepup.Server.Lifecycle.Drain.{Timers, drain-Ends}

abbrev listener : AcceptLoop ℕ
listener = record {
  listener_name = codes "l";
  bind = codes "a";
  tls = some 0;
  limits = record { header_read_timeout = some 10000; max_header_bytes = none };
}

abbrev client : Conn ℕ
client = record {
  remote = 9;
  is_tls = true;
  limits = listener.limits;
  stage = serving;
  secured = true;
  served = 1;
}

abbrev serving_one : State ℕ
serving_one = record { phase = accepting; now = 0; signalled = not true; conns = client ∷ [] }

serving_one-Reach : Reach listener (at_start listener 0) serving_one
unfolding accept begin after_handshake
serving_one-Reach =
    next
      (next (next (next Lifecycle.here (accepts 9 refl)) (moves 0 _ _ refl (begins refl)))
        (moves 0 _ _ refl (secures refl)))
      (moves 0 _ _ refl (requests refl))

abbrev closing : State ℕ
closing = record { phase = draining 0; now = 0; signalled = true; conns = client ∷ [] }

closing-Reach : Reach listener (at_start listener 0) closing
unfolding leave
closing-Reach = next (next serving_one-Reach signal) (leaves refl refl)

handshake_first_example : client.secured ≡ true
handshake_first_example = handshake_first listener 0 serving_one-Reach refl refl (omega arith)

closing-Step : Reach listener closing (record closing { now = 1 })
closing-Step = next Lifecycle.here (tick (omega arith, (tt, tt)))

drain-Ends_example :
    (t : State ℕ) × Timers listener closing t × (t.phase ≡ finished) × (t.now ≤ 0 + drain_timeout)
drain-Ends_example = drain-Ends listener closing-Reach refl

abbrev snapshot : RuntimeConfig ℕ ℕ ℕ
snapshot = record {
  listeners =
      record { name = codes "l"; bind = codes "a"; router = []; tls = some 0 }
      ∷ record { name = codes "m"; bind = codes "a"; router = []; tls = none }
      ∷ [];
  upstreams = [];
  connect_timeout = 5000;
  request_timeout = 30000;
  max_body_bytes = 0;
  header_read_timeout = some 10000;
  max_header_bytes = none;
  trusted_proxies = [];
  compression = none;
}

-- A socket for each address but one that is bound.
abbrev once_each : Sockets
once_each bound a = not (any (λ b. text_eq b a) bound)

serve_shared-Serves_example : Serves once_each none snapshot (serve_shared once_each none snapshot)
serve_shared-Serves_example = serve_shared-Serves once_each none snapshot

-- Of two listeners with one address, the first runs.
second_refused :
    (serve_shared once_each none snapshot).error ≡ some (bind_error (codes "m") (codes "a"))
unfolding serve_shared bind_listeners text_eq
second_refused = refl
