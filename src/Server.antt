-- ===== src/Server.antt =====
-- crates/gatepup-proxy/src/server.rs: the start of the listeners, and the accept loop of one, with its
-- connections. Which addresses can be bound beside those that are bound already, and whether
-- the client of the upstreams can be built, are arguments. Times are milliseconds.
pub mod Bind
pub mod Lifecycle
mod Tests
use gatepup.Prelude.{
  ℕ, ◌+◌, Bool, true, false, Option, none, some, List, [], ◌∷◌, ◌++◌, map, ◌⊎◌, inl, inr, Text,
  codes, is_some, if◌then◌else◌,
}
use gatepup.Snapshot.{
  ProxyError, bind_error, upstream_tls, metrics_error, ListenerRuntime, RuntimeConfig,
}
use gatepup.Proxy.Forward.{Context}

-- `DRAIN_TIMEOUT` and `HANDSHAKE_TIMEOUT`.
abbrev pub drain_timeout : ℕ
drain_timeout = 15000

abbrev pub handshake_timeout : ℕ
handshake_timeout = 10000

pub record ConnLimits : Type 0 where
  pub header_read_timeout : Option ℕ
  pub max_header_bytes : Option ℕ

-- The arguments of an `accept_loop` that are fixed when it is spawned.
pub record AcceptLoop (Tls : Type 0) : Type 0 where
  pub listener_name : Text
  pub bind : Text
  pub tls : Option Tls
  pub limits : ConnLimits

-- `TcpListener::bind`: whether an address can be bound, which depends on the sockets that the process
-- holds already.
abbrev pub Sockets : Type 0
Sockets = List Text → Text → Bool

-- What `serve_shared` has spawned when it returns an error, or waits.
pub record Started (Tls : Type 0) : Type 0 where
  pub loops : List (AcceptLoop Tls)
  pub supervisor : Bool
  pub error : Option ProxyError

module _ {Tls : Type 0} where
  abbrev pub with_loop : AcceptLoop Tls → Started Tls → Started Tls
  with_loop l s = record s { loops = l ∷ s.loops }

  module _ {F Net : Type 0} where
    abbrev pub conn_limits : RuntimeConfig F Net Tls → ConnLimits
    conn_limits snapshot = record {
      header_read_timeout = snapshot.header_read_timeout;
      max_header_bytes = snapshot.max_header_bytes;
    }

    abbrev pub loop_of : ConnLimits → ListenerRuntime F Net Tls → AcceptLoop Tls
    loop_of limits l = record {
      listener_name = l.name;
      bind = l.bind;
      tls = l.tls;
      limits = limits;
    }

    -- The loop over the listeners, and what follows it. The addresses are those of the sockets that the
    -- process has bound already, the newest first.
    unfoldable pub bind_listeners :
        Sockets → List Text → ConnLimits → List (ListenerRuntime F Net Tls) → Started Tls
    bind_listeners can_bind bound limits [] = record { loops = []; supervisor = true; error = none }
    bind_listeners can_bind bound limits (l ∷ ls) =
        let rest = bind_listeners can_bind (l.bind ∷ bound) limits ls in
        if can_bind bound l.bind
        then with_loop (loop_of limits l) rest
        else record { loops = []; supervisor = false; error = some (bind_error l.name l.bind) }

    -- `serve_shared`, up to the wait for its tasks.
    unfoldable pub serve_shared : Sockets → Option Text → RuntimeConfig F Net Tls → Started Tls
    serve_shared can_bind (some message) snapshot = record {
      loops = [];
      supervisor = false;
      error = some (upstream_tls message);
    }
    serve_shared can_bind none snapshot =
        bind_listeners can_bind [] (conn_limits snapshot) snapshot.listeners

    -- `run`, with the error of `Metrics::new()` first.
    unfoldable pub run : Sockets → Option Text → Option Text → RuntimeConfig F Net Tls → Started Tls
    run can_bind client (some message) snapshot = record {
      loops = [];
      supervisor = false;
      error = some (metrics_error message);
    }
    run can_bind client none snapshot = serve_shared can_bind client snapshot

-- A task of the set of connections: not polled yet, in its handshake from a time on, serving, told to
-- finish what it serves, or over.
pub data Stage : Type 0 where
  spawned serving graceful closed : Stage
  handshaking : ℕ → Stage

-- `ConnCtx`, less what the connections share; `secured` is set by a completed handshake, and `served`
-- counts the requests.
pub record Conn (Addr : Type 0) : Type 0 where
  pub remote : Addr
  pub is_tls : Bool
  pub limits : ConnLimits
  pub stage : Stage
  pub secured : Bool
  pub served : ℕ

-- The loop accepts, waits for its connections from a time on, or has returned.
pub data Phase : Type 0 where
  accepting finished : Phase
  draining : ℕ → Phase

pub record State (Addr : Type 0) : Type 0 where
  pub phase : Phase
  pub now : ℕ
  pub signalled : Bool
  pub conns : List (Conn Addr)

pub data Handshake : Type 0 where
  completed failed elapsed : Handshake

module _ {Addr : Type 0} where
  module _ {Tls : Type 0} where
    -- `Ok((stream, remote))`.
    unfoldable pub accept : AcceptLoop Tls → Addr → State Addr → State Addr
    accept l remote s = record s {
      conns =
          record {
            remote = remote;
            is_tls = is_some l.tls;
            limits = l.limits;
            stage = spawned;
            secured = false;
            served = 0;
          }
          ∷ s.conns;
    }

    abbrev pub at_start : AcceptLoop Tls → ℕ → State Addr
    at_start l now = record { phase = accepting; now = now; signalled = false; conns = [] }

  -- The `break` of the loop, and `drop(tcp)`.
  unfoldable pub leave : State Addr → State Addr
  leave s = record s { phase = draining s.now }

  -- The two branches of the wait.
  abbrev pub drained : State Addr → State Addr
  drained s = record s { phase = finished }

  unfoldable pub abort_all : State Addr → State Addr
  abort_all s = record s { phase = finished; conns = [] }

  -- `serve_connection_maybe_tls`, up to its first wait, and what follows the handshake.
  unfoldable pub begin : ℕ → Conn Addr → Conn Addr
  begin now c = record c { stage = if c.is_tls then handshaking now else serving }

  unfoldable pub after_handshake : Handshake → Conn Addr → Conn Addr
  after_handshake completed c = record c { stage = serving; secured = true }
  after_handshake failed c = record c { stage = closed }
  after_handshake elapsed c = record c { stage = closed }

  -- `serve_connection`: a request, the shutdown, the end.
  abbrev pub request : Conn Addr → Conn Addr
  request c = record c { served = c.served + 1 }

  abbrev pub graceful_shutdown : Conn Addr → Conn Addr
  graceful_shutdown c = record c { stage = graceful }

  abbrev pub close : Conn Addr → Conn Addr
  close c = record c { stage = closed }
