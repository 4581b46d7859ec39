-- ===== src/Server/Lifecycle.antt =====
-- The life of one listener: what the `select!`s of its accept loop and of its connections can do, in
-- any order. The shutdown is signalled once the sender has sent or is gone. A timer that is due fires
-- before more time passes.
pub mod Invariant
pub mod Safety
pub mod Drain
use gatepup.Prelude.{ℕ, ◌+◌, ◌≤◌, ◌<◌, ◌≡◌, Bool, true, false, some, List, get_elem?, set, All}
use gatepup.Server.{
  AcceptLoop, Stage, spawned, serving, graceful, closed, handshaking, Conn, Phase, accepting,
  finished, draining, State, at_start, accept, leave, drained, abort_all, Handshake, completed,
  failed, elapsed, begin, after_handshake, request, graceful_shutdown, close, drain_timeout,
  handshake_timeout,
}

-- No timer is due.
abbrev pub IsWaiting : ℕ → Stage → Type 0
IsWaiting now (handshaking since) = now < since + handshake_timeout
IsWaiting now _ = Unit

abbrev pub CanWait : ℕ → Phase → Type 0
CanWait now (draining since) = now < since + drain_timeout
CanWait now _ = Unit

module _ {Addr : Type 0} where
  -- One connection, at a time and with the shutdown signalled or not.
  pub data Move (now : ℕ) (signalled : Bool) (c : Conn Addr) : Conn Addr → Type 0 where
    begins : c.stage ≡ spawned → Move now signalled c (begin now c)
    secures :
        {since : ℕ}
        → c.stage ≡ handshaking since
        → Move now signalled c (after_handshake completed c)
    fails :
        {since : ℕ} → c.stage ≡ handshaking since → Move now signalled c (after_handshake failed c)
    times_out :
        {since : ℕ}
        → c.stage ≡ handshaking since
        → since + handshake_timeout ≤ now
        → Move now signalled c (after_handshake elapsed c)
    requests : c.stage ≡ serving → Move now signalled c (request c)
    stops : c.stage ≡ serving → signalled ≡ true → Move now signalled c (graceful_shutdown c)
    ends : c.stage ≡ serving → Move now signalled c (close c)
    ends_gracefully : c.stage ≡ graceful → Move now signalled c (close c)

  abbrev pub IsQuiet : State Addr → Type 0
  IsQuiet s = CanWait s.now s.phase × All (λ c. IsWaiting s.now (Conn.stage c)) s.conns

  abbrev pub IsClosed : Conn Addr → Type 0
  IsClosed c = c.stage ≡ closed

  module _ {Tls : Type 0} (l : AcceptLoop Tls) where
    pub data Step (s : State Addr) : State Addr → Type 0 where
      signal : Step s (record s { signalled = true })
      accepts : (remote : Addr) → s.phase ≡ accepting → Step s (accept l remote s)
      leaves : s.phase ≡ accepting → s.signalled ≡ true → Step s (leave s)
      moves :
          (i : ℕ) (c d : Conn Addr)
          → get_elem? s.conns i ≡ some c
          → Move s.now s.signalled c d
          → Step s (record s { conns = set s.conns i d })
      all_ended : {since : ℕ} → s.phase ≡ draining since → All IsClosed s.conns → Step s (drained s)
      deadline :
          {since : ℕ}
          → s.phase ≡ draining since
          → since + drain_timeout ≤ s.now
          → Step s (abort_all s)
      tick : IsQuiet s → Step s (record s { now = s.now + 1 })

    pub data Reach (s : State Addr) : State Addr → Type 0 where
      here : Reach s s
      next : {t u : State Addr} → Reach s t → Step t u → Reach s u
