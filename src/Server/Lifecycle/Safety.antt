-- ===== src/Server/Lifecycle/Safety.antt =====
-- What the connections and the shutdown never do.
use gatepup.Prelude.{
  length-set, ℕ, ◌+◌, ◌≤◌, ◌<◌, ◌≡◌, ◌≢◌, ◌∙◌, true, some, length, get_elem?, is_some, arith,
}
use gatepup.Server.{
  AcceptLoop, Stage, spawned, serving, graceful, closed, handshaking, Conn, accepting, draining,
  State, at_start, abort_all, drain_timeout,
}
use gatepup.Server.Lifecycle.{
  Step, signal, accepts, leaves, moves, all_ended, deadline, tick, Reach, here, next,
}
use gatepup.Server.Lifecycle.Invariant.{All-get_elem?, StageOk, IsSound, PhaseOk, Reach-Inv}

module _ {Addr Tls : Type 0} (l : AcceptLoop Tls) where
  secured_of :
      (now : ℕ) (c : Conn Addr) (t : Stage)
      → StageOk l now c t
      → c.is_tls ≡ true
      → 0 < c.served
      → c.secured ≡ true
  secured_of now c spawned h k p = absurd (omega arith)
  secured_of now c (handshaking since) h k p = absurd (omega (arith, h.0))
  secured_of now c serving h k p = ground arith
  secured_of now c graceful h k p = ground arith
  secured_of now c closed h k p = ground arith

  -- A connection of a TLS listener has a completed handshake before its first request.
  pub handshake_first :
      {start : ℕ} {s : State Addr} {c : Conn Addr} (i : ℕ)
      → Reach l (at_start l start) s
      → is_some l.tls ≡ true
      → get_elem? s.conns i ≡ some c
      → 0 < c.served
      → c.secured ≡ true
  handshake_first {s} {c} i r t e p =
      let h = All-get_elem? (IsSound l s.now) s.conns i (Reach-Inv l r).sound e in
      secured_of s.now c c.stage h.stage_ok (h.kind ∙ t) p

  Step-closed :
      {s t : State Addr}
      → Step l s t
      → s.phase ≢ accepting
      → (length t.conns ≤ length s.conns) × (t.phase ≢ accepting)
  unfolding abort_all
  Step-closed signal n = (omega arith, n)
  Step-closed (accepts remote e) n = absurd (n e)
  Step-closed (leaves e g) n = absurd (n e)
  Step-closed {s} (moves i c d e m) n = (omega (arith, length-set s.conns i d), n)
  Step-closed (all_ended e a) n = (omega arith, λ q. ground arith)
  Step-closed (deadline e a) n = (omega arith, λ q. ground arith)
  Step-closed (tick q) n = (omega arith, n)

  -- Once the loop has left, no connection is accepted any more: their number never grows.
  pub no_accept_after :
      {s t : State Addr}
      → Reach l s t
      → s.phase ≢ accepting
      → (length t.conns ≤ length s.conns) × (t.phase ≢ accepting)
  no_accept_after here n = (omega arith, n)
  no_accept_after (next r st) n =
      let (a, b) = no_accept_after r n in let (c, d) = Step-closed st b in (omega arith, d)

  -- The wait for the connections lasts 15 seconds at most, in any run, and starts only on a signal.
  pub drain_bounded :
      {start since : ℕ} {s : State Addr}
      → Reach l (at_start l start) s
      → s.phase ≡ draining since
      → (s.signalled ≡ true) × (s.now ≤ since + drain_timeout)
  drain_bounded {since} {s} r e =
      let h : PhaseOk l s (draining since) = rw e at ((Reach-Inv l r).phase_ok) in (h.0, h.2)
