-- ===== src/Server/Lifecycle/Drain.antt =====
-- The end of a listener by its timers alone.
use native.Mathlib.Decide.{dec_le}
use gatepup.Prelude.{
  ℕ, zero, suc, ◌+◌, ◌-◌, ◌≤◌, ◌<◌, ◌≡◌, refl, ap, some, List, [], ◌∷◌, ◌++◌, append_assoc,
  append-nil, length, get_elem?, set, All, arith,
}
use gatepup.Server.{
  AcceptLoop, Stage, spawned, serving, graceful, closed, handshaking, Conn, finished, draining,
  State, at_start, abort_all, elapsed, after_handshake, drain_timeout, handshake_timeout,
}
use gatepup.Server.Lifecycle.{
  times_out, IsWaiting, CanWait, IsQuiet, Step, moves, deadline, tick, Reach, here, next,
}
use gatepup.Server.Lifecycle.Safety.{drain_bounded}

module _ {Addr Tls : Type 0} (l : AcceptLoop Tls) where
  -- The steps that need nobody: time passes, or a timer fires.
  pub data Timer (s : State Addr) : State Addr → Type 0 where
    passes : IsQuiet s → Timer s (record s { now = s.now + 1 })
    gives_up :
        (i since : ℕ) (c : Conn Addr)
        → get_elem? s.conns i ≡ some c
        → c.stage ≡ handshaking since
        → since + handshake_timeout ≤ s.now
        → Timer s (record s { conns = set s.conns i (after_handshake elapsed c) })
    aborts :
        {since : ℕ}
        → s.phase ≡ draining since
        → since + drain_timeout ≤ s.now
        → Timer s (abort_all s)

  -- Every such step is one of the listener.
  Timer-Step : {s t : State Addr} → Timer s t → Step l s t
  Timer-Step (passes q) = tick q
  Timer-Step (gives_up i since c e g d) = moves i c _ e (times_out g d)
  Timer-Step (aborts e d) = deadline e d

  pub data Timers (s : State Addr) : State Addr → Type 0 where
    none_yet : Timers s s
    then : {t u : State Addr} → Timers s t → Timer t u → Timers s u

  pub Timers-Reach : {s t : State Addr} → Timers s t → Reach l s t
  Timers-Reach none_yet = here
  Timers-Reach (then r st) = next (Timers-Reach r) (Timer-Step st)

  chain : {s t u : State Addr} → Timers s t → Timers t u → Timers s u
  chain r none_yet = r
  chain r (then q st) = then (chain r q) st

  at_end :
      (pre : List (Conn Addr)) (c : Conn Addr) (suf : List (Conn Addr))
      → get_elem? (pre ++ c ∷ suf) (length pre) ≡ some c
  at_end [] c suf = refl
  at_end (d ∷ pre) c suf = at_end pre c suf

  set_end :
      (pre : List (Conn Addr)) (c d : Conn Addr) (suf : List (Conn Addr))
      → set (pre ++ c ∷ suf) (length pre) d ≡ (pre ++ d ∷ []) ++ suf
  set_end [] c d suf = refl
  set_end (e ∷ pre) c d suf = ap (◌∷◌ e) (set_end pre c d suf)

  All-snoc :
      (P : Conn Addr → Type 0) (pre : List (Conn Addr)) (c : Conn Addr)
      → All P pre
      → P c
      → All P (pre ++ c ∷ [])
  All-snoc P [] c h p = (p, tt)
  All-snoc P (d ∷ pre) c h p = (h.0, All-snoc P pre c h.1 p)

  abbrev Quiet : ℕ → Conn Addr → Type 0
  Quiet now c = IsWaiting now c.stage

  -- One connection: its handshake is given up if it is due.
  abbrev SettledOne : State Addr → List (Conn Addr) → Conn Addr → List (Conn Addr) → Type 0
  SettledOne s pre c suf =
      (d : Conn Addr) × Timers (record s { conns = pre ++ c ∷ suf })
        (record s { conns = (pre ++ d ∷ []) ++ suf })
      × Quiet s.now d

  left_alone :
      (s : State Addr) (pre : List (Conn Addr)) (c : Conn Addr) (suf : List (Conn Addr))
      → Quiet s.now c
      → SettledOne s pre c suf
  left_alone s pre c suf w = (c, rw (append_assoc pre (c ∷ []) suf) none_yet, w)

  given_up :
      (s : State Addr) (pre : List (Conn Addr)) (c : Conn Addr) (suf : List (Conn Addr)) (since : ℕ)
      → c.stage ≡ handshaking since
      → since + handshake_timeout ≤ s.now
      → SettledOne s pre c suf
  unfolding after_handshake
  given_up s pre c suf since e d =
      let d' = after_handshake elapsed c in
      let r : Timers (record s { conns = pre ++ c ∷ suf })
          (record s { conns = set (pre ++ c ∷ suf) (length pre) d' }) =
        then none_yet (gives_up (length pre) since c (at_end pre c suf) e d) in
      (d', rw (set_end pre c d' suf) at r, tt)

  settle_one :
      (s : State Addr) (pre : List (Conn Addr)) (c : Conn Addr) (suf : List (Conn Addr)) (t : Stage)
      → c.stage ≡ t
      → SettledOne s pre c suf
  settle_one s pre c suf spawned e = left_alone s pre c suf (rw e tt)
  settle_one s pre c suf serving e = left_alone s pre c suf (rw e tt)
  settle_one s pre c suf graceful e = left_alone s pre c suf (rw e tt)
  settle_one s pre c suf closed e = left_alone s pre c suf (rw e tt)
  settle_one s pre c suf (handshaking since) e = elim (dec_le (since + handshake_timeout) s.now) [
    | yes d ↦ given_up s pre c suf since e d
    | no d ↦
        let w : s.now < since + handshake_timeout = omega arith in left_alone s pre c suf (rw e w)
  ]

  -- From `s` the due handshakes are given up, one after the other.
  abbrev Settled : State Addr → Type 0
  Settled s = (cs : List (Conn Addr)) × Timers s (record s { conns = cs }) × All (Quiet s.now) cs

  settle :
      (s : State Addr) (pre suf : List (Conn Addr))
      → All (Quiet s.now) pre
      → Settled (record s { conns = pre ++ suf })
  settle s pre [] h = (pre ++ [], none_yet, rw (append-nil pre) h)
  settle s pre (c ∷ suf) h =
      let (d, r, w) = settle_one s pre c suf c.stage refl in
      let (cs, q, a) = settle s (pre ++ d ∷ []) suf (All-snoc (Quiet s.now) pre d h w) in
      (cs, chain r q, a)

  -- What the end of a wait is.
  abbrev pub Ends : ℕ → State Addr → Type 0
  Ends since s =
      (t : State Addr) × Timers s t × (t.phase ≡ finished) × (t.now ≤ since + drain_timeout)

  run_out :
      (left since : ℕ) (s : State Addr)
      → s.phase ≡ draining since
      → s.now + left ≡ since + drain_timeout
      → Ends since s
  unfolding abort_all
  run_out zero since s e h =
      (abort_all s, then none_yet (aborts e (omega arith)), refl, omega arith)
  run_out (suc left) since s e h =
      let (cs, r, a) = settle s [] s.conns tt in
      let w : CanWait s.now (draining since) = omega arith in
      let q : IsQuiet (record s { conns = cs }) = (rw e w, a) in
      let (t, u, f, b) =
        run_out left since (record s { conns = cs; now = s.now + 1 }) e (omega arith) in
      (t, chain (then r (passes q)) u, f, b)

  -- The shutdown ends though no connection does anything: from any state of the wait, the clock and the
  -- timers alone finish the listener within 15 seconds of its start.
  pub drain-Ends :
      {start since : ℕ} {s : State Addr}
      → Reach l (at_start l start) s
      → s.phase ≡ draining since
      → Ends since s
  drain-Ends {since} {s} r e =
      let (g, b) = drain_bounded l r e in
      run_out (since + drain_timeout - s.now) since s e (omega arith)
