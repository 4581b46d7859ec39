-- ===== src/Server/Lifecycle/Invariant.antt =====
-- What holds of a listener and its connections in every reachable state.
use gatepup.Prelude.{
  ℕ, zero, suc, ◌+◌, ◌≤◌, ◌≡◌, ◌≢◌, ◌⊎◌, inl, inr, refl, sym, ◌∙◌, Bool, true, false, some, List,
  [], ◌∷◌, get_elem?, set, All, Bool-cases, is_some, arith,
}
use gatepup.Server.{
  AcceptLoop, Stage, spawned, serving, graceful, closed, handshaking, Conn, Phase, accepting,
  finished, draining, State, at_start, accept, leave, abort_all, begin, after_handshake,
  drain_timeout, handshake_timeout,
}
use gatepup.Server.Lifecycle.{
  Move, begins, secures, fails, times_out, requests, stops, ends, ends_gracefully, IsWaiting,
  CanWait, IsClosed, Step, signal, accepts, leaves, moves, all_ended, deadline, tick, Reach, here,
  next,
}

-- Lists, by index.
module _ {A : Type 0} (P : A → Type 0) where
  pub All-get_elem? : (xs : List A) (i : ℕ) {x : A} → All P xs → get_elem? xs i ≡ some x → P x
  All-get_elem? [] i h e = absurd (ground arith)
  All-get_elem? (y ∷ xs) zero {x} h e = let s : y ≡ x = cc in rw s at (h.0)
  All-get_elem? (y ∷ xs) (suc i) h e = All-get_elem? xs i h.1 e

  All-set : (xs : List A) (i : ℕ) (x : A) → All P xs → P x → All P (set xs i x)
  All-set [] i x h p = tt
  All-set (y ∷ xs) zero x h p = (p, h.1)
  All-set (y ∷ xs) (suc i) x h p = (h.0, All-set xs i x h.1 p)

module _ {Addr Tls : Type 0} (l : AcceptLoop Tls) where
  -- No request before the handshake that the listener asks for, and no handshake beyond its time.
  abbrev pub StageOk : ℕ → Conn Addr → Stage → Type 0
  StageOk now c spawned = c.served ≡ 0
  StageOk now c (handshaking since) =
      (c.served ≡ 0) × (since ≤ now) × (now ≤ since + handshake_timeout)
  StageOk now c serving = (c.is_tls ≡ false) ⊎ (c.secured ≡ true)
  StageOk now c graceful = (c.is_tls ≡ false) ⊎ (c.secured ≡ true)
  StageOk now c closed = (c.served ≡ 0) ⊎ (c.is_tls ≡ false) ⊎ (c.secured ≡ true)

  pub record IsSound (now : ℕ) (c : Conn Addr) : Type 0 where
    pub same_limits : c.limits ≡ l.limits
    pub kind : c.is_tls ≡ is_some l.tls
    pub stage_ok : StageOk now c c.stage

  begin-IsSound :
      (now : ℕ) (c : Conn Addr) → c.stage ≡ spawned → IsSound now c → IsSound now (begin now c)
  unfolding begin
  begin-IsSound now c e h =
      let k : StageOk now c spawned = rw e at (h.stage_ok) in
      elim (Bool-cases c.is_tls) [
        | inl t ↦ rw t (record {
          same_limits = h.same_limits;
          kind = sym t ∙ h.kind;
          stage_ok = (k, omega arith, omega arith);
        })
        | inr t ↦
            rw t
              (record { same_limits = h.same_limits; kind = sym t ∙ h.kind; stage_ok = inl refl })
      ]

  Move-IsSound :
      (now : ℕ) (b : Bool) {c d : Conn Addr} → Move now b c d → IsSound now c → IsSound now d
  unfolding after_handshake
  Move-IsSound now b {c} (begins e) h = begin-IsSound now c e h
  Move-IsSound now b {c} (secures e) h = record {
    same_limits = h.same_limits;
    kind = h.kind;
    stage_ok = inr refl;
  }
  Move-IsSound now b {c} (fails e) h =
      let k : StageOk now c (handshaking _) = rw e at (h.stage_ok) in
      record { same_limits = h.same_limits; kind = h.kind; stage_ok = inl k.0 }
  Move-IsSound now b {c} (times_out e d) h =
      let k : StageOk now c (handshaking _) = rw e at (h.stage_ok) in
      record { same_limits = h.same_limits; kind = h.kind; stage_ok = inl k.0 }
  Move-IsSound now b {c} (requests e) h =
      let k : StageOk now c serving = rw e at (h.stage_ok) in
      record { same_limits = h.same_limits; kind = h.kind; stage_ok = rw e k }
  Move-IsSound now b {c} (stops e s) h =
      let k : StageOk now c serving = rw e at (h.stage_ok) in
      record { same_limits = h.same_limits; kind = h.kind; stage_ok = k }
  Move-IsSound now b {c} (ends e) h =
      let k : StageOk now c serving = rw e at (h.stage_ok) in
      record { same_limits = h.same_limits; kind = h.kind; stage_ok = inr k }
  Move-IsSound now b {c} (ends_gracefully e) h =
      let k : StageOk now c graceful = rw e at (h.stage_ok) in
      record { same_limits = h.same_limits; kind = h.kind; stage_ok = inr k }

  -- A time that has come is not past, so one more unit keeps the bounds.
  StageOk-tick :
      (now : ℕ) (c : Conn Addr) (t : Stage)
      → StageOk now c t
      → IsWaiting now t
      → StageOk (now + 1) c t
  StageOk-tick now c spawned h w = h
  StageOk-tick now c (handshaking since) h w = (h.0, omega (arith, h.1), omega arith)
  StageOk-tick now c serving h w = h
  StageOk-tick now c graceful h w = h
  StageOk-tick now c closed h w = h

  All-tick :
      (now : ℕ) (cs : List (Conn Addr))
      → All (IsSound now) cs
      → All (λ c. IsWaiting now (Conn.stage c)) cs
      → All (IsSound (now + 1)) cs
  All-tick now [] h w = tt
  All-tick now (c ∷ cs) h w = (
    record {
      same_limits = h.0.same_limits;
      kind = h.0.kind;
      stage_ok = StageOk-tick now c c.stage h.0.stage_ok w.0;
    },
    All-tick now cs h.1 w.1,
  )

  abbrev pub PhaseOk : State Addr → Phase → Type 0
  PhaseOk s accepting = Unit
  PhaseOk s (draining since) =
      (s.signalled ≡ true) × (since ≤ s.now) × (s.now ≤ since + drain_timeout)
  PhaseOk s finished = (s.signalled ≡ true) × All IsClosed s.conns

  pub record Inv (s : State Addr) : Type 0 where
    pub sound : All (IsSound s.now) s.conns
    pub phase_ok : PhaseOk s s.phase

  PhaseOk-signal :
      (s : State Addr) (p : Phase) → PhaseOk s p → PhaseOk (record s { signalled = true }) p
  PhaseOk-signal s accepting h = tt
  PhaseOk-signal s (draining since) h = (refl, h.1, h.2)
  PhaseOk-signal s finished h = (refl, h.1)

  PhaseOk-tick :
      (s : State Addr) (p : Phase)
      → PhaseOk s p
      → CanWait s.now p
      → PhaseOk (record s { now = s.now + 1 }) p
  PhaseOk-tick s accepting h w = tt
  PhaseOk-tick s (draining since) h w = (h.0, omega (arith, h.1), omega arith)
  PhaseOk-tick s finished h w = h

  Move-ne-closed : (now : ℕ) (b : Bool) {c d : Conn Addr} → Move now b c d → c.stage ≢ closed
  Move-ne-closed now b (begins e) h = ground arith
  Move-ne-closed now b (secures e) h = ground arith
  Move-ne-closed now b (fails e) h = ground arith
  Move-ne-closed now b (times_out e d) h = ground arith
  Move-ne-closed now b (requests e) h = ground arith
  Move-ne-closed now b (stops e s) h = ground arith
  Move-ne-closed now b (ends e) h = ground arith
  Move-ne-closed now b (ends_gracefully e) h = ground arith

  PhaseOk-move :
      (s : State Addr) (p : Phase) (i : ℕ) {c d : Conn Addr}
      → get_elem? s.conns i ≡ some c
      → Move s.now s.signalled c d
      → PhaseOk s p
      → PhaseOk (record s { conns = set s.conns i d }) p
  PhaseOk-move s accepting i e m h = tt
  PhaseOk-move s (draining since) i e m h = h
  PhaseOk-move s finished i e m h =
      absurd (Move-ne-closed s.now s.signalled m (All-get_elem? IsClosed s.conns i h.1 e))

  accept-Inv :
      (remote : Addr) (s : State Addr) → s.phase ≡ accepting → Inv s → Inv (accept l remote s)
  unfolding accept
  accept-Inv remote s e h = record {
    sound = (record { same_limits = refl; kind = refl; stage_ok = refl }, h.sound);
    phase_ok = rw e tt;
  }

  Step-Inv : {s t : State Addr} → Step l s t → Inv s → Inv t
  unfolding leave abort_all
  Step-Inv {s} signal h = record { sound = h.sound; phase_ok = PhaseOk-signal s s.phase h.phase_ok }
  Step-Inv {s} (accepts remote e) h = accept-Inv remote s e h
  Step-Inv {s} (leaves e g) h = record { sound = h.sound; phase_ok = (g, omega arith, omega arith) }
  Step-Inv {s} (moves i c d e m) h = record {
    sound =
        All-set (IsSound s.now) s.conns i d h.sound
          (Move-IsSound s.now s.signalled m (All-get_elem? (IsSound s.now) s.conns i h.sound e));
    phase_ok = PhaseOk-move s s.phase i e m h.phase_ok;
  }
  Step-Inv {s} (all_ended {since} e a) h =
      let k : PhaseOk s (draining since) = rw e at (h.phase_ok) in
      record { sound = h.sound; phase_ok = (k.0, a) }
  Step-Inv {s} (deadline {since} e a) h =
      let k : PhaseOk s (draining since) = rw e at (h.phase_ok) in
      record { sound = tt; phase_ok = (k.0, tt) }
  Step-Inv {s} (tick (w, q)) h = record {
    sound = All-tick s.now s.conns h.sound q;
    phase_ok = PhaseOk-tick s s.phase h.phase_ok w;
  }

  pub Reach-Inv : {start : ℕ} {t : State Addr} → Reach l (at_start l start) t → Inv t
  Reach-Inv here = record { sound = tt; phase_ok = tt }
  Reach-Inv (next r st) = Step-Inv st (Reach-Inv r)
