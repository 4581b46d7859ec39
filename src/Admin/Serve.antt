-- ===== src/Admin/Serve.antt =====
-- crates/gatepup-admin/src/lib.rs: `serve`, the accept loop of the admin API and its drain, as a step
-- relation. Which address can be bound is an argument. Times are milliseconds. The shutdown is signalled
-- once the sender has sent or is gone, and a timer that is due fires before more time passes.
use gatepup.Prelude.{
  ℕ, ◌+◌, ◌*◌, ◌≤◌, ◌<◌, ◌≡◌, ◌⊎◌, inl, inr, refl, Bool, true, false, Option, none, some, List, [],
  ◌∷◌, ◌++◌, In, All, All-In, Text, codes, text_eq, arith,
}
use gatepup.Interfaces.{HttpLib}
use gatepup.Admin.{AdminState, Reply, status, route, route_guarded}

-- `AdminError`, with the address and the error of the system.
pub data AdminError : Type 0 where
  bind : Text → Text → AdminError

-- `DRAIN_TIMEOUT`.
abbrev pub drain_timeout : ℕ
drain_timeout = 10 * 1000

-- The loop accepts, waits for its connections from a time on, or has returned.
pub data Phase : Type 0 where
  accepting finished : Phase
  draining : ℕ → Phase

pub record Exchange (Headers : Type 0) : Type 0 where
  pub method : Text
  pub path : Text
  pub headers : Headers
  pub reply : Reply

-- `conns` connections are served, by tasks of their own; `log` lists what was answered.
pub record State (Headers : Type 0) : Type 0 where
  pub phase : Phase
  pub now : ℕ
  pub signalled : Bool
  pub conns : ℕ
  pub log : List (Exchange Headers)

module _ {Headers : Type 0} where
  abbrev pub at_start : ℕ → State Headers
  at_start now = record { phase = accepting; now = now; signalled = false; conns = 0; log = [] }

  -- `TcpListener::bind` gives nothing or an error.
  abbrev pub bound : Text → ℕ → Option Text → AdminError ⊎ State Headers
  bound address now none = inr (at_start now)
  bound address now (some e) = inl (bind address e)

  -- The start of `serve`.
  unfoldable pub start : (Text → Option Text) → AdminState → ℕ → AdminError ⊎ State Headers
  start refuses state now = bound state.bind now (refuses state.bind)

  -- `Ok((stream, _))`, and the end of its task.
  abbrev pub accept : State Headers → State Headers
  accept s = record s { conns = s.conns + 1 }

  abbrev pub close : ℕ → State Headers → State Headers
  close rest s = record s { conns = rest }

  -- The `break`, and `drop(tcp)`.
  abbrev pub leave : State Headers → State Headers
  leave s = record s { phase = draining s.now }

  -- Either branch of the wait. What is still open at the deadline is not cut.
  abbrev pub finish : State Headers → State Headers
  finish s = record s { phase = finished }

module _ {Headers : Type 0} (http : HttpLib Headers) (state : AdminState) where
  unfoldable pub respond : Text → Text → Headers → State Headers → State Headers
  respond method path m s =
      let reply = route http state method path m in
      record s { log = record { method = method; path = path; headers = m; reply = reply } ∷ s.log }

  abbrev pub CanWait : ℕ → Phase → Type 0
  CanWait now (draining since) = now < since + drain_timeout
  CanWait now _ = Unit

  pub data Step (s : State Headers) : State Headers → Type 0 where
    signal : Step s (record s { signalled = true })
    accepts : s.phase ≡ accepting → Step s (accept s)
    accept_fails : s.phase ≡ accepting → Step s s
    responds : (method path : Text) (m : Headers) → 0 < s.conns → Step s (respond method path m s)
    closes : (rest : ℕ) → s.conns ≡ rest + 1 → Step s (close rest s)
    leaves : s.phase ≡ accepting → s.signalled ≡ true → Step s (leave s)
    drained : {since : ℕ} → s.phase ≡ draining since → s.conns ≡ 0 → Step s (finish s)
    deadline :
        {since : ℕ} → s.phase ≡ draining since → since + drain_timeout ≤ s.now → Step s (finish s)
    tick : CanWait s.now s.phase → Step s (record s { now = s.now + 1 })

  pub data Reach (s : State Headers) : State Headers → Type 0 where
    here : Reach s s
    next : {t u : State Headers} → Reach s t → Step t u → Reach s u

  -- The wait starts on a signal, and lasts no longer than its time.
  abbrev PhaseOk : Bool → ℕ → Phase → Type 0
  PhaseOk signalled now accepting = Unit
  PhaseOk signalled now (draining since) =
      (signalled ≡ true) × (since ≤ now) × (now ≤ since + drain_timeout)
  PhaseOk signalled now finished = signalled ≡ true

  abbrev IsRouted : Exchange Headers → Type 0
  IsRouted e = e.reply ≡ route http state e.method e.path e.headers

  record Inv (s : State Headers) : Type 0 where
    phase_ok : PhaseOk s.signalled s.now s.phase
    log_ok : All IsRouted s.log

  signalled-Ok : (b : Bool) (now : ℕ) (p : Phase) → PhaseOk b now p → PhaseOk true now p
  signalled-Ok b now accepting h = tt
  signalled-Ok b now (draining since) (s, l, u) = (refl, l, u)
  signalled-Ok b now finished h = refl

  tick-Ok :
      (b : Bool) (now : ℕ) (p : Phase) → PhaseOk b now p → CanWait now p → PhaseOk b (now + 1) p
  tick-Ok b now accepting h w = tt
  tick-Ok b now (draining since) (s, l, u) w = (s, omega arith, omega arith)
  tick-Ok b now finished h w = h

  ended : {since : ℕ} (s : State Headers) → s.phase ≡ draining since → Inv s → Inv (finish s)
  ended {since} s e h =
      let k : PhaseOk s.signalled s.now (draining since) = rw e at (h.phase_ok) in
      record { phase_ok = k.0; log_ok = h.log_ok }

  Step-Inv : {s t : State Headers} → Step s t → Inv s → Inv t
  unfolding respond
  Step-Inv {s} signal h = record {
    phase_ok = signalled-Ok s.signalled s.now s.phase h.phase_ok;
    log_ok = h.log_ok;
  }
  Step-Inv {s} (accepts e) h = record { phase_ok = h.phase_ok; log_ok = h.log_ok }
  Step-Inv {s} (accept_fails e) h = h
  Step-Inv {s} (responds method path m e) h = record {
    phase_ok = h.phase_ok;
    log_ok = (refl, h.log_ok);
  }
  Step-Inv {s} (closes rest e) h = record { phase_ok = h.phase_ok; log_ok = h.log_ok }
  Step-Inv {s} (leaves e f) h = record {
    phase_ok = (f, omega arith, omega arith);
    log_ok = h.log_ok;
  }
  Step-Inv {s} (drained e f) h = ended s e h
  Step-Inv {s} (deadline e f) h = ended s e h
  Step-Inv {s} (tick w) h = record {
    phase_ok = tick-Ok s.signalled s.now s.phase h.phase_ok w;
    log_ok = h.log_ok;
  }

  Reach-Inv : {now : ℕ} {s : State Headers} → Reach (at_start now) s → Inv s
  Reach-Inv here = record { phase_ok = tt; log_ok = tt }
  Reach-Inv (next r st) = Step-Inv st (Reach-Inv r)

  -- In any run, the drain of the admin API starts only on a signal, and lasts 10 seconds at most.
  pub admin_drain_bounded :
      {now since : ℕ} {s : State Headers}
      → Reach (at_start now) s
      → s.phase ≡ draining since
      → (s.signalled ≡ true) × (s.now ≤ since + drain_timeout)
  admin_drain_bounded {now} {since} {s} r e =
      let k : PhaseOk s.signalled s.now (draining since) = rw e at ((Reach-Inv r).phase_ok) in
      let (a, b, c) = k in (a, c)

  -- With a token set, whatever the admin server has answered in a run, during the drain too: a document
  -- other than that of `/health` went only to a GET that carried the token.
  pub answers_guarded :
      {now : ℕ} {s : State Headers} (e : Exchange Headers) (token : Text)
      → Reach (at_start now) s
      → In e s.log
      → state.token ≡ some token
      → text_eq e.path (codes "/health") ≡ false
      → status e.reply ≡ 200
      → (text_eq e.method (codes "GET") ≡ true)
        × (http.get (codes "authorization") e.headers ≡ some (codes "Bearer " ++ token))
  answers_guarded e token r m t p h =
      let q = All-In IsRouted (Reach-Inv r).log_ok m in
      route_guarded http state e.method e.path token e.headers t p (rw q at h)
