-- ===== src/Probes/Supervisor/Invariant.antt =====
-- Which probes run in every reachable state.
use gatepup.Prelude.{
  ℕ, ◌≡◌, ◌≢◌, ◌⊎◌, inl, inr, refl, ap, ◌∙◌, true, false, [], All, Bool-cases, arith,
}
use gatepup.Probes.{Task, spawn, respawn, running}
use gatepup.Probes.Supervisor.{
  Upstreams, Phase, woken, waiting, ended, System, at_start, Step, store, notify, no_clients, wake,
  spawned, finish, Reach, here, next,
}
use gatepup.Probes.Supervisor.Newest.{
  IsCurrent, AllTold, IsReady, first, later, running_current, running_told, stop_all-AllTold,
  respawn-IsCurrent, spawn_stop,
}

abbrev Inv : Phase → System → Type 0
Inv woken s = IsReady s.tasks
Inv waiting s =
    (ups : Upstreams) × IsCurrent ups s.tasks
    × ((s.storing ≡ true) ⊎ (s.pending ≡ true) ⊎ (ups ≡ s.shared))
Inv ended s = AllTold s.tasks

stored :
    (p : Phase) (s : System) (ups : Upstreams)
    → Inv p s
    → Inv p (record s { shared = ups; storing = true })
stored woken s ups h = h
stored waiting s ups (was, c, h) = (was, c, inl refl)
stored ended s ups h = h

notified : (p : Phase) (s : System) → Inv p s → Inv p (record s { storing = false; pending = true })
notified woken s h = h
notified waiting s (was, c, h) = (was, c, inr (inl refl))
notified ended s h = h

Step-Inv : {s t : System} → Step s t → Inv s.phase s → Inv t.phase t
Step-Inv {s} (store ups e) h = stored s.phase s ups h
Step-Inv {s} (notify e) h = notified s.phase s h
Step-Inv {s} (no_clients p e) h = rw e (0, [], refl, refl, tt)
Step-Inv {s} (wake p q) h = let (was, c, k) : Inv waiting s = rw p at h in later was c
Step-Inv {s} (spawned p) h =
    let r : Inv woken s = rw p at h in
    (s.shared, respawn-IsCurrent s.shared s.tasks r, inr (inr refl))
Step-Inv {s} (finish p) h =
    let (was, c, k) : Inv waiting s = rw p at h in stop_all-AllTold was s.tasks c

Reach-Inv : {ups : Upstreams} {t : System} → Reach (at_start ups) t → Inv t.phase t
Reach-Inv here = first refl
Reach-Inv (next r st) = Step-Inv st (Reach-Inv r)

running_waiting :
    {ups : Upstreams} {t : System}
    → Reach (at_start ups) t
    → t.phase ≡ waiting
    → t.pending ≡ false
    → t.storing ≡ false
    → IsCurrent t.shared t.tasks
running_waiting {t} r p q w =
    let (was, c, k) : Inv waiting t = rw p at (Reach-Inv r) in
    elim k [
      | inl e ↦ absurd (ground arith)
      | inr e ↦ elim e [ inl f ↦ absurd (ground arith) | inr f ↦ rw f at c ]
    ]

-- No reload is lost: once every stored snapshot has been notified of and the supervisor has seen the
-- notifications, the probes that run are those of the snapshot that requests use, and no others.
pub no_lost_reload :
    {ups : Upstreams} {t : System}
    → Reach (at_start ups) t
    → t.phase ≡ waiting
    → t.pending ≡ false
    → t.storing ≡ false
    → (k : ℕ) × (running t.tasks ≡ spawn k t.shared)
no_lost_reload {t} r p q w =
    let c = running_waiting r p q w in (c.last, running_current t.shared t.tasks c)

one_of : (p : Phase) (s : System) → Inv p s → (k : ℕ) × All (λ t. Task.stop t ≡ k) (running s.tasks)
one_of woken s (first e) = (0, rw e (unfold running in tt))
one_of woken s (later ups c) = (c.last, rw (running_current ups s.tasks c) (spawn_stop c.last ups))
one_of waiting s (ups, c, k) = (c.last, rw (running_current ups s.tasks c) (spawn_stop c.last ups))
one_of ended s h = (0, rw (running_told s.tasks h) tt)

-- In every reachable state the probes that are not told to stop belong to one generation, so no
-- target is probed for two snapshots for longer than a pass that has begun.
pub one_generation :
    {ups : Upstreams} {t : System}
    → Reach (at_start ups) t
    → (k : ℕ) × All (λ task. Task.stop task ≡ k) (running t.tasks)
one_generation {t} r = one_of t.phase t (Reach-Inv r)

-- After the supervisor has ended, no probe goes on.
pub ended_stops :
    {ups : Upstreams} {t : System} → Reach (at_start ups) t → t.phase ≡ ended → running t.tasks ≡ []
ended_stops {t} r p = let h : Inv ended t = rw p at (Reach-Inv r) in running_told t.tasks h

-- A state that `t` can come to by the supervisor and the reload in progress, whose probes are those
-- of the snapshot that `t` has.
abbrev CatchesUp : System → Type 0
CatchesUp t =
    (u : System) × Reach t u
    × (u.shared ≡ t.shared)
    × (k : ℕ) × (running u.tasks ≡ spawn k t.shared)

by_respawn :
    (t u : System) → Reach t u → u.shared ≡ t.shared → u.phase ≡ woken → Inv u.phase u → CatchesUp t
by_respawn t u r same p h =
    let y : Inv woken u = rw p at h in
    let c = respawn-IsCurrent u.shared u.tasks y in
    (
      record u { phase = waiting; tasks = respawn u.shared u.tasks },
      next r (spawned p),
      same,
      c.last,
      running_current u.shared _ c ∙ ap (spawn c.last) same,
    )

by_wake :
    (t u : System)
    → Reach t u
    → u.shared ≡ t.shared
    → u.phase ≡ waiting
    → u.pending ≡ true
    → Inv u.phase u
    → CatchesUp t
by_wake t u r same p q h =
    by_respawn t (record u { pending = false; phase = woken }) (next r (wake p q)) same refl
      (Step-Inv (wake p q) h)

by_phase : (p : Phase) (t : System) → t.phase ≡ p → p ≢ ended → Inv t.phase t → CatchesUp t
by_phase ended t e n h = absurd (n refl)
by_phase woken t e n h = by_respawn t t here refl e h
by_phase waiting t e n h = elim (Bool-cases t.storing) [
  | inl w ↦
      by_wake t (record t { storing = false; pending = true }) (next here (notify w)) refl e refl
        (Step-Inv (notify w) h)
  | inr w ↦ elim (Bool-cases t.pending) [
    | inl q ↦ by_wake t t here refl e q h
    | inr q ↦
        let (was, c, k) : Inv waiting t = rw e at h in
        let same : was ≡ t.shared = ground arith in
        (t, here, refl, c.last, running_current was t.tasks c ∙ ap (spawn c.last) same)
  ]
]

-- A supervisor that has not ended can always catch up with the snapshot that is stored, by its own
-- turns and the notification of a reload in progress.
pub catches_up :
    {ups : Upstreams} {t : System} → Reach (at_start ups) t → t.phase ≢ ended → CatchesUp t
catches_up {t} r n = by_phase t.phase t refl n (Reach-Inv r)
