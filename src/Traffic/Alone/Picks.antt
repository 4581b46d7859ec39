-- ===== src/Traffic/Alone/Picks.antt =====
-- A pick in single actions is `pick_target`.
use mathlib.Core.Path.{subst}
use gatepup.Prelude.{
  ℕ, zero, suc, ◌%◌, ◌≡◌, inl, inr, if◌then◌else◌, refl, sym, ap, ◌∙◌, Bool, Bool-cases, Option,
  none, some, ◌==◌, length, get_elem?, arith,
}
use gatepup.Interfaces.{IpLib, HttpLib, Float}
use gatepup.Health.{is_healthy}
use gatepup.Upstream.{
  UpstreamRuntime, TargetRuntime, Picked, target, no_target, panic, pick_loop, pick_target,
  target_at, advance,
}
use gatepup.Snapshot.{RuntimeConfig}
use gatepup.Proxy.Errors.{no_healthy_upstream}
use gatepup.Proxy.Body.{next}
use gatepup.Proxy.Forward.{crash, err}
use gatepup.Traffic.{Going, Stage, picking, counted, waiting, ended, Call, Shared, loaded}
use gatepup.Traffic.Alone.{Leads, acts_first, at, write-at, acts_at}

-- The end of a round, as `pick_loop` has it.
abbrev round_of : UpstreamRuntime → Option ℕ → Picked × UpstreamRuntime → Picked × UpstreamRuntime
round_of u slot rest = elim slot [
  | none ↦ (panic, advance u)
  | some i ↦ elim (target_at u i) [
    | none ↦ (panic, advance u)
    | some t ↦ if is_healthy t.state then (target i, advance u) else rest
  ]
]

pub pick_target-eq-pick_loop :
    (u : UpstreamRuntime) → pick_target u ≡ pick_loop (length u.schedule) u
unfolding pick_target pick_loop
pick_target-eq-pick_loop u = elim (Bool-cases (length u.schedule == 0)) [
  | inl e ↦ let z : length u.schedule ≡ 0 = ground arith in rw (e, z) refl
  | inr e ↦ rw e refl
]

-- A target that a pick returns exists.
abbrev pub IsFound : Picked × UpstreamRuntime → Type 0
IsFound p = (i : ℕ) → p.0 ≡ target i → (t : TargetRuntime) × (target_at p.1 i ≡ some t)

round_of-IsFound :
    (u : UpstreamRuntime) (slot : Option ℕ) (rest : Picked × UpstreamRuntime)
    → IsFound rest
    → IsFound (round_of u slot rest)
round_of-IsFound u none rest h = λ i e. absurd (ground arith)
round_of-IsFound u (some j) rest h = found (target_at u j) refl
  where
    found : (t : Option TargetRuntime) → target_at u j ≡ t → IsFound (round_of u (some j) rest)
    found none q = rw (q, round_of) (λ i e. absurd (ground arith))
    found (some t) q = elim (Bool-cases (is_healthy t.state)) [
      | inl y ↦ rw (q, y, round_of) (λ i e. let same : j ≡ i = ground arith in (t, rw (← same) q))
      | inr y ↦ rw (q, y, round_of) h
    ]

pub pick_loop-IsFound : (k : ℕ) (u : UpstreamRuntime) → IsFound (pick_loop k u)
unfolding pick_loop
pick_loop-IsFound zero u = λ i e. absurd (ground arith)
pick_loop-IsFound (suc k) u =
    round_of-IsFound u (get_elem? u.schedule (u.next % length u.schedule)) (pick_loop k (advance u))
      (pick_loop-IsFound k (advance u))

module _ {F Headers Addr Net Tls : Type 0} (fl : Float F) (ip : IpLib Addr Net)
    (http : HttpLib Headers) (f : Call Headers Addr) (s : Shared fl ip Tls)
    (snap : RuntimeConfig F Net Tls) (here : get_elem? s.heap f.snapshot ≡ some snap) where
  -- The stage behind a pick.
  abbrev pub stage_of : Going F Headers Net → UpstreamRuntime → Picked → Stage F Headers Net
  stage_of go u no_target = ended (err no_healthy_upstream) go
  stage_of go u panic = ended crash go
  stage_of go u (target i) = elim (target_at u i) [
    | none ↦ ended crash go
    | some t ↦ let b = next go.body in waiting i t b.0 (record go { body = b.1 })
  ]

  loads :
      (k n : ℕ) (go : Going F Headers Net) (u : UpstreamRuntime) (r : ℕ)
      (z : Stage F Headers Net × Shared fl ip Tls) (slot : Option ℕ)
      (rest : Picked × UpstreamRuntime)
      → let name = go.admitted.route.upstream in
        let p = round_of u slot rest in
        (Leads fl ip http f (stage_of go rest.1 rest.0, at fl ip f s snap name rest.1 r) z
          → Leads fl ip http f (picking k go, at fl ip f s snap name (advance u) r) z)
        → Leads fl ip http f (stage_of go p.1 p.0, at fl ip f s snap name p.1 r) z
        → Leads fl ip http f
            (loaded fl ip http f n k go (advance u) slot, at fl ip f s snap name (advance u) r)
            z
  loads k n go u r z none rest more h = h
  loads k n go u r z (some i) rest more h = on_target (target_at u i) refl
    where
      to :
          (p : Picked × UpstreamRuntime)
          → round_of u (some i) rest ≡ p
          → Leads fl ip http f
              (stage_of go p.1 p.0, at fl ip f s snap go.admitted.route.upstream p.1 r)
              z
      to p q =
          subst
            (λ x.
              Leads fl ip http f
                (stage_of go x.1 x.0, at fl ip f s snap go.admitted.route.upstream x.1 r) z)
            q h

      on_target :
          (t : Option TargetRuntime)
          → target_at u i ≡ t
          → Leads fl ip http f
              (
                loaded fl ip http f n k go (advance u) (some i),
                at fl ip f s snap go.admitted.route.upstream (advance u) r,
              )
              z
      on_target none e = rw (e, loaded) (to (panic, advance u) (rw (e, round_of) refl))
      on_target (some t) e =
          let b = next go.body in
          let healthy = λ (x : Bool).
            Leads fl ip http f
              (
                if x then waiting i t b.0 (record go { body = b.1 }) else picking k go,
                at fl ip f s snap go.admitted.route.upstream (advance u) r,
              )
              z in
          elim (Bool-cases (is_healthy t.state)) [
            | inl q ↦
                let up = to (target i, advance u) (rw (e, q, round_of) refl) in
                rw (e, loaded) (subst healthy (sym q) (rw (e, stage_of) at up))
            | inr q ↦
                let down = to rest (rw (e, q, round_of) refl) in
                rw (e, loaded) (subst healthy (sym q) (more down))
          ]

  pub picks :
      (k : ℕ) (go : Going F Headers Net) (u : UpstreamRuntime) (r : ℕ)
      (z : Stage F Headers Net × Shared fl ip Tls)
      → let name = go.admitted.route.upstream in
        let p = pick_loop k u in
        Leads fl ip http f (stage_of go p.1 p.0, at fl ip f s snap name p.1 r) z
        → Leads fl ip http f (picking k go, at fl ip f s snap name u r) z
  unfolding pick_loop
  picks zero go u r z h =
      acts_first fl ip http f _ _ z (acts_at fl ip http f s snap here go u r (picking zero go) refl)
        h
  picks (suc k) go u r z h =
      let name = go.admitted.route.upstream in
      acts_first fl ip http f _ _ z
        (acts_at fl ip http f s snap here go u r (picking (suc k) go) refl
          ∙ ap (λ q. (counted u.next k go, q))
              (write-at fl ip http f s snap here name u (advance u) r r))
        (acts_first fl ip http f _ _ z
          (acts_at fl ip http f s snap here go (advance u) r (counted u.next k go) refl)
          (loads k u.next go u r z (get_elem? u.schedule (u.next % length u.schedule))
            (pick_loop k (advance u)) (picks k go (advance u) r z) h))
