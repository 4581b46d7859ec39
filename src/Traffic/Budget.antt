-- ===== src/Traffic/Budget.antt =====
-- How many actions a request has left.
use native.Mathlib.Nat.{suc-mul}
use mathlib.Core.Path.{subst}
use gatepup.Prelude.{
  not, ◌&&◌, if◌then◌else◌, ◌%◌, ℕ, zero, suc, ◌+◌, ◌-◌, ◌*◌, ◌≤◌, ◌≡◌, ◌⊎◌, inl, inr, refl, sym,
  ap, true, false, Bool, Bool-cases, Option, none, some, length, get_elem?, table_get, arith,
}
use gatepup.Interfaces.{IpLib, HttpLib, Float}
use gatepup.Health.{is_healthy}
use gatepup.Upstream.{UpstreamRuntime, TargetRuntime, target_at}
use gatepup.Upstream.Shared.Sound.{Shape}
use gatepup.Proxy.Errors.{GatewayError}
use gatepup.Proxy.Admission.{Admitted, admit, admit-Decision}
use gatepup.Proxy.Body.{Body, body_exceeds_limit}
use gatepup.Proxy.Attempts.{Next, done, again}
use gatepup.Proxy.Attempts.Served.{GoesOn}
use gatepup.Snapshot.{RuntimeConfig}
use gatepup.Service.Forwarded.{upstream_of}
use gatepup.RateLimiter.{RateLimiter}
use gatepup.Traffic.{
  Going, Stage, arrived, picking, counted, waiting, refused, ended, Call, Shared, stage_act, act_on,
  entered, attempts, going, begin, loaded, going_of, settled_on, tunnelled_on, forwarded_on,
}
use gatepup.Traffic.Heap.{Kept}
use gatepup.Traffic.Acts.{answer-GoesOn}

abbrev pub slots_of : Option UpstreamRuntime → ℕ
slots_of none = 0
slots_of (some u) = length u.schedule

module _ {F Headers Net Tls : Type 0} where
  abbrev pub slots_in : RuntimeConfig F Net Tls → Going F Headers Net → ℕ
  slots_in a go = slots_of (table_get go.admitted.route.upstream a.upstreams)

  abbrev pub HasUpstream : RuntimeConfig F Net Tls → Going F Headers Net → Type 0
  HasUpstream a go =
      (u : UpstreamRuntime) × (table_get go.admitted.route.upstream a.upstreams ≡ some u)

  -- The actions of an attempt: two for each slot of the schedule, and two more.
  abbrev pub round : RuntimeConfig F Net Tls → Going F Headers Net → ℕ
  round a go = 2 * slots_in a go + 2

  -- Past the admission, with its upstream in the snapshot.
  abbrev pub IsPlaced : RuntimeConfig F Net Tls → Stage F Headers Net → Type 0
  IsPlaced a arrived = ⊥
  IsPlaced a (picking k go) = HasUpstream a go
  IsPlaced a (counted n k go) = HasUpstream a go
  IsPlaced a (waiting i t b go) = HasUpstream a go
  IsPlaced a (refused e) = Unit
  IsPlaced a (ended o go) = Unit

  -- How many actions a request has left at most, once it is admitted.
  abbrev pub budget : RuntimeConfig F Net Tls → Stage F Headers Net → ℕ
  budget a (picking k go) = go.left * round a go + (2 * k + 1)
  budget a (counted n k go) = go.left * round a go + (2 * k + 2)
  budget a (waiting i t b go) = go.left * round a go + 1
  budget a st = 0

module _ {F Headers Net : Type 0} where
  abbrev pub IsOver : Stage F Headers Net → Type 0
  IsOver (refused e) = Unit
  IsOver (ended o go) = Unit
  IsOver st = ⊥

module _ {F Headers Net Tls : Type 0} where
  pub slots-Kept :
      (a b : RuntimeConfig F Net Tls) (go : Going F Headers Net)
      → Kept a b
      → HasUpstream a go
      → HasUpstream b go × (slots_in b go ≡ slots_in a go)
  slots-Kept a b go k (u, d) =
      let (v, e, h) = k.upstreams go.admitted.route.upstream u d in
      ((v, e), rw (d, e) (ap length h.schedule))

  pub budget-Kept :
      (a b : RuntimeConfig F Net Tls) (st : Stage F Headers Net)
      → Kept a b
      → IsPlaced a st
      → IsPlaced b st × (budget b st ≡ budget a st)
  budget-Kept a b arrived k h = absurd h
  budget-Kept a b (refused e) k h = (tt, refl)
  budget-Kept a b (ended o go) k h = (tt, refl)
  budget-Kept a b (picking n go) k h =
      let (p, e) = slots-Kept a b go k h in (p, ap (λ x. go.left * (2 * x + 2) + (2 * n + 1)) e)
  budget-Kept a b (counted m n go) k h =
      let (p, e) = slots-Kept a b go k h in (p, ap (λ x. go.left * (2 * x + 2) + (2 * n + 2)) e)
  budget-Kept a b (waiting i t y go) k h =
      let (p, e) = slots-Kept a b go k h in (p, ap (λ x. go.left * (2 * x + 2) + 1) e)

  pub over :
      (a : RuntimeConfig F Net Tls) (st : Stage F Headers Net)
      → IsPlaced a st
      → budget a st ≤ 0
      → IsOver st
  over a arrived h l = absurd h
  over a (refused e) h l = tt
  over a (ended o go) h l = tt
  over a (picking n go) h l = absurd (omega arith)
  over a (counted m n go) h l = absurd (omega arith)
  over a (waiting i t y go) h l = absurd (omega arith)

module _ {F Headers Addr Net : Type 0} (fl : Float F) (ip : IpLib Addr Net) (http : HttpLib Headers)
    (f : Call Headers Addr) where
  -- What a request may do after its admission: for each attempt, two actions for each slot of the
  -- schedule and two more.
  abbrev pub allowance : GatewayError ⊎ Admitted F Net → ℕ
  allowance (inl e) = 0
  allowance (inr x) = attempts fl ip http f x * (2 * length x.upstream.schedule + 2)

module _ {F Headers Addr Net Tls : Type 0} (fl : Float F) (ip : IpLib Addr Net)
    (http : HttpLib Headers) where
  module _ (f : Call Headers Addr) where
    -- An action that costs one of the budget.
    abbrev pub Spent : RuntimeConfig F Net Tls → Stage F Headers Net → Stage F Headers Net → Type 0
    Spent a st next = IsPlaced a next × (budget a next ≤ budget a st - 1)

    begin-IsPlaced :
        (a : RuntimeConfig F Net Tls) (left attempt : ℕ) (go : Going F Headers Net)
        (u : UpstreamRuntime)
        → HasUpstream a go
        → IsPlaced a (begin fl ip http f left attempt go u)
    begin-IsPlaced a zero attempt go u h = tt
    begin-IsPlaced a (suc left) attempt go u h = h

    begin-budget :
        (a : RuntimeConfig F Net Tls) (left attempt : ℕ) (go : Going F Headers Net)
        (u : UpstreamRuntime)
        → length u.schedule ≡ slots_in a go
        → budget a (begin fl ip http f left attempt go u) ≤ left * round a go
    begin-budget a zero attempt go u h = omega arith
    begin-budget a (suc left) attempt go u h =
        let e : suc left * round a go ≡ left * round a go + round a go =
          suc-mul left (round a go) in
        omega arith

    loaded-Spent :
        (a : RuntimeConfig F Net Tls) (n k : ℕ) (go : Going F Headers Net) (u : UpstreamRuntime)
        (i : Option ℕ)
        → HasUpstream a go
        → Spent a (counted n k go) (loaded fl ip http f n k go u i)
    loaded-Spent a n k go u none h = (tt, omega arith)
    loaded-Spent a n k go u (some i) h = loaded_target (target_at u i) refl
      where
        loaded_target :
            (t : Option TargetRuntime)
            → target_at u i ≡ t
            → Spent a (counted n k go) (loaded fl ip http f n k go u (some i))
        loaded_target none e = rw (e, loaded) (tt, omega arith)
        loaded_target (some t) e = elim (Bool-cases (is_healthy t.state)) [
          | inl q ↦ rw (e, q, loaded) (h, omega arith)
          | inr q ↦ rw (e, q, loaded) (h, omega arith)
        ]

    module _ (s : Shared fl ip Tls) (a : RuntimeConfig F Net Tls) where
      settled-Spent :
          (i : ℕ) (t : TargetRuntime) (b : Option Body) (go : Going F Headers Net)
          (u : UpstreamRuntime) (r : Next Headers)
          → table_get go.admitted.route.upstream a.upstreams ≡ some u
          → GoesOn (Shape u) r
          → Spent a (waiting i t b go) (settled_on fl ip http f a go s r).0
      settled-Spent i t b go u (done x v) d h = (tt, omega arith)
      settled-Spent i t b go u (again v) d h = (
        begin-IsPlaced a go.left (go.attempt + 1) (going_of fl ip http f go v) v.upstream (u, d),
        (let l =
              begin-budget a go.left (go.attempt + 1) (going_of fl ip http f go v) v.upstream
                (rw d (ap length h.schedule)) in
            omega (arith, l)),
      )

      waiting-Spent :
          (i : ℕ) (t : TargetRuntime) (b : Option Body) (go : Going F Headers Net)
          (u : UpstreamRuntime) (upgrade : Bool)
          → table_get go.admitted.route.upstream a.upstreams ≡ some u
          → Spent a
              (waiting i t b go)
              (if upgrade
                then tunnelled_on fl ip http f a i t go u s
                else forwarded_on fl ip http f a i t b go u s).0
      waiting-Spent i t b go u true d = (tt, omega arith)
      waiting-Spent i t b go u false d =
          settled-Spent i t b go u _ d
            (answer-GoesOn fl ip http f go u s.metrics.upstream_retries i t b)

      act_on-Spent :
          (st : Stage F Headers Net) (o : Option UpstreamRuntime) (u : UpstreamRuntime)
          → o ≡ some u
          → Spent a st (act_on fl ip http f a s st (some u)).0
          → Spent a st (act_on fl ip http f a s st o).0
      act_on-Spent st o u e h = subst (λ x. Spent a st (act_on fl ip http f a s st x).0) (sym e) h

      pub stage_act-Spent :
          (st : Stage F Headers Net)
          → IsPlaced a st
          → Spent a st (stage_act fl ip http f s st (some a)).0
      stage_act-Spent arrived h = absurd h
      stage_act-Spent (refused e) h = (tt, omega arith)
      stage_act-Spent (ended o go) h = (tt, omega arith)
      stage_act-Spent (picking zero go) (u, d) =
          act_on-Spent (picking zero go) _ u d (tt, omega arith)
      stage_act-Spent (picking (suc k) go) (u, d) =
          act_on-Spent (picking (suc k) go) _ u d ((u, d), omega arith)
      stage_act-Spent (counted n k go) (u, d) =
          act_on-Spent (counted n k go) _ u d
            (loaded-Spent a n k go u (get_elem? u.schedule (n % length u.schedule)) (u, d))
      stage_act-Spent (waiting i t b go) (u, d) =
          act_on-Spent (waiting i t b go) _ u d (waiting-Spent i t b go u f.upgrade d)

    begin-allowance :
        (a : RuntimeConfig F Net Tls) (x : Admitted F Net)
        → table_get x.route.upstream a.upstreams ≡ some x.upstream
        → let st =
            begin fl ip http f (attempts fl ip http f x) 0 (going fl ip http f a x) x.upstream in
          IsPlaced a st × (budget a st ≤ allowance fl ip http f (inr x))
    begin-allowance a x d =
        let go = going fl ip http f a x in
        let n = attempts fl ip http f x in
        let e : slots_in a go ≡ length x.upstream.schedule = ap slots_of d in
        (
          begin-IsPlaced a n 0 go x.upstream (x.upstream, d),
          subst (λ y. budget a (begin fl ip http f n 0 go x.upstream) ≤ n * (2 * y + 2)) e
              (begin-budget a n 0 go x.upstream (sym e)),
        )

    pub entered-allowance :
        (a : RuntimeConfig F Net Tls) (limiter : RateLimiter fl ip.same)
        (d : GatewayError ⊎ Admitted F Net)
        → (admit fl ip http f.context.decode f.context.hash a f.context.listener_name f.request
            limiter).0
          ≡ d
        → let st = entered fl ip http f a d in
          IsPlaced a st × (budget a st ≤ allowance fl ip http f d)
    entered-allowance a limiter (inl e) h = (tt, omega arith)
    entered-allowance a limiter (inr x) h =
        let big = not f.upgrade && body_exceeds_limit http f.request.headers a.max_body_bytes in
        let d =
          upstream_of fl ip http f.context a f.request x
            (admit-Decision fl ip http f.context.decode f.context.hash a f.context.listener_name
              f.request limiter)
            h in
        elim (Bool-cases big) [
          | inl q ↦ rw q (tt, omega arith)
          | inr q ↦ rw q (begin-allowance a x d)
        ]
