-- ===== src/Service/Upgraded.antt =====
-- An upgrade in a world of valid upstreams, and the choice between it and a forward.
use gatepup.Prelude.{
  ℕ, ◌≡◌, ◌≢◌, ◌⊎◌, inl, inr, refl, Option, none, some, Bool, true, false, ltb, table_insert, ◌==◌,
  Bool-cases, Text, if◌then◌else◌, arith,
}
use gatepup.Interfaces.{IpLib, HttpLib, Float}
use gatepup.Metrics.{inc_requests}
use gatepup.RateLimiter.{RateLimiter}
use gatepup.Upstream.{
  UpstreamRuntime, Picked, target, no_target, panic, target_at, pick_target, observe_target,
}
use gatepup.Upstream.Pick.{IsValid, pick_target-ne-panic}
use gatepup.Upstream.Keeps.{pick_target-IsValid, observe_target-IsValid}
use gatepup.Proxy.Errors.{GatewayError}
use gatepup.Proxy.Body.{Incoming}
use gatepup.Proxy.Forwarding.{is_upgrade}
use gatepup.Proxy.Admission.{Request, Admitted}
use gatepup.Proxy.Forward.{World, Context, decide}
use gatepup.Proxy.Handle.{
  Tunnel, unreachable, no_handshake, no_reply, replied, Dialer, Arrival, tunnelled, on_authority,
  on_pick, on_admitted, handle_upgrade, parse_authority, url_of, arrive, dispatch,
  header_of_upgrade,
}
use gatepup.Router.Rewrite.{rewritten_path_and_query}
use gatepup.Service.Valid.{AllValid, table_insert-AllValid}
use gatepup.Service.Forwarded.{IsGood, admitted-IsValid, forward-IsGood}

module _ {F Headers Addr Net Tls : Type 0} (fl : Float F) (ip : IpLib Addr Net)
    (http : HttpLib Headers) where
  module _ (d : Dialer Headers) (c : Context Headers Addr) where
    observed-AllValid :
        (w : World fl ip Headers Tls) (a : Admitted F Net) (u : UpstreamRuntime) (good : Bool)
        (i : ℕ)
        → AllValid w.snapshot.upstreams
        → IsValid u
        → AllValid
            (table_insert a.route.upstream (observe_target d.clock good i u) w.snapshot.upstreams)
    observed-AllValid w a u good i v h =
        table_insert-AllValid w.snapshot.upstreams a.route.upstream _ v
          (observe_target-IsValid d.clock good i u h)

    tunnelled-IsGood :
        (w : World fl ip Headers Tls) (a : Admitted F Net) (u : UpstreamRuntime) (i : ℕ)
        (t : Tunnel Headers)
        → AllValid w.snapshot.upstreams
        → IsValid u
        → IsGood fl ip http (tunnelled fl ip http d w a u i t)
    tunnelled-IsGood w a u i unreachable v h =
        (λ q. ground arith, observed-AllValid w a u false i v h)
    tunnelled-IsGood w a u i no_handshake v h =
        (λ q. ground arith, observed-AllValid w a u false i v h)
    tunnelled-IsGood w a u i no_reply v h = (λ q. ground arith, observed-AllValid w a u false i v h)
    tunnelled-IsGood w a u i (replied resp) v h = (
      λ q. ground arith,
      observed-AllValid w a u (if resp.status == 101 then true else ltb resp.status 500) i v h,
    )

    authority-IsGood :
        (req : Request Headers Addr) (w : World fl ip Headers Tls) (a : Admitted F Net)
        (u : UpstreamRuntime) (i : ℕ) (o : Option (Text × ℕ))
        → AllValid w.snapshot.upstreams
        → IsValid u
        → IsGood fl ip http (on_authority fl ip http d c req w a u i o)
    authority-IsGood req w a u i none v h =
        (λ q. ground arith, table_insert-AllValid w.snapshot.upstreams a.route.upstream u v h)
    authority-IsGood req w a u i (some t) v h =
        let pq = rewritten_path_and_query a.route req.path_and_query in
        let m = header_of_upgrade fl ip http d c req t in
        elim (Bool-cases (d.buildable pq m)) [
          | inl e ↦ rw e (tunnelled-IsGood w a u i (d.dial t pq m) v h)
          | inr e ↦
              rw e (
                λ q. ground arith,
                table_insert-AllValid w.snapshot.upstreams a.route.upstream u v h,
              )
        ]

    pick-IsGood :
        (req : Request Headers Addr) (w : World fl ip Headers Tls) (a : Admitted F Net)
        (u : UpstreamRuntime) (p : Picked)
        → AllValid w.snapshot.upstreams
        → IsValid u
        → p ≢ panic
        → IsGood fl ip http (on_pick fl ip http d c req w a u p)
    pick-IsGood req w a u no_target v h n =
        (λ q. ground arith, table_insert-AllValid w.snapshot.upstreams a.route.upstream u v h)
    pick-IsGood req w a u panic v h n = absurd (n refl)
    pick-IsGood req w a u (target i) v h n =
        authority-IsGood req w a u i (parse_authority d (url_of (target_at u i))) v h

    upgraded-IsGood :
        (req : Request Headers Addr) (w : World fl ip Headers Tls)
        (limiter : RateLimiter fl ip.same) (o : GatewayError ⊎ Admitted F Net)
        → AllValid w.snapshot.upstreams
        → (decide fl ip http c req w).0 ≡ o
        → IsGood fl ip http (on_admitted fl ip http d c req (record w { limiter = limiter }) o)
    upgraded-IsGood req w limiter (inl e) v h = (λ q. ground arith, v)
    upgraded-IsGood req w limiter (inr a) v h =
        let u = admitted-IsValid fl ip http c req w a v h in
        pick-IsGood req (record w { limiter = limiter }) a (pick_target a.upstream).1
          (pick_target a.upstream).0 v (pick_target-IsValid a.upstream u)
          (pick_target-ne-panic a.upstream u)

    handle_upgrade-IsGood :
        (req : Request Headers Addr) (w : World fl ip Headers Tls)
        → AllValid w.snapshot.upstreams
        → IsGood fl ip http (handle_upgrade fl ip http d c req w)
    unfolding handle_upgrade
    handle_upgrade-IsGood req w v =
        upgraded-IsGood req w (decide fl ip http c req w).1 (decide fl ip http c req w).0 v refl

    pub dispatch-IsGood :
        (req : Arrival Headers) (body : Incoming) (w : World fl ip Headers Tls)
        → AllValid w.snapshot.upstreams
        → IsGood fl ip http (dispatch fl ip http d c req body w)
    dispatch-IsGood req body w v =
        let x = record w { metrics = inc_requests w.metrics } in
        elim (Bool-cases (is_upgrade http req.headers)) [
          | inl e ↦ rw e (handle_upgrade-IsGood (arrive fl ip http d c w.snapshot req) x v)
          | inr e ↦
              rw e (forward-IsGood fl ip http c (arrive fl ip http d c w.snapshot req) body x v)
        ]
