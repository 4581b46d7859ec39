-- ===== src/Service/Forwarded.antt =====
-- A forward in a world of valid upstreams.
use gatepup.Prelude.{
  ◌≡◌, ◌≢◌, ◌⊎◌, inl, inr, refl, Option, some, table_get, Bool-cases, Text, arith,
}
use gatepup.Interfaces.{IpLib, HttpLib, Float}
use gatepup.Compress.{Compression}
use gatepup.RateLimiter.{RateLimiter}
use gatepup.Upstream.Pick.{IsValid}
use gatepup.Snapshot.{RuntimeConfig}
use gatepup.Proxy.Errors.{GatewayError}
use gatepup.Proxy.Body.{Incoming, body_exceeds_limit}
use gatepup.Proxy.Admission.{
  Request, Admitted, Decision, unknown, denied, limited, wrong_credentials, no_upstream, passed,
  admit-Decision,
}
use gatepup.Proxy.Attempts.{Answer, forwarded, refused, crashed}
use gatepup.Proxy.Attempts.Served.{attempts_loop-IsServed}
use gatepup.Proxy.Forward.{
  World, Context, Outcome, ok, err, crash, decide, finish, max_attempts, network_of, start, run,
  forward,
}
use gatepup.Proxy.Forward
use gatepup.Service.Valid.{AllValid, table_insert-AllValid}

module _ {F Headers Addr Net : Type 0} (fl : Float F) (ip : IpLib Addr Net) (http : HttpLib Headers)
    (c : Context Headers Addr) where
  pub finish-ne-crash :
      (comp : Option Compression) (accept : Text) (a : Admitted F Net) (o : Answer Headers)
      → o ≢ crashed
      → finish fl ip http c comp accept a o ≢ crash
  finish-ne-crash comp accept a (refused e) n h = ground arith
  finish-ne-crash comp accept a (forwarded resp) n h = ground arith
  finish-ne-crash comp accept a crashed n h = absurd (n refl)

module _ {F Headers Addr Net Tls : Type 0} (fl : Float F) (ip : IpLib Addr Net)
    (http : HttpLib Headers) where
  -- There is a response or a refusal, and the upstreams of the world are valid.
  abbrev pub IsGood : Outcome Headers × World fl ip Headers Tls → Type 0
  IsGood r = (r.0 ≢ crash) × AllValid r.1.snapshot.upstreams

  module _ (c : Context Headers Addr) where
    pub upstream_of :
        (snapshot : RuntimeConfig F Net Tls) (req : Request Headers Addr) (a : Admitted F Net)
        {limiter : RateLimiter fl ip.same}
        {r : (GatewayError ⊎ Admitted F Net) × RateLimiter fl ip.same}
        → Decision fl ip http c.decode c.hash snapshot c.listener_name req limiter r
        → r.0 ≡ inr a
        → table_get a.route.upstream snapshot.upstreams ≡ some a.upstream
    upstream_of snapshot req a (unknown e) h = absurd (ground arith)
    upstream_of snapshot req a (denied r e f) h = absurd (ground arith)
    upstream_of snapshot req a (limited r e f g) h = absurd (ground arith)
    upstream_of snapshot req a (wrong_credentials r e f g i) h = absurd (ground arith)
    upstream_of snapshot req a (no_upstream r e f) h = absurd (ground arith)
    upstream_of snapshot req a (passed b e f g i u) h = let s : b ≡ a = cc in rw s at u

    pub admitted-IsValid :
        (req : Request Headers Addr) (w : World fl ip Headers Tls) (a : Admitted F Net)
        → AllValid w.snapshot.upstreams
        → (decide fl ip http c req w).0 ≡ inr a
        → IsValid a.upstream
    admitted-IsValid req w a v e = v a.route.upstream a.upstream (
        upstream_of w.snapshot req a
          (admit-Decision fl ip http c.decode c.hash w.snapshot c.listener_name req w.limiter) e)

    forwarded-IsGood :
        (req : Request Headers Addr) (body : Incoming) (w : World fl ip Headers Tls)
        (limiter : RateLimiter fl ip.same) (d : GatewayError ⊎ Admitted F Net)
        → AllValid w.snapshot.upstreams
        → (decide fl ip http c req w).0 ≡ d
        → IsGood (Forward.on_admitted fl ip http c req body (record w { limiter = limiter }) d)
    forwarded-IsGood req body w limiter (inl e) v h = (λ q. ground arith, v)
    forwarded-IsGood req body w limiter (inr a) v h =
        elim (Bool-cases (body_exceeds_limit http req.headers w.snapshot.max_body_bytes)) [
          | inl e ↦ rw e (λ q. ground arith, v)
          | inr e ↦
              let n = max_attempts fl ip http c req a in
              let (q, u) =
                attempts_loop-IsServed (network_of fl ip http c req a) a.upstream.retry n n 0
                  (start fl ip http c req body (record w { limiter = limiter }) a)
                  (admitted-IsValid req w a v h) in
              rw e (
                finish-ne-crash fl ip http c w.snapshot.compression _ a _ q,
                table_insert-AllValid w.snapshot.upstreams a.route.upstream _ v u,
              )
        ]

    pub forward-IsGood :
        (req : Request Headers Addr) (body : Incoming) (w : World fl ip Headers Tls)
        → AllValid w.snapshot.upstreams
        → IsGood (forward fl ip http c req body w)
    unfolding forward
    forward-IsGood req body w v =
        forwarded-IsGood req body w (decide fl ip http c req w).1 (decide fl ip http c req w).0 v
          refl
