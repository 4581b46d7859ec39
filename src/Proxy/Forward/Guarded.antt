-- ===== src/Proxy/Forward/Guarded.antt =====
-- What has to hold before a request reaches an upstream.
use gatepup.Prelude.{ℕ, ◌≡◌, ◌⊎◌, false, List, [], ◌++◌}
use gatepup.Interfaces.{IpLib, HttpLib, Float}
use gatepup.RateLimiter.{RateLimiter}
use gatepup.Upstream.{UpstreamRuntime}
use gatepup.Proxy.Errors.{no_healthy_upstream}
use gatepup.Proxy.Body.{Incoming, prepare_body_source, body_exceeds_limit}
use gatepup.Proxy.Admission.{Request, Admitted, Passed}
use gatepup.Proxy.Attempts.{Sent, Answer}
use gatepup.Proxy.Attempts.Trace.{Trace}
use gatepup.Proxy.Forward.{World, Context, can_replay, max_attempts, network_of}

module _ {F Headers Addr Net Tls : Type 0} (fl : Float F) (ip : IpLib Addr Net)
    (http : HttpLib Headers) (c : Context Headers Addr) (req : Request Headers Addr)
    (body : Incoming) where
  abbrev pub Passes : World fl ip Headers Tls → Admitted F Net → Type 0
  Passes w a = Passed fl ip http c.decode c.hash w.snapshot c.listener_name req w.limiter a

  -- The requests that reached an upstream for one request of a client: none, or those of an admitted
  -- request of legal declared size, which follow the policy of its upstream.
  pub record IsGuarded (w t : World fl ip Headers Tls) : Type 0 where
    pub sent : List (ℕ × Sent Headers)
    pub extends : t.log ≡ w.log ++ sent
    pub allowed :
        (sent ≡ [])
        ⊎ ((a : Admitted F Net) × (answer : Answer Headers) × (retries : ℕ)
            × (after : UpstreamRuntime) × Passes w a
            × (body_exceeds_limit http req.headers w.snapshot.max_body_bytes ≡ false)
            × Trace a.upstream.retry
                (network_of fl ip http c req a)
                (max_attempts fl ip http c req a)
                0
                a.upstream
                (prepare_body_source body (can_replay fl ip http c req a) w.snapshot.max_body_bytes)
                no_healthy_upstream
                sent
                answer
                retries
                after)
