-- ===== src/Proxy/Admission.antt =====
-- crates/gatepup-proxy/src/proxy.rs: what `forward` and `handle_upgrade` both check before they pick
-- a target: the route, the address, the rate, the credentials and the upstream, in this order.
use gatepup.Prelude.{
  table_get, ℕ, ◌≡◌, ◌⊎◌, inl, inr, Bool, true, false, not, Option, none, some, List, find, ◌>>=◌,
  Text, text_eq, Bool-cases, Option-cases, if◌then◌else◌, arith,
}
use gatepup.Interfaces.{IpLib, HttpLib, Float}
use gatepup.Router.Filters.{RateLimit, allows}
use gatepup.Router.Table.{CompiledRoute}
use gatepup.Router.Select.{match_route}
use gatepup.RateLimiter.{RateLimiter, check}
use gatepup.Upstream.{UpstreamRuntime}
use gatepup.Snapshot.{RuntimeConfig, ListenerRuntime}
use gatepup.Proxy.Errors.{
  GatewayError, route_not_found, forbidden, too_many_requests, unauthorized, upstream_missing,
}
use gatepup.Proxy.Auth.{basic_auth_ok}

pub record Request (Headers Addr : Type 0) : Type 0 where
  pub method : Text
  pub path : Text
  pub path_and_query : Option Text
  pub headers : Headers
  pub host : Text
  pub client_ip : Addr
  pub now : ℕ

-- The router of the listener, and the route.
unfoldable pub find_route :
    {F Net Tls : Type 0}
    → RuntimeConfig F Net Tls
    → Text
    → Text
    → Text
    → Option (CompiledRoute F Net)
find_route snapshot listener_name host path =
    find (λ l. text_eq (ListenerRuntime.name l) listener_name) snapshot.listeners
    >>= (λ l. match_route (ListenerRuntime.router l) host path)

pub record Admitted (F Net : Type 0) : Type 0 where
  pub route : CompiledRoute F Net
  pub upstream : UpstreamRuntime

abbrev pub with_upstream :
    {F Net : Type 0} → CompiledRoute F Net → Option UpstreamRuntime → GatewayError ⊎ Admitted F Net
with_upstream r none = inl upstream_missing
with_upstream r (some u) = inr (record { route = r; upstream = u })

module _ {F Headers Addr Net : Type 0} (fl : Float F) (ip : IpLib Addr Net) (http : HttpLib Headers)
    (decode : Text → Option Text) (hash : Text × Addr → ℕ) where
  abbrev pub Limiter : Type 0
  Limiter = RateLimiter fl ip.same

  -- A token, where the route limits the rate.
  abbrev pub within_rate :
      Text → Request Headers Addr → Option (RateLimit F) → Limiter → Bool × Limiter
  within_rate name req none limiter = (true, limiter)
  within_rate name req (some rl) limiter =
      check fl ip.same hash (name, req.client_ip) rl.rate rl.capacity req.now limiter

  abbrev pub authorized : Headers → Option (List (Text × Text)) → Bool
  authorized m none = true
  authorized m (some users) = basic_auth_ok http decode m users

  -- From the rate limit on, with its result.
  abbrev pub on_rate :
      List (Text × UpstreamRuntime)
      → Request Headers Addr
      → CompiledRoute F Net
      → Bool × Limiter
      → (GatewayError ⊎ Admitted F Net) × Limiter
  on_rate upstreams req r w =
      if not w.0
      then (inl too_many_requests, w.1)
      else if not (authorized req.headers r.basic_auth)
      then (inl unauthorized, w.1)
      else (with_upstream r (table_get r.upstream upstreams), w.1)

  abbrev pub on_route :
      List (Text × UpstreamRuntime)
      → Request Headers Addr
      → Limiter
      → Option (CompiledRoute F Net)
      → (GatewayError ⊎ Admitted F Net) × Limiter
  on_route upstreams req limiter none = (inl route_not_found, limiter)
  on_route upstreams req limiter (some r) =
      if not (allows ip r.ip_access req.client_ip)
      then (inl forbidden, limiter)
      else on_rate upstreams req r (within_rate r.name req r.rate_limit limiter)

  module _ {Tls : Type 0} (snapshot : RuntimeConfig F Net Tls) (listener_name : Text)
      (req : Request Headers Addr) where
    abbrev pub route_of : Option (CompiledRoute F Net)
    route_of = find_route snapshot listener_name req.host req.path

    unfoldable pub admit : Limiter → (GatewayError ⊎ Admitted F Net) × Limiter
    admit limiter = on_route snapshot.upstreams req limiter route_of

    -- Which requests pass, and what each refusal says of the request. Only a request that reaches the
    -- rate limit touches the limiter.
    pub data Decision (limiter : Limiter) : (GatewayError ⊎ Admitted F Net) × Limiter → Type 0 where
      unknown : route_of ≡ none → Decision limiter (inl route_not_found, limiter)
      denied :
          (r : CompiledRoute F Net)
          → route_of ≡ some r
          → allows ip r.ip_access req.client_ip ≡ false
          → Decision limiter (inl forbidden, limiter)
      limited :
          (r : CompiledRoute F Net)
          → route_of ≡ some r
          → allows ip r.ip_access req.client_ip ≡ true
          → (within_rate r.name req r.rate_limit limiter).0 ≡ false
          → Decision limiter
              (inl too_many_requests, (within_rate r.name req r.rate_limit limiter).1)
      wrong_credentials :
          (r : CompiledRoute F Net)
          → route_of ≡ some r
          → allows ip r.ip_access req.client_ip ≡ true
          → (within_rate r.name req r.rate_limit limiter).0 ≡ true
          → authorized req.headers r.basic_auth ≡ false
          → Decision limiter (inl unauthorized, (within_rate r.name req r.rate_limit limiter).1)
      no_upstream :
          (r : CompiledRoute F Net)
          → route_of ≡ some r
          → table_get r.upstream snapshot.upstreams ≡ none
          → Decision limiter (inl upstream_missing, (within_rate r.name req r.rate_limit limiter).1)
      passed :
          (a : Admitted F Net)
          → route_of ≡ some a.route
          → allows ip a.route.ip_access req.client_ip ≡ true
          → (within_rate a.route.name req a.route.rate_limit limiter).0 ≡ true
          → authorized req.headers a.route.basic_auth ≡ true
          → table_get a.route.upstream snapshot.upstreams ≡ some a.upstream
          → Decision limiter (inr a, (within_rate a.route.name req a.route.rate_limit limiter).1)

    -- A request passes exactly when it has a route of the listener that admits its address, has a token
    -- left, carries credentials that the route asks for, and names an upstream of the snapshot.
    pub admit-Decision : (limiter : Limiter) → Decision limiter (admit limiter)
    unfolding admit
    admit-Decision limiter = elim (Option-cases route_of) [
      | inl e ↦ rw e (unknown e)
      | inr c ↦ elim (Bool-cases (allows ip c.0.ip_access req.client_ip)) [
        | inr d ↦ rw (c.1, d) (denied c.0 c.1 d)
        | inl d ↦ elim (Bool-cases (within_rate c.0.name req c.0.rate_limit limiter).0) [
          | inr t ↦ rw (c.1, d, t) (limited c.0 c.1 d t)
          | inl t ↦ elim (Bool-cases (authorized req.headers c.0.basic_auth)) [
            | inr w ↦ rw (c.1, d, t, w) (wrong_credentials c.0 c.1 d t w)
            | inl w ↦ elim (Option-cases (table_get c.0.upstream snapshot.upstreams)) [
              | inl n ↦ rw (c.1, d, t, w, n) (no_upstream c.0 c.1 n)
              | inr u ↦
                  rw (c.1, d, t, w, u.1)
                    (passed (record { route = c.0; upstream = u.0 }) c.1 d t w u.1)
            ]
          ]
        ]
      ]
    ]

    -- What an admitted request has passed.
    pub record Passed (limiter : Limiter) (a : Admitted F Net) : Type 0 where
      pub has_route : route_of ≡ some a.route
      pub address_allowed : allows ip a.route.ip_access req.client_ip ≡ true
      pub rate_kept : (within_rate a.route.name req a.route.rate_limit limiter).0 ≡ true
      pub credentials_right : authorized req.headers a.route.basic_auth ≡ true
      pub has_upstream : table_get a.route.upstream snapshot.upstreams ≡ some a.upstream

    Decision-Passed :
        (limiter : Limiter) (r : (GatewayError ⊎ Admitted F Net) × Limiter)
        → Decision limiter r
        → (a : Admitted F Net) → r.0 ≡ inr a
        → Passed limiter a
    Decision-Passed limiter r (unknown n) a h = absurd (ground arith)
    Decision-Passed limiter r (denied q n d) a h = absurd (ground arith)
    Decision-Passed limiter r (limited q n d t) a h = absurd (ground arith)
    Decision-Passed limiter r (wrong_credentials q n d t w) a h = absurd (ground arith)
    Decision-Passed limiter r (no_upstream q n t) a h = absurd (ground arith)
    Decision-Passed limiter r (passed b n d t w u) a h =
        let e : b ≡ a = cc in
        rw (← e) (record {
          has_route = n;
          address_allowed = d;
          rate_kept = t;
          credentials_right = w;
          has_upstream = u;
        })

    pub admit-Passed :
        (limiter : Limiter) (a : Admitted F Net) → (admit limiter).0 ≡ inr a → Passed limiter a
    admit-Passed limiter a h = Decision-Passed limiter (admit limiter) (admit-Decision limiter) a h
