-- ===== src/Config/Validator/Sound.antt =====
-- What a valid configuration guarantees to the parts that run it.
use gatepup.Prelude.{
  table_get, ◌≡◌, ◌⊎◌, inl, inr, refl, Bool, true, false, Option, none, some, List, [], ◌∷◌, map,
  In, here, there, is_some, Text, codes, Option-cases, arith,
}
use gatepup.Interfaces.{IpLib, HttpLib, Float}
use gatepup.Router.Table.{build}
use gatepup.Router.Filters.Access.{AllParse}
use gatepup.Config.Model.{
  GatePupConfig, ListenerConfig, RouteConfig, UpstreamConfig, IpAccessConfig, TlsConfig,
}
use gatepup.Config.Validator.Routes.{check_ip_acl, check_acl, check_route, validate}
use gatepup.Snapshot.{
  ListenerRuntime, RuntimeConfig, runtime, build_listener, build_listeners, build_upstreams,
  build_snapshot_inner, build_reload_snapshot,
}
use gatepup.Snapshot.Build.{build_upstreams_found}
use gatepup.Config.Validator.Checked.{
  append-nil_left, append-nil_right, among-In, In-map, routes-nil, listeners-nil, route_upstream,
  route_acl, acl-AllParse, validate-nil,
}

module _ {F Addr Net : Type 0} (fl : Float F) (ip : IpLib Addr Net) where
  module _ {Headers Tls : Type 0} (http : HttpLib Headers) (acceptor : TlsConfig → Text ⊎ Tls) where
    listeners_build :
        (ls : List (ListenerConfig F))
        → ((l : ListenerConfig F) → In l ls → is_some (ip.parse_socket_addr l.bind) ≡ true)
        → (rs : List (ListenerRuntime F Net Tls)) × (build_listeners fl ip http acceptor false ls
            ≡ inr rs)
    unfolding build_listeners build_listener
    listeners_build [] h = ([], refl)
    listeners_build (l ∷ ls) h = elim (Option-cases (ip.parse_socket_addr l.bind)) [
      | inl e ↦
          let f : is_some (ip.parse_socket_addr l.bind) ≡ false = rw e refl in
          let t = h l here in absurd (ground arith)
      | inr c ↦
          let (rs, e) = listeners_build ls (λ k m. h k (there m)) in
          (
            record { name = l.name; bind = c.0; router = build fl ip http l.routes; tls = none }
                ∷ rs,
            rw (c.1, e) refl,
          )
    ]

    -- A valid configuration can be reloaded: every bind address parses, and in the snapshot every route
    -- of every listener has its upstream.
    pub validate_builds :
        (parse_url : Text → Option (Text × Bool)) (config : GatePupConfig F) (l : ListenerConfig F)
        (r : RouteConfig F)
        → validate fl ip parse_url config ≡ []
        → In l config.listeners
        → In r l.routes
        → (s : RuntimeConfig F Net Tls) × (build_reload_snapshot fl ip http acceptor config ≡ inr s)
          × (is_some (table_get r.upstream s.upstreams) ≡ true)
    unfolding build_reload_snapshot build_snapshot_inner
    validate_builds parse_url config l r h i j =
        let v = validate-nil fl ip parse_url config h in
        let (rs, e) =
          listeners_build config.listeners (λ k m. (listeners-nil fl ip _ [] _ v m).0) in
        let q = routes-nil fl ip _ l.name [] [] l.routes (listeners-nil fl ip _ [] _ v i).1 j in
        (runtime fl ip http config rs, rw e refl, route_served q)
      where
        route_served :
            check_route fl ip (map UpstreamConfig.name config.upstreams) l.name r ≡ []
            → is_some (table_get r.upstream (build_upstreams http.method config.upstreams []))
              ≡ true
        route_served q =
            let (u, m, e) =
              In-map UpstreamConfig.name config.upstreams
                (among-In _ r.upstream (route_upstream fl ip _ l.name r q)) in
            rw (← e) (build_upstreams_found http.method config.upstreams [] u m)

  -- In a valid configuration every entry of an access list parses, so the list that runs is the list
  -- that is written.
  pub validate-AllParse :
      (parse_url : Text → Option (Text × Bool)) (config : GatePupConfig F) (l : ListenerConfig F)
      (r : RouteConfig F) (acl : IpAccessConfig)
      → validate fl ip parse_url config ≡ []
      → In l config.listeners
      → In r l.routes
      → r.ip_access ≡ some acl
      → AllParse ip acl.allow × AllParse ip acl.deny
  validate-AllParse parse_url config l r acl h i j a =
      let v = validate-nil fl ip parse_url config h in
      let q = routes-nil fl ip _ l.name [] [] l.routes (listeners-nil fl ip _ [] _ v i).1 j in
      let c : check_acl fl ip l.name r.name acl ≡ [] = route_acl fl ip _ l.name r acl a q in
      let allow = check_ip_acl fl ip l.name r.name (codes "allow") acl.allow in
      let deny = check_ip_acl fl ip l.name r.name (codes "deny") acl.deny in
      (
        acl-AllParse fl ip l.name r.name (codes "allow") acl.allow (append-nil_left allow deny c),
        acl-AllParse fl ip l.name r.name (codes "deny") acl.deny (append-nil_right allow deny c),
      )
