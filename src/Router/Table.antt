-- ===== src/Router/Table.antt =====
-- crates/gatepup-proxy/src/router.rs: a compiled route, and the table that `Router::build` makes.
use gatepup.Prelude.{
  ℕ, Bool, ◌&&◌, Option, none, some, List, map, length, Text, codes, is_empty, starts_with,
  unwrap_or, if◌then◌else◌,
}
use mathlib.Core.Option
use gatepup.Interfaces.{IpLib, HttpLib, Float}
use gatepup.Config.Model.{RouteConfig, HeaderRulesConfig, BasicAuthConfig}
use gatepup.Router.Filters.{
  RateLimit, compile_rate, IpAccess, allow_all, compile_access, HeaderOps, no_ops, compile_ops,
}
use gatepup.Router.Host.{HostMatch, compile_host, host_matches, rank}

pub record CompiledRoute (F Net : Type 0) : Type 0 where
  pub name : Text
  pub upstream : Text
  pub host : Option Text
  pub host_match : HostMatch
  pub path_prefix : Text
  pub strip_prefix : Bool
  pub request_headers : HeaderOps
  pub response_headers : HeaderOps
  pub ip_access : IpAccess Net
  pub rate_limit : Option (RateLimit F)
  pub basic_auth : Option (List (Text × Text))

pub record RouteSummary : Type 0 where
  pub name : Text
  pub host : Option Text
  pub path_prefix : Text
  pub upstream : Text

-- `.filter(|s| !s.is_empty())`.
abbrev pub non_empty : Option Text → Option Text
non_empty none = none
non_empty (some t) = if is_empty t then none else some t

module _ {F Net : Type 0} where
  -- `CompiledRoute::matches`.
  unfoldable pub route_matches : CompiledRoute F Net → Text → Text → Bool
  route_matches r host path = host_matches r.host_match host && starts_with r.path_prefix path

  -- `CompiledRoute::specificity`, a pair in lexicographic order.
  unfoldable pub specificity : CompiledRoute F Net → ℕ × ℕ
  specificity r = (rank r.host_match, length r.path_prefix)

  -- `Router::summaries`.
  unfoldable pub summaries : List (CompiledRoute F Net) → List RouteSummary
  summaries rs =
      map
        (λ r. record {
          name = r.name;
          host = r.host;
          path_prefix = r.path_prefix;
          upstream = r.upstream;
        })
        rs

module _ {F Headers Addr Net : Type 0} (fl : Float F) (ip : IpLib Addr Net)
    (http : HttpLib Headers) where
  -- The closure of `Router::build`.
  unfoldable pub build_route : RouteConfig F → CompiledRoute F Net
  build_route r =
      let host = non_empty r.matcher.host in
      record {
        name = r.name;
        upstream = r.upstream;
        host = host;
        host_match = compile_host host;
        path_prefix = unwrap_or (codes "/") (non_empty r.matcher.path_prefix);
        strip_prefix = r.strip_prefix;
        request_headers =
            unwrap_or no_ops
              (Option.map (λ h. compile_ops http (HeaderRulesConfig.request h)) r.headers);
        response_headers =
            unwrap_or no_ops
              (Option.map (λ h. compile_ops http (HeaderRulesConfig.response h)) r.headers);
        ip_access = unwrap_or allow_all (Option.map (compile_access ip) r.ip_access);
        rate_limit = Option.map (compile_rate fl) r.rate_limit;
        basic_auth = Option.map BasicAuthConfig.users r.basic_auth;
      }

  unfoldable pub build : List (RouteConfig F) → List (CompiledRoute F Net)
  build routes = map build_route routes
