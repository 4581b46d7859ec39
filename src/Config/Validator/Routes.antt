-- ===== src/Config/Validator/Routes.antt =====
-- crates/gatepup-config/src/validator.rs: `check_listeners` with the checks of a route, and `validate`.
use gatepup.Prelude.{
  ℕ, Bool, true, false, not, ◌&&◌, ◌||◌, Option, none, some, List, [], ◌∷◌, ◌++◌, ◌==◌, ltb, leb,
  any, all, is_some, is_empty, length, drop, map, starts_with, unwrap_or, Text, codes, text_eq,
  if◌then◌else◌,
}
use gatepup.Interfaces.{IpLib, Float}
use gatepup.Router.Filters.{parse_trusted_proxy}
use gatepup.Router.Table.{non_empty}
use gatepup.Config.Model.{
  GatePupConfig, ListenerConfig, RouteConfig, MatchConfig, match_is_empty, HeaderOpsConfig,
  HeaderRulesConfig, IpAccessConfig, RateLimitConfig, BasicAuthConfig, UpstreamConfig,
}
use gatepup.Config.Errors.{
  ValidationError, duplicate_listener_name, invalid_bind, duplicate_route_name, empty_route_match,
  invalid_path_prefix, invalid_wildcard_host, conflicting_routes, unknown_upstream,
  invalid_header_name, invalid_header_value, invalid_ip_access_cidr, invalid_rate_limit,
  invalid_basic_auth,
}
use gatepup.Config.Validator.{
  push_if, each, concat, of_option, among, check_app, check_unique_upstreams, check_listener_tls,
  check_upstream, check_retries, check_admin, check_timeouts, check_limits, check_compression,
  check_trusted_proxies,
}

abbrev pub is_tchar : ℕ → Bool
is_tchar b =
    (leb b'0' b && leb b b'9')
    || (leb b'A' b && leb b b'Z')
    || (leb b'a' b && leb b b'z')
    || any (λ c. c == b) (codes "!#$%&'*+-.^_`|~")

unfoldable pub is_valid_header_name : Text → Bool
is_valid_header_name name = not (is_empty name) && all is_tchar name

unfoldable pub is_valid_header_value : Text → Bool
is_valid_header_value value = all (λ b. b == 9 || (leb 0x20 b && leb b 0x7e)) value

abbrev pub has_star : Text → Bool
has_star t = any (λ b. b == b'*') t

unfoldable pub is_valid_wildcard_host : Text → Bool
is_valid_wildcard_host host =
    starts_with (codes "*.") host && ltb 2 (length host) && not (has_star (drop 2 host))

-- The two parts of the key of `seen_matches`.
abbrev pub Key : Type 0
Key = Option Text × Text

abbrev pub same_host : Option Text → Option Text → Bool
same_host none none = true
same_host none (some _) = false
same_host (some _) none = false
same_host (some a) (some b) = text_eq a b

unfoldable pub seen_match : Key → List (Key × Text) → Option Text
seen_match k [] = none
seen_match k ((j, name) ∷ m) =
    if same_host j.0 k.0 && text_eq j.1 k.1 then some name else seen_match k m

abbrev pub effective_prefix : MatchConfig → Text
effective_prefix m = unwrap_or (codes "/") (non_empty m.path_prefix)

abbrev pub key_of : MatchConfig → Key
key_of m = (m.host, effective_prefix m)

abbrev pub report_conflict : Text → Text → Option Text → List ValidationError
report_conflict listener name none = []
report_conflict listener name (some first) = conflicting_routes listener first name ∷ []

-- `seen_matches.insert` where the key is new.
abbrev pub note_match : Key → Text → List (Key × Text) → Option Text → List (Key × Text)
note_match k name m none = (k, name) ∷ m
note_match k name m (some first) = m

-- `check_header_ops`.
unfoldable pub check_header_ops : Text → Text → HeaderOpsConfig → List ValidationError
check_header_ops listener route ops =
    each (λ n. push_if (not (is_valid_header_name n)) (invalid_header_name listener route n))
      (ops.remove ++ map (λ e. e.0) ops.set)
    ++ each
        (λ e.
          push_if (is_valid_header_name e.0 && not (is_valid_header_value e.1))
            (invalid_header_value listener route e.0))
        ops.set

abbrev pub bad_users : List (Text × Text) → Bool
bad_users [] = true
bad_users (e ∷ es) = any (λ u. is_empty u.0 || is_empty u.1) (e ∷ es)

abbrev pub bad_prefix : Text → Bool
bad_prefix prefix = not (is_empty prefix) && not (starts_with (codes "/") prefix)

module _ {F Addr Net : Type 0} (fl : Float F) (ip : IpLib Addr Net) where
  -- `check_ip_acl`.
  unfoldable pub check_ip_acl : Text → Text → Text → List Text → List ValidationError
  check_ip_acl listener route field entries =
      each
        (λ v.
          push_if (not (is_some (parse_trusted_proxy ip v)))
            (invalid_ip_access_cidr listener route field v))
        entries

  -- `!is_finite() || value <= 0.0`.
  abbrev pub bad_rate : F → Bool
  bad_rate r = not (fl.is_finite r) || fl.le r fl.zero

  abbrev pub check_acl : Text → Text → IpAccessConfig → List ValidationError
  check_acl listener route acl =
      check_ip_acl listener route (codes "allow") acl.allow
      ++ check_ip_acl listener route (codes "deny") acl.deny

  -- What the checks of a route ask of the route alone, after those of its name and its key.
  abbrev pub single_checks : List Text → Text → RouteConfig F → List (List ValidationError)
  single_checks upstream_names listener r =
      push_if (not (among upstream_names r.upstream)) (unknown_upstream r.name r.upstream)
      ∷ of_option
          (λ h.
            check_header_ops listener r.name (HeaderRulesConfig.request h)
            ++ check_header_ops listener r.name (HeaderRulesConfig.response h))
          r.headers
      ∷ of_option (check_acl listener r.name) r.ip_access
      ∷ of_option
          (λ l. push_if (bad_rate (RateLimitConfig.requests_per_second l)) (
            invalid_rate_limit listener r.name
              (fl.to_string (RateLimitConfig.requests_per_second l))))
          r.rate_limit
      ∷ of_option
          (λ b. push_if (bad_users (BasicAuthConfig.users b)) (invalid_basic_auth listener r.name))
          r.basic_auth
      ∷ []

  unfoldable pub check_route : List Text → Text → RouteConfig F → List ValidationError
  check_route upstream_names listener r = concat (single_checks upstream_names listener r)

  abbrev pub check_match : Text → RouteConfig F → List ValidationError
  check_match listener r =
      push_if (match_is_empty r.matcher) (empty_route_match listener r.name)
      ++ of_option (λ p. push_if (bad_prefix p) (invalid_path_prefix listener r.name p))
          r.matcher.path_prefix
      ++ of_option
          (λ h.
            push_if (has_star h && not (is_valid_wildcard_host h))
              (invalid_wildcard_host listener r.name h))
          r.matcher.host

  -- The checks of one route, after the names `seen` and with the route `first` of the same key.
  abbrev pub route_checks :
      List Text → Text → List Text → Option Text → RouteConfig F → List (List ValidationError)
  route_checks upstream_names listener seen first r =
      push_if (among seen r.name) (duplicate_route_name listener r.name)
      ∷ check_match listener r
      ∷ report_conflict listener r.name first
      ∷ check_route upstream_names listener r
      ∷ []

  -- The loop over the routes of a listener.
  unfoldable pub check_routes :
      List Text → Text → List Text → List (Key × Text) → List (RouteConfig F) → List ValidationError
  check_routes upstream_names listener seen matches [] = []
  check_routes upstream_names listener seen matches (r ∷ rs) =
      let first = seen_match (key_of r.matcher) matches in
      concat (route_checks upstream_names listener seen first r)
      ++ check_routes upstream_names listener (r.name ∷ seen)
          (note_match (key_of r.matcher) r.name matches first) rs

  abbrev pub listener_checks :
      List Text → List Text → ListenerConfig F → List (List ValidationError)
  listener_checks upstream_names seen l =
      push_if (among seen l.name) (duplicate_listener_name l.name)
      ∷ push_if (not (is_some (ip.parse_socket_addr l.bind))) (invalid_bind l.name l.bind)
      ∷ check_listener_tls l.name l.protocol l.tls
      ∷ check_routes upstream_names l.name [] [] l.routes
      ∷ []

  -- `check_listeners`, with the names that were seen.
  unfoldable pub check_listeners :
      List Text → List Text → List (ListenerConfig F) → List ValidationError
  check_listeners upstream_names seen [] = []
  check_listeners upstream_names seen (l ∷ ls) =
      concat (listener_checks upstream_names seen l)
      ++ check_listeners upstream_names (l.name ∷ seen) ls

  abbrev pub checks : (Text → Option (Text × Bool)) → GatePupConfig F → List (List ValidationError)
  checks parse_url config =
      check_app config.app
      ∷ check_unique_upstreams [] config.upstreams
      ∷ check_listeners (map UpstreamConfig.name config.upstreams) [] config.listeners
      ∷ each (check_upstream parse_url) config.upstreams
      ∷ each check_retries config.upstreams
      ∷ of_option (check_admin ip) config.admin
      ∷ check_timeouts config.timeouts
      ∷ check_limits config.limits
      ∷ check_trusted_proxies ip config.trusted_proxies
      ∷ of_option check_compression config.compression
      ∷ []

  -- `validate`: a configuration is valid when the list is empty.
  unfoldable pub validate : (Text → Option (Text × Bool)) → GatePupConfig F → List ValidationError
  validate parse_url config = concat (checks parse_url config)
