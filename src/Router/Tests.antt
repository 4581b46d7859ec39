-- ===== src/Router/Tests.antt =====
-- A table of three routes, and the theorems at requests to it.
use gatepup.Prelude.{
  ℕ, ◌≡◌, refl, true, none, some, List, [], ◌∷◌, Text, codes, text_eq, strip_prefix, split_once,
}
use gatepup.Router.Filters.{allow_all, no_ops}
use gatepup.Router.Host.{HostMatch, exact, wildcard, host_matches, rank}
use gatepup.Router.Table.{CompiledRoute, route_matches, specificity}
use gatepup.Router.Select.{match_route, max_by_key, IsChoice, match_route_sound}
use gatepup.Router.Rewrite.{rewritten_path_and_query, stripped}

abbrev a_route : Text → HostMatch → Text → CompiledRoute ℕ ℕ
a_route name host prefix = record {
  name = name;
  upstream = name;
  host = none;
  host_match = host;
  path_prefix = prefix;
  strip_prefix = true;
  request_headers = no_ops;
  response_headers = no_ops;
  ip_access = allow_all;
  rate_limit = none;
  basic_auth = none;
}

abbrev api : CompiledRoute ℕ ℕ
api = a_route (codes "api") (exact (codes "ex.com")) (codes "/api")

abbrev root : CompiledRoute ℕ ℕ
root = a_route (codes "root") (exact (codes "ex.com")) (codes "/")

abbrev wild : CompiledRoute ℕ ℕ
wild = a_route (codes "wild") (wildcard (codes ".ex.com")) (codes "/")

abbrev table : List (CompiledRoute ℕ ℕ)
table = root ∷ api ∷ wild ∷ []

longest_prefix : match_route table (codes "ex.com") (codes "/api/v1") ≡ some api
unfolding match_route max_by_key route_matches specificity host_matches rank strip_prefix text_eq
longest_prefix = refl

wildcard_subdomain : match_route table (codes "a.ex.com") (codes "/api") ≡ some wild
unfolding match_route max_by_key route_matches specificity host_matches rank strip_prefix text_eq
wildcard_subdomain = refl

match_route_sound_example :
    IsChoice specificity (λ q. route_matches q (codes "ex.com") (codes "/api/v1")) api table
match_route_sound_example =
    match_route_sound table (codes "ex.com") (codes "/api/v1") api longest_prefix

strips : rewritten_path_and_query api (some (codes "/apidocs?x=1")) ≡ codes "/docs?x=1"
unfolding rewritten_path_and_query stripped split_once strip_prefix
strips = refl
