-- ===== src/Snapshot/Views.antt =====
-- crates/gatepup-proxy/src/snapshot.rs: what the admin API and the metrics read of a snapshot. The
-- iteration order of the map of upstreams is the order of its list here, and `sort_by` is an insertion
-- sort, which is stable as well.
pub mod Order
pub mod Counts
use gatepup.Prelude.{
  ℕ, Bool, true, false, Option, List, [], ◌∷◌, ◌++◌, map, keep, length, ◌==◌, ltb, Text,
  if◌then◌else◌,
}
use gatepup.Health.{is_healthy}
use gatepup.Upstream.{TargetRuntime, UpstreamRuntime}
use gatepup.Router.Table.{RouteSummary, summaries}
use gatepup.Snapshot.{ListenerRuntime, RuntimeConfig}

pub record RouteView : Type 0 where
  pub listener : Text
  pub name : Text
  pub host : Option Text
  pub path_prefix : Text
  pub upstream : Text

pub record TargetView : Type 0 where
  pub url : Text
  pub healthy : Bool
  pub last_check_epoch_ms : ℕ

pub record UpstreamView : Type 0 where
  pub name : Text
  pub targets : List TargetView

-- `str::cmp` says less or equal: byte by byte.
unfoldable pub text_le : Text → Text → Bool
text_le [] t = true
text_le (x ∷ s) [] = false
text_le (x ∷ s) (y ∷ t) = if x == y then text_le s t else ltb x y

unfoldable pub insert : UpstreamView → List UpstreamView → List UpstreamView
insert v [] = v ∷ []
insert v (w ∷ ws) = if text_le v.name w.name then v ∷ w ∷ ws else w ∷ insert v ws

unfoldable pub sort : List UpstreamView → List UpstreamView
sort [] = []
sort (v ∷ vs) = insert v (sort vs)

abbrev pub target_view : TargetRuntime → TargetView
target_view t = record {
  url = t.url;
  healthy = is_healthy t.state;
  last_check_epoch_ms = t.state.last_check_ms;
}

abbrev pub upstream_view : Text × UpstreamRuntime → UpstreamView
upstream_view e = record { name = e.0; targets = map target_view e.1.targets }

-- `filter(…).count()`.
abbrev pub healthy_targets : UpstreamRuntime → ℕ
healthy_targets u = length (keep (λ t. is_healthy (TargetRuntime.state t)) u.targets)

abbrev pub healthy_count : Text × UpstreamRuntime → Text × ℕ
healthy_count e = (e.0, healthy_targets e.1)

module _ {F Net Tls : Type 0} where
  abbrev pub route_view : ListenerRuntime F Net Tls → RouteSummary → RouteView
  route_view l s = record {
    listener = l.name;
    name = s.name;
    host = s.host;
    path_prefix = s.path_prefix;
    upstream = s.upstream;
  }

  -- The `flat_map` of `routes`.
  unfoldable pub listener_routes : List (ListenerRuntime F Net Tls) → List RouteView
  listener_routes [] = []
  listener_routes (l ∷ ls) = map (route_view l) (summaries l.router) ++ listener_routes ls

  abbrev pub routes : RuntimeConfig F Net Tls → List RouteView
  routes s = listener_routes s.listeners

  unfoldable pub upstreams_view : RuntimeConfig F Net Tls → List UpstreamView
  upstreams_view s = sort (map upstream_view s.upstreams)

  unfoldable pub healthy_counts : RuntimeConfig F Net Tls → List (Text × ℕ)
  healthy_counts s = map healthy_count s.upstreams
