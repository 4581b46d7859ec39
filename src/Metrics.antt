-- ===== src/Metrics.antt =====
-- crates/gatepup-observability/src/metrics.rs: the counters, and the gauge of healthy targets. A counter
-- of the package prometheus is a number, one with labels a number for each label. The durations are
-- counted, and their sum, the registry and the text encoding are left out.
pub mod Counts
use gatepup.Prelude.{
  ℕ, ◌+◌, Bool, List, [], table_get, table_insert, unwrap_or, Text, codes, if◌then◌else◌,
}

pub record Metrics : Type 0 where
  pub requests : ℕ
  pub durations : ℕ
  pub upstream_requests : ℕ
  pub upstream_errors : ℕ
  pub upstream_retries : ℕ
  pub route_not_found : ℕ
  pub upstream_healthy : List (Text × ℕ)
  pub config_reloads : List (Text × ℕ)
  pub websockets : ℕ

-- `Metrics::new`, when the registry takes all of them.
abbrev pub new : Metrics
new = record {
  requests = 0;
  durations = 0;
  upstream_requests = 0;
  upstream_errors = 0;
  upstream_retries = 0;
  route_not_found = 0;
  upstream_healthy = [];
  config_reloads = [];
  websockets = 0;
}

abbrev pub inc_requests : Metrics → Metrics
inc_requests m = record m { requests = m.requests + 1 }

abbrev pub observe_duration : Metrics → Metrics
observe_duration m = record m { durations = m.durations + 1 }

abbrev pub inc_upstream_requests : Metrics → Metrics
inc_upstream_requests m = record m { upstream_requests = m.upstream_requests + 1 }

abbrev pub inc_upstream_errors : Metrics → Metrics
inc_upstream_errors m = record m { upstream_errors = m.upstream_errors + 1 }

-- On the counter alone, which is all that the attempts of a request see.
abbrev pub inc_upstream_retries : ℕ → ℕ
inc_upstream_retries n = n + 1

abbrev pub inc_route_not_found : Metrics → Metrics
inc_route_not_found m = record m { route_not_found = m.route_not_found + 1 }

abbrev pub inc_websocket : Metrics → Metrics
inc_websocket m = record m { websockets = m.websockets + 1 }

-- The counter of a label, which starts at 0.
abbrev pub count_of : Text → List (Text × ℕ) → ℕ
count_of label t = unwrap_or 0 (table_get label t)

unfoldable pub inc_config_reload : Bool → Metrics → Metrics
inc_config_reload success m =
    let result = if success then codes "success" else codes "failure" in
    record m {
      config_reloads = table_insert result (count_of result m.config_reloads + 1) m.config_reloads;
    }

abbrev pub set_upstream_healthy : Text → ℕ → Metrics → Metrics
set_upstream_healthy upstream healthy m = record m {
  upstream_healthy = table_insert upstream healthy m.upstream_healthy;
}
