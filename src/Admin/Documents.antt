-- ===== src/Admin/Documents.antt =====
-- crates/gatepup-admin/src/api.rs and health.rs: the documents of the replies. JSON and the text of the
-- metrics are left out: a document is the value that is rendered.
use mathlib.Core.Option
use gatepup.Prelude.{
  ℕ, ◌≡◌, refl, ap, ◌∙◌, Option, none, some, List, [], ◌∷◌, Bool-cases, inl, inr, or_else, Text,
  codes, text_eq, text_eq→eq, table_get, table_get-insert,
}
use gatepup.Interfaces.{HttpLib}
use gatepup.Metrics.{Metrics, set_upstream_healthy}
use gatepup.Snapshot.{RuntimeConfig}
use gatepup.Snapshot.Views.{
  RouteView, UpstreamView, routes, upstreams_view, healthy_counts, healthy_targets,
}
use gatepup.Snapshot.Views.Counts.{Distinct, table_get-healthy_count, map-healthy_count-Distinct}
use gatepup.Admin
use gatepup.Admin.{AdminState, Reply, status, route}

pub data Document : Type 0 where
  error : Text → Document
  health_payload : Text → Text → Document
  route_list : List RouteView → Document
  upstream_list : List UpstreamView → Document
  config_text : Text → Document
  metrics_text : Metrics → Document

-- A reply with its headers `Content-Type` and `WWW-Authenticate`.
pub record AdminResponse : Type 0 where
  pub status : ℕ
  pub content_type : Text
  pub authenticate : Option Text
  pub body : Document

-- What the admin API shares with the proxy.
pub record Live (F Net Tls : Type 0) : Type 0 where
  pub snapshot : RuntimeConfig F Net Tls
  pub effective_config : Text
  pub metrics : Metrics

abbrev pub json : ℕ → Document → AdminResponse
json code body = record {
  status = code;
  content_type = codes "application/json";
  authenticate = none;
  body = body;
}

-- The loop of `metrics`.
unfoldable pub refresh : List (Text × ℕ) → Metrics → Metrics
refresh [] m = m
refresh ((upstream, healthy) ∷ rest) m = refresh rest (set_upstream_healthy upstream healthy m)

module _ {F Net Tls : Type 0} where
  abbrev pub refreshed : Live F Net Tls → Metrics
  refreshed live = refresh (healthy_counts live.snapshot) live.metrics

  -- The reply, and the metrics behind it.
  unfoldable pub answer : AdminState → Live F Net Tls → Reply → AdminResponse × Metrics
  answer state live Admin.method_not_allowed =
      (json 405 (error (codes "method_not_allowed")), live.metrics)
  answer state live Admin.unauthorized = (
    record (json 401 (error (codes "unauthorized"))) {
      authenticate = some (codes "Bearer realm=\"gatepup-admin\"");
    },
    live.metrics,
  )
  answer state live Admin.not_found = (json 404 (error (codes "not_found")), live.metrics)
  answer state live Admin.metrics = (
    record {
      status = 200;
      content_type = codes "text/plain; version=0.0.4";
      authenticate = none;
      body = metrics_text (refreshed live);
    },
    refreshed live,
  )
  answer state live Admin.health =
      (json 200 (health_payload (codes "ok") state.version), live.metrics)
  answer state live Admin.routes = (json 200 (route_list (routes live.snapshot)), live.metrics)
  answer state live Admin.upstreams =
      (json 200 (upstream_list (upstreams_view live.snapshot)), live.metrics)
  answer state live Admin.effective_config =
      (json 200 (config_text live.effective_config), live.metrics)

  module _ {Headers : Type 0} (http : HttpLib Headers) where
    -- `route`, with the method, the path and the headers of the request.
    unfoldable pub handle :
        AdminState → Live F Net Tls → Text → Text → Headers → AdminResponse × Metrics
    handle state live method path m = answer state live (route http state method path m)

refresh_gauge :
    (k : Text) (counts : List (Text × ℕ)) (m : Metrics)
    → Distinct counts
    → table_get k (refresh counts m).upstream_healthy
      ≡ or_else (table_get k counts) (table_get k m.upstream_healthy)
unfolding refresh table_get
refresh_gauge k [] m d = refl
refresh_gauge k ((n, c) ∷ counts) m d =
    refresh_gauge k counts (set_upstream_healthy n c m) d.1
    ∙ rw (table_get-insert k n c m.upstream_healthy) (elim (Bool-cases (text_eq n k)) [
      | inl e ↦ let h : table_get k counts ≡ none = rw (← text_eq→eq n k e) (d.0) in rw (e, h) refl
      | inr e ↦ rw e refl
    ])

refresh_frame :
    (counts : List (Text × ℕ)) (m : Metrics)
    → refresh counts m ≡ record m { upstream_healthy = (refresh counts m).upstream_healthy }
unfolding refresh
refresh_frame [] m = refl
refresh_frame ((n, c) ∷ counts) m = refresh_frame counts (set_upstream_healthy n c m)

module _ {F Net Tls : Type 0} where
  -- After a scrape the gauge of every upstream of the snapshot is the number of its healthy targets. An
  -- upstream that the snapshot no longer has keeps the value of the last scrape that saw it.
  pub scrape_gauge :
      (live : Live F Net Tls) (k : Text)
      → Distinct live.snapshot.upstreams
      → table_get k (refreshed live).upstream_healthy
        ≡ or_else
            (Option.map healthy_targets (table_get k live.snapshot.upstreams))
            (table_get k live.metrics.upstream_healthy)
  unfolding healthy_counts
  scrape_gauge live k d =
      refresh_gauge k (healthy_counts live.snapshot) live.metrics
        (map-healthy_count-Distinct live.snapshot.upstreams d)
      ∙ ap (λ o. or_else o (table_get k live.metrics.upstream_healthy))
          (table_get-healthy_count k live.snapshot.upstreams)

  answer_frame :
      (state : AdminState) (live : Live F Net Tls) (r : Reply)
      → (answer state live r).1
        ≡ record live.metrics { upstream_healthy = (answer state live r).1.upstream_healthy }
  unfolding answer
  answer_frame state live Admin.method_not_allowed = refl
  answer_frame state live Admin.unauthorized = refl
  answer_frame state live Admin.not_found = refl
  answer_frame state live Admin.metrics = refresh_frame (healthy_counts live.snapshot) live.metrics
  answer_frame state live Admin.health = refl
  answer_frame state live Admin.routes = refl
  answer_frame state live Admin.upstreams = refl
  answer_frame state live Admin.effective_config = refl

  answer-status :
      (state : AdminState) (live : Live F Net Tls) (r : Reply)
      → (answer state live r).0.status ≡ status r
  unfolding answer
  answer-status state live Admin.method_not_allowed = refl
  answer-status state live Admin.unauthorized = refl
  answer-status state live Admin.not_found = refl
  answer-status state live Admin.metrics = refl
  answer-status state live Admin.health = refl
  answer-status state live Admin.routes = refl
  answer-status state live Admin.upstreams = refl
  answer-status state live Admin.effective_config = refl

  -- The admin API is read-only: whatever the request, the counters stay as they are, and only the gauge
  -- of the health is written. The status of the reply is that of the routing.
  pub handle_read_only :
      {Headers : Type 0} (http : HttpLib Headers) (state : AdminState) (live : Live F Net Tls)
      (method path : Text) (m : Headers)
      → let r = handle http state live method path m in
        (r.1 ≡ record live.metrics { upstream_healthy = r.1.upstream_healthy })
        × (r.0.status ≡ status (route http state method path m))
  unfolding handle
  handle_read_only http state live method path m =
      let r = route http state method path m in
      (answer_frame state live r, answer-status state live r)
