-- ===== src/Core/Tests.antt =====
-- A reload from an environment without a source is refused, and a small configuration starts.
use gatepup.Prelude.{
  ℕ, ◌+◌, ◌≡◌, ◌⊎◌, inl, refl, true, false, none, some, [], ◌∷◌, codes, text_eq, table_get,
}
use gatepup.Interfaces.{whole}
use gatepup.Interfaces.Assoc.{assoc}
use gatepup.Interfaces.Bytes.{bytes_ip}
use gatepup.Config.Model.{GatePupConfig, default_limits, default_timeouts}
use gatepup.Config.Validator.{
  check_app, check_unique_upstreams, check_timeouts, check_limits, check_admin,
  check_trusted_proxies,
}
use gatepup.Config.Validator.Routes.{validate, check_listeners}
use gatepup.Config.Resolve.{Env, resolve_with, base_config}
use gatepup.Metrics
use gatepup.Metrics.{inc_config_reload}
use gatepup.Metrics.Counts.{succeeded, failed}
use gatepup.Server.{Sockets, serve_shared, bind_listeners}
use gatepup.Snapshot.{build_snapshot, build_snapshot_inner, build_listeners}
use gatepup.Core.{
  admin_error, set_up, Running, Platform, terminate, hangup, reload, reloads, resolve_validated,
  signal_loop, serve,
}
use gatepup.Core.Reload.{IsSound}
use gatepup.Core.Signals.{signal_loop_refines}
use gatepup.Core.Start.{Startable, serve-Startable}

abbrev platform : Platform ℕ ℕ
platform = record {
  read_to_string = λ path. none;
  json = λ text. none;
  parse_url = λ text. none;
  acceptor = λ c. inl [];
  render = λ c. some [];
  no_metrics = none;
  version = codes "1";
}

abbrev running : Running ℕ ℕ ℕ
running = record {
  shared = record {
    listeners = [];
    upstreams = [];
    connect_timeout = 1;
    request_timeout = 1;
    max_body_bytes = 0;
    header_read_timeout = none;
    max_header_bytes = none;
    trusted_proxies = [];
    compression = none;
  };
  effective = codes "{}";
  version = 0;
  metrics = Metrics.new;
}

abbrev nothing_set : Env
nothing_set name = none

refused :
    reload whole bytes_ip assoc platform none nothing_set running
    ≡ record running { metrics = inc_config_reload false Metrics.new }
unfolding reload resolve_validated resolve_with base_config
refused = refl

-- The hangup behind the end is not seen.
signal_loop_refines_example :
    let signals = hangup nothing_set ∷ terminate ∷ hangup nothing_set ∷ [] in
    let t = (signal_loop whole bytes_ip assoc platform none signals running).1 in
    (signal_loop whole bytes_ip assoc platform none signals running
      ≡ (true, reloads whole bytes_ip assoc platform none (nothing_set ∷ []) running))
    × (((t.shared ≡ running.shared) × (t.effective ≡ running.effective))
        ⊎ IsSound whole bytes_ip assoc platform t.shared t.effective)
    × (succeeded t.metrics + failed t.metrics ≡ 1)
unfolding table_get
signal_loop_refines_example =
    signal_loop_refines whole bytes_ip assoc platform none
      (hangup nothing_set ∷ terminate ∷ hangup nothing_set ∷ []) running

abbrev with_admin : GatePupConfig ℕ
with_admin = record {
  app = record { name = codes "g"; log_level = codes "INFO" };
  listeners = [];
  upstreams = [];
  timeouts = default_timeouts;
  limits = default_limits;
  trusted_proxies = [];
  compression = none;
  admin = some (record { enabled = true; bind = codes "a:1"; token = none });
  metrics = none;
}

with_admin_valid : validate whole bytes_ip platform.parse_url with_admin ≡ []
unfolding validate check_app check_unique_upstreams check_listeners check_timeouts check_limits
    check_admin check_trusted_proxies text_eq
with_admin_valid = refl

abbrev any_socket : Sockets
any_socket bound a = true

serve-Startable_example :
    Startable whole bytes_ip assoc platform any_socket none with_admin
      (serve whole bytes_ip assoc platform any_socket none with_admin)
serve-Startable_example =
    serve-Startable whole bytes_ip assoc platform any_socket none with_admin with_admin_valid

-- The address of the administration is in use.
admin_refused :
    serve whole bytes_ip assoc platform (λ bound a. false) none with_admin
    ≡ inl (admin_error (codes "a:1"))
unfolding serve set_up build_snapshot build_snapshot_inner build_listeners serve_shared
    bind_listeners
admin_refused = refl
