-- ===== src/Core.antt =====
-- crates/gatepup-core/src/app.rs and error.rs: the start, the signals and the hot reload, and the
-- subcommands of crates/gatepup-cli/src/main.rs that they serve. Reading a file,
-- parsing JSON and rendering it are arguments.
pub mod Reload
pub mod SetUp
pub mod Signals
pub mod Start
mod Tests
use mathlib.Core.List.{reverse}
use gatepup.Prelude.{
  ℕ, ◌+◌, ◌%◌, ◌^◌, Bool, true, false, Option, none, some, List, [], ◌∷◌, ◌⊎◌, inl, inr, Text, map,
  if◌then◌else◌,
}
use gatepup.Interfaces.{IpLib, HttpLib, Float}
use gatepup.Config.Model.{GatePupConfig, TlsConfig, AdminConfig, MetricsConfig}
use gatepup.Config.Errors.{ValidationError}
use gatepup.Config.Validator.Routes.{validate}
use gatepup.Config.Resolve.{ConfigError, ConfigSource, Env, resolve_with, load_from_file}
use gatepup.Metrics
use gatepup.Metrics.{Metrics, inc_config_reload}
use gatepup.Admin.{AdminState}
use gatepup.Server.{AcceptLoop, Started, Sockets, serve_shared}
use gatepup.Snapshot.{ProxyError, RuntimeConfig, build_snapshot, build_reload_snapshot}

-- `CoreError` of error.rs. `admin_error` is that of an address that cannot be bound, and `admin_bind`
-- that of a text that is no address.
pub data CoreError : Type 0 where
  config_error : ConfigError → CoreError
  invalid : List ValidationError → CoreError
  render_error : CoreError
  proxy_error : ProxyError → CoreError
  metrics_error : Text → CoreError
  admin_error : Text → CoreError
  admin_bind : Text → CoreError

-- `CoreError::validation_errors`.
abbrev pub validation_errors : CoreError → Option (List ValidationError)
validation_errors (invalid errors) = some errors
validation_errors _ = none

-- What the application shares with its servers and a reload can change: the snapshot, the rendered
-- configuration, the version that the supervisor of the probes watches, and the metrics.
pub record Running (F Net Tls : Type 0) : Type 0 where
  pub shared : RuntimeConfig F Net Tls
  pub effective : Text
  pub version : ℕ
  pub metrics : Metrics

-- What runs once the start is over: the servers of the proxy, and that of the administration where the
-- configuration enables it.
pub record Serving (F Net Tls : Type 0) : Type 0 where
  pub running : Running F Net Tls
  pub admin : Option AdminState
  pub servers : Started Tls

-- The code outside src/ that the application calls.
pub record Platform (F Tls : Type 0) : Type 0 where
  pub read_to_string : Text → Option Text
  pub json : Text → Option (GatePupConfig F)
  pub parse_url : Text → Option (Text × Bool)
  pub acceptor : TlsConfig → Text ⊎ Tls
  pub render : GatePupConfig F → Option Text
  pub no_metrics : Option Text
  pub version : Text

abbrev pub or_render_error : Option Text → CoreError ⊎ Text
or_render_error none = inl render_error
or_render_error (some text) = inr text

module _ {F Headers Addr Net Tls : Type 0} (fl : Float F) (ip : IpLib Addr Net)
    (http : HttpLib Headers) (p : Platform F Tls) where
  abbrev pub accept_config : GatePupConfig F → List ValidationError → CoreError ⊎ GatePupConfig F
  accept_config c [] = inr c
  accept_config c (e ∷ es) = inl (invalid (e ∷ es))

  abbrev pub accept :
      GatePupConfig F × ConfigSource
      → List ValidationError
      → CoreError ⊎ (GatePupConfig F × ConfigSource)
  accept c [] = inr c
  accept c (e ∷ es) = inl (invalid (e ∷ es))

  abbrev pub validated :
      ConfigError ⊎ (GatePupConfig F × ConfigSource) → CoreError ⊎ (GatePupConfig F × ConfigSource)
  validated (inl e) = inl (config_error e)
  validated (inr c) = accept c (validate fl ip p.parse_url c.0)

  abbrev pub accept_loaded : ConfigError ⊎ GatePupConfig F → CoreError ⊎ GatePupConfig F
  accept_loaded (inl e) = inl (config_error e)
  accept_loaded (inr c) = accept_config c (validate fl ip p.parse_url c)

  -- `load_validated`.
  unfoldable pub load_validated : Text → CoreError ⊎ GatePupConfig F
  load_validated path = accept_loaded (load_from_file p.read_to_string p.json path)

  -- `resolve_validated`.
  unfoldable pub resolve_validated :
      Option Text → Env → CoreError ⊎ (GatePupConfig F × ConfigSource)
  resolve_validated cli get =
      validated (resolve_with (load_from_file p.read_to_string p.json) p.json cli get)

  abbrev pub rendered :
      RuntimeConfig F Net Tls → Option Text → CoreError ⊎ (RuntimeConfig F Net Tls × Text)
  rendered s none = inl render_error
  rendered s (some t) = inr (s, t)

  abbrev pub with_snapshot :
      GatePupConfig F
      → ProxyError ⊎ RuntimeConfig F Net Tls
      → CoreError ⊎ (RuntimeConfig F Net Tls × Text)
  with_snapshot c (inl e) = inl (proxy_error e)
  with_snapshot c (inr s) = rendered s (p.render c)

  -- The chain of `and_then` in `reload`.
  abbrev pub prepare :
      CoreError ⊎ (GatePupConfig F × ConfigSource) → CoreError ⊎ (RuntimeConfig F Net Tls × Text)
  prepare (inl e) = inl e
  prepare (inr c) = with_snapshot c.0 (build_reload_snapshot fl ip http p.acceptor c.0)

  abbrev pub swap :
      Running F Net Tls → CoreError ⊎ (RuntimeConfig F Net Tls × Text) → Running F Net Tls
  swap r (inl e) = record r { metrics = inc_config_reload false r.metrics }
  swap r (inr n) = record {
    shared = n.0;
    effective = n.1;
    version = (r.version + 1) % 2 ^ 64;
    metrics = inc_config_reload true r.metrics;
  }

  -- `reload`.
  unfoldable pub reload : Option Text → Env → Running F Net Tls → Running F Net Tls
  reload cli get r = swap r (prepare (resolve_validated cli get))

  -- One reload for each environment, the newest first: the files may change between two signals.
  unfoldable pub reloads : Option Text → List Env → Running F Net Tls → Running F Net Tls
  reloads cli [] r = r
  reloads cli (get ∷ gets) r = reload cli get (reloads cli gets r)

  abbrev pub printed : CoreError ⊎ (GatePupConfig F × ConfigSource) → CoreError ⊎ Text
  printed (inl e) = inl e
  printed (inr c) = or_render_error (p.render c.0)

  -- `print_config`.
  unfoldable pub print_config : Option Text → Env → CoreError ⊎ Text
  print_config cli get = printed (resolve_validated cli get)

  -- The path of the metrics, where they are enabled.
  abbrev pub metrics_path : Option MetricsConfig → Option Text
  metrics_path none = none
  metrics_path (some m) = if m.enabled then some m.path else none

  abbrev pub state_at : GatePupConfig F → AdminConfig → Option Text → CoreError ⊎ Option AdminState
  state_at config admin none = inl (admin_bind admin.bind)
  state_at config admin (some bind) = inr (
      some (record {
        bind = bind;
        metrics_path = metrics_path config.metrics;
        version = p.version;
        token = admin.token;
      }))

  -- `match &config.admin`.
  abbrev pub admin_state : GatePupConfig F → Option AdminConfig → CoreError ⊎ Option AdminState
  admin_state config none = inr none
  admin_state config (some admin) =
      if admin.enabled then state_at config admin (ip.parse_socket_addr admin.bind) else inr none

  abbrev pub with_admin :
      Running F Net Tls
      → CoreError ⊎ Option AdminState
      → CoreError ⊎ (Running F Net Tls × Option AdminState)
  with_admin r (inl e) = inl e
  with_admin r (inr a) = inr (r, a)

  abbrev pub with_metrics :
      GatePupConfig F
      → RuntimeConfig F Net Tls
      → Text
      → Option Text
      → CoreError ⊎ (Running F Net Tls × Option AdminState)
  with_metrics config s text (some message) = inl (metrics_error message)
  with_metrics config s text none =
      with_admin (record { shared = s; effective = text; version = 0; metrics = Metrics.new })
        (admin_state config config.admin)

  abbrev pub with_text :
      GatePupConfig F
      → RuntimeConfig F Net Tls
      → Option Text
      → CoreError ⊎ (Running F Net Tls × Option AdminState)
  with_text config s none = inl render_error
  with_text config s (some text) = with_metrics config s text p.no_metrics

  abbrev pub with_runtime :
      GatePupConfig F
      → ProxyError ⊎ RuntimeConfig F Net Tls
      → CoreError ⊎ (Running F Net Tls × Option AdminState)
  with_runtime config (inl e) = inl (proxy_error e)
  with_runtime config (inr s) = with_text config s (p.render config)

  -- `serve`, up to its servers.
  unfoldable pub set_up : GatePupConfig F → CoreError ⊎ (Running F Net Tls × Option AdminState)
  set_up config = with_runtime config (build_snapshot fl ip http p.acceptor config)

  -- `proxy_fut` has bound what it can when `admin_fut` is first polled, since a bind does not wait; the
  -- first error ends `try_join!`.
  abbrev pub bound_by : Started Tls → List Text
  bound_by s = reverse (map AcceptLoop.bind s.loops)

  abbrev pub admin_bound :
      Running F Net Tls × Option AdminState
      → Started Tls
      → Text
      → Bool
      → CoreError ⊎ Serving F Net Tls
  admin_bound r s bind false = inl (admin_error bind)
  admin_bound r s bind true = inr (record { running = r.0; admin = r.1; servers = s })

  abbrev pub with_proxy :
      Sockets
      → Running F Net Tls × Option AdminState
      → Started Tls
      → Option ProxyError
      → Option AdminState
      → CoreError ⊎ Serving F Net Tls
  with_proxy can_bind r s (some e) a = inl (proxy_error e)
  with_proxy can_bind r s none none = inr (record { running = r.0; admin = none; servers = s })
  with_proxy can_bind r s none (some a) = admin_bound r s a.bind (can_bind (bound_by s) a.bind)

  abbrev pub start_servers :
      Sockets
      → Option Text
      → CoreError ⊎ (Running F Net Tls × Option AdminState)
      → CoreError ⊎ Serving F Net Tls
  start_servers can_bind client (inl e) = inl e
  start_servers can_bind client (inr r) =
      let s = serve_shared can_bind client r.0.shared in with_proxy can_bind r s s.error r.1

  -- `serve`, up to the wait for its servers.
  unfoldable pub serve : Sockets → Option Text → GatePupConfig F → CoreError ⊎ Serving F Net Tls
  serve can_bind client config = start_servers can_bind client (set_up config)

-- `signal_loop`, on the signals that it receives; a hangup comes with the files and the environment
-- that the reload finds.
pub data Signal : Type 0 where
  terminate interrupt : Signal
  hangup : Env → Signal

module _ {F Headers Addr Net Tls : Type 0} (fl : Float F) (ip : IpLib Addr Net)
    (http : HttpLib Headers) (p : Platform F Tls) where
  -- The flag says that the shutdown was sent.
  unfoldable pub signal_loop :
      Option Text → List Signal → Running F Net Tls → Bool × Running F Net Tls
  signal_loop cli [] r = (false, r)
  signal_loop cli (terminate ∷ signals) r = (true, r)
  signal_loop cli (interrupt ∷ signals) r = (true, r)
  signal_loop cli (hangup get ∷ signals) r = signal_loop cli signals (reload fl ip http p cli get r)
