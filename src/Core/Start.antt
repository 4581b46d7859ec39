-- ===== src/Core/Start.antt =====
-- How the start of a valid configuration can fail.
use gatepup.Prelude.{
  ◌≡◌, ◌⊎◌, inl, inr, refl, true, false, Option, none, some, List, [], ◌∷◌, ◌++◌, ap, sym, ◌∙◌,
  Bool-cases, Text, arith,
}
use gatepup.Interfaces.{IpLib, HttpLib, Float}
use gatepup.Config.Model.{GatePupConfig, TlsConfig}
use gatepup.Config.Validator.Routes.{validate}
use gatepup.Snapshot.{
  tls_error, bind_error, upstream_tls, RuntimeConfig, ListenerRuntime, build_snapshot,
}
use gatepup.Admin.{AdminState}
use gatepup.Server.{Started, Sockets, conn_limits, serve_shared}
use gatepup.Server.Bind as Bind
use gatepup.Server.Bind.{
  AllBind, bound_after, Binding, all_run, stopped_at, bound, serve_shared-Serves,
}
use gatepup.Core.{
  CoreError, proxy_error, render_error, metrics_error, admin_error, Running, Serving, Platform,
  admin_state, set_up, bound_by, with_proxy, start_servers, serve,
}
use gatepup.Core.SetUp.{SetUp, ready, certificate, text, metrics, set_up-SetUp}

module _ {F Headers Addr Net Tls : Type 0} (fl : Float F) (ip : IpLib Addr Net)
    (http : HttpLib Headers) (p : Platform F Tls) where
  -- What the start of a configuration comes to: all of its listeners run, and its administration, or
  -- the error says what has failed.
  pub data Startable (can_bind : Sockets) (client : Option Text) (config : GatePupConfig F)
      : CoreError ⊎ Serving F Net Tls → Type 0 where
    runs :
        (r : Serving F Net Tls)
        → build_snapshot fl ip http p.acceptor config ≡ inr r.running.shared
        → client ≡ none
        → Binding can_bind [] (conn_limits r.running.shared) r.running.shared.listeners r.servers
        → r.servers.error ≡ none
        → admin_state fl ip http p config config.admin ≡ inr r.admin
        → ((a : AdminState)
            → r.admin ≡ some a
            → can_bind (bound_by fl ip http p r.servers) a.bind ≡ true)
        → Startable can_bind client config (inr r)
    no_certificate :
        (cfg : TlsConfig) (name message : Text)
        → p.acceptor cfg ≡ inl message
        → Startable can_bind client config (inl (proxy_error (tls_error name message)))
    no_text : p.render config ≡ none → Startable can_bind client config (inl render_error)
    no_metrics :
        (message : Text)
        → p.no_metrics ≡ some message
        → Startable can_bind client config (inl (metrics_error message))
    no_client :
        (message : Text)
        → client ≡ some message
        → Startable can_bind client config (inl (proxy_error (upstream_tls message)))
    listener_not_bound :
        (s : RuntimeConfig F Net Tls) (before : List (ListenerRuntime F Net Tls))
        (l : ListenerRuntime F Net Tls) (after : List (ListenerRuntime F Net Tls))
        → build_snapshot fl ip http p.acceptor config ≡ inr s
        → s.listeners ≡ before ++ l ∷ after
        → AllBind can_bind [] before
        → can_bind (bound_after can_bind [] before) l.bind ≡ false
        → Startable can_bind client config (inl (proxy_error (bind_error l.name l.bind)))
    admin_not_bound :
        (snapshot : RuntimeConfig F Net Tls) (s : Started Tls) (a : AdminState)
        → build_snapshot fl ip http p.acceptor config ≡ inr snapshot
        → client ≡ none
        → Binding can_bind [] (conn_limits snapshot) snapshot.listeners s
        → s.error ≡ none
        → admin_state fl ip http p config config.admin ≡ inr (some a)
        → can_bind (bound_by fl ip http p s) a.bind ≡ false
        → Startable can_bind client config (inl (admin_error a.bind))

  module _ (can_bind : Sockets) (client : Option Text) (config : GatePupConfig F) where
    with_proxy-Startable :
        (r : Running F Net Tls × Option AdminState) (s : Started Tls) (a : Option AdminState)
        → build_snapshot fl ip http p.acceptor config ≡ inr r.0.shared
        → admin_state fl ip http p config config.admin ≡ inr a
        → r.1 ≡ a
        → client ≡ none
        → Binding can_bind [] (conn_limits r.0.shared) r.0.shared.listeners s
        → s.error ≡ none
        → Startable can_bind client config (with_proxy fl ip http p can_bind r s none a)
    with_proxy-Startable r s none b q m c k e = runs _ b c k e q (λ a f. absurd (ground arith))
    with_proxy-Startable r s (some a) b q m c k e =
        elim (Bool-cases (can_bind (bound_by fl ip http p s) a.bind)) [
          | inl f ↦ rw f (runs _ b c k e (q ∙ ap inr (sym m)) (λ x g. ground (arith, f, m, g)))
          | inr f ↦ rw f (admin_not_bound r.0.shared s a b c k e q f)
        ]

    proxy-Startable :
        (r : Running F Net Tls × Option AdminState) (s : Started Tls)
        → build_snapshot fl ip http p.acceptor config ≡ inr r.0.shared
        → admin_state fl ip http p config config.admin ≡ inr r.1
        → Bind.Serves can_bind client r.0.shared s
        → Startable can_bind client config (with_proxy fl ip http p can_bind r s s.error r.1)
    proxy-Startable r s b q (Bind.no_client message c t) = rw t (no_client message c)
    proxy-Startable r s b q (bound c k) = elim k [
      | all_run a t ↦
          let e : s.error ≡ none = rw t refl in
          simp e (with_proxy-Startable r s r.1 b q refl c (all_run a t) e)
      | stopped_at before l after m a f t ↦
          rw t (listener_not_bound r.0.shared before l after b m a f)
    ]

    start_servers-Startable :
        (o : CoreError ⊎ (Running F Net Tls × Option AdminState))
        → SetUp fl ip http p config o
        → Startable can_bind client config (start_servers fl ip http p can_bind client o)
    start_servers-Startable o (certificate cfg name message e) = no_certificate cfg name message e
    start_servers-Startable o (text e) = no_text e
    start_servers-Startable o (metrics message e) = no_metrics message e
    start_servers-Startable o (ready r b q) =
        proxy-Startable r (serve_shared can_bind client r.0.shared) b q
          (serve_shared-Serves can_bind client r.0.shared)

    -- A valid configuration starts all of its listeners and the server of its administration, unless
    -- a certificate cannot be read, the text cannot be rendered, the registry refuses the metrics, the
    -- client for the upstreams cannot be built, or an address cannot be bound beside those that the
    -- start has bound before it. The error is then that one, and no address is refused for its text.
    pub serve-Startable :
        validate fl ip p.parse_url config ≡ []
        → Startable can_bind client config (serve fl ip http p can_bind client config)
    unfolding serve
    serve-Startable v =
        start_servers-Startable (set_up fl ip http p config) (set_up-SetUp fl ip http p config v)
