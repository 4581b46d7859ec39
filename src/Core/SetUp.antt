-- ===== src/Core/SetUp.antt =====
-- How far the start of a valid configuration comes before its servers.
use gatepup.Prelude.{
  ◌≡◌, ◌⊎◌, inl, inr, refl, true, false, Option, none, some, List, [], ◌∷◌, In, here, there,
  is_some, Bool-cases, Option-cases, Text, arith,
}
use gatepup.Interfaces.{IpLib, HttpLib, Float}
use gatepup.Config.Model.{GatePupConfig, ListenerConfig, TlsConfig, AdminConfig}
use gatepup.Config.Validator.Routes.{validate}
use gatepup.Config.Validator.Checked.{bind_parses, admin_bind_parses}
use gatepup.Snapshot.{
  ProxyError, tls_error, RuntimeConfig, ListenerRuntime, build_snapshot, build_snapshot_inner,
  build_listener, build_listeners, with_acceptor, listener_tls, tls_of, push_listener,
  with_listeners,
}
use gatepup.Admin.{AdminState}
use gatepup.Core.{
  CoreError, proxy_error, render_error, metrics_error, Running, Platform, admin_state, with_admin,
  with_metrics, with_text, with_runtime, set_up,
}

-- A value, or the error of a certificate that the acceptor gives.
data BuiltOr {Tls R : Type 0} (acceptor : TlsConfig → Text ⊎ Tls) : ProxyError ⊎ R → Type 0 where
  built : (r : R) → BuiltOr acceptor (inr r)
  bad_tls :
      (cfg : TlsConfig) (name message : Text)
      → acceptor cfg ≡ inl message
      → BuiltOr acceptor (inl (tls_error name message))

tls_of-BuiltOr :
    {Tls : Type 0} (acceptor : TlsConfig → Text ⊎ Tls) (cfg : TlsConfig) (name : Text)
    (o : Text ⊎ Tls)
    → acceptor cfg ≡ o
    → BuiltOr acceptor (tls_of name o)
tls_of-BuiltOr acceptor cfg name (inl message) e = bad_tls cfg name message e
tls_of-BuiltOr acceptor cfg name (inr t) e = built (some t)

listener_tls-BuiltOr :
    {Tls : Type 0} (acceptor : TlsConfig → Text ⊎ Tls) (name : Text) (o : Option TlsConfig)
    → BuiltOr acceptor (listener_tls acceptor true name o)
listener_tls-BuiltOr acceptor name none = built none
listener_tls-BuiltOr acceptor name (some cfg) = tls_of-BuiltOr acceptor cfg name (acceptor cfg) refl

push_listener-BuiltOr :
    {Tls L : Type 0} (acceptor : TlsConfig → Text ⊎ Tls) (o : ProxyError ⊎ L)
    (rest : ProxyError ⊎ List L)
    → BuiltOr acceptor o
    → BuiltOr acceptor rest
    → BuiltOr acceptor (push_listener o rest)
push_listener-BuiltOr acceptor o rest (bad_tls cfg name message e) k = bad_tls cfg name message e
push_listener-BuiltOr acceptor o rest (built l) (bad_tls cfg name message e) =
    bad_tls cfg name message e
push_listener-BuiltOr acceptor o rest (built l) (built ls) = built (l ∷ ls)

module _ {F Headers Addr Net Tls : Type 0} (fl : Float F) (ip : IpLib Addr Net)
    (http : HttpLib Headers) (p : Platform F Tls) where
  with_acceptor-BuiltOr :
      (l : ListenerConfig F) (bind : Text) (o : ProxyError ⊎ Option Tls)
      → BuiltOr p.acceptor o
      → BuiltOr p.acceptor (with_acceptor fl ip http l bind o)
  with_acceptor-BuiltOr l bind o (built t) = built _
  with_acceptor-BuiltOr l bind o (bad_tls cfg name message e) = bad_tls cfg name message e

  build_listener-BuiltOr :
      (l : ListenerConfig F)
      → is_some (ip.parse_socket_addr l.bind) ≡ true
      → BuiltOr p.acceptor (build_listener fl ip http p.acceptor true l)
  unfolding build_listener
  build_listener-BuiltOr l h = elim (Option-cases (ip.parse_socket_addr l.bind)) [
    | inl e ↦
        let f : is_some (ip.parse_socket_addr l.bind) ≡ false = rw e refl in absurd (ground arith)
    | inr c ↦
        rw (c.1) (with_acceptor-BuiltOr l c.0 _ (listener_tls-BuiltOr p.acceptor l.name l.tls))
  ]

  build_listeners-BuiltOr :
      (ls : List (ListenerConfig F))
      → ((l : ListenerConfig F) → In l ls → is_some (ip.parse_socket_addr l.bind) ≡ true)
      → BuiltOr p.acceptor (build_listeners fl ip http p.acceptor true ls)
  unfolding build_listeners
  build_listeners-BuiltOr [] h = built []
  build_listeners-BuiltOr (l ∷ ls) h =
      push_listener-BuiltOr p.acceptor _ _ (build_listener-BuiltOr l (h l here))
        (build_listeners-BuiltOr ls (λ k m. h k (there m)))

  with_listeners-BuiltOr :
      (config : GatePupConfig F) (o : ProxyError ⊎ List (ListenerRuntime F Net Tls))
      → BuiltOr p.acceptor o
      → BuiltOr p.acceptor (with_listeners fl ip http config o)
  with_listeners-BuiltOr config o (built ls) = built _
  with_listeners-BuiltOr config o (bad_tls cfg name message e) = bad_tls cfg name message e

  -- How far `serve` comes before its servers.
  pub data SetUp (config : GatePupConfig F)
      : CoreError ⊎ (Running F Net Tls × Option AdminState) → Type 0 where
    ready :
        (r : Running F Net Tls × Option AdminState)
        → build_snapshot fl ip http p.acceptor config ≡ inr r.0.shared
        → admin_state fl ip http p config config.admin ≡ inr r.1
        → SetUp config (inr r)
    certificate :
        (cfg : TlsConfig) (name message : Text)
        → p.acceptor cfg ≡ inl message
        → SetUp config (inl (proxy_error (tls_error name message)))
    text : p.render config ≡ none → SetUp config (inl render_error)
    metrics :
        (message : Text) → p.no_metrics ≡ some message → SetUp config (inl (metrics_error message))

  admin-SetUp :
      (config : GatePupConfig F) (r : Running F Net Tls) (o : Option AdminConfig)
      → config.admin ≡ o
      → build_snapshot fl ip http p.acceptor config ≡ inr r.shared
      → ((a : AdminConfig) → o ≡ some a → is_some (ip.parse_socket_addr a.bind) ≡ true)
      → SetUp config (with_admin fl ip http p r (admin_state fl ip http p config o))
  admin-SetUp config r none q b h = ready (r, none) b (rw q refl)
  admin-SetUp config r (some a) q b h = elim (Bool-cases a.enabled) [
    | inr e ↦ rw e (ready (r, none) b (rw (q, e) refl))
    | inl e ↦ elim (Option-cases (ip.parse_socket_addr a.bind)) [
      | inl f ↦
          let g : is_some (ip.parse_socket_addr a.bind) ≡ false = rw f refl in
          let t = h a refl in absurd (ground arith)
      | inr c ↦ rw (e, c.1) (ready _ b (rw (q, e, c.1) refl))
    ]
  ]

  metrics-SetUp :
      (config : GatePupConfig F) (s : RuntimeConfig F Net Tls) (t : Text) (o : Option Text)
      → p.no_metrics ≡ o
      → build_snapshot fl ip http p.acceptor config ≡ inr s
      → ((a : AdminConfig) → config.admin ≡ some a → is_some (ip.parse_socket_addr a.bind) ≡ true)
      → SetUp config (with_metrics fl ip http p config s t o)
  metrics-SetUp config s t (some message) q b h = metrics message q
  metrics-SetUp config s t none q b h = admin-SetUp config _ config.admin refl b h

  text-SetUp :
      (config : GatePupConfig F) (s : RuntimeConfig F Net Tls) (o : Option Text)
      → p.render config ≡ o
      → build_snapshot fl ip http p.acceptor config ≡ inr s
      → ((a : AdminConfig) → config.admin ≡ some a → is_some (ip.parse_socket_addr a.bind) ≡ true)
      → SetUp config (with_text fl ip http p config s o)
  text-SetUp config s none q b h = text q
  text-SetUp config s (some t) q b h = metrics-SetUp config s t p.no_metrics refl b h

  runtime-SetUp :
      (config : GatePupConfig F) (o : ProxyError ⊎ RuntimeConfig F Net Tls)
      → build_snapshot fl ip http p.acceptor config ≡ o
      → BuiltOr p.acceptor o
      → ((a : AdminConfig) → config.admin ≡ some a → is_some (ip.parse_socket_addr a.bind) ≡ true)
      → SetUp config (with_runtime fl ip http p config o)
  runtime-SetUp config o q (built s) h = text-SetUp config s (p.render config) refl q h
  runtime-SetUp config o q (bad_tls cfg name message e) h = certificate cfg name message e

  build_snapshot-BuiltOr :
      (config : GatePupConfig F)
      → validate fl ip p.parse_url config ≡ []
      → BuiltOr p.acceptor (build_snapshot fl ip http p.acceptor config)
  unfolding build_snapshot build_snapshot_inner
  build_snapshot-BuiltOr config v =
      with_listeners-BuiltOr config _ (
        build_listeners-BuiltOr config.listeners
          (λ l m. bind_parses fl ip p.parse_url config l v m))

  pub set_up-SetUp :
      (config : GatePupConfig F)
      → validate fl ip p.parse_url config ≡ []
      → SetUp config (set_up fl ip http p config)
  unfolding set_up
  set_up-SetUp config v =
      runtime-SetUp config _ refl (build_snapshot-BuiltOr config v)
        (λ a e. admin_bind_parses fl ip p.parse_url config a v e)
