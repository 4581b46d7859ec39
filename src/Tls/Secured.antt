-- ===== src/Tls/Secured.antt =====
-- A TLS listener of a valid configuration runs with an acceptor from its own files.
use gatepup.Prelude.{
  ◌≡◌, ◌⊎◌, inl, inr, refl, sym, ap, Bool, true, Option, none, some, List, [], ◌∷◌, In, here, there,
  Text, arith,
}
use gatepup.Interfaces.{IpLib, HttpLib, Float}
use gatepup.Config.Model.{GatePupConfig, ListenerConfig, TlsConfig, Protocol, http, https}
use gatepup.Config.Validator.{check_listener_tls}
use gatepup.Config.Validator.Routes.{validate}
use gatepup.Config.Validator.Checked.{tls_checked}
use gatepup.Router.Table.{build}
use gatepup.Snapshot.{
  ProxyError, ListenerRuntime, RuntimeConfig, tls_of, listener_tls, with_acceptor, with_bind,
  push_listener, with_listeners, runtime, build_listener, build_listeners, build_snapshot_inner,
  build_snapshot,
}
use gatepup.Tls.{Pem, acceptor}
use gatepup.Tls.Material.{Material, acceptor-Material}

-- What runs a listener of the configuration.
module _ {F Net Reader Cert Key Versions Acceptor : Type 0}
    (pem : Pem Reader Cert Key Versions Acceptor) where
  pub data Secured (l : ListenerConfig F) (r : ListenerRuntime F Net Acceptor) : Type 0 where
    plain : l.protocol ≡ http → r.tls ≡ none → Secured l r
    encrypted :
        (cfg : TlsConfig) (t : Acceptor)
        → l.protocol ≡ https
        → l.tls ≡ some cfg
        → r.tls ≡ some t
        → Material pem cfg t
        → Secured l r

  tls-Secured :
      (l : ListenerConfig F) (r : ListenerRuntime F Net Acceptor) (p : Protocol)
      (cfg : Option TlsConfig)
      → l.protocol ≡ p
      → l.tls ≡ cfg
      → check_listener_tls l.name p cfg ≡ []
      → listener_tls (acceptor pem) true l.name cfg ≡ inr r.tls
      → Secured l r
  unfolding check_listener_tls
  tls-Secured l r https none a b h k = absurd (ground arith)
  tls-Secured l r http none a b h k = plain a (let e : none ≡ r.tls = cc in sym e)
  tls-Secured l r http (some cfg) a b h k = absurd (ground arith)
  tls-Secured l r https (some cfg) a b h k = of_acceptor (acceptor pem cfg) refl k
    where
      of_acceptor :
          (x : Text ⊎ Acceptor) → acceptor pem cfg ≡ x → tls_of l.name x ≡ inr r.tls → Secured l r
      of_acceptor (inl m) e g = absurd (ground arith)
      of_acceptor (inr t) e g =
          let f : some t ≡ r.tls = cc in encrypted cfg t a b (sym f) (acceptor-Material pem cfg t e)

module _ {F Headers Addr Net Reader Cert Key Versions Acceptor : Type 0} (fl : Float F)
    (ip : IpLib Addr Net) (lib : HttpLib Headers)
    (pem : Pem Reader Cert Key Versions Acceptor) where
  built_listener :
      (l : ListenerConfig F) (r : ListenerRuntime F Net Acceptor)
      → build_listener fl ip lib (acceptor pem) true l ≡ inr r
      → (r.name ≡ l.name) × (listener_tls (acceptor pem) true l.name l.tls ≡ inr r.tls)
  unfolding build_listener
  built_listener l r h = on_bind (ip.parse_socket_addr l.bind) h
    where
      on_tls :
          (b : Text) (t : ProxyError ⊎ Option Acceptor)
          → with_acceptor fl ip lib l b t ≡ inr r
          → (r.name ≡ l.name) × (t ≡ inr r.tls)
      on_tls b (inl e) g = absurd (ground arith)
      on_tls b (inr t) g =
          let s : record { name = l.name; bind = b; router = build fl ip lib l.routes; tls = t }
              ≡ r =
            cc in
          (sym (ap ListenerRuntime.name s), ap (λ x. inr (ListenerRuntime.tls x)) s)

      on_bind :
          (b : Option Text)
          → with_bind fl ip lib (acceptor pem) true l b ≡ inr r
          → (r.name ≡ l.name) × (listener_tls (acceptor pem) true l.name l.tls ≡ inr r.tls)
      on_bind none g = absurd (ground arith)
      on_bind (some b) g = on_tls b (listener_tls (acceptor pem) true l.name l.tls) g

  abbrev Runs : ListenerConfig F → List (ListenerRuntime F Net Acceptor) → Type 0
  Runs l rs =
      (r : ListenerRuntime F Net Acceptor) × In r rs
      × (build_listener fl ip lib (acceptor pem) true l ≡ inr r)

  built_first :
      {l k : ListenerConfig F} {ls : List (ListenerConfig F)} (r : ListenerRuntime F Net Acceptor)
      (rs : List (ListenerRuntime F Net Acceptor))
      → build_listener fl ip lib (acceptor pem) true k ≡ inr r
      → (In l ls → Runs l rs)
      → In l (k ∷ ls)
      → Runs l (r ∷ rs)
  built_first r rs e again here = (r, here, e)
  built_first r rs e again (there n) = let (x, i, d) = again n in (x, there i, d)

  built_listeners :
      {l : ListenerConfig F} (ls : List (ListenerConfig F))
      (rs : List (ListenerRuntime F Net Acceptor))
      → build_listeners fl ip lib (acceptor pem) true ls ≡ inr rs
      → In l ls
      → Runs l rs
  unfolding build_listeners
  built_listeners [] rs h m = elim m [ ]
  built_listeners {l} (k ∷ ls) rs h m =
      pushed (build_listener fl ip lib (acceptor pem) true k) refl
        (build_listeners fl ip lib (acceptor pem) true ls) (λ qs f n. built_listeners ls qs f n) h m
    where
      pushed :
          (o : ProxyError ⊎ ListenerRuntime F Net Acceptor)
          → build_listener fl ip lib (acceptor pem) true k ≡ o
          → (rest : ProxyError ⊎ List (ListenerRuntime F Net Acceptor))
          → ((qs : List (ListenerRuntime F Net Acceptor)) → rest ≡ inr qs → In l ls → Runs l qs)
          → push_listener o rest ≡ inr rs
          → In l (k ∷ ls)
          → Runs l rs
      pushed (inl x) e rest f g m = absurd (ground arith)
      pushed (inr r) e (inl x) f g m = absurd (ground arith)
      pushed (inr r) e (inr qs) f g m =
          let s : r ∷ qs ≡ rs = cc in rw (← s) (built_first r qs e (f qs refl) m)

  -- In the snapshot of a valid configuration that the program starts with, each listener of the
  -- configuration runs, an https listener with an acceptor made from the certificates and the key of its
  -- own files, at least one certificate, and an http listener without.
  pub https_secured :
      (parse_url : Text → Option (Text × Bool)) (config : GatePupConfig F) (l : ListenerConfig F)
      (s : RuntimeConfig F Net Acceptor)
      → validate fl ip parse_url config ≡ []
      → build_snapshot fl ip lib (acceptor pem) config ≡ inr s
      → In l config.listeners
      → (r : ListenerRuntime F Net Acceptor) × In r s.listeners
        × (r.name ≡ l.name)
        × Secured pem l r
  unfolding build_snapshot build_snapshot_inner
  https_secured parse_url config l s h b m =
      from_listeners (build_listeners fl ip lib (acceptor pem) true config.listeners) refl b
    where
      from_listeners :
          (o : ProxyError ⊎ List (ListenerRuntime F Net Acceptor))
          → build_listeners fl ip lib (acceptor pem) true config.listeners ≡ o
          → with_listeners fl ip lib config o ≡ inr s
          → (r : ListenerRuntime F Net Acceptor) × In r s.listeners
            × (r.name ≡ l.name)
            × Secured pem l r
      from_listeners (inl e) f g = absurd (ground arith)
      from_listeners (inr rs) f g =
          let q : runtime fl ip lib config rs ≡ s = cc in
          let (r, i, d) = built_listeners config.listeners rs f m in
          let (n, t) = built_listener l r d in
          (
            r,
            rw (← q) i,
            n,
            tls-Secured pem l r l.protocol l.tls refl refl
                (tls_checked fl ip parse_url config l h m) t,
          )
