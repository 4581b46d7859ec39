-- ===== src/Snapshot/Build.antt =====
-- What a snapshot promises: an upstream of the configuration is found under its name, and its
-- schedule serves each of its targets. `IsBalanced` is what the validator and 32-bit sums ask.
use gatepup.Prelude.{
  table_get, table_insert, table_get-insert, table_insert-some, table_insert-is_some, ℕ, zero, suc,
  ◌+◌, ◌^◌, ◌<◌, ◌≤◌, ◌≡◌, refl, ap, sym, ◌∙◌, Bool, true, false, Option, none, some, List, [], ◌∷◌,
  ◌⊎◌, inl, inr, map, length, length-map, get_or, All, In, here, there, is_some, Option-cases, Text,
  text_eq_self, arith,
}
use gatepup.Interfaces.{IpLib, HttpLib, Float}
use gatepup.Config.Model.{GatePupConfig, UpstreamConfig, TargetConfig, TlsConfig, ListenerConfig}
use gatepup.Schedule.{build_schedule, schedule_for, indices, default_if_empty}
use gatepup.Schedule.Weights.{slots, build_schedule_bounded, build_schedule_serves}
use gatepup.Upstream.{UpstreamRuntime}
use gatepup.Upstream.Pick.{IsValid, In-count}
use gatepup.Snapshot.{
  ProxyError, RuntimeConfig, ListenerRuntime, build_upstream, build_upstreams, build_listener,
  build_listeners, runtime, build_reload_snapshot, with_listeners, build_snapshot_inner,
}

abbrev pub weights : UpstreamConfig → List ℕ
weights u = map TargetConfig.weight u.targets

pub record IsBalanced (u : UpstreamConfig) : Type 0 where
  pub positive : All (λ w. 0 < w) (weights u)
  pub fits : slots (weights u) < 2 ^ 32

indices_bounded : (n from : ℕ) (b : ℕ) → from + n ≤ b → All (λ i. i < b) (indices n from)
unfolding indices
indices_bounded zero from b h = tt
indices_bounded (suc n) from b h = (omega arith, indices_bounded n (from + 1) b (omega arith))

default_bounded :
    (s : List ℕ) (n : ℕ) → All (λ i. i < n) s → All (λ i. i < n) (default_if_empty s n)
default_bounded [] n h = indices_bounded n 0 n (omega arith)
default_bounded (i ∷ s) n h = h

In-default_if_empty : {i : ℕ} (s : List ℕ) (n : ℕ) → In i s → In i (default_if_empty s n)
In-default_if_empty [] n m = elim m [ ]
In-default_if_empty (j ∷ s) n m = m

positive_at : (ws : List ℕ) (k : ℕ) → All (λ w. 0 < w) ws → k < length ws → 0 < get_or ws k 0
positive_at [] k h l = absurd (omega arith)
positive_at (w ∷ ws) zero h l = h.0
positive_at (w ∷ ws) (suc k) h l = positive_at ws k h.1 (omega arith)

-- The schedule of a balanced upstream serves its targets, all of them and nothing else.
pub build_upstream-IsValid :
    (method : Text → Option Text) (u : UpstreamConfig)
    → IsBalanced u
    → IsValid (build_upstream method u)
unfolding build_upstream schedule_for
build_upstream-IsValid method u b =
    let ws = weights u in
    let same : length (build_upstream method u).targets ≡ length ws =
      length-map _ u.targets ∙ sym (length-map TargetConfig.weight u.targets) in
    record {
      bounded =
          rw same
            (default_bounded (build_schedule ws) (length ws) (build_schedule_bounded ws b.fits));
      served = λ i h. In-default_if_empty (build_schedule ws) (length ws) (
          In-count i (build_schedule ws)
            (build_schedule_serves ws i b.fits (positive_at ws i b.positive (omega arith))));
      counted = omega arith;
    }

pub no_entry : (k : Text) (w : UpstreamRuntime) → table_get k [] ≡ some w → IsValid w
unfolding table_get
no_entry k w g = absurd (ground arith)

found {ℓ κ} :
    {A : Type ℓ} {P : A → Type κ} (o : Option A)
    → is_some o ≡ true
    → ((v : A) → o ≡ some v → P v)
    → (v : A) × (o ≡ some v) × P v
found none h p = absurd (ground arith)
found (some v) h p = (v, refl, p v refl)

module _ (method : Text → Option Text) where
  pub build_upstreams-IsValid :
      (us : List UpstreamConfig) (m : List (Text × UpstreamRuntime)) (k : Text)
      (v : UpstreamRuntime)
      → All IsBalanced us
      → ((w : UpstreamRuntime) → table_get k m ≡ some w → IsValid w)
      → table_get k (build_upstreams method us m) ≡ some v
      → IsValid v
  unfolding build_upstreams
  build_upstreams-IsValid [] m k v b p h = p v h
  build_upstreams-IsValid (u ∷ us) m k v b p h =
      build_upstreams-IsValid us (table_insert u.name (build_upstream method u) m) k v b.1
        (λ w g. elim (table_insert-some k u.name (build_upstream method u) m g) [
          | inl e ↦ rw e (build_upstream-IsValid method u b.0)
          | inr e ↦ p w e
        ])
        h

  build_upstreams_keep :
      (us : List UpstreamConfig) (m : List (Text × UpstreamRuntime)) (k : Text)
      → is_some (table_get k m) ≡ true
      → is_some (table_get k (build_upstreams method us m)) ≡ true
  unfolding build_upstreams
  build_upstreams_keep [] m k h = h
  build_upstreams_keep (u ∷ us) m k h =
      build_upstreams_keep us (table_insert u.name (build_upstream method u) m) k
        (table_insert-is_some k u.name (build_upstream method u) m h)

  pub build_upstreams_found :
      (us : List UpstreamConfig) (m : List (Text × UpstreamRuntime)) (u : UpstreamConfig)
      → In u us
      → is_some (table_get u.name (build_upstreams method us m)) ≡ true
  unfolding build_upstreams
  build_upstreams_found [] m u i = elim i [ ]
  build_upstreams_found (u ∷ us) m _ here =
      build_upstreams_keep us _ u.name
        (rw (table_get-insert u.name u.name (build_upstream method u) m, text_eq_self u.name) refl)
  build_upstreams_found (w ∷ us) m u (there i) =
      build_upstreams_found us (table_insert w.name (build_upstream method w) m) u i

module _ {F Headers Addr Net Tls : Type 0} (fl : Float F) (ip : IpLib Addr Net)
    (http : HttpLib Headers) where
  runtime_upstreams :
      (acceptor : TlsConfig → Text ⊎ Tls) (config : GatePupConfig F) (with_tls : Bool)
      (s : RuntimeConfig F Net Tls)
      → build_snapshot_inner fl ip http acceptor config with_tls ≡ inr s
      → s.upstreams ≡ build_upstreams http.method config.upstreams []
  unfolding build_snapshot_inner
  runtime_upstreams acceptor config with_tls s h =
      of_listeners (build_listeners fl ip http acceptor with_tls config.listeners) h
    where
      of_listeners :
          (r : ProxyError ⊎ List (ListenerRuntime F Net Tls))
          → with_listeners fl ip http config r ≡ inr s
          → s.upstreams ≡ build_upstreams http.method config.upstreams []
      of_listeners (inl e) g = absurd (ground arith)
      of_listeners (inr ls) g =
          let f : s ≡ runtime fl ip http config ls = cc in ap RuntimeConfig.upstreams f

  listeners_without_tls :
      (acceptor other : TlsConfig → Text ⊎ Tls) (ls : List (ListenerConfig F))
      → build_listeners fl ip http acceptor false ls ≡ build_listeners fl ip http other false ls
  unfolding build_listeners build_listener
  listeners_without_tls acceptor other [] = refl
  listeners_without_tls acceptor other (l ∷ ls) =
      elim (Option-cases (ip.parse_socket_addr l.bind)) [
        | inl e ↦ rw e refl
        | inr c ↦ rw (c.1, listeners_without_tls acceptor other ls) refl
      ]

  -- Each upstream of a configuration whose weights are positive, with reduced sums below 2^32, is in
  -- the snapshot under its name, with a schedule of its targets that leaves none out.
  pub build_snapshot_serves :
      (acceptor : TlsConfig → Text ⊎ Tls) (config : GatePupConfig F) (with_tls : Bool)
      (s : RuntimeConfig F Net Tls) (u : UpstreamConfig)
      → All IsBalanced config.upstreams
      → build_snapshot_inner fl ip http acceptor config with_tls ≡ inr s
      → In u config.upstreams
      → (v : UpstreamRuntime) × (table_get u.name s.upstreams ≡ some v) × IsValid v
  build_snapshot_serves acceptor config with_tls s u b h i =
      rw (runtime_upstreams acceptor config with_tls s h) (
        found (table_get u.name (build_upstreams http.method config.upstreams []))
          (build_upstreams_found http.method config.upstreams [] u i)
          (λ v.
            build_upstreams-IsValid http.method config.upstreams [] u.name v b (no_entry u.name)))

  -- A reload does not read certificates: whatever the acceptors are, it gives the same snapshot or
  -- the same error.
  pub build_reload_snapshot_without_tls :
      (acceptor other : TlsConfig → Text ⊎ Tls) (config : GatePupConfig F)
      → build_reload_snapshot fl ip http acceptor config
        ≡ build_reload_snapshot fl ip http other config
  unfolding build_reload_snapshot build_snapshot_inner
  build_reload_snapshot_without_tls acceptor other config =
      ap (with_listeners fl ip http config) (listeners_without_tls acceptor other config.listeners)
