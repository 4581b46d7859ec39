-- ===== src/Proxy/Client.antt =====
-- crates/gatepup-proxy/src/proxy.rs: the two clients of the upstreams. A client of the package hyper is
-- what it does with a request, and how one is built is an argument.
use gatepup.Prelude.{Bool, true, false, ◌⊎◌, inl, inr, ◌≡◌, refl, ap, ◌∙◌, arith, if◌then◌else◌}
use gatepup.Snapshot.{ProxyError}

pub record ProxyClient (Client : Type 0) : Type 0 where
  pub verify : Client
  pub insecure : Client

module _ {Client : Type 0} where
  -- `for_upstream`.
  unfoldable pub for_upstream : ProxyClient Client → Bool → Client
  for_upstream c insecure = if insecure then c.insecure else c.verify

  abbrev pub both : ProxyError ⊎ Client → ProxyError ⊎ Client → ProxyError ⊎ ProxyClient Client
  both (inl e) i = inl e
  both (inr v) (inl e) = inl e
  both (inr v) (inr i) = inr (record { verify = v; insecure = i })

  -- `build_client`. `build` is told whether to skip the verification of certificates.
  unfoldable pub build_client : (Bool → ProxyError ⊎ Client) → ProxyError ⊎ ProxyClient Client
  build_client build = both (build false) (build true)

  -- The client of an upstream skips the verification only if the upstream says so.
  pub build_client-for_upstream :
      (build : Bool → ProxyError ⊎ Client) (c : ProxyClient Client) (insecure : Bool)
      → build_client build ≡ inr c
      → build insecure ≡ inr (for_upstream c insecure)
  unfolding build_client for_upstream
  build_client-for_upstream build c insecure h =
      of_both (build false) (build true) refl refl h insecure
    where
      of_both :
          (v i : ProxyError ⊎ Client)
          → build false ≡ v
          → build true ≡ i
          → both v i ≡ inr c
          → (b : Bool) → build b ≡ inr (if b then c.insecure else c.verify)
      of_both (inl e) i p q g b = absurd (ground arith)
      of_both (inr v) (inl e) p q g b = absurd (ground arith)
      of_both (inr v) (inr i) p q g true =
          let s : record { verify = v; insecure = i } ≡ c = cc in
          q ∙ ap (λ x. inr (ProxyClient.insecure x)) s
      of_both (inr v) (inr i) p q g false =
          let s : record { verify = v; insecure = i } ≡ c = cc in
          p ∙ ap (λ x. inr (ProxyClient.verify x)) s
