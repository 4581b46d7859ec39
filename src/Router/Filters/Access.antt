-- ===== src/Router/Filters/Access.antt =====
-- The access control of a route.
use gatepup.Prelude.{
  ◌≡◌, ◌↔◌, ◌⊎◌, refl, Bool, true, false, not, ◌&&◌, none, some, List, [], ◌∷◌, Text, any-In,
  In-any, filter_map, filter_map-In, In-filter_map, All, In, here, there, arith, Bool-cases, inl,
  inr, if◌then◌else◌,
}
use gatepup.Interfaces.{IpLib, IsSingleHost}
use gatepup.Config.Model.{IpAccessConfig}
use gatepup.Router.Filters.{parse_trusted_proxy, compile_access, covered, no_nets, allows}

gate :
    (denied open_list listed : Bool)
    → ((if denied then false else (if not open_list && not listed then false else true)) ≡ true)
      ↔ ((denied ≡ false) × ((open_list ≡ true) ⊎ (listed ≡ true)))
gate denied open_list listed = ground arith

module _ {Addr Net : Type 0} (ip : IpLib Addr Net) where
  -- Some entry of the list stands for a network that holds the address.
  abbrev pub Covers : List Text → Addr → Type 0
  Covers entries a =
      (v : Text) × (n : Net) × In v entries
      × (parse_trusted_proxy ip v ≡ some n)
      × (ip.contains n a ≡ true)

  -- What validation demands of a list.
  abbrev pub AllParse : List Text → Type 0
  AllParse entries = All (λ v. (n : Net) × (parse_trusted_proxy ip v ≡ some n)) entries

  pub covered_sound :
      (entries : List Text) (a : Addr)
      → covered ip (filter_map (parse_trusted_proxy ip) entries) a ≡ true
      → Covers entries a
  covered_sound entries a h =
      let (n, m, c) = In-any (λ n. ip.contains n a) _ h in
      let (v, k, e) = filter_map-In (parse_trusted_proxy ip) entries m in (v, n, k, e, c)

  pub covered_complete :
      (entries : List Text) (a : Addr)
      → Covers entries a
      → covered ip (filter_map (parse_trusted_proxy ip) entries) a ≡ true
  covered_complete entries a (v, n, k, e, c) =
      any-In (λ n. ip.contains n a) _ (In-filter_map (parse_trusted_proxy ip) entries k e) c

  no_nets-parsed :
      (entries : List Text)
      → AllParse entries
      → no_nets ip (filter_map (parse_trusted_proxy ip) entries) ≡ true
      → entries ≡ []
  no_nets-parsed [] p h = refl
  no_nets-parsed (v ∷ vs) ((n, e), p) h = let k : ◌≡◌ {A = Bool} false true = rw e at h in cc

  not_covered :
      (entries : List Text) (a : Addr)
      → ¬ Covers entries a
      → covered ip (filter_map (parse_trusted_proxy ip) entries) a ≡ false
  not_covered entries a h =
      elim (Bool-cases (covered ip (filter_map (parse_trusted_proxy ip) entries) a)) [
        | inl yes_covered ↦ absurd (h (covered_sound entries a yes_covered))
        | inr n ↦ n
      ]

  -- Where the entries of `allow` parse, as validation makes sure, an address passes exactly when no
  -- entry of `deny` covers it, and `allow` is empty or has an entry that covers it.
  pub allows_iff :
      (cfg : IpAccessConfig) (a : Addr)
      → AllParse cfg.allow
      → (allows ip (compile_access ip cfg) a ≡ true)
        ↔ ((¬ Covers cfg.deny a) × ((cfg.allow ≡ []) ⊎ Covers cfg.allow a))
  unfolding allows compile_access
  allows_iff cfg a p = (
    λ h.
        let (open_deny, passes) = (gate _ _ _).0 h in
        (
          λ c. let d = covered_complete cfg.deny a c in cc,
          elim passes [
            | inl e ↦ inl (no_nets-parsed cfg.allow p e)
            | inr c ↦ inr (covered_sound cfg.allow a c)
          ],
        ),
    λ h. (gate _ _ _).1 (not_covered cfg.deny a h.0, passing h.1),
  )
    where
      passing :
          (cfg.allow ≡ []) ⊎ Covers cfg.allow a
          → (no_nets ip (compile_access ip cfg).allow ≡ true)
            ⊎ (covered ip (compile_access ip cfg).allow a ≡ true)
      passing (inl e) = inl (rw e)
      passing (inr c) = inr (covered_complete cfg.allow a c)

module _ {Addr Net : Type 0} (ip : IpLib Addr Net) (single : IsSingleHost ip) where
  -- An entry that is a bare address covers that address and no other.
  pub bare_address-Covers :
      (v : Text) (a b : Addr)
      → ip.parse_net v ≡ none
      → ip.parse_addr v ≡ some a
      → Covers ip (v ∷ []) b ↔ (a ≡ b)
  unfolding parse_trusted_proxy
  bare_address-Covers v a b p q =
      let (n, e) = single.single_valid a in
      let parsed : parse_trusted_proxy ip v ≡ some n = rw (p, q) e in
      (
        λ (w, m, k, f, c). covers_one w m k f c,
        λ same. (v, n, here, parsed, (single.single_exact a b n e).1 same),
      )
    where
      covers_one :
          (w : Text) (m : Net)
          → In w (v ∷ [])
          → parse_trusted_proxy ip w ≡ some m
          → ip.contains m b ≡ true
          → a ≡ b
      covers_one w m (there k) f c = elim k [ ]
      covers_one w m here f c =
          let e : ip.single a ≡ some m = rw (p, q) at f in (single.single_exact a b m e).0 c
