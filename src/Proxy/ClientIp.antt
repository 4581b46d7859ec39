-- ===== src/Proxy/ClientIp.antt =====
-- crates/gatepup-proxy/src/proxy.rs: `resolve_client_ip`. The list of trusted networks and the header are as the caller passes them.
pub mod Chain
use mathlib.Core.List.{reverse, reverse-append}
use gatepup.Prelude.{
  ◌≡◌, refl, ◌∙◌, ◌⊎◌, inl, inr, Bool, true, false, not, ◌||◌, Option, none, some, List, [], ◌∷◌,
  ◌++◌, ap, any, All, find, filter_map, filter_map-append, find-append, unwrap_or, split,
  split_from, trim, Text, if◌then◌else◌, Bool-cases, Option-cases, arith,
}
use gatepup.Interfaces.{IpLib}

module _ {Addr Net : Type 0} (ip : IpLib Addr Net) where
  -- The closure `is_trusted`.
  unfoldable pub is_trusted : List Net → Addr → Bool
  is_trusted trusted a = any (λ net. ip.contains net a) trusted

  abbrev pub hop_address : Text → Option Addr
  hop_address hop = ip.parse_addr (trim hop)

  -- The hops of `X-Forwarded-For` from the right: `rsplit(',')`.
  abbrev pub hops : Text → List Text
  hops xff = reverse (split b',' xff)

  -- The first untrusted hop of a list.
  unfoldable pub walk : List Net → List Text → Option Addr
  walk trusted hs = find (λ a. not (is_trusted trusted a)) (filter_map hop_address hs)

  abbrev pub no_proxies : List Net → Bool
  no_proxies [] = true
  no_proxies (_ ∷ _) = false

  -- `resolve_client_ip`.
  unfoldable pub resolve_client_ip : Addr → Option Text → List Net → Addr
  resolve_client_ip peer xff trusted =
      if no_proxies trusted || not (is_trusted trusted peer)
      then peer
      else elim xff [ none ↦ peer | some xff ↦ unwrap_or peer (walk trusted (hops xff)) ]

  abbrev pub nobody_else : List Net → Option Addr → Bool
  nobody_else trusted none = true
  nobody_else trusted (some a) = is_trusted trusted a

  -- A hop that the walk passes: it is no address, or a trusted one.
  pub Passed : List Net → Text → Type 0
  Passed trusted hop = nobody_else trusted (hop_address hop) ≡ true

  -- The address is untrusted, a hop names it, and every hop to the right of that hop is passed.
  pub record IsClient (trusted : List Net) (hs : List Text) (a : Addr) : Type 0 where
    pub right : List Text
    pub hop : Text
    pub left : List Text
    pub position : hs ≡ right ++ hop ∷ left
    pub named : hop_address hop ≡ some a
    pub untrusted : is_trusted trusted a ≡ false
    pub passed : All (Passed trusted) right

  walk_further :
      (trusted : List Net) (h : Text) (hs : List Text) (a : Addr)
      → Passed trusted h
      → IsClient trusted hs a
      → IsClient trusted (h ∷ hs) a
  walk_further trusted h hs a p c = record {
    right = h ∷ c.right;
    hop = c.hop;
    left = c.left;
    position = ap (◌∷◌ h) c.position;
    named = c.named;
    untrusted = c.untrusted;
    passed = (p, c.passed);
  }

  later :
      (trusted : List Net) (h : Text) (hs : List Text)
      → walk trusted (h ∷ hs) ≡ walk trusted hs
      → Passed trusted h
      → ((walk trusted hs ≡ none) × All (Passed trusted) hs)
        ⊎ ((a : Addr) × (walk trusted hs ≡ some a) × IsClient trusted hs a)
      → ((walk trusted (h ∷ hs) ≡ none) × All (Passed trusted) (h ∷ hs))
        ⊎ ((a : Addr) × (walk trusted (h ∷ hs) ≡ some a) × IsClient trusted (h ∷ hs) a)
  later trusted h hs e p (inl c) = inl (e ∙ c.0, (p, c.1))
  later trusted h hs e p (inr c) = inr (c.0, e ∙ c.1, walk_further trusted h hs c.0 p c.2)

  -- The walk finds the client of the hops, or every hop is passed.
  pub walk_cases :
      (trusted : List Net) (hs : List Text)
      → ((walk trusted hs ≡ none) × All (Passed trusted) hs)
        ⊎ ((a : Addr) × (walk trusted hs ≡ some a) × IsClient trusted hs a)
  unfolding walk Passed
  walk_cases trusted [] = inl (refl, tt)
  walk_cases trusted (h ∷ hs) = elim (Option-cases (hop_address h)) [
    | inl e ↦ later trusted h hs (rw (e) refl) (rw e refl) (walk_cases trusted hs)
    | inr c ↦ elim (Bool-cases (is_trusted trusted c.0)) [
      | inl t ↦ later trusted h hs (rw (c.1, t) refl) (rw c.1 t) (walk_cases trusted hs)
      | inr u ↦ inr (
        c.0,
        rw (c.1, u) refl,
        record {
          right = [];
          hop = h;
          left = hs;
          position = refl;
          named = c.1;
          untrusted = u;
          passed = tt;
        },
      )
    ]
  ]

  -- Where the address that decides access and rate comes from.
  pub data Origin (trusted : List Net) (peer : Addr) (xff : Option Text) : Addr → Type 0 where
    direct : is_trusted trusted peer ≡ false → Origin trusted peer xff peer
    no_header : is_trusted trusted peer ≡ true → xff ≡ none → Origin trusted peer xff peer
    only_proxies :
        (t : Text)
        → is_trusted trusted peer ≡ true
        → xff ≡ some t
        → All (Passed trusted) (hops t)
        → Origin trusted peer xff peer
    forwarded :
        (t : Text) (a : Addr)
        → is_trusted trusted peer ≡ true
        → xff ≡ some t
        → IsClient trusted (hops t) a
        → Origin trusted peer xff a

  no_proxies-is_trusted :
      (trusted : List Net) (a : Addr) → is_trusted trusted a ≡ true → no_proxies trusted ≡ false
  unfolding is_trusted
  no_proxies-is_trusted [] a h = absurd (ground arith)
  no_proxies-is_trusted (n ∷ ns) a h = refl

  -- Behind a trusted peer, the header decides by the walk.
  pub resolve_trusted :
      (peer : Addr) (t : Text) (trusted : List Net)
      → is_trusted trusted peer ≡ true
      → resolve_client_ip peer (some t) trusted ≡ unwrap_or peer (walk trusted (hops t))
  unfolding resolve_client_ip
  resolve_trusted peer t trusted h = rw (h, no_proxies-is_trusted trusted peer h) refl

  resolve_untrusted :
      (peer : Addr) (xff : Option Text) (trusted : List Net)
      → is_trusted trusted peer ≡ false
      → resolve_client_ip peer xff trusted ≡ peer
  unfolding resolve_client_ip
  resolve_untrusted peer xff [] h = refl
  resolve_untrusted peer xff (n ∷ ns) h = rw h refl

  resolve_silent :
      (peer : Addr) (trusted : List Net)
      → is_trusted trusted peer ≡ true
      → resolve_client_ip peer none trusted ≡ peer
  unfolding resolve_client_ip
  resolve_silent peer trusted h = rw (h, no_proxies-is_trusted trusted peer h) refl

  -- The client of a request is the peer, unless the peer is trusted and the header has an untrusted
  -- address: then it is the rightmost of these.
  pub resolve_client_ip-Origin :
      (peer : Addr) (xff : Option Text) (trusted : List Net)
      → Origin trusted peer xff (resolve_client_ip peer xff trusted)
  resolve_client_ip-Origin peer xff trusted = elim (Bool-cases (is_trusted trusted peer)) [
    | inl t ↦ elim (Option-cases xff) [
      | inl e ↦ rw (e, resolve_silent peer trusted t) (no_header t refl)
      | inr c ↦ elim (walk_cases trusted (hops c.0)) [
        | inl w ↦ rw (c.1, resolve_trusted peer c.0 trusted t, w.0) (only_proxies c.0 t refl w.1)
        | inr w ↦ rw (c.1, resolve_trusted peer c.0 trusted t, w.1) (forwarded c.0 w.0 t refl w.2)
      ]
    ]
    | inr u ↦ rw (resolve_untrusted peer xff trusted u) (direct u)
  ]

  split_from-append :
      (cur fake real : Text)
      → split_from b',' cur (fake ++ b',' ∷ real) ≡ split_from b',' cur fake ++ split b',' real
  unfolding split_from
  split_from-append cur [] real = refl
  split_from-append cur (c ∷ fake) real =
      ground (arith, split_from-append [] fake real, split_from-append (cur ++ c ∷ []) fake real)

  hops-append : (fake real : Text) → hops (fake ++ b',' ∷ real) ≡ hops real ++ hops fake
  hops-append fake real =
      ap reverse (split_from-append [] fake real)
      ∙ reverse-append (split b',' fake) (split b',' real)

  walk-append :
      (trusted : List Net) (hs ks : List Text) (a : Addr)
      → walk trusted hs ≡ some a
      → walk trusted (hs ++ ks) ≡ some a
  unfolding walk
  walk-append trusted hs ks a h =
      rw (filter_map-append hop_address hs ks)
        (find-append _ (filter_map hop_address hs) (filter_map hop_address ks) h)

  -- What a client writes into the header before the trusted proxies add to it changes nothing: once
  -- they have recorded an untrusted hop, any text in front of it leaves the result the same.
  pub resolve_client_ip_no_spoof :
      (peer : Addr) (fake real : Text) (trusted : List Net) (a : Addr)
      → is_trusted trusted peer ≡ true
      → walk trusted (hops real) ≡ some a
      → resolve_client_ip peer (some (fake ++ b',' ∷ real)) trusted ≡ a
  resolve_client_ip_no_spoof peer fake real trusted a t h =
      rw
        (
          resolve_trusted peer (fake ++ b',' ∷ real) trusted t,
          hops-append fake real,
          walk-append trusted (hops real) (hops fake) a h,
        )
        refl
