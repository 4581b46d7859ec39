-- ===== src/Proxy/Forwarding.antt =====
-- crates/gatepup-proxy/src/proxy.rs: the headers that an upstream sees, and the size that a request
-- declares.
use gatepup.Prelude.{
  ◌≡◌, refl, ap, ◌∙◌, Bool, true, false, ◌&&◌, ◌||◌, Option, none, some, List, [], ◌∷◌, ◌++◌, any,
  In, In-any, All-In, text_eq→eq, is_some, or_else, unwrap_or, ◌>>=◌, Option-cases, inl, inr, Text,
  codes, text_eq, split, trim, to_ascii_lowercase, if◌then◌else◌, arith,
}
use mathlib.Core.Option
use gatepup.Interfaces.{HttpLib, IsHeaderMap}
use gatepup.Router.Filters.{remove_all}
use gatepup.Router.Filters.Headers.{listed, get-insert, get-remove, get-remove_all}

-- `HOP_BY_HOP`.
abbrev pub hop_by_hop : List Text
hop_by_hop =
    codes "connection"
    ∷ codes "keep-alive"
    ∷ codes "proxy-authenticate"
    ∷ codes "proxy-authorization"
    ∷ codes "te"
    ∷ codes "trailer"
    ∷ codes "transfer-encoding"
    ∷ codes "upgrade"
    ∷ []

-- `UPGRADE_STRIP`, which leaves Connection and Upgrade alone.
abbrev pub upgrade_strip : List Text
upgrade_strip =
    codes "keep-alive"
    ∷ codes "proxy-authenticate"
    ∷ codes "proxy-authorization"
    ∷ codes "te"
    ∷ codes "trailer"
    ∷ codes "transfer-encoding"
    ∷ []

module _ {Headers : Type 0} (http : HttpLib Headers) where
  -- A header whose value is text.
  abbrev pub get_str : Text → Headers → Option Text
  get_str n m = http.get n m >>= http.to_str

  abbrev pub insert_valid : Text → Option Text → Headers → Headers
  insert_valid n none m = m
  insert_valid n (some v) m = http.insert n v m

  -- `set_header`.
  unfoldable pub set_header : Text → Text → Headers → Headers
  set_header n value m = insert_valid n (http.header_value value) m

  -- `format!("{existing}, {ip}")`, or the address alone.
  abbrev pub forwarded_for : Option Text → Text → Text
  forwarded_for none ip = ip
  forwarded_for (some existing) ip = existing ++ codes ", " ++ ip

  -- `append_forwarded_for`.
  unfoldable pub append_forwarded_for : Text → Headers → Headers
  append_forwarded_for ip m =
      set_header (codes "x-forwarded-for") (forwarded_for (get_str (codes "x-forwarded-for") m) ip)
        m

  -- The three headers that `rewrite_headers` and `build_upgrade_request` set last.
  abbrev pub set_forwarding : Text → Text → Text → Headers → Headers
  set_forwarding fwd_host scheme request_id m = set_header (codes "x-request-id") request_id (
      set_header (codes "x-forwarded-proto") scheme
        (set_header (codes "x-forwarded-host") fwd_host m))

  -- `rewrite_headers`.
  unfoldable pub rewrite_headers : Text → Text → Text → Text → Headers → Headers
  rewrite_headers fwd_host scheme ip request_id m =
      set_forwarding fwd_host scheme request_id
        (append_forwarded_for ip (http.remove (codes "host") (remove_all http hop_by_hop m)))

  -- The headers of `build_upgrade_request`.
  unfoldable pub upgrade_headers : Text → Text → Text → Text → Text → Headers → Headers
  upgrade_headers authority fwd_host scheme ip request_id m =
      set_forwarding fwd_host scheme request_id (
        append_forwarded_for ip (
          set_header (codes "host") authority
            (http.remove (codes "host") (remove_all http upgrade_strip m))))

  -- `is_upgrade`.
  unfoldable pub is_upgrade : Headers → Bool
  is_upgrade m =
      let token = λ (t : Text). text_eq (to_ascii_lowercase (trim t)) (codes "upgrade") in
      unwrap_or false (Option.map (λ v. any token (split b',' v)) (get_str (codes "connection") m))
      && is_some (http.get (codes "upgrade") m)

  module _ (laws : IsHeaderMap http) where
    -- A setting takes the new value, if it is a legal one.
    abbrev pub when : Bool → Text → Option Text → Option Text
    when b value before = if b then or_else (http.header_value value) before else before

    if_same : (b : Bool) (o : Option Text) → o ≡ (if b then o else o)
    if_same true o = refl
    if_same false o = refl

    get-set_header :
        (n value k : Text) (m : Headers)
        → http.get k (set_header n value m) ≡ when (text_eq n k) value (http.get k m)
    unfolding set_header
    get-set_header n value k m = elim (Option-cases (http.header_value value)) [
      | inl e ↦ rw e (if_same (text_eq n k) (http.get k m))
      | inr c ↦ rw (c.1, get-insert http laws n k c.0 m) refl
    ]

    abbrev own : Text → Bool
    own k =
        text_eq (codes "x-request-id") k
        || text_eq (codes "x-forwarded-proto") k
        || text_eq (codes "x-forwarded-host") k
        || text_eq (codes "x-forwarded-for") k

    not_forwarding : (k : Text) → In k (codes "host" ∷ hop_by_hop) → own k ≡ false
    unfolding text_eq
    not_forwarding k i =
        All-In (λ n. own n ≡ false)
          (refl, (refl, (refl, (refl, (refl, (refl, (refl, (refl, (refl, tt))))))))) i

    abbrev forwarding : Text → Text → Text → Text → Option Text → Option Text
    forwarding k fwd_host scheme request_id before =
        when (text_eq (codes "x-request-id") k) request_id (
          when (text_eq (codes "x-forwarded-proto") k) scheme
            (when (text_eq (codes "x-forwarded-host") k) fwd_host before))

    get-set_forwarding :
        (k fwd_host scheme request_id : Text) (m : Headers)
        → http.get k (set_forwarding fwd_host scheme request_id m)
          ≡ forwarding k fwd_host scheme request_id (http.get k m)
    get-set_forwarding k fwd_host scheme request_id m =
        let h = set_header (codes "x-forwarded-host") fwd_host m in
        let p = set_header (codes "x-forwarded-proto") scheme h in
        rw
          (
            get-set_header (codes "x-request-id") request_id k p,
            get-set_header (codes "x-forwarded-proto") scheme k h,
            get-set_header (codes "x-forwarded-host") fwd_host k m,
          )
          refl

    get-stripped :
        (ns : List Text) (k : Text) (m : Headers)
        → http.get k (http.remove (codes "host") (remove_all http ns m))
          ≡ (if listed k (codes "host" ∷ ns) then none else http.get k m)
    get-stripped ns k m = ground (
      arith,
      get-remove http laws (codes "host") k (remove_all http ns m),
      get-remove_all http laws k ns m,
    )

    get-append :
        (k ip : Text) (s m : Headers)
        → http.get (codes "x-forwarded-for") s ≡ http.get (codes "x-forwarded-for") m
        → http.get k (append_forwarded_for ip s)
          ≡ when
              (text_eq (codes "x-forwarded-for") k)
              (forwarded_for (get_str (codes "x-forwarded-for") m) ip)
              (http.get k s)
    unfolding append_forwarded_for
    get-append k ip s m e =
        get-set_header (codes "x-forwarded-for") _ k s
        ∙ ap
            (λ o.
              when (text_eq (codes "x-forwarded-for") k) (forwarded_for (o >>= http.to_str) ip)
                (http.get k s))
            e

    -- What the upstream reads under each name: the request id, the scheme and the host of the request
    -- replace what the client sent, unless the new value is no legal one; the address of the peer is
    -- added to `X-Forwarded-For`; Host and the hop-by-hop headers are gone; the rest is the client's.
    pub get-rewrite_headers :
        (k fwd_host scheme ip request_id : Text) (m : Headers)
        → http.get k (rewrite_headers fwd_host scheme ip request_id m)
          ≡ when (text_eq (codes "x-request-id") k) request_id (
              when (text_eq (codes "x-forwarded-proto") k) scheme (
                when (text_eq (codes "x-forwarded-host") k) fwd_host (
                  when
                    (text_eq (codes "x-forwarded-for") k)
                    (forwarded_for (get_str (codes "x-forwarded-for") m) ip)
                    (if listed k (codes "host" ∷ hop_by_hop) then none else http.get k m))))
    unfolding rewrite_headers text_eq
    get-rewrite_headers k fwd_host scheme ip request_id m =
        let s = http.remove (codes "host") (remove_all http hop_by_hop m) in
        get-set_forwarding k fwd_host scheme request_id (append_forwarded_for ip s)
        ∙ ap (forwarding k fwd_host scheme request_id) (
            get-append k ip s m (get-stripped hop_by_hop (codes "x-forwarded-for") m)
            ∙ ap (when _ _) (get-stripped hop_by_hop k m))

    -- What the upstream of an upgrade reads under each name: as for other requests, but Connection and
    -- Upgrade pass, and Host is the authority of the target.
    pub get-upgrade_headers :
        (k authority fwd_host scheme ip request_id : Text) (m : Headers)
        → http.get k (upgrade_headers authority fwd_host scheme ip request_id m)
          ≡ when (text_eq (codes "x-request-id") k) request_id (
              when (text_eq (codes "x-forwarded-proto") k) scheme (
                when (text_eq (codes "x-forwarded-host") k) fwd_host (
                  when
                    (text_eq (codes "x-forwarded-for") k)
                    (forwarded_for (get_str (codes "x-forwarded-for") m) ip)
                    (when
                      (text_eq (codes "host") k)
                      authority
                      (if listed k (codes "host" ∷ upgrade_strip) then none else http.get k m)))))
    unfolding upgrade_headers text_eq
    get-upgrade_headers k authority fwd_host scheme ip request_id m =
        let s = http.remove (codes "host") (remove_all http upgrade_strip m) in
        let h = set_header (codes "host") authority s in
        let e = λ (j : Text).
          get-set_header (codes "host") authority j s
          ∙ ap (when (text_eq (codes "host") j) authority) (get-stripped upgrade_strip j m) in
        get-set_forwarding k fwd_host scheme request_id (append_forwarded_for ip h)
        ∙ ap (forwarding k fwd_host scheme request_id)
            (get-append k ip h m (e (codes "x-forwarded-for")) ∙ ap (when _ _) (e k))

    strips_own : (k : Text) → listed k (codes "host" ∷ hop_by_hop) ≡ true → own k ≡ false
    strips_own k l =
        let (n, i, e) = In-any (λ n. text_eq n k) (codes "host" ∷ hop_by_hop) l in
        let s : n ≡ k = text_eq→eq n k e in rw (← s) (not_forwarding n i)

    -- `rewrite_headers` leaves no hop-by-hop header and no Host.
    pub rewrite_headers_strips :
        (k fwd_host scheme ip request_id : Text) (m : Headers)
        → listed k (codes "host" ∷ hop_by_hop) ≡ true
        → http.get k (rewrite_headers fwd_host scheme ip request_id m) ≡ none
    rewrite_headers_strips k fwd_host scheme ip request_id m l =
        ground (arith, strips_own k l, get-rewrite_headers k fwd_host scheme ip request_id m)

    -- `build_upgrade_request` leaves Connection and Upgrade of the client, and a Host of its own.
    pub upgrade_headers_strips :
        (k authority fwd_host scheme ip request_id : Text) (m : Headers)
        → listed k (codes "host" ∷ hop_by_hop) ≡ true
        → http.get k (upgrade_headers authority fwd_host scheme ip request_id m)
          ≡ when
              (text_eq (codes "host") k)
              authority
              (if listed k (codes "host" ∷ upgrade_strip) then none else http.get k m)
    upgrade_headers_strips k authority fwd_host scheme ip request_id m l =
        ground
          (arith, strips_own k l, get-upgrade_headers k authority fwd_host scheme ip request_id m)
