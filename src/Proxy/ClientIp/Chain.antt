-- ===== src/Proxy/ClientIp/Chain.antt =====
-- Two proxies in a row: what `append_forwarded_for` writes, `resolve_client_ip` of the next one reads.
use mathlib.Core.List.{reverse}
use gatepup.Prelude.{
  ◌≡◌, refl, ap, sym, ◌∙◌, true, false, Option, none, some, List, [], ◌∷◌, ◌++◌, append_assoc,
  append-nil, All, ◌==◌, split_from, trim, Text, codes,
}
use gatepup.Interfaces.{IpLib, HttpLib, IsHeaderMap}
use gatepup.Proxy.ClientIp.{
  is_trusted, hop_address, hops, walk, resolve_client_ip, resolve_trusted,
  resolve_client_ip_no_spoof,
}
use gatepup.Proxy.Forwarding.{get_str, set_header, forwarded_for, append_forwarded_for}

-- What `Display` and `FromStr` of an address promise: its text is parsed back, and has no comma and no
-- white space around it.
pub record IsPrinted {Addr Net : Type 0} (ip : IpLib Addr Net) (a : Addr) : Type 0 where
  pub parses : ip.parse_addr (ip.to_string a) ≡ some a
  pub one_part : All (λ c. (c == b',') ≡ false) (ip.to_string a)
  pub trimmed : trim (ip.to_string a) ≡ ip.to_string a

split_from-no_comma :
    (cur s : Text) → All (λ c. (c == b',') ≡ false) s → split_from b',' cur s ≡ (cur ++ s) ∷ []
unfolding split_from
split_from-no_comma cur [] h = ap (λ t. t ∷ []) (sym (append-nil cur))
split_from-no_comma cur (c ∷ s) h =
    rw (h.0)
      (split_from-no_comma (cur ++ c ∷ []) s h.1 ∙ ap (λ t. t ∷ []) (append_assoc cur (c ∷ []) s))

module _ {Addr Net : Type 0} (ip : IpLib Addr Net) where
  walk_one :
      (trusted : List Net) (a : Addr) (hop : Text)
      → hop_address ip hop ≡ some a
      → is_trusted ip trusted a ≡ false
      → walk ip trusted (hop ∷ []) ≡ some a
  unfolding walk
  walk_one trusted a hop h u = rw (h, u) refl

  walk-printed :
      (trusted : List Net) (a : Addr)
      → IsPrinted ip a
      → is_trusted ip trusted a ≡ false
      → walk ip trusted (hops ip (ip.to_string a)) ≡ some a
  walk-printed trusted a p u =
      ap (λ hs. walk ip trusted (reverse hs)) (split_from-no_comma [] (ip.to_string a) p.one_part)
      ∙ walk_one trusted a (ip.to_string a) (ap ip.parse_addr p.trimmed ∙ p.parses) u

  walk-space :
      (trusted : List Net) (a : Addr)
      → IsPrinted ip a
      → is_trusted ip trusted a ≡ false
      → walk ip trusted (hops ip (32 ∷ ip.to_string a)) ≡ some a
  walk-space trusted a p u =
      ap (λ hs. walk ip trusted (reverse hs))
        (split_from-no_comma [] (32 ∷ ip.to_string a) (refl, p.one_part))
      ∙ walk_one trusted a (32 ∷ ip.to_string a) (ap ip.parse_addr p.trimmed ∙ p.parses) u

  module _ {Headers : Type 0} (http : HttpLib Headers) where
    resolve-forwarded_for :
        (existing : Option Text) (client proxy : Addr) (trusted : List Net)
        → IsPrinted ip client
        → is_trusted ip trusted proxy ≡ true
        → is_trusted ip trusted client ≡ false
        → resolve_client_ip ip proxy
            (some (forwarded_for http existing (ip.to_string client)))
            trusted
          ≡ client
    resolve-forwarded_for none client proxy trusted p t u =
        rw
          (
            resolve_trusted ip proxy (ip.to_string client) trusted t,
            walk-printed trusted client p u,
          )
          refl
    resolve-forwarded_for (some existing) client proxy trusted p t u =
        ap (λ t. resolve_client_ip ip proxy (some t) trusted)
          (append_assoc existing (codes ", ") (ip.to_string client))
        ∙ resolve_client_ip_no_spoof ip proxy existing (32 ∷ ip.to_string client) trusted client t
            (walk-space trusted client p u)

    -- What `X-Forwarded-For` comes to, behind what the client has sent.
    abbrev pub appended : Addr → Headers → Text
    appended client m =
        forwarded_for http (get_str http (codes "x-forwarded-for") m) (ip.to_string client)

    get_str-append :
        (client : Addr) (m : Headers)
        → IsHeaderMap http
        → http.header_value (appended client m) ≡ some (appended client m)
        → http.to_str (appended client m) ≡ some (appended client m)
        → get_str http (codes "x-forwarded-for") (append_forwarded_for http (ip.to_string client) m)
          ≡ some (appended client m)
    unfolding append_forwarded_for set_header
    get_str-append client m laws v s =
        rw (v, laws.get-insert_self (codes "x-forwarded-for") (appended client m) m) s

    -- The address survives the way through two proxies: what this one appends for its client, behind
    -- whatever the client has sent, is the address that a proxy behind it resolves from the header,
    -- when that one trusts this one and not the client, and the value is legal.
    pub resolve-append_forwarded_for :
        (client proxy : Addr) (trusted : List Net) (m : Headers)
        → IsHeaderMap http
        → IsPrinted ip client
        → http.header_value (appended client m) ≡ some (appended client m)
        → http.to_str (appended client m) ≡ some (appended client m)
        → is_trusted ip trusted proxy ≡ true
        → is_trusted ip trusted client ≡ false
        → resolve_client_ip ip proxy
            (get_str http
              (codes "x-forwarded-for")
              (append_forwarded_for http (ip.to_string client) m))
            trusted
          ≡ client
    resolve-append_forwarded_for client proxy trusted m laws p v s t u =
        ap (λ o. resolve_client_ip ip proxy o trusted) (get_str-append client m laws v s)
        ∙ resolve-forwarded_for (get_str http (codes "x-forwarded-for") m) client proxy trusted p t
            u
