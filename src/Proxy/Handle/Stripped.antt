-- ===== src/Proxy/Handle/Stripped.antt =====
-- Which headers of the connection of a client an upstream reads.
use gatepup.Prelude.{
  List, [], ◌||◌, not, In, In-any, All-In, text_eq→eq, ℕ, ◌≡◌, refl, ◌∙◌, ap, true, Bool, Option,
  none, ◌∷◌, Text, codes, text_eq, or_else, if◌then◌else◌, Bool-cases, inl, inr, arith,
}
use gatepup.Interfaces.{IpLib, HttpLib, IsHeaderMap, Float}
use gatepup.Router.Table.{CompiledRoute}
use gatepup.Router.Filters.Headers.{assigned, listed, get-apply}
use gatepup.Proxy.Admission.{Request}
use gatepup.Proxy.Forwarding.{
  upgrade_strip, rewrite_headers, rewrite_headers_strips, upgrade_headers_strips,
}
use gatepup.Proxy.Forward.{Context, upstream_headers}
use gatepup.Proxy.Handle.{Dialer, header_of_upgrade}

-- Host, and the headers that HTTP gives to a single connection.
abbrev pub of_connection : List Text
of_connection =
    codes "host"
    ∷ codes "connection"
    ∷ codes "keep-alive"
    ∷ codes "proxy-authenticate"
    ∷ codes "proxy-authorization"
    ∷ codes "te"
    ∷ codes "trailer"
    ∷ codes "transfer-encoding"
    ∷ codes "upgrade"
    ∷ []

-- An upgrade strips all of them but two.
strip_all_but_two :
    (n : Text)
    → In n of_connection
    → listed n (codes "host" ∷ upgrade_strip)
      ≡ not (text_eq (codes "connection") n || text_eq (codes "upgrade") n)
unfolding text_eq
strip_all_but_two n i =
    All-In
      (λ n.
        listed n (codes "host" ∷ upgrade_strip)
        ≡ not (text_eq (codes "connection") n || text_eq (codes "upgrade") n))
      (refl, (refl, (refl, (refl, (refl, (refl, (refl, (refl, (refl, tt))))))))) i

strip_named :
    (k : Text)
    → listed k of_connection ≡ true
    → listed k (codes "host" ∷ upgrade_strip)
      ≡ not (text_eq (codes "connection") k || text_eq (codes "upgrade") k)
strip_named k l =
    let (n, i, e) = In-any (λ n. text_eq n k) of_connection l in
    let s : n ≡ k = text_eq→eq n k e in rw (← s) (strip_all_but_two n i)

module _ {F Headers Addr Net : Type 0} (fl : Float F) (ip : IpLib Addr Net) (http : HttpLib Headers)
    (laws : IsHeaderMap http) (d : Dialer Headers) (c : Context Headers Addr)
    (req : Request Headers Addr) where
  if_none : (b : Bool) → ◌≡◌ {A = Option Text} (if b then none else none) none
  if_none b = elim (Bool-cases b) [ inl e ↦ rw e refl | inr e ↦ rw e refl ]

  -- Under Host and under the name of a hop-by-hop header, a forwarded request carries what the header
  -- rules of its route set, and nothing of the client. An upgrade carries the authority of its target
  -- under Host, where that is a legal value, and the client's own Connection and Upgrade; under the
  -- names of the other hop-by-hop headers it carries nothing.
  pub hop_by_hop_stripped :
      (k : Text) (r : CompiledRoute F Net) (authority : Text × ℕ)
      → listed k of_connection ≡ true
      → (http.get k (upstream_headers fl ip http c req r) ≡ assigned k r.request_headers.set none)
        × (http.get k (header_of_upgrade fl ip http d c req authority) ≡ (
            if text_eq (codes "host") k
            then or_else (http.header_value (d.authority_of authority)) none
            else if text_eq (codes "connection") k || text_eq (codes "upgrade") k
            then http.get k req.headers
            else none))
  hop_by_hop_stripped k r authority l =
      let from = ip.to_string c.remote in
      let m = rewrite_headers http req.host c.scheme from c.request_id req.headers in
      let e : http.get k m ≡ none =
        rewrite_headers_strips http laws k req.host c.scheme from c.request_id req.headers l in
      (
        get-apply http laws k r.request_headers m
            ∙ ap (assigned k r.request_headers.set)
                (rw e (if_none (listed k r.request_headers.remove))),
        ground (
          arith,
          strip_named k l,
          upgrade_headers_strips http laws k (d.authority_of authority) req.host c.scheme from
              c.request_id req.headers l,
        ),
      )
