-- ===== src/Config/Validator/Checked.antt =====
-- What an empty list of errors says of each part of a configuration.
use gatepup.Prelude.{
  ◌≡◌, inl, inr, refl, sym, ap, ◌∙◌, Bool, true, false, not, Option, some, List, [], ◌∷◌, ◌++◌, map,
  In, here, there, In-any, All, All-of_In, is_some, Text, text_eq, text_eq→eq, Option-cases, arith,
}
use gatepup.Interfaces.{IpLib, Float}
use gatepup.Router.Filters.{parse_trusted_proxy}
use gatepup.Router.Filters.Access.{AllParse}
use gatepup.Config.Model.{
  GatePupConfig, ListenerConfig, RouteConfig, UpstreamConfig, IpAccessConfig, AdminConfig,
}
use gatepup.Config.Errors.{
  invalid_bind, unknown_upstream, invalid_ip_access_cidr, invalid_admin_bind, empty_admin_token,
}
use gatepup.Config.Validator.{
  push_if, each, concat, of_option, among, check_listener_tls, check_admin, empty_token,
}
use gatepup.Config.Validator.Routes.{
  Key, key_of, check_ip_acl, check_acl, check_route, check_routes, check_listeners, validate,
  checks, route_checks, single_checks, listener_checks, note_match, seen_match,
}

module _ {ℓ} {E : Type ℓ} where
  pub append-nil_left : (xs ys : List E) → xs ++ ys ≡ [] → xs ≡ []
  append-nil_left [] ys h = refl
  append-nil_left (x ∷ xs) ys h = absurd (ground arith)

  pub append-nil_right : (xs ys : List E) → xs ++ ys ≡ [] → ys ≡ []
  append-nil_right [] ys h = h
  append-nil_right (x ∷ xs) ys h = absurd (ground arith)

  push_if-nil : (b : Bool) (e : E) → push_if b e ≡ [] → b ≡ false
  push_if-nil false e h = refl
  push_if-nil true e h = absurd (ground arith)

  push_if-not-nil : (b : Bool) (e : E) → push_if (not b) e ≡ [] → b ≡ true
  push_if-not-nil true e h = refl
  push_if-not-nil false e h = absurd (ground arith)

  each-nil {κ} :
      {A : Type κ} {x : A} (f : A → List E) (xs : List A) → each f xs ≡ [] → In x xs → f x ≡ []
  each-nil f [] h m = elim m [ ]
  each-nil f (x ∷ xs) h here = append-nil_left (f x) (each f xs) h
  each-nil f (x ∷ xs) h (there m) = each-nil f xs (append-nil_right (f x) (each f xs) h) m

concat-nil {ℓ} : {E : Type ℓ} (ess : List (List E)) → concat ess ≡ [] → All (λ es. es ≡ []) ess
concat-nil [] h = tt
concat-nil (es ∷ ess) h =
    (append-nil_left es (concat ess) h, concat-nil ess (append-nil_right es (concat ess) h))

pub among-In : (names : List Text) (t : Text) → among names t ≡ true → In t names
among-In names t h =
    let (n, m, e) = In-any (text_eq t) names h in let s : t ≡ n = text_eq→eq t n e in rw s m

pub In-map {ℓ κ} :
    {A : Type ℓ} {B : Type κ} {b : B} (f : A → B) (xs : List A)
    → In b (map f xs)
    → (a : A) × In a xs × (f a ≡ b)
In-map f [] m = elim m [ ]
In-map f (x ∷ xs) here = (x, here, refl)
In-map f (x ∷ xs) (there m) = let (a, k, e) = In-map f xs m in (a, there k, e)

module _ {F Addr Net : Type 0} (fl : Float F) (ip : IpLib Addr Net) where
  pub routes-nil :
      {r : RouteConfig F} (names : List Text) (listener : Text) (seen : List Text)
      (matches : List (Key × Text)) (rs : List (RouteConfig F))
      → check_routes fl ip names listener seen matches rs ≡ []
      → In r rs
      → check_route fl ip names listener r ≡ []
  unfolding check_routes
  routes-nil names listener seen matches [] h m = elim m [ ]
  routes-nil names listener seen matches (r ∷ rs) h m =
      let first = seen_match (key_of r.matcher) matches in
      let own = route_checks fl ip names listener seen first r in
      let noted = note_match (key_of r.matcher) r.name matches first in
      let rest = check_routes fl ip names listener (r.name ∷ seen) noted rs in
      at m (concat-nil own (append-nil_left (concat own) rest h)).1.1.1.0
        (routes-nil names listener (r.name ∷ seen) noted rs (append-nil_right (concat own) rest h))
    where
      at :
          {q : RouteConfig F}
          → In q (r ∷ rs)
          → check_route fl ip names listener r ≡ []
          → (In q rs → check_route fl ip names listener q ≡ [])
          → check_route fl ip names listener q ≡ []
      at here e k = e
      at (there m) e k = k m

  -- The listeners before `l` are named `before`.
  listener-nil :
      {l : ListenerConfig F} (names seen : List Text) (ls : List (ListenerConfig F))
      → check_listeners fl ip names seen ls ≡ []
      → In l ls
      → (before : List Text) × (concat (listener_checks fl ip names before l) ≡ [])
  unfolding check_listeners
  listener-nil names seen [] h m = elim m [ ]
  listener-nil names seen (l ∷ ls) h here =
      let rest = check_listeners fl ip names (l.name ∷ seen) ls in
      (seen, append-nil_left (concat (listener_checks fl ip names seen l)) rest h)
  listener-nil names seen (l ∷ ls) h (there m) =
      let rest = check_listeners fl ip names (l.name ∷ seen) ls in
      listener-nil names (l.name ∷ seen) ls
        (append-nil_right (concat (listener_checks fl ip names seen l)) rest h) m

  pub listeners-nil :
      {l : ListenerConfig F} (names seen : List Text) (ls : List (ListenerConfig F))
      → check_listeners fl ip names seen ls ≡ []
      → In l ls
      → (is_some (ip.parse_socket_addr l.bind) ≡ true)
        × (check_routes fl ip names l.name [] [] l.routes ≡ [])
  listeners-nil {l} names seen ls h m =
      let (before, c) = listener-nil names seen ls h m in
      let e = concat-nil (listener_checks fl ip names before l) c in
      (push_if-not-nil _ (invalid_bind l.name l.bind) e.1.0, e.1.1.1.0)

  pub route_upstream :
      (names : List Text) (listener : Text) (r : RouteConfig F)
      → check_route fl ip names listener r ≡ []
      → among names r.upstream ≡ true
  unfolding check_route
  route_upstream names listener r h =
      push_if-not-nil _ (unknown_upstream r.name r.upstream)
        (concat-nil (single_checks fl ip names listener r) h).0

  pub route_acl :
      (names : List Text) (listener : Text) (r : RouteConfig F) (acl : IpAccessConfig)
      → r.ip_access ≡ some acl
      → check_route fl ip names listener r ≡ []
      → check_acl fl ip listener r.name acl ≡ []
  unfolding check_route
  route_acl names listener r acl a h =
      sym (ap (of_option (check_acl fl ip listener r.name)) a)
      ∙ (concat-nil (single_checks fl ip names listener r) h).1.1.0

  pub acl-AllParse :
      (listener route field : Text) (entries : List Text)
      → check_ip_acl fl ip listener route field entries ≡ []
      → AllParse ip entries
  unfolding check_ip_acl
  acl-AllParse listener route field entries h = All-of_In _ entries (λ v m. parsed v (
      push_if-not-nil (is_some (parse_trusted_proxy ip v))
        (invalid_ip_access_cidr listener route field v) (each-nil _ entries h m)))
    where
      parsed :
          (v : Text)
          → is_some (parse_trusted_proxy ip v) ≡ true
          → (n : Net) × (parse_trusted_proxy ip v ≡ some n)
      parsed v s = elim (Option-cases (parse_trusted_proxy ip v)) [
        | inl e ↦ absurd (ground arith)
        | inr c ↦ c
      ]

  pub validate-nil :
      (parse_url : Text → Option (Text × Bool)) (config : GatePupConfig F)
      → validate fl ip parse_url config ≡ []
      → check_listeners fl ip (map UpstreamConfig.name config.upstreams) [] config.listeners ≡ []
  unfolding validate
  validate-nil parse_url config h = (concat-nil (checks fl ip parse_url config) h).1.1.0

  pub bind_parses :
      (parse_url : Text → Option (Text × Bool)) (config : GatePupConfig F) (l : ListenerConfig F)
      → validate fl ip parse_url config ≡ []
      → In l config.listeners
      → is_some (ip.parse_socket_addr l.bind) ≡ true
  bind_parses parse_url config l h m =
      (listeners-nil _ [] config.listeners (validate-nil parse_url config h) m).0

  pub tls_checked :
      (parse_url : Text → Option (Text × Bool)) (config : GatePupConfig F) (l : ListenerConfig F)
      → validate fl ip parse_url config ≡ []
      → In l config.listeners
      → check_listener_tls l.name l.protocol l.tls ≡ []
  tls_checked parse_url config l h m =
      let (before, c) = listener-nil _ [] config.listeners (validate-nil parse_url config h) m in
      (concat-nil (listener_checks fl ip _ before l) c).1.1.0

  pub admin_bind_parses :
      (parse_url : Text → Option (Text × Bool)) (config : GatePupConfig F) (a : AdminConfig)
      → validate fl ip parse_url config ≡ []
      → config.admin ≡ some a
      → is_some (ip.parse_socket_addr a.bind) ≡ true
  unfolding validate check_admin
  admin_bind_parses parse_url config a h e =
      let c = (concat-nil (checks fl ip parse_url config) h).1.1.1.1.1.0 in
      let d : check_admin ip a ≡ [] = sym (ap (of_option (check_admin ip)) e) ∙ c in
      push_if-not-nil (is_some (ip.parse_socket_addr a.bind)) (invalid_admin_bind a.bind)
        (append-nil_left _ (push_if (empty_token a.token) empty_admin_token) d)
