-- ===== src/Admin.antt =====
-- crates/gatepup-admin/src/api.rs: the routing of the read-only API, and its bearer token. A reply
-- names the document, which Documents makes.
pub mod Documents
pub mod Serve
mod Tests
use gatepup.Prelude.{
  ℕ, ◌≡◌, ◌≢◌, ◌⊎◌, inl, inr, refl, Bool, true, false, not, ◌&&◌, Option, none, some, List, [], ◌∷◌,
  ◌++◌, Text, codes, text_eq, Bool-cases, if◌then◌else◌, arith,
}
use gatepup.Interfaces.{HttpLib}
use gatepup.Proxy.Auth.{constant_time_eq, constant_time_eq_iff}

-- `AdminState`, less what it shares with the proxy.
pub record AdminState : Type 0 where
  pub bind : Text
  pub metrics_path : Option Text
  pub version : Text
  pub token : Option Text

pub data Reply : Type 0 where
  method_not_allowed unauthorized not_found : Reply
  metrics health routes upstreams effective_config : Reply

abbrev pub status : Reply → ℕ
status method_not_allowed = 405
status unauthorized = 401
status not_found = 404
status _ = 200

-- `Some(path) == metrics_path`.
abbrev pub is_metrics_path : Text → Option Text → Bool
is_metrics_path path none = false
is_metrics_path path (some p) = text_eq path p

-- `match path`.
abbrev pub endpoint : Text → Reply
endpoint path =
    if text_eq path (codes "/health")
    then health
    else if text_eq path (codes "/routes")
    then routes
    else if text_eq path (codes "/upstreams")
    then upstreams
    else if text_eq path (codes "/config/effective")
    then effective_config
    else not_found

module _ {Headers : Type 0} (http : HttpLib Headers) where
  abbrev pub same_value : Option Text → Text → Bool
  same_value none expected = false
  same_value (some v) expected = constant_time_eq v expected

  -- `authorized`.
  unfoldable pub authorized : Headers → Text → Bool
  authorized m token = same_value (http.get (codes "authorization") m) (codes "Bearer " ++ token)

  -- The guard of the token.
  abbrev pub refused : Option Text → Text → Headers → Bool
  refused none path m = false
  refused (some token) path m = not (text_eq path (codes "/health")) && not (authorized m token)

  unfoldable pub route : AdminState → Text → Text → Headers → Reply
  route state method path m =
      if not (text_eq method (codes "GET"))
      then method_not_allowed
      else if refused state.token path m
      then unauthorized
      else if is_metrics_path path state.metrics_path
      then metrics
      else endpoint path

  passed_on :
      (get denied : Bool) (rest : Reply)
      → status (if not get then method_not_allowed else if denied then unauthorized else rest) ≡ 200
      → (get ≡ true) × (denied ≡ false)
  passed_on get denied rest h = ground arith

  same_value_sound :
      (o : Option Text) (expected : Text) → same_value o expected ≡ true → o ≡ some expected
  same_value_sound none expected h = absurd (ground arith)
  same_value_sound (some v) expected h = rw ((constant_time_eq_iff v expected).0 h) refl

  -- With a token set, a document other than that of `/health` goes only to a GET that carries the
  -- token.
  pub route_guarded :
      (state : AdminState) (method path token : Text) (m : Headers)
      → state.token ≡ some token
      → text_eq path (codes "/health") ≡ false
      → status (route state method path m) ≡ 200
      → (text_eq method (codes "GET") ≡ true)
        × (http.get (codes "authorization") m ≡ some (codes "Bearer " ++ token))
  unfolding route authorized
  route_guarded state method path token m t p h =
      let rest = if is_metrics_path path state.metrics_path then metrics else endpoint path in
      let (g, r) = passed_on (text_eq method (codes "GET")) (refused state.token path m) rest h in
      let q : refused (some token) path m ≡ false = rw t at r in
      (g, same_value_sound _ (codes "Bearer " ++ token) (ground arith))
