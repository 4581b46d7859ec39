-- ===== src/Proxy/Handle/Guarded.antt =====
-- What has to hold before an upgrade reaches an upstream.
use gatepup.Prelude.{
  ℕ, ◌≡◌, ◌⊎◌, inl, inr, refl, Option, none, some, false, List, [], ◌∷◌, ◌++◌, Bool-cases, Text,
}
use gatepup.Interfaces.{IpLib, HttpLib, Float}
use gatepup.Upstream.{UpstreamRuntime, Picked, target, no_target, panic, target_at, pick_target}
use gatepup.Proxy.Errors.{GatewayError}
use gatepup.Proxy.Admission.{Request, Admitted, Passed, admit-Passed}
use gatepup.Proxy.Attempts.{Sent, failed, answered}
use gatepup.Proxy.Forward.{World, Context, decide}
use gatepup.Proxy.Handle.{
  Tunnel, unreachable, no_handshake, no_reply, replied, Dialer, tunnelled, on_authority, on_pick,
  on_admitted, handle_upgrade, parse_authority, url_of, header_of_upgrade,
}
use gatepup.Router.Rewrite.{rewritten_path_and_query}

-- What a connection says of the request that it carried, if it carried one.
abbrev pub sent_by : {Headers : Type 0} → Tunnel Headers → Option (Sent Headers)
sent_by unreachable = none
sent_by no_handshake = none
sent_by no_reply = some (failed false)
sent_by (replied resp) = some (answered resp)

module _ {F Headers Addr Net Tls : Type 0} (fl : Float F) (ip : IpLib Addr Net)
    (http : HttpLib Headers) (d : Dialer Headers) (c : Context Headers Addr)
    (req : Request Headers Addr) where
  abbrev pub Passes : World fl ip Headers Tls → Admitted F Net → Type 0
  Passes w a = Passed fl ip http c.decode c.hash w.snapshot c.listener_name req w.limiter a

  -- The log grows by nothing, or by the one request that the connection to a healthy target carried,
  -- which was picked for an admitted request, and whose URL is where the connection goes.
  pub data Grows (w : World fl ip Headers Tls) : List (ℕ × Sent Headers) → Type 0 where
    nothing : Grows w w.log
    one :
        (a : Admitted F Net) (i : ℕ) (authority : Text × ℕ)
        → Passes w a
        → (pick_target a.upstream).0 ≡ target i
        → parse_authority d (url_of (target_at (pick_target a.upstream).1 i)) ≡ some authority
        → (o : Sent Headers)
        → sent_by (
            d.dial authority
              (rewritten_path_and_query a.route req.path_and_query)
              (header_of_upgrade fl ip http d c req authority))
          ≡ some o
        → Grows w (w.log ++ (i, o) ∷ [])

  module _ (w x : World fl ip Headers Tls) (same : x.log ≡ w.log) (a : Admitted F Net)
      (passes : Passes w a) where
    tunnelled-Grows :
        (u : UpstreamRuntime) (i : ℕ) (k : Tunnel Headers)
        → ((o : Sent Headers) → sent_by k ≡ some o → Grows w (w.log ++ (i, o) ∷ []))
        → Grows w (tunnelled fl ip http d x a u i k).1.log
    tunnelled-Grows u i unreachable p = rw same nothing
    tunnelled-Grows u i no_handshake p = rw same nothing
    tunnelled-Grows u i no_reply p = rw same (p _ refl)
    tunnelled-Grows u i (replied resp) p = rw same (p _ refl)

    authority-Grows :
        (i : ℕ) (o : Option (Text × ℕ))
        → (pick_target a.upstream).0 ≡ target i
        → parse_authority d (url_of (target_at (pick_target a.upstream).1 i)) ≡ o
        → Grows w (on_authority fl ip http d c req x a (pick_target a.upstream).1 i o).1.log
    authority-Grows i none p e = rw same nothing
    authority-Grows i (some authority) p e =
        let pq = rewritten_path_and_query a.route req.path_and_query in
        let m = header_of_upgrade fl ip http d c req authority in
        elim (Bool-cases (d.buildable pq m)) [
          | inl b ↦ rw b (
              tunnelled-Grows (pick_target a.upstream).1 i (d.dial authority pq m)
                (one a i authority passes p e))
          | inr b ↦ rw (b, same) nothing
        ]

    pick-Grows :
        (p : Picked)
        → (pick_target a.upstream).0 ≡ p
        → Grows w (on_pick fl ip http d c req x a (pick_target a.upstream).1 p).1.log
    pick-Grows no_target e = rw same nothing
    pick-Grows panic e = rw same nothing
    pick-Grows (target i) e =
        authority-Grows i (parse_authority d (url_of (target_at (pick_target a.upstream).1 i))) e
          refl

  admitted-Grows :
      (w x : World fl ip Headers Tls) (o : GatewayError ⊎ Admitted F Net)
      → x.log ≡ w.log
      → ((a : Admitted F Net) → o ≡ inr a → Passes w a)
      → Grows w (on_admitted fl ip http d c req x o).1.log
  admitted-Grows w x (inl e) same h = rw same nothing
  admitted-Grows w x (inr a) same h =
      pick-Grows w x same a (h a refl) (pick_target a.upstream).0 refl

  -- An upgrade sends one request at most, and only if it has a route that allows its address, a token
  -- of the limiter, the credentials of the route and an upstream. The request goes over a connection to
  -- the authority of the URL of the target that was picked from that upstream, and that target is the
  -- one the log names.
  pub handle_upgrade-Grows :
      (w : World fl ip Headers Tls) → Grows w (handle_upgrade fl ip http d c req w).1.log
  unfolding handle_upgrade
  handle_upgrade-Grows w =
      let v = decide fl ip http c req w in
      admitted-Grows w (record w { limiter = v.1 }) v.0 refl
        (admit-Passed fl ip http c.decode c.hash w.snapshot c.listener_name req w.limiter)
