-- ===== src/Traffic/Alone/Written.antt =====
-- What an upgrade leaves does not depend on the upstream that was there before.
use gatepup.Prelude.{
  ℕ, ◌≡◌, inl, inr, ap, false, Bool-cases, Option, none, some, [], ◌∷◌, ◌++◌, ◌==◌,
  table_insert_twice, Text, if◌then◌else◌,
}
use gatepup.Interfaces.{IpLib, HttpLib, Float}
use gatepup.Upstream.{UpstreamRuntime}
use gatepup.Metrics.{inc_websocket}
use gatepup.Proxy.Attempts.{failed, answered}
use gatepup.Proxy.Admission.{Request, Admitted}
use gatepup.Proxy.Forward.{World, Context, Outcome}
use gatepup.Proxy.Handle.{
  Tunnel, unreachable, no_handshake, no_reply, replied, Dialer, with_target, tunnelled,
  on_authority, header_of_upgrade,
}
use gatepup.Router.Rewrite.{rewritten_path_and_query}
use gatepup.Traffic.Heap.{with_upstream}

module _ {F Headers Addr Net Tls : Type 0} (fl : Float F) (ip : IpLib Addr Net)
    (http : HttpLib Headers) (d : Dialer Headers) (a : Admitted F Net) (u : UpstreamRuntime) where
  -- The same world with the upstream written back before.
  abbrev written : World fl ip Headers Tls → World fl ip Headers Tls
  written w = record w { snapshot = with_upstream w.snapshot a.route.upstream u }

  with_target-written :
      (o : Outcome Headers) (w : World fl ip Headers Tls) (v : UpstreamRuntime)
      → let t : Outcome Headers × World fl ip Headers Tls = (o, with_target fl ip http d w a v) in
        (o, with_target fl ip http d (written w) a v) ≡ t
  with_target-written o w v =
      ap (λ t. (o, record w { snapshot = record w.snapshot { upstreams = t } }))
        (table_insert_twice a.route.upstream u v w.snapshot.upstreams)

  tunnelled-written :
      (w : World fl ip Headers Tls) (v : UpstreamRuntime) (i : ℕ) (t : Tunnel Headers)
      → tunnelled fl ip http d (written w) a v i t ≡ tunnelled fl ip http d w a v i t
  tunnelled-written w v i unreachable = with_target-written _ w _
  tunnelled-written w v i no_handshake = with_target-written _ w _
  tunnelled-written w v i no_reply =
      with_target-written _ (record w { log = w.log ++ (i, failed false) ∷ [] }) _
  tunnelled-written w v i (replied resp) =
      with_target-written _
        (record w {
          log = w.log ++ (i, answered resp) ∷ [];
          metrics = if resp.status == 101 then inc_websocket w.metrics else w.metrics;
        })
        _

  pub on_authority-written :
      (c : Context Headers Addr) (req : Request Headers Addr) (w : World fl ip Headers Tls)
      (v : UpstreamRuntime) (i : ℕ) (o : Option (Text × ℕ))
      → on_authority fl ip http d c req (written w) a v i o
        ≡ on_authority fl ip http d c req w a v i o
  on_authority-written c req w v i none = with_target-written _ w v
  on_authority-written c req w v i (some t) =
      let pq = rewritten_path_and_query a.route req.path_and_query in
      let m = header_of_upgrade fl ip http d c req t in
      elim (Bool-cases (d.buildable pq m)) [
        | inl e ↦ rw e (tunnelled-written w v i (d.dial t pq m))
        | inr e ↦ rw e (with_target-written _ w v)
      ]
