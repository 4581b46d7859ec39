-- ===== src/Service/Tests.antt =====
-- A proxy with one route, behind one request, one pass of probes and one reload.
use gatepup.Prelude.{ℕ, ◌≡◌, some, Text, codes}
use gatepup.Interfaces.{whole}
use gatepup.Interfaces.Assoc.{Headers, assoc}
use gatepup.Interfaces.Bytes.{bytes_ip}
use gatepup.Proxy.Errors.{Response}
use gatepup.Proxy.Forward.{World}
use gatepup.Proxy.Handle.{handle}
use gatepup.Service
use gatepup.Service.{Reach, next, request, probes, reload}
use gatepup.Service.Answered.{every_request_answered}
use gatepup.Service.Example.{
  config, pair-IsBalanced, no_tls, snapshot, builds, rebuilds, world, context, dialer, arrival,
  no_body,
}

abbrev busy : World whole bytes_ip Headers ℕ
busy =
    Service.swapped whole bytes_ip
      (handle whole bytes_ip assoc dialer context (codes "1") arrival no_body world).1 snapshot

busy-Reach : Reach Text Text whole bytes_ip assoc no_tls world busy
busy-Reach =
    next (next Service.here (request dialer context (codes "1") arrival no_body))
      (reload config snapshot (pair-IsBalanced, tt) rebuilds)

every_request_answered_example :
    (r : Response Headers) × ((handle whole bytes_ip assoc dialer context
        (codes "2")
        arrival
        no_body
        busy).0
      ≡ some r)
every_request_answered_example =
    every_request_answered Text Text whole bytes_ip assoc no_tls config dialer context (codes "2")
      arrival no_body (pair-IsBalanced, tt) builds busy-Reach
