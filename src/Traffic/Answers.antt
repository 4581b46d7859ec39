-- ===== src/Traffic/Answers.antt =====
-- What every client of a running proxy may rely on, whatever else is in flight.
use gatepup.Prelude.{◌+◌, ◌≡◌, ◌≢◌, ◌⊎◌, inr, length, get_elem?, some, All, Text}
use gatepup.Interfaces.{IpLib, HttpLib, Float}
use gatepup.Config.Model.{GatePupConfig, TlsConfig}
use gatepup.RateLimiter.{RateLimiter}
use gatepup.Snapshot.{RuntimeConfig, build_snapshot}
use gatepup.Snapshot.Build.{IsBalanced}
use gatepup.Proxy.Forward.{Outcome, crash}
use gatepup.Service.Valid.{build_snapshot-AllValid}
use gatepup.Traffic.{Going, Flight}
use gatepup.Traffic.Flights.{Entered, Finished}
use gatepup.Traffic.Run.{System, started, Reach}
use gatepup.Traffic.Invariant.{IsRunning, started-IsRunning, Reach-IsRunning}

module _ {F Headers Addr Net Tls : Type 0} (fl : Float F) (ip : IpLib Addr Net)
    (http : HttpLib Headers) where
  -- The snapshot that the request loaded is in the heap; it ended with a response or an error and no
  -- index out of range, it was admitted under the routes of that snapshot, and what it sent obeys the
  -- retry policy.
  pub record EndedWell (w : System fl ip Headers Tls) (f : Flight F Headers Addr Net)
      (o : Outcome Headers) (go : Going F Headers Net) : Type 0 where
    pub snapshot : RuntimeConfig F Net Tls
    pub loaded : get_elem? w.shared.heap f.call.snapshot ≡ some snapshot
    pub outcome : o ≢ crash
    pub admitted : Entered fl ip http f.call snapshot go.admitted
    pub finished : Finished fl ip http f.call snapshot.compression o go

module _ {F Headers Addr Net Tls : Type 0} (fl : Float F) (ip : IpLib Addr Net)
    (http : HttpLib Headers) (acceptor : TlsConfig → Text ⊎ Tls) (config : GatePupConfig F)
    {s : RuntimeConfig F Net Tls} {limiter : RateLimiter fl ip.same}
    {w : System fl ip Headers Tls} where
  running :
      All IsBalanced config.upstreams
      → build_snapshot fl ip http acceptor config ≡ inr s
      → Reach fl ip http acceptor (started fl ip s limiter) w
      → IsRunning fl ip http w
  running b h r =
      Reach-IsRunning fl ip http acceptor
        (started-IsRunning fl ip http s limiter
          (build_snapshot-AllValid fl ip http acceptor config s b h))
        r

  -- From the snapshot of a configuration with balanced weights, in any interleaving of requests with
  -- probes, reloads and clients that leave: every request that was counted is in flight, has its
  -- duration recorded, or was dropped with its client.
  pub requests_accounted :
      All IsBalanced config.upstreams
      → build_snapshot fl ip http acceptor config ≡ inr s
      → Reach fl ip http acceptor (started fl ip s limiter) w
      → w.shared.metrics.requests ≡ length w.flights + (w.shared.metrics.durations + w.cancelled)
  requests_accounted b h r = (running b h r).counted
