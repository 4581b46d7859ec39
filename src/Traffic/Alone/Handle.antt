-- ===== src/Traffic/Alone/Handle.antt =====
-- A request that nothing interrupts does what crates/gatepup-proxy/src/proxy.rs, `handle`, does in one.
use gatepup.Prelude.{ℕ, ◌≡◌, refl, true, false, Bool, Option, some, get_elem?, Text, if◌then◌else◌}
use gatepup.Interfaces.{IpLib, HttpLib, Float}
use gatepup.Metrics.{inc_requests}
use gatepup.Snapshot.{RuntimeConfig}
use gatepup.Proxy.Body.{Incoming}
use gatepup.Proxy.Errors.{Response}
use gatepup.Proxy.Forward.{World, Context, Outcome, forward}
use gatepup.Proxy.Forwarding.{is_upgrade}
use gatepup.Proxy.Handle.{Dialer, Arrival, count_outcome, handle_upgrade, respond, handle}
use gatepup.Traffic.{Stage, arrived, Call, Shared}
use gatepup.Traffic.Run.{outcome_of, flight_of}
use gatepup.Traffic.Alone.{Leads}
use gatepup.Traffic.Alone.Whole.{LeadsTo, after, world_at}
use gatepup.Traffic.Alone.Forward.{alone-eq-forward}
use gatepup.Traffic.Alone.Upgrade.{alone-eq-handle_upgrade}

module _ {F Headers Addr Net Tls : Type 0} (fl : Float F) (ip : IpLib Addr Net)
    (http : HttpLib Headers) where
  -- The actions of the request lead to an outcome, whose response and whose counters are those of
  -- `handle`, and to what `handle` leaves in the snapshot `g`, the limiter and the metrics.
  pub record IsHandled (f : Call Headers Addr) (s : Shared fl ip Tls)
      (r : Option (Response Headers) × World fl ip Headers Tls) : Type 0 where
    pub stage : Stage F Headers Net
    pub outcome : Outcome Headers
    pub left : Shared fl ip Tls
    pub ends : outcome_of stage ≡ some outcome
    pub leads :
        Leads fl ip http f (arrived, record s { metrics = inc_requests s.metrics }) (stage, left)
    pub response : r.0 ≡ respond fl ip http f.dialer f.context.request_id outcome
    pub world :
        record left { metrics = count_outcome outcome left.metrics } ≡ after fl ip http f s r.1

  module _ (d : Dialer Headers) (c : Context Headers Addr) (generated : Text)
      (req : Arrival Headers) (body : Incoming) (g : ℕ) (s : Shared fl ip Tls)
      (snap : RuntimeConfig F Net Tls) (here : get_elem? s.heap g ≡ some snap) where
    abbrev call : Call Headers Addr
    call = (flight_of fl ip http d c generated req body g snap).call

    abbrev arriving : Shared fl ip Tls
    arriving = record s { metrics = inc_requests s.metrics }

    dispatched :
        (upgrade : Bool)
        → is_upgrade http req.headers ≡ upgrade
        → let w = world_at fl ip http call arriving snap in
          LeadsTo fl ip http call arriving
            (arrived, arriving)
            (if upgrade
              then handle_upgrade fl ip http d call.context call.request w
              else forward fl ip http call.context call.request body w)
    dispatched true q = alone-eq-handle_upgrade fl ip http call arriving snap here q
    dispatched false q = alone-eq-forward fl ip http call arriving snap here q

    -- On any snapshot of the heap, a request whose actions nothing interrupts gets the response that
    -- `handle` gives in one step, and leaves the world that `handle` leaves.
    pub alone-eq-handle :
        IsHandled call s
          (handle fl ip http d c generated req body (world_at fl ip http call s snap))
    unfolding handle
    alone-eq-handle =
        let (st, o, _, h) = dispatched (is_upgrade http req.headers) refl in
        record {
          stage = st;
          outcome = _;
          left = _;
          ends = o;
          leads = h;
          response = refl;
          world = refl;
        }
