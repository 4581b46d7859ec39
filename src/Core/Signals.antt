-- ===== src/Core/Signals.antt =====
-- What a run of the signal loop comes to.
use gatepup.Prelude.{◌+◌, ◌≡◌, ◌⊎◌, refl, Bool, true, false, Option, List, [], ◌∷◌, Text, length}
use gatepup.Interfaces.{IpLib, HttpLib, Float}
use gatepup.Config.Resolve.{Env}
use gatepup.Metrics.Counts.{succeeded, failed}
use gatepup.Core.{Running, Platform, Signal, terminate, interrupt, hangup, reloads, signal_loop}
use gatepup.Core.Reload.{IsSound, reloads_consistent}

-- Whether a signal to end is among them, and the environments of the reloads before the first one,
-- the newest first.
abbrev pub ends : List Signal → Bool
ends [] = false
ends (terminate ∷ signals) = true
ends (interrupt ∷ signals) = true
ends (hangup get ∷ signals) = ends signals

abbrev pub before_end : List Env → List Signal → List Env
before_end gets [] = gets
before_end gets (terminate ∷ signals) = gets
before_end gets (interrupt ∷ signals) = gets
before_end gets (hangup get ∷ signals) = before_end (get ∷ gets) signals

module _ {F Headers Addr Net Tls : Type 0} (fl : Float F) (ip : IpLib Addr Net)
    (http : HttpLib Headers) (p : Platform F Tls) where
  after_reloads :
      (cli : Option Text) (gets : List Env) (signals : List Signal) (r : Running F Net Tls)
      → signal_loop fl ip http p cli signals (reloads fl ip http p cli gets r)
        ≡ (ends signals, reloads fl ip http p cli (before_end gets signals) r)
  unfolding signal_loop reloads
  after_reloads cli gets [] r = refl
  after_reloads cli gets (terminate ∷ signals) r = refl
  after_reloads cli gets (interrupt ∷ signals) r = refl
  after_reloads cli gets (hangup get ∷ signals) r = after_reloads cli (get ∷ gets) signals r

  -- The signal loop is the reloads of the hangups before the first signal to end, and sends the
  -- shutdown exactly when there is one; what runs then is consistent, and each of the reloads was
  -- counted.
  pub signal_loop_refines :
      (cli : Option Text) (signals : List Signal) (r : Running F Net Tls)
      → let t = (signal_loop fl ip http p cli signals r).1 in
        (signal_loop fl ip http p cli signals r
          ≡ (ends signals, reloads fl ip http p cli (before_end [] signals) r))
        × (((t.shared ≡ r.shared) × (t.effective ≡ r.effective))
            ⊎ IsSound fl ip http p t.shared t.effective)
        × (succeeded t.metrics + failed t.metrics
            ≡ succeeded r.metrics + failed r.metrics + length (before_end [] signals))
  unfolding reloads
  signal_loop_refines cli signals r =
      let e = after_reloads cli [] signals r in
      let (c, n) = reloads_consistent fl ip http p cli (before_end [] signals) r in
      (e, rw (e) c, rw (e) n)
