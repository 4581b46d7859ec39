-- ===== src/Traffic/Flights.antt =====
-- What holds of a request in flight, whatever the others do to the heap.
use gatepup.Prelude.{
  ℕ, zero, suc, ◌+◌, ◌≤◌, ◌≡◌, ◌≢◌, ◌⊎◌, refl, true, false, not, ◌&&◌, Option, some, List, [], ◌++◌,
  append-nil, length, table_get, Bool-cases, inl, inr, arith,
}
use gatepup.Interfaces.{IpLib, HttpLib, Float}
use gatepup.RateLimiter.{RateLimiter}
use gatepup.Upstream.{UpstreamRuntime}
use gatepup.Snapshot.{RuntimeConfig}
use gatepup.Proxy.Errors.{GatewayError}
use gatepup.Proxy.Body.{body_exceeds_limit}
use gatepup.Proxy.Admission.{Admitted, admit, admit-Decision}
use gatepup.Proxy.Attempts.{Sent, Answer, refused}
use gatepup.Proxy.Attempts.Retries.{Run, stopped}
use gatepup.Compress.{Compression}
use gatepup.Proxy.Forward.{Outcome, err, finish, crash}
use gatepup.Service.Forwarded.{upstream_of}
use gatepup.Traffic
use gatepup.Traffic.{
  Going, Stage, arrived, picking, counted, waiting, ended, Call, accept_encoding, begin, attempts,
  going, entered,
}
use gatepup.Traffic.Heap.{Kept, Kept-refl, Kept-trans}

module _ {F Headers Addr Net Tls : Type 0} (fl : Float F) (ip : IpLib Addr Net)
    (http : HttpLib Headers) (f : Call Headers Addr) where
  -- The request was admitted on what the snapshot was before, with the same routes and settings and
  -- upstreams of the same shape, and declared no body over the limit.
  pub record Entered (snap : RuntimeConfig F Net Tls) (a : Admitted F Net) : Type 0 where
    pub found : RuntimeConfig F Net Tls
    pub limiter : RateLimiter fl ip.same
    pub kept : Kept found snap
    pub admitted :
        (admit fl ip http f.context.decode f.context.hash found f.context.listener_name f.request
          limiter).0
        ≡ inr a
    pub within :
        (not f.upgrade && body_exceeds_limit http f.request.headers found.max_body_bytes) ≡ false

  pub Entered-Kept :
      (a b : RuntimeConfig F Net Tls) (x : Admitted F Net) → Kept a b → Entered a x → Entered b x
  Entered-Kept a b x k e = record {
    found = e.found;
    limiter = e.limiter;
    kept = Kept-trans e.found a b e.kept k;
    admitted = e.admitted;
    within = e.within;
  }

module _ {F Headers Addr Net : Type 0} (fl : Float F) (ip : IpLib Addr Net) (http : HttpLib Headers)
    (f : Call Headers Addr) where
  -- What is sent with `n` attempts left completes a run of all attempts.
  abbrev pub Continues : ℕ → Going F Headers Net → Type 0
  Continues n go =
      (rest : List (ℕ × Sent Headers)) (a : Answer Headers)
      → Run go.admitted.upstream.retry n rest a
      → Run go.admitted.upstream.retry (attempts fl ip http f go.admitted) (go.sent ++ rest) a

  -- Before the attempt with `n` attempts left.
  pub record Along (n : ℕ) (attempt : ℕ) (go : Going F Headers Net) : Type 0 where
    pub total : attempt + n ≡ attempts fl ip http f go.admitted
    pub continues : Continues n go
    pub quiet : f.upgrade ≡ true → go.sent ≡ []

  -- What was sent in the end: by a forward, a run of the retry policy whose answer makes the outcome;
  -- by an upgrade, one request at most.
  pub record Finished (comp : Option Compression) (o : Outcome Headers) (go : Going F Headers Net)
      : Type 0 where
    pub of_forward :
        f.upgrade ≡ false
        → (a : Answer Headers) × (o
            ≡ finish fl ip http f.context comp (accept_encoding fl ip http f) go.admitted a)
          × Run go.admitted.upstream.retry (attempts fl ip http f go.admitted) go.sent a
    pub of_upgrade : f.upgrade ≡ true → length go.sent ≤ 1

  pub Along-Finished :
      (comp : Option Compression) (n attempt : ℕ) (go : Going F Headers Net) (e : GatewayError)
      → Along n attempt go
      → Finished comp (err e) go
  Along-Finished comp n attempt go e h = record {
    of_forward =
        λ q. (refused e, refl, rw append-nil at (h.continues [] (refused e) (stopped n e)));
    of_upgrade = λ q. rw (h.quiet q) (omega arith);
  }

  module _ {Tls : Type 0} where
    -- The upstream is in the snapshot, with at least `k` slots.
    abbrev pub Site : RuntimeConfig F Net Tls → ℕ → Going F Headers Net → Type 0
    Site snap k go =
        (u : UpstreamRuntime) × (table_get go.admitted.route.upstream snap.upstreams ≡ some u)
        × (k ≤ length u.schedule)

    pub record IsGoing (snap : RuntimeConfig F Net Tls) (k : ℕ) (go : Going F Headers Net)
        : Type 0 where
      pub site : Site snap k go
      pub entered : Entered fl ip http f snap go.admitted
      pub along : Along (suc go.left) go.attempt go

    abbrev pub StageOk : RuntimeConfig F Net Tls → Stage F Headers Net → Type 0
    StageOk snap arrived = Unit
    StageOk snap (picking k go) = IsGoing snap k go
    StageOk snap (counted n k go) = IsGoing snap (suc k) go
    StageOk snap (waiting i t b go) = IsGoing snap 0 go
    StageOk snap (Traffic.refused e) = Unit
    StageOk snap (ended o go) =
        (o ≢ crash) × Entered fl ip http f snap go.admitted × Finished snap.compression o go

    IsGoing-Kept :
        (a b : RuntimeConfig F Net Tls) (k : ℕ) (go : Going F Headers Net)
        → Kept a b
        → IsGoing a k go
        → IsGoing b k go
    IsGoing-Kept a b k go s h =
        let (u, e, l) = h.site in
        let (v, d, q) = s.upstreams go.admitted.route.upstream u e in
        record {
          site = (v, d, rw q.schedule l);
          entered = Entered-Kept fl ip http f a b go.admitted s h.entered;
          along = h.along;
        }

    pub StageOk-Kept :
        (a b : RuntimeConfig F Net Tls) (st : Stage F Headers Net)
        → Kept a b
        → StageOk a st
        → StageOk b st
    StageOk-Kept a b arrived s h = tt
    StageOk-Kept a b (picking k go) s h = IsGoing-Kept a b k go s h
    StageOk-Kept a b (counted n k go) s h = IsGoing-Kept a b (suc k) go s h
    StageOk-Kept a b (waiting i t y go) s h = IsGoing-Kept a b 0 go s h
    StageOk-Kept a b (Traffic.refused e) s h = tt
    StageOk-Kept a b (ended o go) s (n, e, d) =
        (n, Entered-Kept fl ip http f a b go.admitted s e, rw s.compression d)

    pub begin-StageOk :
        (snap : RuntimeConfig F Net Tls) (left attempt : ℕ) (go : Going F Headers Net)
        (u : UpstreamRuntime)
        → table_get go.admitted.route.upstream snap.upstreams ≡ some u
        → Entered fl ip http f snap go.admitted
        → Along left attempt go
        → StageOk snap (begin fl ip http f left attempt go u)
    begin-StageOk snap zero attempt go u e n h =
        (λ q. ground arith, n, Along-Finished snap.compression zero attempt go go.last_err h)
    begin-StageOk snap (suc left) attempt go u e n h = record {
      site = (u, e, omega arith);
      entered = n;
      along = record { total = h.total; continues = h.continues; quiet = h.quiet };
    }

    pub entered-StageOk :
        (snap : RuntimeConfig F Net Tls) (limiter : RateLimiter fl ip.same)
        (d : GatewayError ⊎ Admitted F Net)
        → (admit fl ip http f.context.decode f.context.hash snap f.context.listener_name f.request
            limiter).0
          ≡ d
        → StageOk snap (Traffic.entered fl ip http f snap d)
    entered-StageOk snap limiter (inl e) h = tt
    entered-StageOk snap limiter (inr a) h =
        elim (Bool-cases
          (not f.upgrade && body_exceeds_limit http f.request.headers snap.max_body_bytes)) [
            | inl e ↦ rw e tt
            | inr e ↦
                let u =
                  upstream_of fl ip http f.context snap f.request a
                    (admit-Decision fl ip http f.context.decode f.context.hash snap
                      f.context.listener_name f.request limiter)
                    h in
                rw e (
                  begin-StageOk snap (attempts fl ip http f a) 0 (going fl ip http f snap a)
                    a.upstream u
                    (record {
                      found = snap;
                      limiter = limiter;
                      kept = Kept-refl snap;
                      admitted = h;
                      within = e;
                    })
                    (record { total = omega arith; continues = λ rest x r. r; quiet = λ q. refl }))
          ]
