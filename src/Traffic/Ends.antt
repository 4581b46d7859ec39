-- ===== src/Traffic/Ends.antt =====
-- A request ends after a bounded number of its own actions, whatever the others do between them.
use gatepup.Prelude.{ℕ, zero, suc, ◌≤◌, ◌≡◌, refl, some, get_elem?, arith}
use gatepup.Interfaces.{IpLib, HttpLib, Float}
use gatepup.Proxy.Admission.{admit}
use gatepup.Snapshot.{RuntimeConfig}
use gatepup.Traffic.{arrived, Stage, Call, Shared, act, stage_act}
use gatepup.Traffic.Heap.{KeptAll, Sounds}
use gatepup.Traffic.Flights.{StageOk, StageOk-Kept}
use gatepup.Traffic.Acts.Steps.{stage_act-IsAct}
use gatepup.Traffic.Budget.{
  budget, IsPlaced, IsOver, allowance, entered-allowance, stage_act-Spent, budget-Kept, over,
}

module _ {F Addr Net Tls : Type 0} (fl : Float F) (ip : IpLib Addr Net) where
  -- The others keep the routes and the shape of the upstreams, and each slot with a target.
  pub record KeepHeap (others : ℕ → Shared fl ip Tls → Shared fl ip Tls) : Type 0 where
    pub kept : (k : ℕ) (s : Shared fl ip Tls) → Sounds s.heap → KeptAll s.heap (others k s).heap
    pub sound : (k : ℕ) (s : Shared fl ip Tls) → Sounds s.heap → Sounds (others k s).heap

module _ {F Headers Addr Net Tls : Type 0} (fl : Float F) (ip : IpLib Addr Net)
    (http : HttpLib Headers) (f : Call Headers Addr) where
  -- The actions of one request, with those of `others` before each.
  unfoldable pub act_among :
      (ℕ → Shared fl ip Tls → Shared fl ip Tls)
      → ℕ
      → Shared fl ip Tls
      → Stage F Headers Net
      → Stage F Headers Net × Shared fl ip Tls
  act_among others zero s st = (st, s)
  act_among others (suc n) s st =
      let r = act fl ip http f (others n s) st in act_among others n r.1 r.0

  -- In the heap, sound and placed, with at most `n` actions left.
  record IsReady (n : ℕ) (s : Shared fl ip Tls) (st : Stage F Headers Net) : Type 0 where
    snapshot : RuntimeConfig F Net Tls
    loaded : get_elem? s.heap f.snapshot ≡ some snapshot
    sound : Sounds s.heap
    stage : StageOk fl ip http f snapshot st
    placed : IsPlaced snapshot st
    left : budget snapshot st ≤ n

  act-IsReady :
      (n : ℕ) (s : Shared fl ip Tls) (a : RuntimeConfig F Net Tls) (st : Stage F Headers Net)
      → Sounds s.heap
      → get_elem? s.heap f.snapshot ≡ some a
      → StageOk fl ip http f a st
      → let next = (stage_act fl ip http f s st (some a)).0 in
        IsPlaced a next × (budget a next ≤ n) → let r = act fl ip http f s st in IsReady n r.1 r.0
  unfolding act
  act-IsReady n s a st h e o (p, l) =
      let x = stage_act-IsAct fl ip http f s a e h st o in
      let next = (stage_act fl ip http f s st (some a)).0 in
      let (c, g, y) = x.stage in
      let (d, i, k) = x.heap f.snapshot a e in
      let same : d ≡ c = cc in
      let (q, m) = budget-Kept a c next (rw same at k) p in
      rw e (record {
        snapshot = c;
        loaded = g;
        sound = x.sound;
        stage = y;
        placed = q;
        left = omega arith;
      })

  module _ (others : ℕ → Shared fl ip Tls → Shared fl ip Tls) (keep : KeepHeap fl ip others) where
    act_among-IsOver :
        (n : ℕ) (s : Shared fl ip Tls) (st : Stage F Headers Net)
        → IsReady n s st
        → IsOver (act_among others n s st).0
    unfolding act_among
    act_among-IsOver zero s st h = over h.snapshot st h.placed h.left
    act_among-IsOver (suc n) s st h =
        let (b, d, k) = keep.kept n s h.sound f.snapshot h.snapshot h.loaded in
        let (p, l) = budget-Kept h.snapshot b st k h.placed in
        let (q, m) = stage_act-Spent fl ip http f (others n s) b st p in
        let r = act fl ip http f (others n s) st in
        let left = h.left in
        act_among-IsOver n r.1 r.0 (
          act-IsReady n (others n s) b st (keep.sound n s h.sound) d
            (StageOk-Kept fl ip http f h.snapshot b st k h.stage) (q, omega arith))

    -- A request that holds a snapshot of a sound heap, when the others may do anything before each of
    -- its actions that keeps the routes and the shapes of the upstreams: once its first action has
    -- decided on its admission, it ends, with an outcome, within attempts × (2 × slots + 2) further
    -- actions, for its attempts and the slots of its upstream's schedule.
    pub request_ends :
        (n : ℕ) (s : Shared fl ip Tls) (a : RuntimeConfig F Net Tls)
        → Sounds s.heap
        → get_elem? s.heap f.snapshot ≡ some a
        → allowance fl ip http f
            (admit fl ip http f.context.decode f.context.hash a f.context.listener_name f.request
              s.limiter).0
          ≤ n
        → let r = act fl ip http f s arrived in IsOver (act_among others n r.1 r.0).0
    request_ends n s a h e l =
        let (p, m) = entered-allowance fl ip http f a s.limiter _ refl in
        let r = act fl ip http f s arrived in
        act_among-IsOver n r.1 r.0 (act-IsReady n s a arrived h e tt (p, omega arith))
