-- ===== src/Traffic/Alone.antt =====
-- The actions of one request with nothing between them.
pub mod Picks
pub mod Loop
pub mod Whole
pub mod Forward
pub mod Written
pub mod Upgrade
pub mod Handle
use mathlib.Core.Path.{subst}
use gatepup.Prelude.{
  ℕ, zero, suc, ◌+◌, ◌%◌, ◌≡◌, ◌≢◌, ◌⊎◌, inl, inr, if◌then◌else◌, refl, sym, ap, ◌∙◌, true, false,
  Bool, Bool-cases, Option, none, some, List, ◌==◌, length, get_elem?, set, table_get, table_insert,
  table_insert_twice, table_insert_same, table_get-insert_self, Text, arith,
}
use gatepup.Interfaces.{IpLib, HttpLib, Float}
use gatepup.Health.{is_healthy}
use gatepup.Upstream.{
  UpstreamRuntime, TargetRuntime, Picked, target, no_target, panic, pick_loop, pick_target,
  target_at, advance,
}
use gatepup.Snapshot.{RuntimeConfig}
use gatepup.Proxy.Errors.{no_healthy_upstream}
use gatepup.Proxy.Body.{next}
use gatepup.Proxy.Attempts.{
  Answer, refused, crashed, State, Next, done, again, send_to, on_pick, once_through, go_on,
  attempts_loop,
}
use gatepup.Proxy.Forward.{crash, err, network_of, finish}
use gatepup.Traffic.{
  Going, Stage, arrived, picking, counted, waiting, ended, Call, Shared, write, act, act_on,
  stage_act, loaded, begin, attempts, state_of, going_of, settled_on, accept_encoding,
}
use gatepup.Traffic.Heap.{with_upstream, get_elem?-set_same, set_twice, set_same}
use gatepup.Traffic.Ends.{act_among}

module _ {F Headers Addr Net Tls : Type 0} (fl : Float F) (ip : IpLib Addr Net)
    (f : Call Headers Addr) (s : Shared fl ip Tls) (snap : RuntimeConfig F Net Tls) where
  -- The shared state, where only one upstream and the counter of retries have changed.
  abbrev pub at : Text → UpstreamRuntime → ℕ → Shared fl ip Tls
  at name u retries = record s {
    heap = set s.heap f.snapshot (with_upstream snap name u);
    metrics = record s.metrics { upstream_retries = retries };
  }

module _ {F Headers Addr Net Tls : Type 0} (fl : Float F) (ip : IpLib Addr Net)
    (http : HttpLib Headers) (f : Call Headers Addr) where
  -- With nobody else, the actions lead from one pair to the other.
  abbrev pub Leads :
      Stage F Headers Net × Shared fl ip Tls → Stage F Headers Net × Shared fl ip Tls → Type 0
  Leads x y = (n : ℕ) × (act_among fl ip http f (λ k s. s) n x.1 x.0 ≡ y)

  pub stays : (x : Stage F Headers Net × Shared fl ip Tls) → Leads x x
  unfolding act_among
  stays x = (0, refl)

  pub Leads-from : {x y z : Stage F Headers Net × Shared fl ip Tls} → x ≡ y → Leads y z → Leads x z
  Leads-from {z = z} e h = subst (λ x. Leads x z) (sym e) h

  pub acts_first :
      (x y z : Stage F Headers Net × Shared fl ip Tls)
      → act fl ip http f x.1 x.0 ≡ y
      → Leads y z
      → Leads x z
  unfolding act_among
  acts_first x y z e (n, h) = (suc n, ap (λ q. act_among fl ip http f (λ k s. s) n q.1 q.0) e ∙ h)

  module _ (s : Shared fl ip Tls) (snap : RuntimeConfig F Net Tls)
      (here : get_elem? s.heap f.snapshot ≡ some snap) where
    pub at_start :
        (name : Text) (u : UpstreamRuntime)
        → table_get name snap.upstreams ≡ some u
        → at fl ip f s snap name u s.metrics.upstream_retries ≡ s
    at_start name u e =
        let same : with_upstream snap name u ≡ snap =
          ap (λ t. record snap { upstreams = t }) (table_insert_same name u snap.upstreams e) in
        ap (λ x. record s { heap = x })
          (ap (λ x. set s.heap f.snapshot x) same ∙ set_same s.heap f.snapshot snap here)

    pub write-at :
        (name : Text) (u v : UpstreamRuntime) (r q : ℕ)
        → write fl ip f.snapshot name v (record (at fl ip f s snap name u r) {
          metrics = record s.metrics { upstream_retries = q };
        })
          ≡ at fl ip f s snap name v q
    write-at name u v r q =
        let x = with_upstream snap name u in
        let e = get_elem?-set_same s.heap f.snapshot x here in
        let t = table_insert_twice name u v snap.upstreams in
        rw e (
          ap (λ h. record (at fl ip f s snap name v q) { heap = h })
            (set_twice s.heap f.snapshot x (with_upstream x name v)
              ∙ ap (λ y. set s.heap f.snapshot (record snap { upstreams = y })) t))

    pub acts_at :
        (go : Going F Headers Net) (u : UpstreamRuntime) (r : ℕ) (st : Stage F Headers Net)
        → let name = go.admitted.route.upstream in
          let x = with_upstream snap name u in
          stage_act fl ip http f (at fl ip f s snap name u r) st (some x)
            ≡ act_on fl ip http f x (at fl ip f s snap name u r) st (table_get name x.upstreams)
          → act fl ip http f (at fl ip f s snap name u r) st
            ≡ act_on fl ip http f x (at fl ip f s snap name u r) st (some u)
    unfolding act
    acts_at go u r st e =
        let name = go.admitted.route.upstream in
        let x = with_upstream snap name u in
        ap (stage_act fl ip http f (at fl ip f s snap name u r) st)
          (get_elem?-set_same s.heap f.snapshot x here)
        ∙ e
        ∙ ap (act_on fl ip http f x (at fl ip f s snap name u r) st)
            (table_get-insert_self name u snap.upstreams)
