-- ===== src/Server/Bind.antt =====
-- Which listeners run when the server has started, or has failed to.
use gatepup.Prelude.{
  ◌≡◌, inl, inr, refl, ap, true, false, Option, none, some, List, [], ◌∷◌, ◌++◌, map, Bool-cases,
  Text,
}
use gatepup.Snapshot.{bind_error, upstream_tls, ListenerRuntime, RuntimeConfig}
use gatepup.Server.{
  ConnLimits, Sockets, Started, conn_limits, loop_of, bind_listeners, serve_shared,
}

module _ {F Net Tls : Type 0} (can_bind : Sockets) where
  -- Each listener can be bound once those before it are.
  abbrev pub AllBind : List Text → List (ListenerRuntime F Net Tls) → Type 0
  AllBind bound [] = Unit {0}
  AllBind bound (l ∷ ls) = (can_bind bound l.bind ≡ true) × AllBind (l.bind ∷ bound) ls

  abbrev pub bound_after : List Text → List (ListenerRuntime F Net Tls) → List Text
  bound_after bound [] = bound
  bound_after bound (l ∷ ls) = bound_after (l.bind ∷ bound) ls

  -- Every listener runs, or those before the first whose address cannot be bound beside theirs.
  pub data Binding (bound : List Text) (limits : ConnLimits) (ls : List (ListenerRuntime F Net Tls))
      (s : Started Tls) : Type 0 where
    all_run :
        AllBind bound ls
        → s ≡ record { loops = map (loop_of limits) ls; supervisor = true; error = none }
        → Binding bound limits ls s
    stopped_at :
        (before : List (ListenerRuntime F Net Tls)) (l : ListenerRuntime F Net Tls)
        (after : List (ListenerRuntime F Net Tls))
        → ls ≡ before ++ l ∷ after
        → AllBind bound before
        → can_bind (bound_after bound before) l.bind ≡ false
        → s ≡ record {
          loops = map (loop_of limits) before;
          supervisor = false;
          error = some (bind_error l.name l.bind);
        }
        → Binding bound limits ls s

  bind_listeners-Binding :
      (bound : List Text) (limits : ConnLimits) (ls : List (ListenerRuntime F Net Tls))
      → Binding bound limits ls (bind_listeners can_bind bound limits ls)
  unfolding bind_listeners
  bind_listeners-Binding bound limits [] = all_run tt refl
  bind_listeners-Binding bound limits (l ∷ ls) = elim (Bool-cases (can_bind bound l.bind)) [
    | inr e ↦ rw e (stopped_at [] l ls refl tt e refl)
    | inl e ↦ elim (bind_listeners-Binding (l.bind ∷ bound) limits ls) [
      | all_run a s ↦ rw (e, s) (all_run (e, a) refl)
      | stopped_at before m after q a f s ↦
          rw (e, s) (stopped_at (l ∷ before) m after (ap (◌∷◌ l) q) (e, a) f refl)
    ]
  ]

  -- What the start of the server comes to, by what building its client gave.
  pub data Serves (client : Option Text) (snapshot : RuntimeConfig F Net Tls) (s : Started Tls)
      : Type 0 where
    no_client :
        (message : Text)
        → client ≡ some message
        → s ≡ record { loops = []; supervisor = false; error = some (upstream_tls message) }
        → Serves client snapshot s
    bound :
        client ≡ none
        → Binding [] (conn_limits snapshot) snapshot.listeners s
        → Serves client snapshot s

  -- The server returns the error of the client for the upstreams, with nothing started, if that cannot
  -- be built. Otherwise it starts every listener of the snapshot, each with the limits of the snapshot,
  -- and the supervisor of the probes; or it returns an error that names the first listener whose
  -- address cannot be bound beside those of the listeners before it, when exactly these run.
  pub serve_shared-Serves :
      (client : Option Text) (snapshot : RuntimeConfig F Net Tls)
      → Serves client snapshot (serve_shared can_bind client snapshot)
  unfolding serve_shared
  serve_shared-Serves (some message) snapshot = no_client message refl refl
  serve_shared-Serves none snapshot =
      bound refl (bind_listeners-Binding [] (conn_limits snapshot) snapshot.listeners)
