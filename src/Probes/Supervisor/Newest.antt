-- ===== src/Probes/Supervisor/Newest.antt =====
-- What the supervisor knows of its generations of tasks.
use gatepup.Prelude.{
  ℕ, zero, suc, ◌<◌, ◌≡◌, inl, inr, refl, ap, ◌∙◌, Bool, true, false, not, some, List, [], ◌∷◌,
  ◌++◌, length, replicate, set, get_elem?, keep, unwrap_or, All, Option-cases, arith,
}
use gatepup.Probes.{
  Task, Generations, no_generation, send_stop, spawn, respawn, stop_all, goes_on, running,
}
use gatepup.Probes.Supervisor.{Upstreams}

-- The newest generation runs for the upstreams `ups`, and all before it are told to stop.
pub record IsCurrent (ups : Upstreams) (g : Generations) : Type 0 where
  pub last : ℕ
  pub old : List Task
  pub sender : g.gen_stop ≡ some last
  pub told : g.flags ≡ replicate last true ++ false ∷ []
  pub spawned_last : g.tasks ≡ old ++ spawn last ups
  pub older : All (λ t. Task.stop t < last) old

set_last : (n : ℕ) → set (replicate n true ++ false ∷ []) n true ≡ replicate (suc n) true
set_last zero = refl
set_last (suc n) = ap (◌∷◌ true) (set_last n)

length-replicate : (n : ℕ) → length (replicate n true) ≡ n
length-replicate zero = refl
length-replicate (suc n) = ap suc (length-replicate n)

pub spawn_stop : (k : ℕ) (ups : Upstreams) → All (λ t. Task.stop t ≡ k) (spawn k ups)
spawn_stop k [] = tt
spawn_stop k (e ∷ ups) = elim (Option-cases e.1.health) [
  | inl h ↦ rw h (spawn_stop k ups)
  | inr h ↦ rw h.1 (refl, spawn_stop k ups)
]

at_last : (n : ℕ) → get_elem? (replicate n true ++ false ∷ []) n ≡ some false
at_last zero = refl
at_last (suc n) = at_last n

below_last : (n i : ℕ) → i < n → get_elem? (replicate n true ++ false ∷ []) i ≡ some true
below_last zero i h = absurd (omega arith)
below_last (suc n) zero h = refl
below_last (suc n) (suc i) h = below_last n i (omega arith)

module _ (p : Task → Bool) where
  keep-append_none :
      (old new : List Task) → All (λ t. p t ≡ false) old → keep p (old ++ new) ≡ keep p new
  keep-append_none [] new h = refl
  keep-append_none (t ∷ old) new h = rw (h.0) (keep-append_none old new h.1)

  keep_all : (ts : List Task) → All (λ t. p t ≡ true) ts → keep p ts ≡ ts
  keep_all [] h = refl
  keep_all (t ∷ ts) h = rw (h.0) (ap (◌∷◌ t) (keep_all ts h.1))

  keep_none : (ts : List Task) → All (λ t. p t ≡ false) ts → keep p ts ≡ []
  keep_none [] h = refl
  keep_none (t ∷ ts) h = rw (h.0) (keep_none ts h.1)

All-map : (P Q : Task → Type 0) (ts : List Task) → ((t : Task) → P t → Q t) → All P ts → All Q ts
All-map P Q [] f h = tt
All-map P Q (t ∷ ts) f h = (f t h.0, All-map P Q ts f h.1)

All-append : (P : Task → Type 0) (ts us : List Task) → All P ts → All P us → All P (ts ++ us)
All-append P [] us h k = k
All-append P (t ∷ ts) us h k = (h.0, All-append P ts us h.1 k)

-- The tasks that are not told to stop are those of the newest generation.
pub running_current :
    (ups : Upstreams) (g : Generations) (c : IsCurrent ups g) → running g ≡ spawn c.last ups
unfolding running
running_current ups g c =
    let f = replicate c.last true ++ false ∷ [] in
    let stopped : All (λ t. goes_on f t ≡ false) c.old =
      All-map _ _ c.old (λ t h. ap (λ o. not (unwrap_or true o)) (below_last c.last t.stop h))
        c.older in
    let live : All (λ t. goes_on f t ≡ true) (spawn c.last ups) =
      All-map _ _ (spawn c.last ups)
        (λ t h. ap (λ o. not (unwrap_or true o)) (ap (get_elem? f) h ∙ at_last c.last))
        (spawn_stop c.last ups) in
    rw (c.told, c.spawned_last)
      (keep-append_none _ c.old (spawn c.last ups) stopped ∙ keep_all _ (spawn c.last ups) live)

-- All channels have the value true.
abbrev pub AllTold : Generations → Type 0
AllTold g =
    (n : ℕ) × (old : List Task) × (g.flags ≡ replicate n true)
    × (g.tasks ≡ old)
    × All (λ t. Task.stop t < n) old

get_elem?-told : (n i : ℕ) → i < n → get_elem? (replicate n true) i ≡ some true
get_elem?-told zero i h = absurd (omega arith)
get_elem?-told (suc n) zero h = refl
get_elem?-told (suc n) (suc i) h = get_elem?-told n i (omega arith)

pub running_told : (g : Generations) → AllTold g → running g ≡ []
unfolding running
running_told g (n, old, f, e, h) =
    rw (f, e)
      (keep_none _ old
        (All-map _ _ old (λ t k. ap (λ o. not (unwrap_or true o)) (get_elem?-told n t.stop k)) h))

-- Stopping the newest generation leaves none.
told_after :
    (ups : Upstreams) (g : Generations) (flags : List Bool)
    → (c : IsCurrent ups g) → send_stop g.gen_stop g.flags ≡ replicate (suc c.last) true
told_after ups g flags c = rw (c.sender, c.told) (set_last c.last)

older_too :
    (ups : Upstreams) (g : Generations) (c : IsCurrent ups g)
    → All (λ t. Task.stop t < suc c.last) (c.old ++ spawn c.last ups)
older_too ups g c =
    All-append _ c.old (spawn c.last ups) (All-map _ _ c.old (λ t h. omega arith) c.older)
      (All-map _ _ (spawn c.last ups) (λ t h. omega arith) (spawn_stop c.last ups))

pub stop_all-AllTold : (ups : Upstreams) (g : Generations) → IsCurrent ups g → AllTold (stop_all g)
unfolding stop_all
stop_all-AllTold ups g c = (
  suc c.last,
  c.old ++ spawn c.last ups,
  told_after ups g [] c,
  c.spawned_last,
  older_too ups g c,
)

-- From no generation, or from a current one.
pub data IsReady (g : Generations) : Type 0 where
  first : g ≡ no_generation → IsReady g
  later : (ups : Upstreams) → IsCurrent ups g → IsReady g

pub respawn-IsCurrent :
    (ups : Upstreams) (g : Generations) → IsReady g → IsCurrent ups (respawn ups g)
unfolding respawn
respawn-IsCurrent ups g (first e) =
    rw e
      (record { last = 0; old = []; sender = refl; told = refl; spawned_last = refl; older = tt })
respawn-IsCurrent ups g (later before c) =
    let n = suc c.last in
    let f = told_after before g [] c in
    let l : length (send_stop g.gen_stop g.flags) ≡ n = ap length f ∙ length-replicate n in
    record {
      last = n;
      old = c.old ++ spawn c.last before;
      sender = ap some l;
      told = ap (λ m. m ++ false ∷ []) f;
      spawned_last = rw (c.spawned_last, l) refl;
      older = older_too before g c;
    }
