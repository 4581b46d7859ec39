-- ===== src/Upstream/Cycle.antt =====
-- The slots that a run of rounds visits: a full round visits the schedule itself, in some order.
use native.Mathlib.Nat.{add-mod_right, mod-eq_of_lt}
use gatepup.Prelude.{
  ℕ, zero, suc, ◌+◌, ◌%◌, ◌≡◌, refl, sym, ap, ◌∙◌, List, [], ◌∷◌, ◌++◌, append_assoc, arith, length,
  length-append, get_or, count,
}

module _ (schedule : List ℕ) where
  abbrev pub slot : ℕ → ℕ
  slot n = get_or schedule (n % length schedule) 0

  -- The targets of `k` slots from position `n`.
  abbrev pub visited : ℕ → ℕ → List ℕ
  visited zero n = []
  visited (suc k) n = slot n ∷ visited k (n + 1)

  count-visited_last :
      (i k n : ℕ)
      → count i (visited (suc k) n) ≡ count i (visited k n) + count i (slot (n + k) ∷ [])
  count-visited_last i zero n = let e : n + 0 ≡ n = omega arith in rw e (omega arith)
  count-visited_last i (suc k) n =
      let e : n + suc k ≡ (n + 1) + k = omega arith in
      rw e (omega (arith, count-visited_last i k (n + 1)))

  slot_round : (n : ℕ) → slot (n + length schedule) ≡ slot n
  slot_round n = ap (λ m. get_or schedule m 0) (add-mod_right n (length schedule))

  count-visited_shift :
      (i n : ℕ)
      → count i (visited (length schedule) (n + 1)) ≡ count i (visited (length schedule) n)
  count-visited_shift i n =
      omega
        (arith, count-visited_last i (length schedule) n, ap (λ s. count i (s ∷ [])) (slot_round n))

  get_or-append :
      (done : List ℕ) (j : ℕ) (rest : List ℕ) → get_or (done ++ j ∷ rest) (length done) 0 ≡ j
  get_or-append [] j rest = refl
  get_or-append (d ∷ done) j rest = get_or-append done j rest

  visited_rest :
      (done rest : List ℕ) → done ++ rest ≡ schedule → visited (length rest) (length done) ≡ rest
  visited_rest done [] e = refl
  visited_rest done (j ∷ rest) e =
      let size : length schedule ≡ length done + suc (length rest) =
        ap length (sym e) ∙ length-append done (j ∷ rest) in
      let inside : length done % length schedule ≡ length done = mod-eq_of_lt (omega arith) in
      let next : length (done ++ j ∷ []) ≡ length done + 1 = length-append done (j ∷ []) in
      let this : slot (length done) ≡ j =
        ap (λ m. get_or schedule m 0) inside
        ∙ ap (λ s. get_or s (length done) 0) (sym e)
        ∙ get_or-append done j rest in
      let others : visited (length rest) (length done + 1) ≡ rest =
        rw next at (visited_rest (done ++ j ∷ []) rest (append_assoc done (j ∷ []) rest ∙ e)) in
      cc (this, others)

  -- A full round from any position visits each target as often as the schedule names it.
  pub count-visited : (i n : ℕ) → count i (visited (length schedule) n) ≡ count i schedule
  count-visited i zero = ap (count i) (visited_rest [] schedule refl)
  count-visited i (suc n) =
      let e : suc n ≡ n + 1 = omega arith in rw e (count-visited_shift i n ∙ count-visited i n)
