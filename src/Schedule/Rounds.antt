-- ===== src/Schedule/Rounds.antt =====
-- What the rounds of `build_schedule` push.
use gatepup.Prelude.{
  ℕ, zero, suc, ◌+◌, ◌%◌, ◌^◌, ◌≤◌, ◌<◌, ◌≡◌, refl, List, [], ◌∷◌, ◌++◌, arith, ltb, ltb→lt, length,
  length-append, Bool-cases, inl, inr, false, count, count-append, get_or,
}
use gatepup.Schedule.{sum, pass, rounds}

-- A pass pushes no index below its own start.
pass-count_below : (j idx : ℕ) (rems : List ℕ) → j < idx → count j (pass idx rems).0 ≡ 0
unfolding pass
pass-count_below j idx [] h = refl
pass-count_below j idx (r ∷ rems) h = ground (arith, pass-count_below j (idx + 1) rems)

-- It takes one from each positive remainder, and pushes the index of each once.
pass-count :
    (idx k : ℕ) (rems : List ℕ)
    → count (idx + k) (pass idx rems).0 + get_or (pass idx rems).1 k 0 ≡ get_or rems k 0
unfolding pass
pass-count idx k [] = omega arith
pass-count idx zero (r ∷ rems) =
    let e : idx + 0 ≡ idx = omega arith in
    rw e (ground (arith, pass-count_below idx (idx + 1) rems))
pass-count idx (suc k) (r ∷ rems) =
    let e : idx + suc k ≡ (idx + 1) + k = omega arith in
    rw e (ground (arith, pass-count (idx + 1) k rems))

pass-count_start :
    (k : ℕ) (rems : List ℕ) → count k (pass 0 rems).0 + get_or (pass 0 rems).1 k 0 ≡ get_or rems k 0
pass-count_start k rems = let e : 0 + k ≡ k = omega arith in rw e at (pass-count 0 k rems)

pass-sum : (idx : ℕ) (rems : List ℕ) → length (pass idx rems).0 + sum (pass idx rems).1 ≡ sum rems
unfolding pass
pass-sum idx [] = omega arith
pass-sum idx (r ∷ rems) = ground (arith, pass-sum (idx + 1) rems)

pass-progress : (idx : ℕ) (rems : List ℕ) → 0 < sum rems → 0 < length (pass idx rems).0
unfolding pass
pass-progress idx [] h = absurd (omega arith)
pass-progress idx (r ∷ rems) h = ground (arith, pass-progress (idx + 1) rems)

get_or-le-sum : (rems : List ℕ) (k : ℕ) → get_or rems k 0 ≤ sum rems
get_or-le-sum [] k = omega arith
get_or-le-sum (r ∷ rems) zero = omega arith
get_or-le-sum (r ∷ rems) (suc k) = omega (arith, get_or-le-sum rems k)

-- The loop ends with its total reached, and has pushed each index as often as it remained.
not_ltb : (a b : ℕ) → ltb a b ≡ false → b ≤ a
not_ltb a b h = ground arith

pub rounds-count :
    (fuel total : ℕ) (schedule remaining : List ℕ) (k : ℕ)
    → length schedule + sum remaining ≡ total
    → total < 2 ^ 32
    → sum remaining < fuel
    → count k (rounds fuel total schedule remaining) ≡ count k schedule + get_or remaining k 0
unfolding rounds
rounds-count zero total schedule remaining k e t f = absurd (omega arith)
rounds-count (suc fuel) total schedule remaining k e t f =
    let pushed = (pass 0 remaining).0 in
    let left = (pass 0 remaining).1 in
    let balance = pass-sum 0 remaining in
    let longer = length-append schedule pushed in
    elim (Bool-cases (ltb (length schedule % 2 ^ 32) total)) [
      | inl more ↦
          let open_slots : 0 < sum remaining = omega (arith, ltb→lt _ _ more) in
          let grows = pass-progress 0 remaining open_slots in
          rw more (
            omega (
              arith,
              rounds-count fuel total (schedule ++ pushed) left k (omega arith) t (omega arith),
              count-append k schedule pushed,
              pass-count_start k remaining,
            ))
      | inr done ↦
          let filled = not_ltb (length schedule % 2 ^ 32) total done in
          rw done (omega (arith, get_or-le-sum remaining k))
    ]

-- The loop pushes exactly its total.
pub rounds-length :
    (fuel total : ℕ) (schedule remaining : List ℕ)
    → length schedule + sum remaining ≡ total
    → total < 2 ^ 32
    → sum remaining < fuel
    → length (rounds fuel total schedule remaining) ≡ total
unfolding rounds
rounds-length zero total schedule remaining e t f = absurd (omega arith)
rounds-length (suc fuel) total schedule remaining e t f =
    let pushed = (pass 0 remaining).0 in
    let left = (pass 0 remaining).1 in
    let balance = pass-sum 0 remaining in
    let longer = length-append schedule pushed in
    elim (Bool-cases (ltb (length schedule % 2 ^ 32) total)) [
      | inl more ↦
          let open_slots : 0 < sum remaining = omega (arith, ltb→lt _ _ more) in
          let grows = pass-progress 0 remaining open_slots in
          rw more (rounds-length fuel total (schedule ++ pushed) left (omega arith) t (omega arith))
      | inr done ↦
          let filled = not_ltb (length schedule % 2 ^ 32) total done in rw done (omega arith)
    ]
