-- ===== src/Proxy/RequestId.antt =====
-- crates/gatepup-proxy/src/proxy.rs: `ensure_request_id` over the requests of a process, with the counter
-- of `generate_request_id`. The clock gives a u128 of nanoseconds.
use native.Mathlib.Nat.{pow-suc}
use gatepup.Prelude.{
  ℕ, zero, suc, ◌+◌, ◌-◌, ◌*◌, ◌/◌, ◌%◌, ◌^◌, ◌≤◌, ◌<◌, ◌≡◌, ◌≢◌, refl, ap, sym, ◌∙◌, Bool, true,
  false, not, ◌&&◌, Option, none, some, List, [], ◌∷◌, ◌++◌, append_assoc, ltb, leb, length,
  get_elem?, is_empty, Bool-cases, inl, inr, Text, codes, if◌then◌else◌, arith,
}
use gatepup.Interfaces.{IpLib, HttpLib, Float}
use gatepup.Proxy.Forwarding.{get_str}
use gatepup.Proxy.Handle.{Dialer, ensure_request_id}

abbrev pub hex_digit : ℕ → ℕ
hex_digit d = if ltb d 10 then 48 + d else 87 + d

-- `{:x}` of a number with at most `fuel` digits, filled up with zeros to `width`.
unfoldable pub hex : ℕ → ℕ → ℕ → Text
hex zero width n = []
hex (suc fuel) width n =
    let high = hex fuel (width - 1) (n / 16) in
    if ltb n 16 && leb width 1 then hex_digit n ∷ [] else high ++ hex_digit (n % 16) ∷ []

-- The text, and the counter behind it.
unfoldable pub generate_request_id : ℕ → ℕ → Text × ℕ
generate_request_id seq nanos = (hex 32 1 nanos ++ hex 16 8 seq, (seq + 1) % 2 ^ 64)

-- A text of exactly `w` digits.
abbrev fixed : ℕ → ℕ → Text
fixed zero n = []
fixed (suc w) n = fixed w (n / 16) ++ hex_digit (n % 16) ∷ []

hex-fixed : (fuel w n : ℕ) → 0 < w → w ≤ fuel → n < 16 ^ w → hex fuel w n ≡ fixed w n
unfolding hex
hex-fixed zero w n p l h = absurd (omega arith)
hex-fixed (suc fuel) zero n p l h = absurd (omega arith)
hex-fixed (suc fuel) (suc zero) n p l h =
    let a : ltb n 16 ≡ true = ground arith in let e : n % 16 ≡ n = omega arith in rw (a, e) refl
hex-fixed (suc fuel) (suc (suc w)) n p l h =
    let c : (ltb n 16 && leb (suc (suc w)) 1) ≡ false = ground arith in
    let m : suc (suc w) - 1 ≡ suc w = omega arith in
    let e : 16 ^ suc (suc w) ≡ 16 ^ suc w * 16 = pow-suc 16 (suc w) in
    let less : n / 16 < 16 ^ suc w = omega arith in
    rw (c, m)
      (ap (λ t. t ++ hex_digit (n % 16) ∷ [])
        (hex-fixed fuel (suc w) (n / 16) (omega arith) (omega arith) less))

hex_digit_inj : (a b : ℕ) → a < 16 → b < 16 → hex_digit a ≡ hex_digit b → a ≡ b
hex_digit_inj a b p q h = elim (Bool-cases (ltb a 10)) [
  | inl x ↦ elim (Bool-cases (ltb b 10)) [
    | inl y ↦ (let k : 48 + a ≡ 48 + b = rw (x, y) at h in omega arith)
    | inr y ↦ (let k : 48 + a ≡ 87 + b = rw (x, y) at h in absurd (ground arith))
  ]
  | inr x ↦ elim (Bool-cases (ltb b 10)) [
    | inl y ↦ (let k : 87 + a ≡ 48 + b = rw (x, y) at h in absurd (ground arith))
    | inr y ↦ (let k : 87 + a ≡ 87 + b = rw (x, y) at h in omega arith)
  ]
]

module _ {ℓ} {A : Type ℓ} where
  append_one-ne-nil : (xs : List A) (a : A) → [] ≢ xs ++ a ∷ []
  append_one-ne-nil [] a h = ground arith
  append_one-ne-nil (x ∷ xs) a h = ground arith

  snoc_inj : (xs ys : List A) (a b : A) → xs ++ a ∷ [] ≡ ys ++ b ∷ [] → (xs ≡ ys) × (a ≡ b)
  snoc_inj [] [] a b h = (refl, cc)
  snoc_inj [] (y ∷ ys) a b h = let t : [] ≡ ys ++ b ∷ [] = cc in absurd (append_one-ne-nil ys b t)
  snoc_inj (x ∷ xs) [] a b h = let t : [] ≡ xs ++ a ∷ [] = cc in absurd (append_one-ne-nil xs a t)
  snoc_inj (x ∷ xs) (y ∷ ys) a b h =
      let t : xs ++ a ∷ [] ≡ ys ++ b ∷ [] = cc in
      let (p, q) = snoc_inj xs ys a b t in let e : x ≡ y = cc in (λ j. e j ∷ p j, q)

fixed_inj :
    (w i j : ℕ) (xs ys : Text) → i < 16 ^ w → j < 16 ^ w → xs ++ fixed w i ≡ ys ++ fixed w j → i ≡ j
fixed_inj zero i j xs ys p q h = omega arith
fixed_inj (suc w) i j xs ys p q h =
    let e : 16 ^ suc w ≡ 16 ^ w * 16 = pow-suc 16 w in
    let d : Text = hex_digit (i % 16) ∷ [] in
    let c : Text = hex_digit (j % 16) ∷ [] in
    let (k, l) =
      snoc_inj (xs ++ fixed w (i / 16)) (ys ++ fixed w (j / 16)) _ _
        (append_assoc xs (fixed w (i / 16)) d ∙ h ∙ sym (append_assoc ys (fixed w (j / 16)) c)) in
    let high = fixed_inj w (i / 16) (j / 16) xs ys (omega arith) (omega arith) k in
    let low = hex_digit_inj (i % 16) (j % 16) (omega arith) (omega arith) l in omega arith

hex_inj :
    (i j m n : ℕ)
    → i < 2 ^ 32
    → j < 2 ^ 32
    → hex 32 1 m ++ hex 16 8 i ≡ hex 32 1 n ++ hex 16 8 j
    → i ≡ j
hex_inj i j m n p q h = fixed_inj 8 i j (hex 32 1 m) (hex 32 1 n) p q (
    rw
      (
        hex-fixed 16 8 i (omega arith) (omega arith) p,
        hex-fixed 16 8 j (omega arith) (omega arith) q,
      )
      at h)

module _ {F Headers Addr Net : Type 0} (fl : Float F) (ip : IpLib Addr Net) (http : HttpLib Headers)
    (d : Dialer Headers) where
  -- The client sent an id that is no empty text.
  abbrev pub has_id : Headers → Bool
  has_id m = elim (get_str http (codes "x-request-id") m) [
    | none ↦ false
    | some t ↦ not (is_empty t)
  ]

  -- `ensure_request_id` on each request, with the time at which it comes, from a value of the counter.
  unfoldable pub ensure_all : ℕ → List (ℕ × Headers) → List Text
  ensure_all seq [] = []
  ensure_all seq (r ∷ rs) =
      let g = generate_request_id seq r.0 in
      ensure_request_id fl ip http d g.0 r.1 ∷ ensure_all (if has_id r.1 then seq else g.1) rs

  generated :
      (seq : ℕ) (r : ℕ × Headers)
      → has_id r.1 ≡ false
      → ensure_request_id fl ip http d (generate_request_id seq r.0).0 r.1
        ≡ (generate_request_id seq r.0).0
  unfolding ensure_request_id
  generated seq r h = given (get_str http (codes "x-request-id") r.1) refl
    where
      given :
          (o : Option Text)
          → get_str http (codes "x-request-id") r.1 ≡ o
          → ensure_request_id fl ip http d (generate_request_id seq r.0).0 r.1
            ≡ (generate_request_id seq r.0).0
      given none e = rw e refl
      given (some t) e =
          let none_sent : not (is_empty t) ≡ false = rw (e, has_id) at h in
          let empty : is_empty t ≡ true = ground arith in rw (e, empty) refl

  -- The counter behind the first request is at most one higher.
  counter :
      (seq : ℕ) (r : ℕ × Headers)
      → seq < 2 ^ 32
      → let k = if has_id r.1 then seq else (generate_request_id seq r.0).1 in
        (seq ≤ k) × (k ≤ seq + 1) × (has_id r.1 ≡ false → k ≡ seq + 1)
  unfolding generate_request_id
  counter seq r l = elim (Bool-cases (has_id r.1)) [
    | inl e ↦ rw e (omega arith, omega arith, λ q. absurd (ground arith))
    | inr e ↦ rw e (omega arith, omega arith, λ q. omega arith)
  ]

  -- The text of a request without an id has a number of its own.
  pub record HasNumber (seq count : ℕ) (r : ℕ × Headers) (b : Text) : Type 0 where
    pub number : ℕ
    pub text : b ≡ hex 32 1 r.0 ++ hex 16 8 number
    pub low : seq ≤ number
    pub high : number < seq + count

  numbered_first :
      (seq : ℕ) (x r : ℕ × Headers) (b : Text)
      → x ≡ r
      → has_id r.1 ≡ false
      → ensure_request_id fl ip http d (generate_request_id seq x.0).0 x.1 ≡ b
      → b ≡ hex 32 1 r.0 ++ hex 16 8 seq
  unfolding generate_request_id
  numbered_first seq x r b same n t =
      sym t ∙ generated seq x (rw same n) ∙ ap (λ y. (generate_request_id seq y.0).0) same

  numbered :
      (seq : ℕ) (rs : List (ℕ × Headers)) (j : ℕ) (r : ℕ × Headers) (b : Text)
      → seq + length rs ≤ 2 ^ 32
      → get_elem? rs j ≡ some r
      → has_id r.1 ≡ false
      → get_elem? (ensure_all seq rs) j ≡ some b
      → HasNumber seq (length rs) r b
  unfolding ensure_all generate_request_id
  numbered seq [] j r b l e n h = absurd (ground arith)
  numbered seq (x ∷ rs) zero r b l e n h =
      let same : x ≡ r = cc in
      let t : ensure_request_id fl ip http d (generate_request_id seq x.0).0 x.1 ≡ b = cc in
      record {
        number = seq;
        text = numbered_first seq x r b same n t;
        low = omega arith;
        high = omega arith;
      }
  numbered seq (x ∷ rs) (suc j) r b l e n h =
      let k = if has_id x.1 then seq else (generate_request_id seq x.0).1 in
      let (p, q, _) = counter seq x (omega arith) in
      let m = numbered k rs j r b (omega arith) e n h in
      let low = m.low in
      let high = m.high in
      record { number = m.number; text = m.text; low = omega arith; high = omega arith }

  -- The first 2^32 ids that a process makes up differ, whatever the clock says: two requests that
  -- came without an id get different ones.
  pub ensure_all_distinct :
      (seq : ℕ) (rs : List (ℕ × Headers)) (i j : ℕ) (p q : ℕ × Headers) (a b : Text)
      → seq + length rs ≤ 2 ^ 32
      → i < j
      → get_elem? rs i ≡ some p
      → get_elem? rs j ≡ some q
      → has_id p.1 ≡ false
      → has_id q.1 ≡ false
      → get_elem? (ensure_all seq rs) i ≡ some a
      → get_elem? (ensure_all seq rs) j ≡ some b
      → a ≢ b
  unfolding ensure_all
  ensure_all_distinct seq [] i j p q a b l o e f n m g h = absurd (ground arith)
  ensure_all_distinct seq (x ∷ rs) i zero p q a b l o e f n m g h = absurd (omega arith)
  ensure_all_distinct seq (x ∷ rs) (suc i) (suc j) p q a b l o e f n m g h =
      let (_, c, _) = counter seq x (omega arith) in
      ensure_all_distinct (if has_id x.1 then seq else (generate_request_id seq x.0).1) rs i j p q a
        b (omega arith) (omega arith) e f n m g h
  ensure_all_distinct seq (x ∷ rs) zero (suc j) p q a b l o e f n m g h = λ s.
      let k = if has_id x.1 then seq else (generate_request_id seq x.0).1 in
      let (_, c, up) = counter seq x (omega arith) in
      let same : x ≡ p = cc in
      let next = up (rw same n) in
      let t : ensure_request_id fl ip http d (generate_request_id seq x.0).0 x.1 ≡ a = cc in
      let first = numbered_first seq x p a same n t in
      let v = numbered k rs j q b (omega arith) f m h in
      let low = v.low in
      let high = v.high in
      let again =
        hex_inj seq v.number p.0 q.0 (omega arith) (omega arith) (sym first ∙ s ∙ v.text) in
      omega arith
