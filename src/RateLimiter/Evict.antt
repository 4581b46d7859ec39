-- ===== src/RateLimiter/Evict.antt =====
-- The sweep loses nothing, and the buckets stay within their capacity.
use gatepup.Prelude.{ℕ, ◌-◌, ◌≤◌, ◌≡◌, sym, ◌∙◌, true, arith, Bool-cases, inl, inr}
use gatepup.Interfaces.{Float, IsFloat}
use gatepup.RateLimiter.{Bucket, refill, is_full_at, fresh, renew, take_token}

module _ {F : Type 0} (fl : Float F) (laws : IsFloat fl) where
  renew-tokens :
      (t : ℕ) (rate cap : F) (b : Bucket F)
      → fl.le cap (fl.add b.tokens (fl.mul (fl.secs (t - b.last)) rate)) ≡ true
      → renew fl t rate cap b ≡ record { tokens = cap; last = t; rate = rate; capacity = cap }
  unfolding renew refill
  renew-tokens t rate cap b h =
      λ i. record { tokens = laws.min-right _ _ h i; last = t; rate = rate; capacity = cap }

  fresh-full :
      (t : ℕ) (rate cap : F)
      → fl.is_finite rate ≡ true
      → fl.le cap (fl.add cap (fl.mul (fl.secs (t - t)) rate)) ≡ true
  fresh-full t rate cap f =
      let e : t - t ≡ 0 = omega arith in
      rw (e, laws.secs-zero, laws.zero-mul rate f, laws.add-zero cap) (laws.le_refl cap)

  -- A bucket that a sweep may evict is as good as a fresh one: at any later time, under its own
  -- finite and non-negative rate and its own capacity, both are renewed to the same bucket, so the
  -- next decision is the same.
  pub evict_transparent :
      (now t : ℕ) (b : Bucket F)
      → is_full_at fl now b ≡ true
      → now ≤ t
      → fl.is_finite b.rate ≡ true
      → fl.le fl.zero b.rate ≡ true
      → renew fl t b.rate b.capacity b ≡ renew fl t b.rate b.capacity (fresh fl t b.rate b.capacity)
  unfolding is_full_at fresh
  evict_transparent now t b full later f p =
      let grown = laws.secs_mono (now - b.last) (t - b.last) (omega arith) in
      let still =
        laws.le_trans _ _ _ full
          (laws.add_mono b.tokens _ _ (laws.mul_mono _ _ b.rate f p grown)) in
      renew-tokens t b.rate b.capacity b still
      ∙ sym (renew-tokens t b.rate b.capacity _ (fresh-full t b.rate b.capacity f))

  min_le : (x c : F) → fl.le (fl.min x c) c ≡ true
  min_le x c = elim (Bool-cases (fl.le x c)) [
    | inl h ↦ rw (laws.min-left x c h) h
    | inr h ↦ rw (laws.min-right x c (laws.le_total x c h)) (laws.le_refl c)
  ]

  take_token_le :
      (b : Bucket F) (c : F) → fl.le b.tokens c ≡ true → fl.le (take_token fl b).1.tokens c ≡ true
  unfolding take_token
  take_token_le b c h = elim (Bool-cases (fl.le fl.one b.tokens)) [
    | inl e ↦ rw e (laws.le_trans _ b.tokens _ (laws.sub_le b.tokens) h)
    | inr e ↦ rw e h
  ]

  -- Whatever a bucket held and whatever the new parameters are, a check leaves at most the new
  -- capacity in it.
  pub check_bounded :
      (now : ℕ) (rate c : F) (b : Bucket F)
      → fl.le (take_token fl (renew fl now rate c b)).1.tokens c ≡ true
  unfolding renew refill
  check_bounded now rate c b = take_token_le _ c (min_le _ c)
