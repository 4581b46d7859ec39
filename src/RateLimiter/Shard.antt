-- ===== src/RateLimiter/Shard.antt =====
-- The map of one shard, seen through its look-ups.
use gatepup.Prelude.{
  ℕ, ◌≡◌, Bool, true, false, not, some, [], ◌∷◌, arith, ltb, length, keep, Text, text_eq_self,
  Bool-cases, inl, inr,
}
use gatepup.Interfaces.{Float}
use gatepup.RateLimiter.{Bucket, is_full_at, Shard, bucket_of, put, sweep, sweep_threshold}

module _ {F Addr : Type 0} (fl : Float F) (same : Addr → Addr → Bool) where
  -- The bucket that was put is found again.
  pub bucket_of-put_self :
      (k : Text × Addr) (b : Bucket F) (m : Shard fl same)
      → same k.1 k.1 ≡ true
      → bucket_of fl same k (put fl same k b m) ≡ some b
  unfolding bucket_of put
  bucket_of-put_self k b [] h = ground (arith, text_eq_self k.0)
  bucket_of-put_self k b ((j, c) ∷ m) h = ground (arith, bucket_of-put_self k b m h)

  bucket_of-keep :
      (k : Text × Addr) (b : Bucket F) (p : (Text × Addr) × Bucket F → Bool) (m : Shard fl same)
      → bucket_of fl same k m ≡ some b
      → ((j : Text × Addr) → p (j, b) ≡ true)
      → bucket_of fl same k (keep p m) ≡ some b
  unfolding bucket_of
  bucket_of-keep k b p [] e h = e
  bucket_of-keep k b p ((j, c) ∷ m) e h = ground (arith, h j, bucket_of-keep k b p m)

  -- A sweep does not take a bucket that is not full.
  pub bucket_of-sweep :
      (k : Text × Addr) (b : Bucket F) (now : ℕ) (m : Shard fl same)
      → bucket_of fl same k m ≡ some b
      → is_full_at fl now b ≡ false
      → bucket_of fl same k (sweep fl same now m) ≡ some b
  unfolding sweep
  bucket_of-sweep k b now m e h = elim (Bool-cases (ltb sweep_threshold (length m))) [
    | inl big ↦ rw big (bucket_of-keep k b (λ e. not (is_full_at fl now e.1)) m e (λ j. rw h))
    | inr small ↦ rw small e
  ]
