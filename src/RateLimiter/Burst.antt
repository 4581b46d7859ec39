-- ===== src/RateLimiter/Burst.antt =====
-- How many requests of one client pass in one instant.
use gatepup.Prelude.{
  ℕ, zero, suc, ◌+◌, ◌-◌, ◌^◌, ◌≤◌, ◌<◌, min, ◌≡◌, refl, Bool, true, false, none, arith, Text,
  unwrap_or, if◌then◌else◌,
}
use gatepup.Interfaces.{Float, IsFloat}
use gatepup.RateLimiter.{
  Bucket, refill, is_full_at, fresh, renew, take_token, Shard, bucket_of, check_shard,
}
use gatepup.RateLimiter.Shard.{bucket_of-put_self, bucket_of-sweep}

module _ {F Addr : Type 0} (fl : Float F) (same : Addr → Addr → Bool) where
  -- `n` checks of one key at one instant: how many are allowed, and the shard behind them.
  unfoldable pub allowed : ℕ → Text × Addr → F → F → ℕ → Shard fl same → ℕ × Shard fl same
  allowed zero k rate capacity now m = (0, m)
  allowed (suc n) k rate capacity now m =
      let r = check_shard fl same k rate capacity now m in
      let rest = allowed n k rate capacity now r.1 in ((if r.0 then 1 else 0) + rest.0, rest.1)

  module _ (laws : IsFloat fl) (k : Text × Addr) (same_self : same k.1 k.1 ≡ true) (rate : F)
      (finite : fl.is_finite rate ≡ true) (now cap : ℕ) (fits : cap < 2 ^ 53) where
    -- The bucket of the key with `j` tokens, at this instant.
    abbrev holding : ℕ → Bucket F
    holding j = record { tokens = fl.of_ℕ j; last = now; rate = rate; capacity = fl.of_ℕ cap }

    no_time : (x : F) → fl.add x (fl.mul (fl.secs (now - now)) rate) ≡ x
    no_time x =
        let e : now - now ≡ 0 = omega arith in
        rw (e, laws.secs-zero, laws.zero-mul rate finite) (laws.add-zero x)

    renew-holding : (j : ℕ) → j ≤ cap → renew fl now rate (fl.of_ℕ cap) (holding j) ≡ holding j
    unfolding renew refill
    renew-holding j h =
        let e : fl.min (fl.add (fl.of_ℕ j) (fl.mul (fl.secs (now - now)) rate)) (fl.of_ℕ cap)
            ≡ fl.of_ℕ j =
          rw (no_time (fl.of_ℕ j)) (laws.min-left _ _ (laws.le-of_ℕ j cap h)) in
        λ i. record { tokens = e i; last = now; rate = rate; capacity = fl.of_ℕ cap }

    take_token-suc : (j : ℕ) → suc j ≤ cap → take_token fl (holding (suc j)) ≡ (true, holding j)
    unfolding take_token
    take_token-suc j h = rw (laws.one_le j, laws.sub_one j (omega arith))

    take_token-zero : take_token fl (holding 0) ≡ (false, holding 0)
    unfolding take_token
    take_token-zero = rw laws.one_gt_zero

    not_full : (j : ℕ) → j < cap → is_full_at fl now (holding j) ≡ false
    unfolding is_full_at
    not_full j h = rw (no_time (fl.of_ℕ j), is_full_at) (laws.of_ℕ_lt j cap h fits)

    -- The bucket that a check starts from holds `j` tokens.
    abbrev Starts : ℕ → Shard fl same → Type 0
    Starts j m = unwrap_or (fresh fl now rate (fl.of_ℕ cap)) (bucket_of fl same k m) ≡ holding j

    after_check :
        (j l : ℕ) (m : Shard fl same) (b : Bool)
        → Starts j m
        → j ≤ cap
        → l < cap
        → take_token fl (holding j) ≡ (b, holding l)
        → ((check_shard fl same k rate (fl.of_ℕ cap) now m).0 ≡ b)
          × Starts l (check_shard fl same k rate (fl.of_ℕ cap) now m).1
    unfolding check_shard
    after_check j l m b s h g t =
        let found =
          bucket_of-sweep fl same k (holding l) now _
            (bucket_of-put_self fl same k (holding l) m same_self) (not_full l g) in
        rw (s, renew-holding j h, t) (refl, rw found refl)

    allowed-from :
        (n j : ℕ) (m : Shard fl same)
        → Starts j m
        → j ≤ cap
        → 0 < cap
        → (allowed n k rate (fl.of_ℕ cap) now m).0 ≡ min n j
    unfolding allowed
    allowed-from zero j m s h p = omega arith
    allowed-from (suc n) zero m s h p =
        let (denied, next) = after_check 0 0 m false s h p take_token-zero in
        rw denied (omega (arith, allowed-from n 0 _ next (omega arith) p))
    allowed-from (suc n) (suc j) m s h p =
        let (passed, next) = after_check (suc j) j m true s h h (take_token-suc j h) in
        rw passed (omega (arith, allowed-from n j _ next (omega arith) p))

    -- From a fresh bucket of `cap` tokens, of any number of requests at one instant exactly the
    -- first `cap` are allowed.
    pub allowed-fresh :
        (n : ℕ) (m : Shard fl same)
        → bucket_of fl same k m ≡ none
        → 0 < cap
        → (allowed n k rate (fl.of_ℕ cap) now m).0 ≡ min n cap
    unfolding fresh
    allowed-fresh n m e p =
        let start : Starts cap m = rw e in allowed-from n cap m start (omega arith) p
