-- ===== src/RateLimiter/Tests.antt =====
-- Checks of one client, over whole tokens and seconds.
use gatepup.Prelude.{ℕ, ◌≡◌, refl, Bool, true, [], arith, Text, codes, ◌==◌}
use gatepup.Interfaces.{whole, whole-IsFloat}
use gatepup.RateLimiter.{
  Bucket, refill, is_full_at, fresh, renew, take_token, bucket_of, put, sweep, check_shard,
}
use gatepup.RateLimiter.Burst.{allowed, allowed-fresh}
use gatepup.RateLimiter.Evict.{evict_transparent}

abbrev same : ℕ → ℕ → Bool
same a b = a == b

abbrev client : Text × ℕ
client = (codes "r", 7)

one_token : (check_shard whole same client 1 1 0 []).0 ≡ true
unfolding check_shard bucket_of put sweep renew refill take_token fresh
one_token = refl

allowed-fresh_example : (allowed whole same 5 client 1 3 0 []).0 ≡ 3
unfolding bucket_of
allowed-fresh_example =
    allowed-fresh whole same whole-IsFloat client refl 1 refl 0 3 (omega arith) 5 [] refl
      (omega arith)

abbrev idle : Bucket ℕ
idle = record { tokens = 1; last = 0; rate = 2; capacity = 4 }

evict_transparent_example :
    renew whole 3000000000 2 4 idle ≡ renew whole 3000000000 2 4 (fresh whole 3000000000 2 4)
unfolding is_full_at
evict_transparent_example =
    evict_transparent whole whole-IsFloat 2000000000 3000000000 idle refl (omega arith) refl refl
