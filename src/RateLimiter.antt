-- ===== src/RateLimiter.antt =====
-- crates/gatepup-proxy/src/rate_limit.rs: the token buckets. `check` holds the lock of one shard from
-- its first line to its last, so it is one step on the shards. An `Instant` is a number of
-- nanoseconds; `saturating_duration_since` stops at 0, as `-` does. `DefaultHasher` and the equality
-- of addresses are arguments.
pub mod Shard
pub mod Burst
pub mod Evict
mod Tests
use gatepup.Prelude.{
  ℕ, ◌+◌, ◌-◌, ◌%◌, Bool, true, false, not, ◌&&◌, Option, none, some, List, [], ◌∷◌, ltb, length,
  get_or, set, replicate, keep, unwrap_or, Text, text_eq, if◌then◌else◌,
}
use gatepup.Interfaces.{Float}

abbrev pub shard_count : ℕ
shard_count = 32

abbrev pub sweep_threshold : ℕ
sweep_threshold = 4096

pub record Bucket (F : Type 0) : Type 0 where
  pub tokens : F
  pub last : ℕ
  pub rate : F
  pub capacity : F

module _ {F : Type 0} (fl : Float F) where
  open fl use {one, secs, add, sub, mul, le}

  -- `Bucket::refill`.
  unfoldable pub refill : ℕ → Bucket F → Bucket F
  refill now b =
      let elapsed = secs (now - b.last) in
      record b { tokens = fl.min (add b.tokens (mul elapsed b.rate)) b.capacity; last = now }

  -- `Bucket::is_full_at`.
  unfoldable pub is_full_at : ℕ → Bucket F → Bool
  is_full_at now b = le b.capacity (add b.tokens (mul (secs (now - b.last)) b.rate))

  unfoldable pub fresh : ℕ → F → F → Bucket F
  fresh now rate capacity = record {
    tokens = capacity;
    last = now;
    rate = rate;
    capacity = capacity;
  }

  -- The parameters of the current snapshot, and the refill to the present.
  unfoldable pub renew : ℕ → F → F → Bucket F → Bucket F
  renew now rate capacity b = refill now (record b { rate = rate; capacity = capacity })

  -- One token, if there is one.
  unfoldable pub take_token : Bucket F → Bool × Bucket F
  take_token b =
      if le one b.tokens then (true, record b { tokens = sub b.tokens one }) else (false, b)

module _ {F Addr : Type 0} (fl : Float F) (same : Addr → Addr → Bool) where
  abbrev pub Key : Type 0
  Key = Text × Addr

  abbrev pub Shard : Type 0
  Shard = List (Key × Bucket F)

  abbrev pub same_key : Key → Key → Bool
  same_key j k = text_eq j.0 k.0 && same j.1 k.1

  -- The map of one shard.
  unfoldable pub bucket_of : Key → Shard → Option (Bucket F)
  bucket_of k [] = none
  bucket_of k ((j, b) ∷ m) = if same_key j k then some b else bucket_of k m

  unfoldable pub put : Key → Bucket F → Shard → Shard
  put k b [] = (k, b) ∷ []
  put k b ((j, c) ∷ m) = if same_key j k then (j, b) ∷ m else (j, c) ∷ put k b m

  -- `map.retain(|_, b| !b.is_full_at(now))` above the threshold.
  unfoldable pub sweep : ℕ → Shard → Shard
  sweep now m =
      if ltb sweep_threshold (length m) then keep (λ e. not (is_full_at fl now e.1)) m else m

  -- `RateLimiter::check` on the shard of the key.
  unfoldable pub check_shard : Key → F → F → ℕ → Shard → Bool × Shard
  check_shard k rate capacity now m =
      let b = unwrap_or (fresh fl now rate capacity) (bucket_of k m) in
      let taken = take_token fl (renew fl now rate capacity b) in
      (taken.0, sweep now (put k taken.1 m))

  abbrev pub RateLimiter : Type 0
  RateLimiter = List Shard

  unfoldable pub new : RateLimiter
  new = replicate shard_count []

  -- `RateLimiter::shard` and `RateLimiter::check`.
  module _ (hash : Key → ℕ) where
    unfoldable pub shard : Key → ℕ
    shard k = hash k % shard_count

    unfoldable pub check : Key → F → F → ℕ → RateLimiter → Bool × RateLimiter
    check k rate capacity now shards =
        let r = check_shard k rate capacity now (get_or shards (shard k) []) in
        (r.0, set shards (shard k) r.1)
