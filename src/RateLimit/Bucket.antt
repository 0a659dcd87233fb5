-- ===== src/RateLimit/Bucket.antt =====
-- controlplane/src/ratelimit/bucket.rs: the token bucket in memory, with the time in nanoseconds.
pub mod Burst
pub mod Bounded
use open_api_gateway.Prelude.{ℕ, ◌-◌, ◌^◌, String, ◌<>◌, Bool, true, false, if◌then◌else◌}
use open_api_gateway.Config.Types.{Platform}

module _ (p : Platform) where
  pub record LocalBucket : Type 0 where
    pub tokens : p.F64
    pub capacity : p.F64
    pub refill_rate : p.F64
    pub last_refill : ℕ

  -- `LocalBucket::new` at the time `now`
  unfoldable pub new_bucket : p.F64 → p.F64 → ℕ → LocalBucket
  new_bucket capacity refill_rate now = record {
    tokens = capacity;
    capacity = capacity;
    refill_rate = refill_rate;
    last_refill = now;
  }

  -- `duration_since` is zero for a time that is not later.
  unfoldable pub refill : ℕ → LocalBucket → LocalBucket
  refill now bucket =
      let refilled = p.mul bucket.refill_rate (p.as_secs (now - bucket.last_refill)) in
      record {
        tokens = p.min (p.add bucket.tokens refilled) bucket.capacity;
        capacity = bucket.capacity;
        refill_rate = bucket.refill_rate;
        last_refill = now;
      }

  -- What `try_consume` does after the refill.
  unfoldable pub take_token : LocalBucket → LocalBucket × (Bool × (ℕ × ℕ))
  take_token bucket =
      let one = p.of_u64 1 in
      let left = p.sub bucket.tokens one in
      let deficit = p.sub one bucket.tokens in
      let retry_ms =
        if p.lt (p.of_u64 0) bucket.refill_rate
        then p.ceil (p.mul (p.div deficit bucket.refill_rate) (p.of_u64 1000))
        else 2 ^ 64 - 1 in
      if◌then◌else◌ {A = LocalBucket × (Bool × (ℕ × ℕ))} (p.le one bucket.tokens)
        (
          record {
            tokens = left;
            capacity = bucket.capacity;
            refill_rate = bucket.refill_rate;
            last_refill = bucket.last_refill;
          },
          (true, (p.floor left, 0)),
        )
        (bucket, (false, (0, retry_ms)))

  -- The answer is whether a token was taken, the tokens that remain and the time to retry in.
  unfoldable pub try_consume : ℕ → LocalBucket → LocalBucket × (Bool × (ℕ × ℕ))
  unfolding refill take_token
  try_consume now bucket = take_token (refill now bucket)

  unfoldable pub ttl_seconds : ℕ → p.F64 → ℕ
  ttl_seconds capacity refill_rate =
      if p.le refill_rate (p.of_u64 0)
      then 3600
      else p.ceil (p.mul (p.div (p.of_u64 capacity) refill_rate) (p.of_u64 2))

unfoldable pub build_key : String → String → String → String → String
build_key key_prefix route dimension value =
    key_prefix <> ":" <> route <> ":" <> dimension <> ":" <> value
