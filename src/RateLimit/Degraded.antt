-- ===== src/RateLimit/Degraded.antt =====
-- What `check` of controlplane/src/ratelimit/limiter.rs decides with and without Redis.
use open_api_gateway.Prelude.{
  ℕ, String, Bool, true, false, List, [], ◌∷◌, ◌≡◌, ◌∙◌, ap, some, refl, Bool-cases, inl, inr,
}
use open_api_gateway.Prelude.Result.{Result, ok, err}
use open_api_gateway.Config.Types.{Platform}
use open_api_gateway.RateLimit.Bucket.{LocalBucket, new_bucket, try_consume}
use open_api_gateway.RateLimit.Buckets.{bucket_of, get_or, consume_at-answer, consume_at-kept}
use open_api_gateway.RateLimit.{
  RateLimiter, RateLimitError, RateDecision, RateLimitMode, World, check, try_redis, enter_degraded,
}

-- One call of `check` with what surrounds it.
pub record Call (p : Platform) : Type 0 where
  pub world : World p
  pub key : String
  pub capacity : ℕ
  pub refill_rate : p.F64

-- The decision with what a bucket has answered.
abbrev pub local_decision : ℕ → Bool × (ℕ × ℕ) → RateDecision
local_decision capacity (allowed, (remaining, retry_after_ms)) = record {
  allowed = allowed;
  limit = capacity;
  remaining = remaining;
  retry_after_ms = retry_after_ms;
  mode = RateLimitMode.degraded_local;
}

module _ {p : Platform} where
  -- The bucket that is there for a key, or the full one that is made for it.
  abbrev pub bucket_for : ℕ → String → RateLimiter p → LocalBucket p
  bucket_for now key limiter =
      let sm = limiter.config.survivability_mode in
      get_or (new_bucket p (p.of_u64 sm.fallback_capacity) sm.fallback_refill_rate_per_sec now)
        (bucket_of key limiter.fallback)

  -- The bucket of the key has decided, and is kept as it was left.
  abbrev pub IsLocal : RateLimiter p → ℕ → String → RateLimiter p → RateDecision → Type 0
  IsLocal limiter now key after decision =
      let (bucket, answer) = try_consume p now (bucket_for now key limiter) in
      (decision ≡ local_decision limiter.config.survivability_mode.fallback_capacity answer)
      × (bucket_of key after.fallback ≡ some bucket)

  -- What is decided without Redis, by whether survivability mode and fail-open are on.
  abbrev pub IsFallback :
      Bool
      → Bool
      → RateLimiter p
      → ℕ
      → String
      → RateLimiter p × Result RateLimitError RateDecision
      → Type 0
  IsFallback true fail_open limiter now key (after, ok decision) =
      IsLocal limiter now key after decision
  IsFallback false true limiter now key (after, ok decision) =
      (decision.mode ≡ RateLimitMode.fail_open) × (decision.allowed ≡ true)
  IsFallback false false limiter now key (after, err e) = e ≡ RateLimitError.unavailable
  IsFallback _ _ limiter now key _ = ⊥

  abbrev pub FallsBack :
      RateLimiter p → ℕ → String → RateLimiter p × Result RateLimitError RateDecision → Type 0
  FallsBack limiter now key outcome =
      IsFallback limiter.config.survivability_mode.enabled limiter.config.fail_open limiter now key
        outcome
      × (outcome.0.config ≡ limiter.config)

  -- Calls one after another, each on the limiter that the one before has left.
  abbrev pub AllFallBack : List (Call p) → RateLimiter p → Type 0
  AllFallBack [] limiter = Unit
  AllFallBack (c ∷ calls) limiter =
      let outcome = check p c.world c.key c.capacity c.refill_rate limiter in
      FallsBack limiter c.world.now c.key outcome × AllFallBack calls outcome.0

  enter_degraded-IsFallback :
      (now : ℕ) (key : String) (capacity : ℕ) (rate : p.F64) (limiter : RateLimiter p)
      → IsFallback limiter.config.survivability_mode.enabled limiter.config.fail_open limiter now
          key
          (enter_degraded p now key capacity rate limiter)
  unfolding enter_degraded
  enter_degraded-IsFallback now key capacity rate limiter =
      elim (Bool-cases limiter.config.survivability_mode.enabled) [
        | inl e ↦
            let sm = limiter.config.survivability_mode in
            let fresh =
              new_bucket p (p.of_u64 sm.fallback_capacity) sm.fallback_refill_rate_per_sec now in
            rw (e, IsFallback)
              (
                ap (local_decision sm.fallback_capacity)
                    (consume_at-answer now fresh key limiter.fallback),
                consume_at-kept now fresh key limiter.fallback,
              )
        | inr e ↦ elim (Bool-cases limiter.config.fail_open) [
          | inl f ↦ rw (e, f, IsFallback) (refl, refl)
          | inr f ↦ rw (e, f, IsFallback) refl
        ]
      ]

  pub enter_degraded-config :
      (now : ℕ) (key : String) (capacity : ℕ) (rate : p.F64) (limiter : RateLimiter p)
      → (enter_degraded p now key capacity rate limiter).0.config ≡ limiter.config
        × ((enter_degraded p now key capacity rate limiter).0.connected ≡ limiter.connected)
  unfolding enter_degraded
  enter_degraded-config now key capacity rate limiter =
      elim (Bool-cases limiter.config.survivability_mode.enabled) [
        | inl e ↦ rw e (refl, refl)
        | inr e ↦ rw e (refl, refl)
      ]

  try_redis-dropped :
      (w : World p) (key : String) (capacity : ℕ) (rate : p.F64) (limiter : RateLimiter p)
      → limiter.connected ≡ false
      → try_redis p w key capacity rate limiter
        ≡ (limiter, err (RateLimitError.redis_connect "no active connection"))
  unfolding try_redis
  try_redis-dropped w key capacity rate limiter off = rw off refl

  pub check-dropped :
      (w : World p) (key : String) (capacity : ℕ) (rate : p.F64) (limiter : RateLimiter p)
      → limiter.connected ≡ false
      → check p w key capacity rate limiter ≡ enter_degraded p w.now key capacity rate limiter
  unfolding check
  check-dropped w key capacity rate limiter off =
      let e = try_redis-dropped w key capacity rate limiter off in rw (check, e) (rw e refl)

  -- Without a connection every later check is decided by the bucket of its key, which is then kept
  -- as it was left, if survivability mode is on; is let through if only fail-open is on; and fails as
  -- unavailable otherwise: whatever Redis would answer.
  pub check_all-FallsBack :
      (calls : List (Call p)) (limiter : RateLimiter p)
      → limiter.connected ≡ false
      → AllFallBack calls limiter
  check_all-FallsBack [] limiter off = tt
  check_all-FallsBack (c ∷ calls) limiter off =
      let here = enter_degraded-IsFallback c.world.now c.key c.capacity c.refill_rate limiter in
      let after = (enter_degraded p c.world.now c.key c.capacity c.refill_rate limiter).0 in
      let (same, kept) = enter_degraded-config c.world.now c.key c.capacity c.refill_rate limiter in
      rw (check-dropped c.world c.key c.capacity c.refill_rate limiter off)
        ((here, same), check_all-FallsBack calls after (kept ∙ off))
