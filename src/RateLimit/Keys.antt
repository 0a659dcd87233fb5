-- ===== src/RateLimit/Keys.antt =====
-- The local buckets of controlplane/src/ratelimit/limiter.rs under different keys.
use open_api_gateway.Prelude.{
  ℕ, String, Bool, false, List, ◌≡◌, ◌≢◌, refl, sym, subst, ◌∙◌, Bool-cases, inl, inr,
}
use open_api_gateway.Config.Types.{Platform, RateLimitsConfig}
use open_api_gateway.RateLimit.Bucket.{LocalBucket}
use open_api_gateway.RateLimit.{RateLimiter, World, check, enter_degraded}
use open_api_gateway.RateLimit.Buckets.{bucket_of, consume_at-other, consume_at-answer}
use open_api_gateway.RateLimit.Degraded.{check-dropped, enter_degraded-config}

module _ {p : Platform} where
  -- A call of the local bucket for one key leaves the buckets of the other keys.
  enter_degraded-other :
      (now : ℕ) (key other : String) (capacity : ℕ) (rate : p.F64) (limiter : RateLimiter p)
      → other ≢ key
      → bucket_of other (enter_degraded p now key capacity rate limiter).0.fallback
        ≡ bucket_of other limiter.fallback
  unfolding enter_degraded
  enter_degraded-other now key other capacity rate limiter differ =
      elim (Bool-cases limiter.config.survivability_mode.enabled) [
        | inl e ↦ rw e (consume_at-other _ _ key other limiter.fallback differ)
        | inr e ↦ rw e refl
      ]

  abbrev with_buckets : RateLimitsConfig p → Bool → List (String × LocalBucket p) → RateLimiter p
  with_buckets config connected fallback = record {
    config = config;
    connected = connected;
    fallback = fallback;
  }

  enter_degraded-answer :
      (now : ℕ) (key : String) (capacity : ℕ) (rate : p.F64) (config : RateLimitsConfig p)
      (c d : Bool) (xs ys : List (String × LocalBucket p))
      → bucket_of key xs ≡ bucket_of key ys
      → (enter_degraded p now key capacity rate (with_buckets config c xs)).1
        ≡ (enter_degraded p now key capacity rate (with_buckets config d ys)).1
  unfolding enter_degraded
  enter_degraded-answer now key capacity rate config c d xs ys same =
      elim (Bool-cases config.survivability_mode.enabled) [
        | inl e ↦ rw (e, consume_at-answer now _ key xs, consume_at-answer now _ key ys, same) refl
        | inr e ↦ rw e refl
      ]

  -- Without a connection, a call for one key changes nothing for another: the result for that key is
  -- the one it would have had before.
  pub check-other :
      (w v : World p) (key other : String) (n m : ℕ) (rate rate' : p.F64) (limiter : RateLimiter p)
      → limiter.connected ≡ false
      → other ≢ key
      → (check p v other m rate' (check p w key n rate limiter).0).1
        ≡ (check p v other m rate' limiter).1
  check-other w v key other n m rate rate' limiter off differ =
      let after = (enter_degraded p w.now key n rate limiter).0 in
      let (same, kept) = enter_degraded-config w.now key n rate limiter in
      let answers =
        enter_degraded-answer v.now other m rate' limiter.config after.connected limiter.connected
          after.fallback limiter.fallback
          (enter_degraded-other w.now key other n rate limiter differ) in
      let degraded =
        subst
          (λ config.
            (enter_degraded p v.now other m rate'
              (with_buckets config after.connected after.fallback)).1
            ≡ (enter_degraded p v.now other m rate' limiter).1)
          (sym same) answers in
      rw (check-dropped w key n rate limiter off, check-dropped v other m rate' limiter off)
        (rw (check-dropped v other m rate' after (kept ∙ off)) degraded)
