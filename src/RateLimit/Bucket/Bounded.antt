-- ===== src/RateLimit/Bucket/Bounded.antt =====
-- The tokens of a bucket of controlplane/src/ratelimit/bucket.rs against its capacity.
use open_api_gateway.Prelude.{
  ℕ, ◌-◌, true, List, [], ◌∷◌, ◌≡◌, refl, subst, sym, Bool-cases, inl, inr,
}
use open_api_gateway.Config.Types.{Platform}
use open_api_gateway.RateLimit.Bucket.{LocalBucket, new_bucket, refill, take_token, try_consume}

module _ (p : Platform) where
  -- What IEEE 754 says of `min` below a bound that is a number, and of taking one away.
  pub record Bounds : Type 0 where
    pub min_le : (x c : p.F64) → p.le c c ≡ true → p.le (p.min x c) c ≡ true
    pub sub_le : (x c : p.F64) → p.le x c ≡ true → p.le (p.sub x (p.of_u64 1)) c ≡ true

  -- The bucket after calls at the given times, which need not be in order.
  unfoldable pub consume_at_times : List ℕ → LocalBucket p → LocalBucket p
  unfolding try_consume
  consume_at_times [] bucket = bucket
  consume_at_times (now ∷ times) bucket = consume_at_times times (try_consume p now bucket).0

  abbrev Holds : p.F64 → LocalBucket p → Type 0
  Holds capacity bucket = (bucket.capacity ≡ capacity) × (p.le bucket.tokens capacity ≡ true)

  module _ (bounds : Bounds) (capacity : p.F64) (finite : p.le capacity capacity ≡ true) where
    take_token-Holds :
        (bucket : LocalBucket p) → Holds capacity bucket → Holds capacity (take_token p bucket).0
    unfolding take_token
    take_token-Holds bucket (same, held) = elim (Bool-cases (p.le (p.of_u64 1) bucket.tokens)) [
      | inl e ↦ rw e (same, bounds.sub_le bucket.tokens capacity held)
      | inr e ↦ rw e (same, held)
    ]

    refill-Holds :
        (now : ℕ) (bucket : LocalBucket p)
        → Holds capacity bucket
        → Holds capacity (refill p now bucket)
    unfolding refill
    refill-Holds now bucket (same, held) = (
      same,
      subst
          (λ c.
            p.le
              (p.min
                (p.add bucket.tokens
                  (p.mul bucket.refill_rate (p.as_secs (now - bucket.last_refill))))
                c)
              capacity
            ≡ true)
          (sym same) (bounds.min_le _ capacity finite),
    )

    consume_at_times-Holds :
        (times : List ℕ) (bucket : LocalBucket p)
        → Holds capacity bucket
        → Holds capacity (consume_at_times times bucket)
    unfolding consume_at_times try_consume
    consume_at_times-Holds [] bucket h = h
    consume_at_times-Holds (now ∷ times) bucket h =
        consume_at_times-Holds times _ (take_token-Holds _ (refill-Holds now bucket h))

    -- A bucket that starts full holds at most its capacity after any calls at any times, if the capacity
    -- is a number and `min` and subtraction are as IEEE 754 says.
    pub consume_at_times-new_bucket :
        (rate : p.F64) (start : ℕ) (times : List ℕ)
        → p.le (consume_at_times times (new_bucket p capacity rate start)).tokens capacity ≡ true
    unfolding new_bucket
    consume_at_times-new_bucket rate start times =
        (consume_at_times-Holds times (new_bucket p capacity rate start) (refl, finite)).1
