-- ===== src/RateLimit/Bucket/Burst.antt =====
-- How many tokens a full bucket of controlplane/src/ratelimit/bucket.rs gives at one instant.
use open_api_gateway.Prelude.{ℕ, zero, suc, ◌^◌, ◌≤◌, Bool, true, false, List, [], ◌∷◌, ◌≡◌}
use open_api_gateway.Config.Types.{Platform}
use open_api_gateway.RateLimit.Bucket.{LocalBucket, try_consume}

abbrev pub replicate {ℓ} : {A : Type ℓ} → ℕ → A → List A
replicate zero a = []
replicate (suc n) a = a ∷ replicate n a

module _ (p : Platform) where
  -- What IEEE 754 arithmetic says of whole numbers that the 53 bits of an `f64` hold.
  pub record CountsExactly : Type 0 where
    pub le_one_suc : (n : ℕ) → suc n ≤ 2 ^ 53 → p.le (p.of_u64 1) (p.of_u64 (suc n)) ≡ true
    pub le_one_zero : p.le (p.of_u64 1) (p.of_u64 0) ≡ false
    pub sub_one : (n : ℕ) → suc n ≤ 2 ^ 53 → p.sub (p.of_u64 (suc n)) (p.of_u64 1) ≡ p.of_u64 n
    pub floor_of_u64 : (n : ℕ) → n ≤ 2 ^ 53 → p.floor (p.of_u64 n) ≡ n
    pub add_zero : (n : ℕ) → n ≤ 2 ^ 53 → p.add (p.of_u64 n) (p.of_u64 0) ≡ p.of_u64 n
    pub min_of_le : (n m : ℕ) → n ≤ m → m ≤ 2 ^ 53 → p.min (p.of_u64 n) (p.of_u64 m) ≡ p.of_u64 n

  -- The answers to `n` calls at the time `now`.
  unfoldable pub consume_times : ℕ → ℕ → LocalBucket p → List Bool
  unfolding try_consume
  consume_times zero now bucket = []
  consume_times (suc n) now bucket =
      let (after, (allowed, _)) = try_consume p now bucket in allowed ∷ consume_times n now after

  abbrev holding : ℕ → ℕ → p.F64 → ℕ → LocalBucket p
  holding n capacity rate now = record {
    tokens = p.of_u64 n;
    capacity = p.of_u64 capacity;
    refill_rate = rate;
    last_refill = now;
  }
