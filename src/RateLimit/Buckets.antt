-- ===== src/RateLimit/Buckets.antt =====
-- The map of local buckets in controlplane/src/ratelimit/limiter.rs.
use text.Mathlib.TextPositions.{eq_refl}
use open_api_gateway.Prelude.{
  ℕ, String, ◌==◌, eq_iff, Option, none, some, List, [], ◌∷◌, if◌then◌else◌, ◌≡◌, ◌≢◌, refl, sym,
  ◌∙◌, arith, Bool-cases, inl, inr,
}
use open_api_gateway.Config.Types.{Platform}
use open_api_gateway.RateLimit.Bucket.{LocalBucket, try_consume}
use open_api_gateway.RateLimit.{consume_at}

module _ {p : Platform} where
  -- The bucket under a key.
  abbrev pub bucket_of : String → List (String × LocalBucket p) → Option (LocalBucket p)
  bucket_of key [] = none
  bucket_of key ((k, b) ∷ rest) = if k == key then some b else bucket_of key rest

  pub consume_at-other :
      (now : ℕ) (fresh : LocalBucket p) (key other : String)
      (buckets : List (String × LocalBucket p))
      → other ≢ key
      → bucket_of other (consume_at p now fresh key buckets).0 ≡ bucket_of other buckets
  unfolding consume_at
  consume_at-other now fresh key other [] differ = let e = eq_iff key other in ground arith
  consume_at-other now fresh key other ((k, b) ∷ rest) differ =
      let later = consume_at-other now fresh key other rest differ in
      let here = eq_iff k key in
      let there = eq_iff k other in
      elim (Bool-cases (k == key)) [
        | inl e ↦ elim (Bool-cases (k == other)) [
          | inl f ↦ absurd (differ (sym (there.0 f) ∙ here.0 e))
          | inr f ↦ rw (e, f) refl
        ]
        | inr e ↦ elim (Bool-cases (k == other)) [
          | inl f ↦ rw (e, f) refl
          | inr f ↦ rw (e, f) later
        ]
      ]

  abbrev pub get_or : LocalBucket p → Option (LocalBucket p) → LocalBucket p
  get_or fresh none = fresh
  get_or fresh (some b) = b

  pub consume_at-answer :
      (now : ℕ) (fresh : LocalBucket p) (key : String) (buckets : List (String × LocalBucket p))
      → (consume_at p now fresh key buckets).1
        ≡ (try_consume p now (get_or fresh (bucket_of key buckets))).1
  unfolding consume_at
  consume_at-answer now fresh key [] = refl
  consume_at-answer now fresh key ((k, b) ∷ rest) = elim (Bool-cases (k == key)) [
    | inl e ↦ rw e refl
    | inr e ↦ rw e (consume_at-answer now fresh key rest)
  ]

  pub consume_at-kept :
      (now : ℕ) (fresh : LocalBucket p) (key : String) (buckets : List (String × LocalBucket p))
      → bucket_of key (consume_at p now fresh key buckets).0
        ≡ some (try_consume p now (get_or fresh (bucket_of key buckets))).0
  unfolding consume_at
  consume_at-kept now fresh key [] = rw (eq_refl key) refl
  consume_at-kept now fresh key ((k, b) ∷ rest) = elim (Bool-cases (k == key)) [
    | inl e ↦ rw (e, bucket_of, e) refl
    | inr e ↦ rw (e, bucket_of, e) (consume_at-kept now fresh key rest)
  ]
