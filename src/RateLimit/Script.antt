-- ===== src/RateLimit/Script.antt =====
-- The script of controlplane/src/ratelimit/lua.rs that Redis runs: the token bucket kept in a hash.
use open_api_gateway.Prelude.{
  ℕ, ◌-◌, String, ◌<>◌, Bool, true, false, Option, none, some, if◌then◌else◌, ◌≡◌, refl, sym, subst,
  inl, inr, Bool-cases,
}
use open_api_gateway.Config.Types.{Platform}
use open_api_gateway.RateLimit.Bucket.{LocalBucket, refill, take_token, try_consume}

-- The arithmetic of Lua on its numbers, which are `f64`s, and how it reads and shows them.
pub record Lua (p : Platform) : Type 0 where
  pub min : p.F64 → p.F64 → p.F64
  pub floor : p.F64 → p.F64
  pub ceil : p.F64 → p.F64
  pub tonumber : String → Option p.F64
  pub tostring : p.F64 → String

-- The hash under a key, with the time to live that the script sets.
pub record Entry : Type 0 where
  pub tokens : Option String
  pub last_refill_ms : Option String
  pub ttl_seconds : Option String

module _ {p : Platform} (lua : Lua p) where
  -- `tonumber(redis.call('HGET', …))`, and what stands for a missing field
  unfoldable pub read_field : Option String → p.F64 → p.F64
  read_field none missing = missing
  read_field (some text) missing = elim (lua.tonumber text) [ none ↦ missing | some x ↦ x ]

  unfoldable pub refilled : p.F64 → p.F64 → p.F64 → Entry → p.F64
  unfolding read_field
  refilled now_ms capacity refill_rate entry =
      let tokens = read_field entry.tokens capacity in
      let last_refill = read_field entry.last_refill_ms now_ms in
      let elapsed_s = p.div (p.sub now_ms last_refill) (p.of_u64 1000) in
      lua.min (p.add tokens (p.mul refill_rate elapsed_s)) capacity

  -- The hash and the reply, from the tokens there are.
  unfoldable pub answer : p.F64 → p.F64 → p.F64 → String → Entry → p.F64 → Entry × String
  answer now_ms refill_rate requested ttl_seconds entry new_tokens =
      let left = p.sub new_tokens requested in
      let deficit = p.sub requested new_tokens in
      let retry_ms = lua.ceil (p.mul (p.div deficit refill_rate) (p.of_u64 1000)) in
      if◌then◌else◌ {A = Entry × String} (p.le requested new_tokens)
        (
          record {
            tokens = some (lua.tostring left);
            last_refill_ms = some (lua.tostring now_ms);
            ttl_seconds = some ttl_seconds;
          },
          "{\"allowed\":1,\"remaining_tokens\":"
              <> lua.tostring (lua.floor left)
              <> ",\"retry_after_ms\":0}",
        )
        (
          entry,
          "{\"allowed\":0,\"remaining_tokens\":0,\"retry_after_ms\":"
              <> lua.tostring retry_ms
              <> "}",
        )

  unfoldable pub run_script : p.F64 → p.F64 → p.F64 → p.F64 → String → Entry → Entry × String
  unfolding refilled answer
  run_script now_ms capacity refill_rate requested ttl_seconds entry =
      answer now_ms refill_rate requested ttl_seconds entry
        (refilled now_ms capacity refill_rate entry)

  -- What the script did, against what the bucket did: a token is taken by both, and then the hash
  -- shows the tokens that the bucket holds, or by neither, and then the hash is as it was.
  abbrev pub Agrees :
      Entry × String → Entry → p.F64 → String → LocalBucket p × (Bool × (ℕ × ℕ)) → Type 0
  Agrees (after, reply) before now_ms ttl (bucket, (true, _)) =
      after ≡ record {
        tokens = some (lua.tostring bucket.tokens);
        last_refill_ms = some (lua.tostring now_ms);
        ttl_seconds = some ttl;
      }
      × (reply
          ≡ "{\"allowed\":1,\"remaining_tokens\":"
            <> lua.tostring (lua.floor bucket.tokens)
            <> ",\"retry_after_ms\":0}")
  Agrees (after, reply) before now_ms ttl (bucket, (false, _)) =
      (after ≡ before)
      × ((retry : String) × (reply
            ≡ "{\"allowed\":0,\"remaining_tokens\":0,\"retry_after_ms\":" <> retry <> "}"))

  answer-take_token :
      (now_ms : p.F64) (ttl : String) (entry : Entry) (bucket : LocalBucket p)
      → Agrees
          (answer now_ms bucket.refill_rate (p.of_u64 1) ttl entry bucket.tokens)
          entry
          now_ms
          ttl
          (take_token p bucket)
  unfolding answer take_token
  answer-take_token now_ms ttl entry bucket = elim (Bool-cases (p.le (p.of_u64 1) bucket.tokens)) [
    | inl e ↦ rw (Agrees, e) (rw e refl, rw e refl)
    | inr e ↦
        let retry_ms =
          lua.ceil
            (p.mul (p.div (p.sub (p.of_u64 1) bucket.tokens) bucket.refill_rate) (p.of_u64 1000)) in
        rw (Agrees, e) (rw e refl, (lua.tostring retry_ms, rw e refl))
  ]

  -- What the minima of Lua and of Rust agree on: two numbers that are not NaN, of which the second is
  -- positive. (With a NaN in first place Lua gives the NaN, and Rust the other one.)
  abbrev pub MinsAgree : Type 0
  MinsAgree = (x y : p.F64) → p.le x x ≡ true → p.lt (p.of_u64 0) y ≡ true → lua.min x y ≡ p.min x y

  -- The tokens that a bucket would have without its capacity.
  abbrev pub uncapped : ℕ → LocalBucket p → p.F64
  uncapped now bucket =
      p.add bucket.tokens (p.mul bucket.refill_rate (p.as_secs (now - bucket.last_refill)))

  -- Where the minima agree on numbers, given a positive capacity, tokens that are not NaN after the
  -- refill, a hash that reads as the tokens of a local bucket and the same elapsed time, the script
  -- takes a token exactly when `try_consume` does. It then stores and reports the tokens that the
  -- bucket holds; a refusal leaves the hash as it was.
  pub run_script-try_consume :
      (now_ms : p.F64) (ttl : String) (entry : Entry) (now : ℕ) (bucket : LocalBucket p)
      → MinsAgree
      → p.lt (p.of_u64 0) bucket.capacity ≡ true
      → p.le (uncapped now bucket) (uncapped now bucket) ≡ true
      → read_field entry.tokens bucket.capacity ≡ bucket.tokens
      → p.div (p.sub now_ms (read_field entry.last_refill_ms now_ms)) (p.of_u64 1000)
        ≡ p.as_secs (now - bucket.last_refill)
      → Agrees
          (run_script now_ms bucket.capacity bucket.refill_rate (p.of_u64 1) ttl entry)
          entry
          now_ms
          ttl
          (try_consume p now bucket)
  unfolding run_script refilled try_consume refill
  run_script-try_consume now_ms ttl entry now bucket mins positive number tokens elapsed =
      let same : refilled now_ms bucket.capacity bucket.refill_rate entry
          ≡ (refill p now bucket).tokens =
        rw (refilled, tokens, elapsed)
          (mins (uncapped now bucket) bucket.capacity number positive) in
      subst
        (λ x.
          Agrees (answer now_ms bucket.refill_rate (p.of_u64 1) ttl entry x) entry now_ms ttl
            (try_consume p now bucket))
        (sym same) (answer-take_token now_ms ttl entry (refill p now bucket))
