-- ===== src/RateLimit.antt =====
-- controlplane/src/ratelimit/: limiter.rs, error.rs and the reply of lua.rs. Each operation takes the
-- limiter, what Redis and the clock answer, and returns the limiter after it.
pub mod Bucket
pub mod Script
pub mod Buckets
pub mod Degraded
pub mod Keys
use open_api_gateway.Prelude.{
  ℕ, ◌-◌, String, ◌==◌, Bool, true, false, List, [], ◌∷◌, eqb, if◌then◌else◌,
}
use open_api_gateway.Prelude.Result.{Result, ok, err}
use open_api_gateway.Config.Types.{Platform, RateLimitsConfig}
use open_api_gateway.RateLimit.Bucket.{LocalBucket, new_bucket, try_consume, ttl_seconds}

pub data RateLimitError : Type 0 where
  redis_connect : String → RateLimitError
  redis_command : String → RateLimitError
  timeout : RateLimitError
  unavailable : RateLimitError
  lua_response_parse : String → RateLimitError

pub data RateLimitMode : Type 0 where
  redis : RateLimitMode
  degraded_local : RateLimitMode
  fail_open : RateLimitMode

unfoldable pub as_header_value : RateLimitMode → String
as_header_value redis = "redis"
as_header_value fail_open = "redis"
as_header_value degraded_local = "degraded-local"

pub record RateDecision : Type 0 where
  pub allowed : Bool
  pub limit : ℕ
  pub remaining : ℕ
  pub retry_after_ms : ℕ
  pub mode : RateLimitMode

pub record LuaResponse : Type 0 where
  pub allowed : ℕ
  pub remaining_tokens : ℕ
  pub retry_after_ms : ℕ

-- How the call of the script, within its time limit, ends.
pub data RedisReply : Type 0 where
  answered : String → RedisReply
  failed : String → RedisReply
  timed_out : RedisReply

-- What the script is called with.
pub record ScriptCall (p : Platform) : Type 0 where
  pub key : String
  pub now_ms : ℕ
  pub capacity : ℕ
  pub refill_rate : p.F64
  pub requested : ℕ
  pub ttl : ℕ

-- What is outside the limiter during one call: the answer of Redis to the script, the wall clock in
-- milliseconds, the monotonic clock in nanoseconds, and `serde_json::from_str::<LuaResponse>`.
pub record World (p : Platform) : Type 0 where
  pub script : ScriptCall p → RedisReply
  pub now_ms : ℕ
  pub now : ℕ
  pub parse_response : String → Result String LuaResponse

-- How the first attempt to connect ends within its time limit.
pub data Connection : Type 0 where
  connected : Connection
  connection_failed : String → Connection
  connection_timed_out : Connection

module _ (p : Platform) where
  pub record RateLimiter : Type 0 where
    pub config : RateLimitsConfig p
    pub connected : Bool
    pub fallback : List (String × LocalBucket p)

  -- The decision that a reply of the script is read as.
  unfoldable pub read_response :
      (String → Result String LuaResponse) → ℕ → String → Result RateLimitError RateDecision
  read_response parse_response capacity json_str = elim (parse_response json_str) [
    | ok resp ↦ ok record {
      allowed = eqb resp.allowed 1;
      limit = capacity;
      remaining = resp.remaining_tokens;
      retry_after_ms = resp.retry_after_ms;
      mode = redis;
    }
    | err e ↦ err (lua_response_parse e)
  ]

  unfoldable pub set_connected : Bool → RateLimiter → RateLimiter
  set_connected b limiter = record {
    config = limiter.config;
    connected = b;
    fallback = limiter.fallback;
  }

  -- The connection is dropped when the command fails or times out.
  unfoldable pub after_reply :
      World p → ℕ → RedisReply → RateLimiter → RateLimiter × Result RateLimitError RateDecision
  unfolding read_response set_connected
  after_reply w capacity (answered json_str) limiter =
      (limiter, read_response w.parse_response capacity json_str)
  after_reply w capacity (failed e) limiter = (set_connected false limiter, err (redis_command e))
  after_reply w capacity timed_out limiter = (set_connected false limiter, err timeout)

  unfoldable pub try_redis :
      World p → String → ℕ → p.F64 → RateLimiter → RateLimiter × Result RateLimitError RateDecision
  unfolding after_reply ttl_seconds
  try_redis w bucket_key capacity refill_rate limiter =
      let reply = w.script record {
        key = bucket_key;
        now_ms = w.now_ms;
        capacity = capacity;
        refill_rate = refill_rate;
        requested = 1;
        ttl = ttl_seconds p capacity refill_rate;
      } in
      if◌then◌else◌ {A = RateLimiter × Result RateLimitError RateDecision} limiter.connected
        (after_reply w capacity reply limiter) (limiter, err (redis_connect "no active connection"))

  -- `map.entry(key).or_insert_with(fresh)` and `try_consume` of the bucket there, in place
  unfoldable pub consume_at :
      ℕ
      → LocalBucket p
      → String
      → List (String × LocalBucket p)
      → List (String × LocalBucket p) × (Bool × (ℕ × ℕ))
  unfolding try_consume
  consume_at now fresh key [] =
      let (bucket, answer) = try_consume p now fresh in ((key, bucket) ∷ [], answer)
  consume_at now fresh key ((k, b) ∷ rest) =
      let (bucket, answer) = try_consume p now b in
      let (later, later_answer) = consume_at now fresh key rest in
      if◌then◌else◌ {A = List (String × LocalBucket p) × (Bool × (ℕ × ℕ))} (k == key)
        ((k, bucket) ∷ rest, answer) ((k, b) ∷ later, later_answer)

  unfoldable pub enter_degraded :
      ℕ → String → ℕ → p.F64 → RateLimiter → RateLimiter × Result RateLimitError RateDecision
  unfolding consume_at new_bucket
  enter_degraded now bucket_key capacity _refill_rate limiter =
      let sm = limiter.config.survivability_mode in
      let fresh =
        new_bucket p (p.of_u64 sm.fallback_capacity) sm.fallback_refill_rate_per_sec now in
      let (map, (allowed, (remaining, retry_after_ms))) =
        consume_at now fresh bucket_key limiter.fallback in
      if◌then◌else◌ {A = RateLimiter × Result RateLimitError RateDecision} sm.enabled
        (
          record { config = limiter.config; connected = limiter.connected; fallback = map },
          ok record {
            allowed = allowed;
            limit = sm.fallback_capacity;
            remaining = remaining;
            retry_after_ms = retry_after_ms;
            mode = degraded_local;
          },
        )
        (
          limiter,
          if limiter.config.fail_open
              then ok record {
                allowed = true;
                limit = capacity;
                remaining = capacity;
                retry_after_ms = 0;
                mode = fail_open;
              }
              else err unavailable,
        )

  -- `check`: the local bucket decides whenever Redis does not.
  unfoldable pub check :
      World p → String → ℕ → p.F64 → RateLimiter → RateLimiter × Result RateLimitError RateDecision
  unfolding try_redis enter_degraded
  check w bucket_key capacity refill_rate limiter =
      let (after, result) = try_redis w bucket_key capacity refill_rate limiter in
      elim result [
        | ok decision ↦ (after, ok decision)
        | err e ↦ enter_degraded w.now bucket_key capacity refill_rate after
      ]

  -- `ping`, given whether a connection answers the command and whether a new one can be made
  unfoldable pub ping : Bool → Bool → RateLimiter → RateLimiter × Bool
  unfolding set_connected
  ping answers reconnects limiter =
      if◌then◌else◌ {A = RateLimiter × Bool} (if limiter.connected then answers else false)
        (limiter, true) (set_connected reconnects limiter, reconnects)

  -- `RateLimiter::from_config`
  unfoldable pub limiter_from_config : Connection → RateLimitsConfig p → RateLimiter
  limiter_from_config connection config = record {
    config = config;
    connected = elim connection [
      | connected ↦ true
      | connection_failed e ↦ false
      | connection_timed_out ↦ false
    ];
    fallback = [];
  }
