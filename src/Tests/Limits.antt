-- ===== src/Tests/Limits.antt =====
-- The theorems on the rate limiter applied to a bucket of two tokens.
use open_api_gateway.Prelude.{
  ◌-◌, String, true, false, if◌then◌else◌, none, some, [], ◌∷◌, leb, eq_iff, ◌≡◌, ◌≢◌, refl, arith,
}
use open_api_gateway.Prelude.Text.{parse_u16, decimal}
use open_api_gateway.RateLimit.{check}
use open_api_gateway.RateLimit.Bucket.{LocalBucket, new_bucket, try_consume}
use open_api_gateway.RateLimit.Bucket.Bounded.{
  Bounds, consume_at_times, consume_at_times-new_bucket,
}
use open_api_gateway.RateLimit.Degraded.{Call, AllFallBack, check_all-FallsBack}
use open_api_gateway.RateLimit.Keys.{check-other}
use open_api_gateway.RateLimit.Script.{
  Lua, Entry, Agrees, read_field, run_script, run_script-try_consume,
}
use open_api_gateway.Tests.Sample.{platform, world, limiter}

abbrev call : String → Call platform
call name = record { world = world; key = name; capacity = 5; refill_rate = 1 }

check_all-FallsBack_example :
    AllFallBack (call "a" ∷ call "a" ∷ call "b" ∷ call "a" ∷ []) (limiter false)
check_all-FallsBack_example =
    check_all-FallsBack (call "a" ∷ call "a" ∷ call "b" ∷ call "a" ∷ []) (limiter false) refl

differ : ◌≢◌ {A = String} "b" "a"
differ h = let e : false ≡ true = (eq_iff "b" "a").1 h in cc

check-other_example :
    (check platform world "b" 5 1 (check platform world "a" 5 1 (limiter false)).0).1
    ≡ (check platform world "b" 5 1 (limiter false)).1
check-other_example = check-other world world "a" "b" 5 5 1 1 (limiter false) refl differ

abbrev lua : Lua platform
lua = record {
  min = λ a b. if leb a b then a else b;
  floor = λ n. n;
  ceil = λ n. n;
  tonumber = parse_u16;
  tostring = decimal;
}

abbrev entry : Entry
entry = record { tokens = some "2"; last_refill_ms = some "0"; ttl_seconds = none }

abbrev bucket : LocalBucket platform
bucket = record { tokens = 2; capacity = 3; refill_rate = 1; last_refill = 0 }

tokens_read : read_field lua entry.tokens bucket.capacity ≡ bucket.tokens
unfolding read_field parse_u16
tokens_read = refl

elapsed :
    platform.div (platform.sub 1000 (read_field lua entry.last_refill_ms 1000)) 1000
    ≡ platform.as_secs (1000000000 - bucket.last_refill)
unfolding read_field parse_u16
elapsed = refl

run_script-try_consume_example :
    Agrees lua
      (run_script lua 1000 3 1 1 "6" entry)
      entry
      1000
      "6"
      (try_consume platform 1000000000 bucket)
run_script-try_consume_example =
    run_script-try_consume lua 1000 "6" entry 1000000000 bucket (λ a b number positive. refl) refl
      refl tokens_read elapsed

bounds : Bounds platform
bounds = record { min_le = λ x c number. ground arith; sub_le = λ x c number. ground arith }

consume_at_times-new_bucket_example :
    leb (consume_at_times platform (5 ∷ 3 ∷ 4000000000 ∷ []) (new_bucket platform 2 1 0)).tokens 2
    ≡ true
consume_at_times-new_bucket_example =
    consume_at_times-new_bucket platform bounds 2 refl 1 0 (5 ∷ 3 ∷ 4000000000 ∷ [])
