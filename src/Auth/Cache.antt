-- ===== src/Auth/Cache.antt =====
-- controlplane/src/auth/jwks_cache.rs, registry.rs and mod.rs: the keys of each provider. Times are in
-- nanoseconds.
pub mod Refresh
use open_api_gateway.Prelude.{
  ℕ, ◌*◌, ◌-◌, ◌%◌, ◌^◌, String, ◌==◌, ◌<>◌, Bool, true, false, not, Option, none, some, List, [],
  ◌∷◌, find, ltb, if◌then◌else◌,
}
use open_api_gateway.Prelude.Result.{Result, ok, err, ◌>>=◌}
use open_api_gateway.Config.Types.{AuthProvider}
use open_api_gateway.Auth.Error.{AuthError}
use open_api_gateway.Auth.Types.{Jwt, JwksKey, JwksRawKey, JwksDocument, ValidatedIdentity}
use open_api_gateway.Auth.Validator.{validate_token, map_err}

-- `STALE_FACTOR`
abbrev pub stale_factor : ℕ
stale_factor = 10

-- Why the HTTP request or the reading of its body failed.
abbrev pub fetch_error : String → AuthError
fetch_error = AuthError.jwks_fetch

-- `Err(AuthError::UnknownKeyId) => …, other => other`
unfoldable pub retry_unknown :
    Result AuthError ValidatedIdentity
    → Result AuthError ValidatedIdentity
    → Result AuthError ValidatedIdentity
retry_unknown (err AuthError.unknown_key_id) again = again
retry_unknown other again = other

module _ (j : Jwt) where
  -- The cache with the contents of its lock.
  pub record JwksCache : Type 0 where
    pub provider : AuthProvider
    pub keys : List (JwksKey j)
    pub fetched_at : ℕ

  unfoldable pub is_stale : ℕ → JwksCache → Bool
  is_stale now cache =
      ltb (cache.provider.cache_ttl_seconds * stale_factor % 2 ^ 64 * 1000000000)
        (now - cache.fetched_at)

  -- `DecodingKey::from_rsa_components(…)?` with the loop's `push`
  unfoldable pub decode_key : JwksRawKey → Result AuthError (JwksKey j)
  decode_key raw =
      map_err (λ e. AuthError.jwks_fetch ("failed to parse RSA key kid=" <> raw.kid <> ": " <> e))
        (j.from_rsa_components raw.n raw.e)
      >>= λ key. ok record { kid = raw.kid; decoding_key = key }

  unfoldable pub parse_keys : List JwksRawKey → Result AuthError (List (JwksKey j))
  unfolding decode_key
  parse_keys [] = ok []
  parse_keys (raw ∷ raws) =
      let rest = parse_keys raws in
      if not (raw.kty == "RSA")
      then rest
      else decode_key raw >>= λ key. rest >>= λ keys. ok (key ∷ keys)

  unfoldable pub parse_jwks_keys : JwksDocument → Result AuthError (List (JwksKey j))
  unfolding parse_keys
  parse_jwks_keys doc = parse_keys doc.keys

  unfoldable pub store :
      ℕ → Result AuthError (List (JwksKey j)) → JwksCache → JwksCache × Result AuthError (Unit {0})
  store now (ok keys) cache =
      (record { provider = cache.provider; keys = keys; fetched_at = now }, ok tt)
  store now (err e) cache = (cache, err e)

  -- `fetch_and_store`, with what the HTTP request for the document gives
  unfoldable pub fetch_and_store :
      ℕ → Result String JwksDocument → JwksCache → JwksCache × Result AuthError (Unit {0})
  unfolding parse_jwks_keys store
  fetch_and_store now reply cache = store now (map_err fetch_error reply >>= parse_jwks_keys) cache

  -- `JwksCacheRegistry::get`; the names of the registry are those of the caches' providers
  unfoldable pub get : String → List JwksCache → Option JwksCache
  get name caches = find (λ c. c.provider.name == name) caches

  unfoldable pub all_healthy : ℕ → List JwksCache → Bool
  unfolding is_stale
  all_healthy now [] = true
  all_healthy now (cache ∷ caches) = if is_stale now cache then false else all_healthy now caches

  -- `validate_with_refresh`, with the keys that are in the cache after the wait for the refresh
  unfoldable pub validate_with_refresh :
      ℕ
      → String
      → AuthProvider
      → JwksCache
      → List (JwksKey j)
      → List String
      → Result AuthError ValidatedIdentity
  unfolding is_stale retry_unknown validate_token
  validate_with_refresh now raw_token provider cache refreshed required_scopes =
      if is_stale now cache
      then err AuthError.auth_provider_unavailable
      else retry_unknown (validate_token j raw_token provider cache.keys required_scopes)
          (validate_token j raw_token provider refreshed required_scopes)
