-- ===== src/Auth/Cache/Refresh.antt =====
-- What the refresh of the keys in controlplane/src/auth/ lets through.
use open_api_gateway.Prelude.{
  ℕ, String, ◌==◌, false, List, [], ◌∷◌, filter, map, ◌≡◌, ◌⊎◌, refl, sym, ap, ◌∙◌, Bool-cases, inl,
  inr,
}
use open_api_gateway.Prelude.Result.{Result, ok, err}
use open_api_gateway.Config.Types.{AuthProvider}
use open_api_gateway.Auth.Error.{AuthError}
use open_api_gateway.Auth.Types.{Jwt, JwksKey, JwksRawKey, JwksDocument, ValidatedIdentity}
use open_api_gateway.Auth.Validator.{validate_token}
use open_api_gateway.Auth.Validator.Sound.{IsAuthentic, validate_token-IsAuthentic}
use open_api_gateway.Prelude.Result.{bind_ok, ok_inj}
use open_api_gateway.Auth.Cache.{
  JwksCache, is_stale, retry_unknown, validate_with_refresh, decode_key, parse_keys,
  parse_jwks_keys,
}

retry_unknown-ok :
    (r again : Result AuthError ValidatedIdentity) (i : ValidatedIdentity)
    → retry_unknown r again ≡ ok i
    → (r ≡ ok i) ⊎ ((r ≡ err AuthError.unknown_key_id) × (again ≡ ok i))
unfolding retry_unknown
retry_unknown-ok (ok a) again i h = inl h
retry_unknown-ok (err AuthError.unknown_key_id) again i h = inr (refl, h)
retry_unknown-ok (err e) again i h = absurd (cc)

module _ {j : Jwt} where
  -- An identity is only given if the cache is not stale, and then the token is authentic under the
  -- keys of the cache, or its key was unknown there and it is authentic under the refreshed keys.
  pub validate_with_refresh-IsAuthentic :
      (now : ℕ) (raw_token : String) (provider : AuthProvider) (cache : JwksCache j)
      (refreshed : List (JwksKey j)) (required : List String) (identity : ValidatedIdentity)
      → validate_with_refresh j now raw_token provider cache refreshed required ≡ ok identity
      → (is_stale j now cache ≡ false)
        × (IsAuthentic raw_token provider cache.keys required identity
            ⊎ ((validate_token j raw_token provider cache.keys required
                  ≡ err AuthError.unknown_key_id)
                × IsAuthentic raw_token provider refreshed required identity))
  unfolding validate_with_refresh
  validate_with_refresh-IsAuthentic now raw_token provider cache refreshed required identity h =
      elim (Bool-cases (is_stale j now cache)) [
        | inl e ↦ absurd (let bad = rw e at h in cc)
        | inr e ↦ (
          e,
          elim (retry_unknown-ok _ _ identity (rw e at h)) [
            | inl first ↦
                inl
                  (validate_token-IsAuthentic raw_token provider cache.keys required identity first)
            | inr (unknown, again) ↦ inr (
              unknown,
              validate_token-IsAuthentic raw_token provider refreshed required identity again,
            )
          ],
        )
      ]

  parse_keys-decode_key :
      (raws : List JwksRawKey) (keys : List (JwksKey j))
      → parse_keys j raws ≡ ok keys
      → map ok keys ≡ map (decode_key j) (filter (λ raw. raw.kty == "RSA") raws)
  unfolding parse_keys filter
  parse_keys-decode_key [] keys h = ap (map ok) (sym (ok_inj [] keys h))
  parse_keys-decode_key (raw ∷ raws) keys h = elim (Bool-cases (raw.kty == "RSA")) [
    | inr e ↦ rw e (parse_keys-decode_key raws keys (rw e at h))
    | inl e ↦
        let bound = rw e at h in
        let (key, decoded, h1) = bind_ok (decode_key j raw) _ keys bound in
        let (rest, parsed, h2) = bind_ok (parse_keys j raws) _ keys h1 in
        let same = ok_inj (key ∷ rest) keys h2 in
        let later = parse_keys-decode_key raws rest parsed in
        rw (e, decoded) (ap (map ok) (sym same) ∙ ap (◌∷◌ (ok key)) later)
  ]

  -- The keys of a document that parses are its RSA keys, each decoded, all of them and in order.
  pub parse_jwks_keys-decode_key :
      (doc : JwksDocument) (keys : List (JwksKey j))
      → parse_jwks_keys j doc ≡ ok keys
      → map ok keys ≡ map (decode_key j) (filter (λ raw. raw.kty == "RSA") doc.keys)
  unfolding parse_jwks_keys
  parse_jwks_keys-decode_key doc keys h = parse_keys-decode_key doc.keys keys h
