-- ===== src/Auth/Validator.antt =====
-- controlplane/src/auth/validator.rs
pub mod Sound
pub mod Complete
use open_api_gateway.Prelude.{
  String, ◌==◌, Bool, true, false, Option, none, some, List, [], ◌∷◌, any, find, if◌then◌else◌,
}
use open_api_gateway.Prelude.Result.{Result, ok, err, ◌>>=◌}
use open_api_gateway.Config.Types.{AuthProvider}
use open_api_gateway.Auth.Error.{AuthError}
use open_api_gateway.Auth.Types.{
  ℤ, pos, ValidatedIdentity, Audience, single, multiple, Claims, Algorithm, rs256, other_algorithm,
  Header, ErrorKind, Validation, Jwt, JwksKey,
}

abbrev pub ok_or {ℓ} : {A : Type ℓ} → AuthError → Option A → Result AuthError A
ok_or e none = err e
ok_or e (some a) = ok a

abbrev pub unwrap_or {ℓ} : {A : Type ℓ} → A → Option A → A
unwrap_or a none = a
unwrap_or a (some b) = b

-- `map_err(|e| match e.kind() { … })`
unfoldable pub error_of_kind : ErrorKind → AuthError
error_of_kind ErrorKind.invalid_signature = AuthError.invalid_signature
error_of_kind ErrorKind.invalid_issuer = AuthError.invalid_issuer
error_of_kind ErrorKind.invalid_audience = AuthError.invalid_audience
error_of_kind ErrorKind.expired_signature = AuthError.token_expired
error_of_kind ErrorKind.immature_signature = AuthError.token_not_yet_valid
error_of_kind (ErrorKind.other_kind _) = AuthError.invalid_token

abbrev pub map_err {ℓ κ μ} :
    {E : Type ℓ} {F : Type κ} {A : Type μ} → (E → F) → Result E A → Result F A
map_err f (ok a) = ok a
map_err f (err e) = err (f e)

unfoldable pub validation_of : AuthProvider → Validation
validation_of provider = record {
  algorithm = rs256;
  issuer = provider.issuer ∷ [];
  audience = provider.audience ∷ [];
  leeway = provider.clock_skew_seconds;
  validate_exp = true;
  validate_nbf = true;
  required_spec_claims = "exp" ∷ "iss" ∷ "aud" ∷ [];
}

-- `if header.alg != Algorithm::RS256`
abbrev pub check_algorithm : Algorithm → Result AuthError (Unit {0})
check_algorithm rs256 = ok tt
check_algorithm (other_algorithm _) = err AuthError.unsupported_algorithm

unfoldable pub check_scopes : List String → List String → Result AuthError (Unit {0})
check_scopes token_scopes [] = ok tt
check_scopes token_scopes (req ∷ required) =
    if any (λ s. s == req) token_scopes
    then check_scopes token_scopes required
    else err AuthError.insufficient_scopes

abbrev pub audience_list : Audience → List String
audience_list (single s) = s ∷ []
audience_list (multiple v) = v

module _ (j : Jwt) where
  unfoldable pub decode_and_verify : String → j.DecodingKey → AuthProvider → Result AuthError Claims
  unfolding error_of_kind validation_of
  decode_and_verify raw_token decoding_key provider =
      map_err error_of_kind (j.decode raw_token decoding_key (validation_of provider))

  unfoldable pub extract_scopes : Claims → List String
  extract_scopes claims = elim claims.scope [
    | some scope_str ↦ j.split_whitespace scope_str
    | none ↦ unwrap_or [] claims.scp
  ]

  unfoldable pub identity_of : Claims → Result AuthError ValidatedIdentity
  unfolding extract_scopes
  identity_of claims = ok_or AuthError.missing_subject claims.sub >>= (λ sub. ok record {
    sub = sub;
    iss = unwrap_or "" claims.iss;
    aud = audience_list claims.aud;
    scopes = extract_scopes claims;
    exp_unix = unwrap_or (pos 0) claims.exp;
  })

  unfoldable pub validate_token :
      String → AuthProvider → List (JwksKey j) → List String → Result AuthError ValidatedIdentity
  unfolding decode_and_verify extract_scopes check_scopes identity_of
  validate_token raw_token provider keys required_scopes =
      ok_or AuthError.invalid_token (j.decode_header raw_token) >>= λ header.
      check_algorithm header.alg >>= λ _. ok_or AuthError.unknown_key_id header.kid >>= λ kid.
      ok_or AuthError.unknown_key_id (find (λ k. k.kid == kid) keys) >>= λ key.
      decode_and_verify raw_token key.decoding_key provider >>= λ claims.
      check_scopes (extract_scopes claims) required_scopes >>= λ _. identity_of claims
