-- ===== src/Auth/Error.antt =====
-- controlplane/src/auth/error.rs
use open_api_gateway.Prelude.{ℕ, String}

pub data AuthError : Type 0 where
  missing_token : AuthError
  invalid_token_format : AuthError
  invalid_token : AuthError
  unsupported_algorithm : AuthError
  unknown_key_id : AuthError
  invalid_signature : AuthError
  invalid_issuer : AuthError
  invalid_audience : AuthError
  token_expired : AuthError
  token_not_yet_valid : AuthError
  missing_subject : AuthError
  insufficient_scopes : AuthError
  auth_provider_unavailable : AuthError
  jwks_fetch : String → AuthError

unfoldable pub http_status : AuthError → ℕ
http_status insufficient_scopes = 403
http_status auth_provider_unavailable = 503
http_status (jwks_fetch _) = 503
http_status _ = 401

unfoldable pub error_code : AuthError → String
error_code missing_token = "missing_token"
error_code invalid_token_format = "invalid_token_format"
error_code invalid_token = "invalid_token"
error_code unsupported_algorithm = "unsupported_algorithm"
error_code unknown_key_id = "unknown_key_id"
error_code invalid_signature = "invalid_signature"
error_code invalid_issuer = "invalid_issuer"
error_code invalid_audience = "invalid_audience"
error_code token_expired = "token_expired"
error_code token_not_yet_valid = "token_not_yet_valid"
error_code missing_subject = "missing_subject"
error_code insufficient_scopes = "insufficient_scopes"
error_code auth_provider_unavailable = "auth_provider_unavailable"
error_code (jwks_fetch _) = "auth_provider_unavailable"
