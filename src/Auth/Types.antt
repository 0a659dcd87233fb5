-- ===== src/Auth/Types.antt =====
-- controlplane/src/auth/types.rs, and what the program takes from the crate `jsonwebtoken`.
use open_api_gateway.Prelude.{ℕ, String, ◌==◌, Bool, Option, List, any}
use open_api_gateway.Prelude.Result.{Result}

-- `i64`
pub data ℤ : Type 0 where
  pos : ℕ → ℤ
  negsuc : ℕ → ℤ

pub record ValidatedIdentity : Type 0 where
  pub sub : String
  pub iss : String
  pub aud : List String
  pub scopes : List String
  pub exp_unix : ℤ

pub data Audience : Type 0 where
  single : String → Audience
  multiple : List String → Audience

unfoldable pub contains : Audience → String → Bool
contains (single s) target = s == target
contains (multiple v) target = any (λ a. a == target) v

pub record Claims : Type 0 where
  pub sub : Option String
  pub iss : Option String
  pub aud : Audience
  pub exp : Option ℤ
  pub nbf : Option ℤ
  pub scope : Option String
  pub scp : Option (List String)

pub record JwksRawKey : Type 0 where
  pub kid : String
  pub kty : String
  pub alg : Option String
  pub n : String
  pub e : String

pub record JwksDocument : Type 0 where
  pub keys : List JwksRawKey

-- The algorithms of a token's header: the one that is accepted, or another, by its name.
pub data Algorithm : Type 0 where
  rs256 : Algorithm
  other_algorithm : String → Algorithm

pub record Header : Type 0 where
  pub alg : Algorithm
  pub kid : Option String

pub data ErrorKind : Type 0 where
  invalid_signature : ErrorKind
  invalid_issuer : ErrorKind
  invalid_audience : ErrorKind
  expired_signature : ErrorKind
  immature_signature : ErrorKind
  other_kind : String → ErrorKind

pub record Validation : Type 0 where
  pub algorithm : Algorithm
  pub issuer : List String
  pub audience : List String
  pub leeway : ℕ
  pub validate_exp : Bool
  pub validate_nbf : Bool
  pub required_spec_claims : List String

-- The functions of `jsonwebtoken`, and `str::split_whitespace`.
pub record Jwt : Type 1 where
  pub DecodingKey : Type 0
  pub from_rsa_components : String → String → Result String DecodingKey
  pub decode_header : String → Option Header
  pub decode : String → DecodingKey → Validation → Result ErrorKind Claims
  pub split_whitespace : String → List String

pub record JwksKey (j : Jwt) : Type 0 where
  pub kid : String
  pub decoding_key : j.DecodingKey
