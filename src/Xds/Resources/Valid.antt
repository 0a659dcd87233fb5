-- ===== src/Xds/Resources/Valid.antt =====
-- What a valid configuration and the encoder's success give for a snapshot, and the bounds of a
-- duration.
use open_api_gateway.Prelude.{
  ℕ, ◌+◌, ◌*◌, ◌/◌, ◌^◌, ◌<◌, String, Bool-cases, Option-cases, inl, inr, ◌≡◌, refl, arith,
}
use open_api_gateway.Prelude.Result.{Result, ok, err}
use open_api_gateway.Prelude.Text.{rsplit_colon, parse_u16, is_empty_text}
use open_api_gateway.Envoy.Endpoint as Bootstrap
use open_api_gateway.Xds.Resources.{ResourceError, invalid_endpoint, duration, parse_endpoint}

-- A duration holds all milliseconds of a 64-bit number, in fields that fit its i64 and i32.
pub duration_lem :
    (ms : ℕ)
    → ms < 2 ^ 64
    → ((duration ms).seconds * 1000 + (duration ms).nanos / 1000000 ≡ ms)
      × ((duration ms).seconds < 2 ^ 63)
      × ((duration ms).nanos < 1000000000)
unfolding duration
duration_lem ms h = (omega arith, omega arith, omega arith)

-- The error of the bootstrap's parser, as the control plane reports it.
abbrev pub as_resource_error :
    Result Bootstrap.EnvoyGenError (String × ℕ) → String → Result ResourceError (String × ℕ)
as_resource_error (ok a) endpoint = ok a
as_resource_error (err e) endpoint = err (invalid_endpoint endpoint)

-- The control plane and the bootstrap generator read every endpoint alike, though they check the
-- host and the port in different orders.
pub parse_endpoint-bootstrap :
    (endpoint : String)
    → parse_endpoint endpoint ≡ as_resource_error (Bootstrap.parse_endpoint endpoint) endpoint
unfolding parse_endpoint Bootstrap.parse_endpoint
parse_endpoint-bootstrap endpoint = elim (Option-cases (rsplit_colon endpoint)) [
  | inl e ↦ rw (e, parse_endpoint) refl
  | inr ((host, port), e) ↦
      rw (e, parse_endpoint)
        (elim (Option-cases (parse_u16 port)) [
          | inl n ↦
              rw n
                (elim (Bool-cases (is_empty_text host)) [ inl b ↦ rw b refl | inr b ↦ rw b refl ])
          | inr (k, n) ↦
              rw n
                (elim (Bool-cases (is_empty_text host)) [ inl b ↦ rw b refl | inr b ↦ rw b refl ])
        ])
]
