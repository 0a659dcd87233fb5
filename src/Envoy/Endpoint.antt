-- ===== src/Envoy/Endpoint.antt =====
-- `parse_endpoint` of controlplane/src/config/envoy_gen.rs, and its error type.
pub mod Laws
use open_api_gateway.Prelude.{
  ℕ, String, Option, none, some, if◌then◌else◌, ◌≡◌, refl, arith, sym, ◌≢◌, ◌≤◌, ◌<◌,
}
use open_api_gateway.Prelude.Result.{Result, ok, err, ◌>>=◌}
use open_api_gateway.Prelude.Text.{rsplit_colon, parse_u16, is_empty_text}

pub data EnvoyGenError : Type 0 where
  invalid_endpoint : String → EnvoyGenError
  serialization : EnvoyGenError

abbrev pub ok_or {ℓ} : {A : Type ℓ} → Option A → EnvoyGenError → Result EnvoyGenError A
ok_or none e = err e
ok_or (some a) e = ok a

unfoldable pub parse_endpoint : String → Result EnvoyGenError (String × ℕ)
parse_endpoint endpoint = do
  (host, port_str) ← ok_or (rsplit_colon endpoint) (invalid_endpoint endpoint)
  if is_empty_text host
      then err (invalid_endpoint endpoint)
      else (ok_or (parse_u16 port_str) (invalid_endpoint endpoint) >>= λ port. ok (host, port))
