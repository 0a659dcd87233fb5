-- ===== src/Envoy/Values.antt =====
-- The smallest values of controlplane/src/config/envoy_gen.rs.
use open_api_gateway.Prelude.{ℕ, ◌/◌, ◌%◌, String, ◌<>◌, [], ◌∷◌, eqb, if◌then◌else◌}
use open_api_gateway.Prelude.Text.{decimal, digit}
use open_api_gateway.Config.Types.{Platform}

-- `{frac:03}` of a number below 1000
unfoldable pub three_digits : ℕ → String
three_digits n =
    String.◌∷◌ (digit (n / 100)) (String.◌∷◌ (digit (n / 10 % 10)) (String.◌∷◌ (digit (n % 10)) ""))

unfoldable pub duration_string : ℕ → String
unfolding decimal three_digits
duration_string ms =
    let secs = ms / 1000 in
    let frac = ms % 1000 in
    if eqb frac 0 then decimal secs <> "s" else decimal secs <> ("." <> (three_digits frac <> "s"))

module _ (p : Platform) where
  open p use {Value, string, number, mapping}

  unfoldable pub build_socket_address : String → ℕ → Value
  build_socket_address host port = mapping (
      ("socket_address", mapping (("address", string host) ∷ ("port_value", number port) ∷ []))
      ∷ [])

  unfoldable pub build_admin : Value
  unfolding build_socket_address
  build_admin = mapping (("address", build_socket_address "127.0.0.1" 9901) ∷ [])
