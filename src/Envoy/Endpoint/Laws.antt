-- ===== src/Envoy/Endpoint/Laws.antt =====
-- What `parse_endpoint` of controlplane/src/config/envoy_gen.rs accepts.
use open_api_gateway.Prelude.{
  ℕ, String, Bool, if◌then◌else◌, Option, some, false, ◌≡◌, ◌≢◌, ◌≤◌, arith, inl, inr, Option-cases,
}
use open_api_gateway.Prelude.Result.{Result, ok, err, ◌>>=◌}
use open_api_gateway.Prelude.Text.{rsplit_colon, parse_u16, is_empty_text, decimal}
use open_api_gateway.Prelude.Text.Colon.{
  LacksColon, with_colon, rsplit_colon-with_colon, rsplit_colon_sound,
}
use open_api_gateway.Prelude.Text.Decimal.{decimal-LacksColon, parse_u16-decimal, parse_u16-le}
use open_api_gateway.Config.Validity.{IsHostPort}
use open_api_gateway.Config.Validation.Laws.{not-is_empty_text, not_iff}
use open_api_gateway.Envoy.Endpoint.{EnvoyGenError, invalid_endpoint, ok_or, parse_endpoint}

parse_endpoint-with_colon :
    (host port : String) (n : ℕ)
    → LacksColon port
    → parse_u16 port ≡ some n
    → host ≢ ""
    → parse_endpoint (with_colon host port) ≡ ok (host, n)
unfolding parse_endpoint
parse_endpoint-with_colon host port n lacks read named =
    let split = rsplit_colon-with_colon host port lacks in
    let full : is_empty_text host ≡ false =
      (not_iff (is_empty_text host)).0 ((not-is_empty_text host).1 named) in
    rw (split, parse_endpoint, full, read)

-- An address that the validation accepts is one that the generator parses, with the same parts.
pub IsHostPort-parse_endpoint :
    (endpoint : String)
    → IsHostPort endpoint
    → (host : String) × (port : ℕ) × (parse_endpoint endpoint ≡ ok (host, port))
IsHostPort-parse_endpoint endpoint (host, port, n, joined, lacks, read, named) =
    (host, n, rw joined (parse_endpoint-with_colon host port n lacks read named))

-- `parse_endpoint` reads back what is written as `host:port`, for every host that is not empty, also
-- one that holds colons, and every port of 16 bits.
pub parse_endpoint_roundtrip :
    (host : String) (port : ℕ)
    → host ≢ ""
    → port ≤ 65535
    → parse_endpoint (with_colon host (decimal port)) ≡ ok (host, port)
parse_endpoint_roundtrip host port named small =
    parse_endpoint-with_colon host (decimal port) port (decimal-LacksColon port)
      (parse_u16-decimal port small) named

parts_of_ok :
    (blank : Bool) (read : Option ℕ) (e : EnvoyGenError) (before host : String) (port : ℕ)
    → ◌≡◌ {A = Result EnvoyGenError (String × ℕ)}
        (if blank then err e else (ok_or read e >>= λ n. ok (before, n)))
        (ok (host, port))
    → (blank ≡ false) × (read ≡ some port) × (before ≡ host)
parts_of_ok blank read e before host port h = ground arith

-- The other way round: what is parsed is the text before the last colon and the number behind it,
-- so the address is valid.
pub parse_endpoint_sound :
    (endpoint host : String) (port : ℕ)
    → parse_endpoint endpoint ≡ ok (host, port)
    → IsHostPort endpoint
      × (port ≤ 65535)
      × ((digits : String) × (endpoint ≡ with_colon host digits) × (parse_u16 digits ≡ some port))
unfolding parse_endpoint
parse_endpoint_sound endpoint host port h = elim (Option-cases (rsplit_colon endpoint)) [
  | inl e ↦ absurd (let bad = rw (e, parse_endpoint) at h in cc)
  | inr ((before, after), e) ↦
      let (full, read, same) =
        parts_of_ok (is_empty_text before) (parse_u16 after) (invalid_endpoint endpoint) before host
          port (rw (e, parse_endpoint) at h) in
      let (joined, lacks) = rsplit_colon_sound endpoint before after e in
      let named = (not-is_empty_text before).0 ((not_iff (is_empty_text before)).1 full) in
      (
        (before, after, port, joined, lacks, read, named),
        parse_u16-le after port read,
        (after, rw same at joined, read),
      )
]
