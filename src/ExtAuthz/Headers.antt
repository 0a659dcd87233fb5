-- ===== src/ExtAuthz/Headers.antt =====
-- The headers and responses of controlplane/src/extauthz/helpers.rs.
use open_api_gateway.Prelude.{
  ℕ, zero, ◌+◌, ◌/◌, String, ◌==◌, Bool, true, false, not, Option, none, some, List, [], ◌∷◌,
  if◌then◌else◌,
}
use open_api_gateway.Prelude.Text.{trim, is_empty_text, before_comma, strip_prefix, decimal}
use open_api_gateway.RateLimit.{RateDecision, as_header_value}

-- What the program takes from the crate `http`: header names are texts in their normal form.
pub record Http : Type 1 where
  pub HeaderValue : Type 0
  -- `parse::<HeaderValue>().ok()` and `to_str().ok()`
  pub parse_value : String → Option HeaderValue
  pub to_str : HeaderValue → Option String
  -- `parse::<HeaderName>().ok()`
  pub parse_name : String → Option String
  -- `StatusCode::from_u16(n).is_ok()`
  pub is_status : ℕ → Bool

pub data Body : Type 0 where
  no_body : Body
  json_error : String → Body
  json_plugin_error : String → String → Body
  text_body : String → Body

pub data BearerResult : Type 0 where
  valid : String → BearerResult
  malformed : BearerResult

-- `if let Some(v) = o { f(v, x) } else { x }`
abbrev pub when_some {ℓ κ} : {A : Type ℓ} {B : Type κ} → Option A → (A → B → B) → B → B
when_some none f x = x
when_some (some a) f x = f a x

-- `?` on an option
abbrev pub and_then {ℓ κ} : {A : Type ℓ} {B : Type κ} → Option A → (A → Option B) → Option B
and_then none f = none
and_then (some a) f = f a

-- `n.max(1)`
abbrev pub at_least_one : ℕ → ℕ
at_least_one zero = 1
at_least_one n = n

module _ (h : Http) where
  -- A `HeaderMap` with one value for each name.
  abbrev pub HeaderMap : Type 0
  HeaderMap = List (String × h.HeaderValue)

  pub record Response : Type 0 where
    pub status : ℕ
    pub headers : HeaderMap
    pub body : Body

  unfoldable pub insert : String → h.HeaderValue → HeaderMap → HeaderMap
  insert name value [] = (name, value) ∷ []
  insert name value ((n, v) ∷ rest) =
      let later = insert name value rest in if n == name then (n, value) ∷ rest else (n, v) ∷ later

  unfoldable pub get_header : String → HeaderMap → Option h.HeaderValue
  get_header name [] = none
  get_header name ((n, v) ∷ rest) = if n == name then some v else get_header name rest

  unfoldable pub header_str : HeaderMap → String → Option String
  unfolding get_header
  header_str headers name = and_then (get_header name headers) h.to_str

  unfoldable pub extract_bearer : HeaderMap → Option BearerResult
  unfolding header_str
  extract_bearer headers = and_then (header_str headers "authorization") λ value.
      and_then (strip_prefix "Bearer " value)
        λ token. some (if is_empty_text token then malformed else valid token)

  -- The address that Envoy saw, where no other is trusted.
  unfoldable pub external_address : HeaderMap → String
  unfolding header_str
  external_address headers = elim (header_str headers "x-envoy-external-address") [
    | none ↦ "0.0.0.0"
    | some address ↦ address
  ]

  unfoldable pub client_ip : HeaderMap → Bool → String
  unfolding header_str external_address
  client_ip headers false = external_address headers
  client_ip headers true = elim (header_str headers "x-forwarded-for") [
    | none ↦ external_address headers
    | some xff ↦
        let ip = trim (before_comma xff) in
        if not (is_empty_text ip) then ip else external_address headers
  ]

  -- `if let Ok(v) = text.parse() { headers.insert(name, v); }`
  unfoldable pub insert_text : String → String → HeaderMap → HeaderMap
  unfolding insert
  insert_text name text headers = when_some (h.parse_value text) (insert name) headers

  unfoldable pub insert_rate_limit_headers : ℕ → RateDecision → HeaderMap → HeaderMap
  unfolding insert_text
  insert_rate_limit_headers now_secs decision headers =
      insert_text "x-rate-limit-reset"
        (decimal (now_secs + at_least_one (decision.retry_after_ms / 1000)))
        (insert_text "x-rate-limit-mode" (as_header_value decision.mode) (
          insert_text "x-rate-limit-limit" (decimal decision.limit)
            (insert_text "x-rate-limit-remaining" (decimal decision.remaining) headers)))

  -- The entries of a `HashMap`, in the order it gives them.
  unfoldable pub insert_string_headers : List (String × String) → HeaderMap → HeaderMap
  unfolding insert
  insert_string_headers [] headers = headers
  insert_string_headers ((name, value) ∷ values) headers = insert_string_headers values (
      when_some (h.parse_name name) (λ n hs. when_some (h.parse_value value) (insert n) hs) headers)

  unfoldable pub overload_response : String → Response
  unfolding insert_text
  overload_response request_id = record {
    status = 503;
    headers =
        insert_text "x-request-id" request_id
          (insert_text "retry-after" "1" (insert_text "x-gateway-overloaded" "true" []));
    body = json_error "gateway_overloaded";
  }

  unfoldable pub allow_response : HeaderMap → String → Response
  unfolding insert_text
  allow_response headers request_id = record {
    status = 200;
    headers = insert_text "x-request-id" request_id headers;
    body = no_body;
  }

  unfoldable pub deny_response : ℕ → String → String → Response
  unfolding insert_text
  deny_response status error_code request_id = record {
    status = status;
    headers = insert_text "x-request-id" request_id [];
    body = json_error error_code;
  }
