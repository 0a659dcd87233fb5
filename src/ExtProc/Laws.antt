-- ===== src/ExtProc/Laws.antt =====
-- What the external processor answers.

use open_api_gateway.Prelude.{
  ℕ, String, Option, none, some, List, ◌⊎◌, ◌≡◌, refl, Option-cases, inl, inr,
}
use open_api_gateway.Prelude.Text.{trim, parse_unsigned}
use open_api_gateway.ExtProc.{
  ProcessingRequest, request_headers, request_body, response_headers, response_body, no_request,
  ProcessingResponse, immediate_response, request_headers_response, request_body_response,
  response_headers_response, response_body_response, no_response, split_once_equals, header_value,
  immediate_status, header_mutation, process_headers, process, or_else,
}

-- Which answers fit a request: the answer of its own kind, which changes a header only for request
-- headers that ask for it, or an immediate one for request headers that ask for one, with the status
-- of the header or 403, and its body or the default.
pub data Fits : ProcessingRequest → ProcessingResponse → Type 0 where
  immediate :
      (headers : List (String × String)) (value : String) (status : ℕ) (body : String)
      → header_value "x-ext-proc-immediate-status" headers ≡ some value
      → (parse_unsigned 4294967295 value ≡ some status)
        ⊎ ((parse_unsigned 4294967295 value ≡ none) × (status ≡ 403))
      → (header_value "x-ext-proc-immediate-body" headers ≡ some body)
        ⊎ ((header_value "x-ext-proc-immediate-body" headers ≡ none)
            × (body ≡ "blocked by ext_proc"))
      → Fits (request_headers headers) (immediate_response status body)
  unchanged :
      (headers : List (String × String))
      → header_value "x-ext-proc-immediate-status" headers ≡ none
      → (header_value "x-ext-proc-set-header" headers ≡ none)
        ⊎ ((value : String) × (header_value "x-ext-proc-set-header" headers ≡ some value)
            × (split_once_equals value ≡ none))
      → Fits (request_headers headers) (request_headers_response none)
  set :
      (headers : List (String × String)) (value key v : String)
      → header_value "x-ext-proc-immediate-status" headers ≡ none
      → header_value "x-ext-proc-set-header" headers ≡ some value
      → split_once_equals value ≡ some (key, v)
      → Fits (request_headers headers) (request_headers_response (some (trim key, trim v)))
  request_body_fits : Fits request_body request_body_response
  response_headers_fits : Fits response_headers response_headers_response
  response_body_fits : Fits response_body response_body_response
  nothing : Fits no_request no_response

or_else-cases {ℓ} :
    {A : Type ℓ} (a : A) (o : Option A)
    → (o ≡ some (or_else a o)) ⊎ ((o ≡ none) × (or_else a o ≡ a))
or_else-cases a none = inr (refl, refl)
or_else-cases a (some x) = inl refl

process_headers-Fits :
    (headers : List (String × String)) → Fits (request_headers headers) (process_headers headers)
unfolding process_headers header_mutation immediate_status
process_headers-Fits headers =
    elim (Option-cases (header_value "x-ext-proc-immediate-status" headers)) [
      | inr (value, e) ↦
          rw (e, process_headers)
            (immediate headers value _ _ e (or_else-cases 403 (parse_unsigned 4294967295 value)) (
              or_else-cases "blocked by ext_proc"
                (header_value "x-ext-proc-immediate-body" headers)))
      | inl e ↦
          rw (e, process_headers)
            (elim (Option-cases (header_value "x-ext-proc-set-header" headers)) [
              | inl m ↦ rw (m, header_mutation) (unchanged headers e (inl m))
              | inr (value, m) ↦ elim (Option-cases (split_once_equals value)) [
                | inl s ↦ rw (m, header_mutation, s) (unchanged headers e (inr (value, m, s)))
                | inr ((key, v), s) ↦ rw (m, header_mutation, s) (set headers value key v e m s)
              ]
            ])
    ]

-- Every message is answered by an answer that fits it.
pub process-Fits : (request : ProcessingRequest) → Fits request (process request)
unfolding process
process-Fits (request_headers headers) = process_headers-Fits headers
process-Fits request_body = request_body_fits
process-Fits response_headers = response_headers_fits
process-Fits response_body = response_body_fits
process-Fits no_request = nothing
