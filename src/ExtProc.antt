-- ===== src/ExtProc.antt =====
-- controlplane/src/extproc/: the answer to each message of Envoy's external processing, and the loop
-- over the messages of a stream. A message of the protocol has the fields that the program reads or
-- sets.
pub mod Laws
use Prim.Native.Char.{code}
use Prim.Native.String.{[] as empty, ◌∷◌ as ◌∷ₛ◌}
use mathlib.Core.Option
use open_api_gateway.Prelude.{
  ℕ, zero, suc, String, Bool, true, false, Option, none, some, List, [], ◌∷◌, find, eqb,
  if◌then◌else◌,
}
use open_api_gateway.Prelude.Result.{Result, ok, err}
use open_api_gateway.Prelude.Text.{eq_ignore_ascii_case, parse_unsigned, trim}

-- `split_once('=')`
unfoldable pub split_once_equals : String → Option (String × String)
split_once_equals empty = none
split_once_equals (c ∷ₛ s) =
    let later = Option.map (λ (before, after). (c ∷ₛ before, after)) (split_once_equals s) in
    if eqb (code c) b'=' then some ("", s) else later

-- The kinds of a `ProcessingRequest`, the request's headers by their keys and values.
pub data ProcessingRequest : Type 0 where
  request_headers : List (String × String) → ProcessingRequest
  request_body : ProcessingRequest
  response_headers : ProcessingRequest
  response_body : ProcessingRequest
  no_request : ProcessingRequest

-- The kinds of a `ProcessingResponse`: the answer to request headers may set one header, and the
-- others change nothing.
pub data ProcessingResponse : Type 0 where
  immediate_response : (status : ℕ) → (body : String) → ProcessingResponse
  request_headers_response : Option (String × String) → ProcessingResponse
  request_body_response : ProcessingResponse
  response_headers_response : ProcessingResponse
  response_body_response : ProcessingResponse
  no_response : ProcessingResponse

-- The value of the first header of a key, in any case.
unfoldable pub header_value : String → List (String × String) → Option String
unfolding eq_ignore_ascii_case
header_value key [] = none
header_value key ((k, value) ∷ headers) =
    if eq_ignore_ascii_case k key then some value else header_value key headers

abbrev pub or_else {ℓ} : {A : Type ℓ} → A → Option A → A
or_else a none = a
or_else a (some x) = x

unfoldable pub immediate_status : String → ℕ
unfolding parse_unsigned
immediate_status value = or_else 403 (parse_unsigned 4294967295 value)

unfoldable pub header_mutation : List (String × String) → Option (String × String)
unfolding header_value split_once_equals trim
header_mutation headers = elim (header_value "x-ext-proc-set-header" headers) [
  | none ↦ none
  | some value ↦ Option.map (λ (key, v). (trim key, trim v)) (split_once_equals value)
]

unfoldable pub process_headers : List (String × String) → ProcessingResponse
unfolding header_value immediate_status header_mutation
process_headers headers = elim (header_value "x-ext-proc-immediate-status" headers) [
  | none ↦ request_headers_response (header_mutation headers)
  | some value ↦
      immediate_response (immediate_status value)
        (or_else "blocked by ext_proc" (header_value "x-ext-proc-immediate-body" headers))
]

unfoldable pub empty_body_response : Bool → ProcessingResponse
empty_body_response true = request_body_response
empty_body_response false = response_body_response

unfoldable pub process : ProcessingRequest → ProcessingResponse
unfolding process_headers empty_body_response
process (request_headers headers) = process_headers headers
process request_body = empty_body_response true
process response_headers = response_headers_response
process response_body = empty_body_response false
process no_request = no_response

-- The loop of `ExtProcService::process`: a stream that ends after the messages or with an error,
-- and whose receiver takes so many answers.
unfoldable pub process_stream {ℓ} :
    {Status : Type ℓ}
    → ℕ
    → List (Result Status ProcessingRequest)
    → List (Result Status ProcessingResponse)
unfolding process
process_stream takes [] = []
process_stream zero (item ∷ items) = []
process_stream (suc takes) (ok message ∷ items) = ok (process message) ∷ process_stream takes items
process_stream (suc takes) (err status ∷ items) = err status ∷ []
