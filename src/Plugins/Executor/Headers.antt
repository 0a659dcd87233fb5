-- ===== src/Plugins/Executor/Headers.antt =====
-- What plugins can put into the header maps of a chain.
use open_api_gateway.Prelude.{String, false, All, ◌≡◌, Bool-cases, inl, inr}
use open_api_gateway.Prelude.Maps.{put-All}
use open_api_gateway.Prelude.Text.Lower.{to_ascii_lowercase, to_ascii_lowercase_idem}
use open_api_gateway.Config.Types.{Platform}
use open_api_gateway.Plugins.Lua.{
  Lua, Call, returned, raised, response_set_header, request_set_header, exit,
}
use open_api_gateway.Plugins.Sdk.{
  RuntimeState, is_reserved, set_response_header, set_upstream_header, run_call, set_short_circuit,
  exit_error,
}

-- A name in lower case.
abbrev pub IsLower : String → Type 0
IsLower name = to_ascii_lowercase name ≡ name

-- A name that plugins may send upstream.
abbrev pub IsPermitted : String → Type 0
IsPermitted name = IsLower name × (is_reserved name ≡ false)

pub record HasCleanHeaders (st : RuntimeState) : Type 0 where
  pub upstream : All (λ e. IsPermitted e.0) st.upstream_headers
  pub response : All (λ e. IsLower e.0) st.response_headers

set_response_header-HasCleanHeaders :
    (name value : String) (st : RuntimeState)
    → HasCleanHeaders st
    → HasCleanHeaders (set_response_header name value st)
unfolding set_response_header
set_response_header-HasCleanHeaders name value st h = record {
  upstream = h.upstream;
  response =
      put-All (λ n _. IsLower n) (to_ascii_lowercase name) value st.response_headers
        (to_ascii_lowercase_idem name) h.response;
}

module _ {p : Platform} (l : Lua p) where
  set_upstream_header-HasCleanHeaders :
      (name value : String) (st : RuntimeState)
      → HasCleanHeaders st
      → HasCleanHeaders (set_upstream_header l name value st).0
  unfolding set_upstream_header
  set_upstream_header-HasCleanHeaders name value st h =
      elim (Bool-cases (is_reserved (to_ascii_lowercase name))) [
        | inl e ↦ rw e h
        | inr e ↦ rw e record {
          upstream =
              put-All (λ n _. IsPermitted n) (to_ascii_lowercase name) value st.upstream_headers
                (to_ascii_lowercase_idem name, e) h.upstream;
          response = h.response;
        }
      ]

  pub run_call-HasCleanHeaders :
      (plugin : String) (c : Call l.State l.Error) (st : RuntimeState)
      → HasCleanHeaders st
      → HasCleanHeaders (run_call l plugin c st).1
  unfolding run_call
  run_call-HasCleanHeaders plugin (returned s) st h = h
  run_call-HasCleanHeaders plugin (raised s e) st h = h
  run_call-HasCleanHeaders plugin (response_set_header name value next) st h =
      run_call-HasCleanHeaders plugin next (set_response_header name value st)
        (set_response_header-HasCleanHeaders name value st h)
  run_call-HasCleanHeaders plugin (request_set_header name value next) st h =
      run_call-HasCleanHeaders plugin (next (set_upstream_header l name value st).1)
        (set_upstream_header l name value st).0
        (set_upstream_header-HasCleanHeaders name value st h)
  run_call-HasCleanHeaders plugin (exit status body next) st h =
      run_call-HasCleanHeaders plugin (next (exit_error l))
        (set_short_circuit status body plugin st)
        record { upstream = h.upstream; response = h.response }
