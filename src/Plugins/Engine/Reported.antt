-- ===== src/Plugins/Engine/Reported.antt =====
-- The plugin that a chain names in its answer.
use mathlib.Core.List.{mem-cons}
use mathlib.Core.Logic.Or
use open_api_gateway.Prelude.{
  ℕ, String, Option, none, some, List, [], ◌∷◌, map, Mem, All, ◌≡◌, refl, sym, subst, arith,
}
use open_api_gateway.Prelude.Result.{Result, ok, err}
use open_api_gateway.Prelude.Maps.{lookup}
use open_api_gateway.Config.Types.{Platform}
use open_api_gateway.ExtAuthz.Events.{
  PluginRequest, PluginAccessResult, continue, short_circuit, error,
}
use open_api_gateway.Plugins.Lua.{
  Lua, Call, returned, raised, response_set_header, request_set_header, exit, PluginBinding,
  PluginExit, PluginEngine, PluginError,
}
use open_api_gateway.Plugins.Sdk.{
  RuntimeState, run_call, set_upstream_header, set_response_header, set_short_circuit, exit_error,
}
use open_api_gateway.Plugins.Engine.{Slot, execute_access}
use open_api_gateway.Plugins.Engine.Access.{Answers, answers}

module _ (names : List String) where
  abbrev pub IsOf : Option PluginExit → Type 0
  IsOf none = Unit
  IsOf (some e) = Mem e.plugin_name names

  abbrev pub IsOurs : RuntimeState → Type 0
  IsOurs st = IsOf st.short_circuit

  -- An answer that names one of the plugins, if it names any.
  abbrev pub IsReported : Result PluginError PluginAccessResult → Type 0
  IsReported (ok (short_circuit name status body headers d)) = Mem name names
  IsReported (ok (error name message type d)) = Mem name names
  IsReported _ = Unit

module _ {p : Platform} (l : Lua p) where
  set_upstream_header-short_circuit :
      (name value : String) (st : RuntimeState)
      → (set_upstream_header l name value st).0.short_circuit ≡ st.short_circuit
  unfolding set_upstream_header
  set_upstream_header-short_circuit name value st = ground arith

  run_call-IsOurs :
      (names : List String) (plugin : String) (c : Call l.State l.Error) (st : RuntimeState)
      → Mem plugin names
      → IsOurs names st
      → IsOurs names (run_call l plugin c st).1
  unfolding run_call set_response_header
  run_call-IsOurs names plugin (returned s) st m h = h
  run_call-IsOurs names plugin (raised s e) st m h = h
  run_call-IsOurs names plugin (response_set_header name value next) st m h =
      run_call-IsOurs names plugin next (set_response_header name value st) m h
  run_call-IsOurs names plugin (request_set_header name value next) st m h =
      run_call-IsOurs names plugin (next (set_upstream_header l name value st).1)
        (set_upstream_header l name value st).0 m
        (subst (IsOf names) (sym (set_upstream_header-short_circuit name value st)) h)
  run_call-IsOurs names plugin (exit status body next) st m h =
      run_call-IsOurs names plugin (next (exit_error l)) (set_short_circuit status body plugin st) m
        m

  -- The names of the plugins bound to the request's route.
  unfoldable pub plugins_of : PluginEngine l → PluginRequest → List String
  plugins_of engine request = elim (lookup request.route_name engine.runtime.chains) [
    | none ↦ []
    | some chain ↦ map (λ b. b.name) chain.bindings
  ]

  All-Mem :
      (bindings : List (PluginBinding l)) (names : List String)
      → ((n : String) → Mem n (map (λ b. b.name) bindings) → Mem n names)
      → All (λ b. Mem b.name names) bindings
  All-Mem [] names f = tt
  All-Mem (b ∷ bindings) names f = (
    f b.name (mem-cons.1 (Or.inl refl)),
    All-Mem bindings names (λ n m. f n (mem-cons.1 (Or.inr m))),
  )

  Answers-IsReported :
      (names : List String) (r : Result PluginError PluginAccessResult)
      → Answers l (λ n. Mem n names) (IsOurs names) r
      → IsReported names r
  Answers-IsReported names (ok (continue u r d)) h = tt
  Answers-IsReported names (ok (short_circuit n s b hs d)) (st, h, _, e) = subst (IsOf names) e h
  Answers-IsReported names (ok (error n m t d)) h = h
  Answers-IsReported names (err e) h = tt

  -- A short circuit or an error of a chain names a plugin that is bound to the request's route.
  pub execute_access-IsReported :
      (engine : PluginEngine l) (request : PluginRequest) (started : ℕ) (slot : Slot l)
      → IsReported (plugins_of engine request) (execute_access l engine request started slot).1
  unfolding plugins_of
  execute_access-IsReported engine request started slot =
      Answers-IsReported (plugins_of engine request)
        (execute_access l engine request started slot).1
        (answers l (λ n. Mem n (plugins_of engine request)) (IsOurs (plugins_of engine request))
          (λ plugin c st m h. run_call-IsOurs (plugins_of engine request) plugin c st m h) engine
          request started slot
          (λ chain e.
            All-Mem chain.bindings (plugins_of engine request) (λ n m. rw (e, plugins_of) m))
          tt)
