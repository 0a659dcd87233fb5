-- ===== src/Plugins/Engine/Access.antt =====
-- What a chain can answer, whatever its plugins do.
use open_api_gateway.Prelude.{
  ℕ, String, some, Option-cases, List, [], ◌∷◌, All, ◌≡◌, refl, inl, inr,
}
use open_api_gateway.Prelude.Result.{Result, ok, err}
use open_api_gateway.Prelude.Maps.{lookup}
use open_api_gateway.Config.Types.{Platform}
use open_api_gateway.ExtAuthz.Events.{
  PluginRequest, PluginAccessResult, continue, short_circuit, error,
}
use open_api_gateway.Plugins.Lua.{Lua, PluginChain, PluginEngine, PluginError}
use open_api_gateway.Plugins.Lua.{PluginBinding}
use open_api_gateway.Plugins.Sdk.{RuntimeState, new_state}
use open_api_gateway.Plugins.Vm.{ThreadLocalVm, with_thread_local_vm, prepared, prepare}
use open_api_gateway.Plugins.Executor.Ending.{IsKept, Ends, run_access-Ends}
use open_api_gateway.Plugins.Executor.Headers.{
  HasCleanHeaders, IsLower, IsPermitted, run_call-HasCleanHeaders,
}
use open_api_gateway.Plugins.Engine.{Slot, access_with, execute_access}

module _ {p : Platform} (l : Lua p) (C : String → Type 0) (P : RuntimeState → Type 0) where
  abbrev pub Answers : Result PluginError PluginAccessResult → Type 0
  Answers (ok r) = Ends l C P r
  Answers (err e) = Unit

  access_with-Answers :
      (kept : IsKept l C P) (request : PluginRequest) (started limit : ℕ)
      (bindings : List (PluginBinding l)) (vm : ThreadLocalVm l)
      (t : l.State × Result l.Error l.Table)
      → All (λ b. C b.name) bindings
      → P new_state
      → Answers (access_with l request started limit bindings vm t).1
  unfolding access_with
  access_with-Answers kept request started limit bindings vm (lua, err e) c h = tt
  access_with-Answers kept request started limit bindings vm (lua, ok shared) c h =
      run_access-Ends l C P kept request shared started limit bindings (record vm { lua = lua })
        new_state c h

  in_vm-Answers :
      (generation : ℕ)
      (f : ThreadLocalVm l → ThreadLocalVm l × Result PluginError PluginAccessResult)
      → ((vm : ThreadLocalVm l) → Answers (f vm).1)
      → (x : ThreadLocalVm l × Result PluginError (Unit {0})) → Answers (prepared l f x).1
  unfolding prepared
  in_vm-Answers generation f h (vm, err e) = tt
  in_vm-Answers generation f h (vm, ok _) = h vm

  chain-Answers :
      (kept : IsKept l C P) (engine : PluginEngine l) (request : PluginRequest) (started : ℕ)
      (slot : Slot l) (chain : PluginChain l)
      → lookup request.route_name engine.runtime.chains ≡ some chain
      → All (λ b. C b.name) chain.bindings
      → P new_state
      → Answers (execute_access l engine request started slot).1
  unfolding execute_access with_thread_local_vm
  chain-Answers kept engine request started (err e) chain found c h = rw (found, execute_access) tt
  chain-Answers kept engine request started (ok vm) chain found c h =
      rw (found, execute_access)
        (in_vm-Answers engine.runtime.generation
          (λ v.
            access_with l request started engine.runtime.limits.chain_timeout_ms chain.bindings v
              (l.create_table v.lua))
          (λ v.
            access_with-Answers kept request started engine.runtime.limits.chain_timeout_ms
              chain.bindings v (l.create_table v.lua) c h)
          (prepare l engine.runtime.generation engine.runtime.limits vm))

  pub answers :
      (kept : IsKept l C P) (engine : PluginEngine l) (request : PluginRequest) (started : ℕ)
      (slot : Slot l)
      → ((chain : PluginChain l)
          → lookup request.route_name engine.runtime.chains ≡ some chain
          → All (λ b. C b.name) chain.bindings)
      → P new_state
      → Answers (execute_access l engine request started slot).1
  unfolding execute_access
  answers kept engine request started slot c h =
      elim (Option-cases (lookup request.route_name engine.runtime.chains)) [
        | inl e ↦ rw (e, execute_access) (new_state, h, refl, refl)
        | inr (chain, e) ↦ chain-Answers kept engine request started slot chain e (c chain e) h
      ]

-- An answer whose headers plugins may set, under names in lower case.
abbrev pub IsClean : Result PluginError PluginAccessResult → Type 0
IsClean (ok (continue upstream response d)) =
    All (λ e. IsPermitted e.0) upstream × All (λ e. IsLower e.0) response
IsClean (ok (short_circuit name status body headers d)) = All (λ e. IsLower e.0) headers
IsClean _ = Unit

All-true {ℓ} : {A : Type ℓ} (xs : List A) → All (λ x. Unit {0}) xs
All-true [] = tt
All-true (x ∷ xs) = (tt, All-true xs)

module _ {p : Platform} (l : Lua p) where
  Answers-IsClean :
      (r : Result PluginError PluginAccessResult)
      → Answers l (λ _. Unit {0}) HasCleanHeaders r
      → IsClean r
  Answers-IsClean (ok (continue u r d)) (st, h, eu, er) = rw (eu, er) (h.upstream, h.response)
  Answers-IsClean (ok (short_circuit n s b hs d)) (st, h, e, _) = rw e h.response
  Answers-IsClean (ok (error n m t d)) h = tt
  Answers-IsClean (err e) h = tt

  -- Whatever its plugins do, a chain sends no header upstream whose name starts with a reserved
  -- prefix, and all names in its header maps are in lower case.
  pub execute_access-IsClean :
      (engine : PluginEngine l) (request : PluginRequest) (started : ℕ) (slot : Slot l)
      → IsClean (execute_access l engine request started slot).1
  execute_access-IsClean engine request started slot =
      Answers-IsClean (execute_access l engine request started slot).1 (
        answers l (λ _. Unit {0}) HasCleanHeaders
          (λ plugin c st _. run_call-HasCleanHeaders l plugin c st) engine request started slot
          (λ chain _. All-true chain.bindings) record { upstream = tt; response = tt })
