-- ===== src/Plugins/Executor/Open.antt =====
-- Plugins that are configured to fail open.
use open_api_gateway.Prelude.{
  ℕ, ◌/◌, String, true, Option, none, some, Option-cases, List, [], ◌∷◌, ltb, All, ◌≡◌, refl,
  Bool-cases, inl, inr,
}
use open_api_gateway.Prelude.Result.{Result, ok, err, IsOk}
use open_api_gateway.Config.Types.{Platform}
use open_api_gateway.ExtAuthz.Events.{PluginRequest, PluginErrorType, PluginAccessResult, error}
use open_api_gateway.Plugins.Lua.{Lua, Gateway, PluginBinding, PluginError}
use open_api_gateway.Plugins.Sdk.{RuntimeState, run_call, is_exit_error, install_gateway}
use open_api_gateway.Plugins.Vm.{ThreadLocalVm, plugin_instance}
use open_api_gateway.Plugins.Executor.{
  Outcome, Answer, phase_result, call_phase, enter_phase, with_gateway, with_instance, run_phase,
  after_plugin, timeout_error, elapsed, run_access,
}

-- An answer that is no error but the one of the chain's timeout.
abbrev pub IsNoFailure : PluginAccessResult → Type 0
IsNoFailure (error name message type d) = type ≡ PluginErrorType.timeout
IsNoFailure _ = Unit

module _ {p : Platform} (l : Lua p) where
  -- The interpreter never fails to set up the gateway and the context of a call.
  pub record SetsUp : Type 0 where
    pub installs : (s : l.State) (g : Gateway l.Json l.Table) → IsOk (l.install s g).1
    pub contexts : (s : l.State) (t : l.Table) (o : Option ℕ) → IsOk (l.create_context s t o).1

  -- A binding that fails open and whose instance is always there or can be made.
  pub record IsOpen (b : PluginBinding l) : Type 0 where
    pub fails_open : b.fail_open ≡ true
    pub loads : (vm : ThreadLocalVm l) → IsOk (plugin_instance l vm b).1

  phase_result_open :
      (b : PluginBinding l) (st : RuntimeState) (r : Result l.Error (Unit {0}))
      → b.fail_open ≡ true
      → IsOk (phase_result l b st r)
  unfolding phase_result
  phase_result_open b st (ok _) h = tt
  phase_result_open b st (err e) h = elim (Bool-cases (is_exit_error l e)) [
    | inl exits ↦ rw exits tt
    | inr raises ↦ rw (raises, h) tt
  ]

  enter_phase_open :
      (b : PluginBinding l) (phase : String) (st : RuntimeState) (vm : ThreadLocalVm l)
      (t : l.Table) (x : l.State × Result l.Error l.Table)
      → b.fail_open ≡ true
      → IsOk x.1
      → IsOk (enter_phase l b phase st vm t x).2
  unfolding enter_phase call_phase
  enter_phase_open b phase st vm t (lua, err e) h k = absurd k
  enter_phase_open b phase st vm t (lua, ok x) h k =
      elim (Option-cases (l.get_function lua t phase)) [
        | inl e ↦ rw (e, enter_phase) tt
        | inr (f, e) ↦
            let r = run_call l b.name (l.call lua f t x) st in
            rw (e, enter_phase) (phase_result_open b r.1 r.2 h)
      ]

  run_phase_open :
      (up : SetsUp) (request : PluginRequest) (shared : l.Table) (status : Option ℕ)
      (phase : String) (b : PluginBinding l) (vm : ThreadLocalVm l) (st : RuntimeState)
      → IsOpen b
      → IsOk (run_phase l request shared status phase b vm st).2
  unfolding run_phase
  run_phase_open up request shared status phase b vm st h =
      entered (plugin_instance l vm b) (h.loads vm)
    where
      installed :
          (v : ThreadLocalVm l) (t : l.Table) (g : l.State × Result l.Error (Unit {0}))
          → IsOk g.1
          → IsOk (with_gateway l b shared status phase st v t g).2
      installed v t (lua, err e) k = absurd k
      installed v t (lua, ok _) k =
          enter_phase_open b phase st v t (l.create_context lua shared status) h.fails_open
            (up.contexts lua shared status)

      entered :
          (i : ThreadLocalVm l × Result PluginError l.Table)
          → IsOk i.1
          → IsOk (with_instance l b request shared status phase st i).2
      entered (v, err e) k = absurd k
      entered (v, ok t) k =
          installed v t (install_gateway l v.lua request b shared status) (up.installs v.lua _)

  after_plugin_open :
      (started : ℕ) (b : PluginBinding l) (go_on : ThreadLocalVm l → RuntimeState → Answer l)
      → ((vm : ThreadLocalVm l) (st : RuntimeState) → IsNoFailure (go_on vm st).1)
      → (o : Outcome l) → IsOk o.2
      → IsNoFailure (after_plugin l started b go_on o).1
  unfolding after_plugin
  after_plugin_open started b go_on rest (vm, st, err e) k = absurd k
  after_plugin_open started b go_on rest (vm, st, ok none) k = rest vm st
  after_plugin_open started b go_on rest (vm, st, ok (some e)) k = tt

  -- Where the interpreter sets up every call, a chain of plugins that can be loaded and fail open
  -- ends with no error but its timeout, whatever errors its plugins raise.
  pub run_access-IsNoFailure :
      (up : SetsUp) (request : PluginRequest) (shared : l.Table) (started limit : ℕ)
      (bindings : List (PluginBinding l)) (vm : ThreadLocalVm l) (st : RuntimeState)
      → All IsOpen bindings
      → IsNoFailure (run_access l request shared started limit bindings vm st).1
  unfolding run_access timeout_error
  run_access-IsNoFailure up request shared started limit [] vm st h = tt
  run_access-IsNoFailure up request shared started limit (b ∷ bindings) vm st h =
      elim (Bool-cases (ltb limit ((elapsed l started vm).1 / 1000000))) [
        | inl late ↦ rw late refl
        | inr early ↦ rw early (
            after_plugin_open started b (run_access l request shared started limit bindings)
              (λ v s. run_access-IsNoFailure up request shared started limit bindings v s h.1)
              (run_phase l request shared none "access" b (elapsed l started vm).0 st)
              (run_phase_open up request shared none "access" b (elapsed l started vm).0 st h.0))
      ]
