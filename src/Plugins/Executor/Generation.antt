-- ===== src/Plugins/Executor/Generation.antt =====
-- The phases keep the generation of the interpreter they run in.
use open_api_gateway.Prelude.{
  ℕ, ◌/◌, String, Option, none, some, Option-cases, List, [], ◌∷◌, ltb, ◌≡◌, refl, ◌∙◌, Bool-cases,
  inl, inr,
}
use open_api_gateway.Prelude.Result.{Result, ok, err}
use open_api_gateway.Config.Types.{Platform}
use open_api_gateway.ExtAuthz.Events.{PluginRequest}
use open_api_gateway.Plugins.Lua.{Lua, PluginBinding, PluginError}
use open_api_gateway.Plugins.Sdk.{RuntimeState, install_gateway}
use open_api_gateway.Plugins.Vm.{ThreadLocalVm, plugin_instance}
use open_api_gateway.Plugins.Vm.Instances.{plugin_instance-generation}
use open_api_gateway.Plugins.Executor.{
  Outcome, Answer, call_phase, enter_phase, with_gateway, with_instance, run_phase, after_plugin,
  timeout_error, elapsed, run_access,
}

module _ {p : Platform} (l : Lua p) where
  enter_phase-generation :
      (b : PluginBinding l) (phase : String) (st : RuntimeState) (vm : ThreadLocalVm l)
      (t : l.Table) (x : l.State × Result l.Error l.Table)
      → (enter_phase l b phase st vm t x).0.generation ≡ vm.generation
  unfolding enter_phase call_phase
  enter_phase-generation b phase st vm t (lua, err e) = refl
  enter_phase-generation b phase st vm t (lua, ok x) =
      elim (Option-cases (l.get_function lua t phase)) [
        | inl e ↦ rw (e, enter_phase) refl
        | inr (f, e) ↦ rw (e, enter_phase) refl
      ]

  pub run_phase-generation :
      (request : PluginRequest) (shared : l.Table) (status : Option ℕ) (phase : String)
      (b : PluginBinding l) (vm : ThreadLocalVm l) (st : RuntimeState)
      → (run_phase l request shared status phase b vm st).0.generation ≡ vm.generation
  unfolding run_phase
  run_phase-generation request shared status phase b vm st =
      entered (plugin_instance l vm b) ∙ plugin_instance-generation l vm b
    where
      installed :
          (v : ThreadLocalVm l) (t : l.Table) (g : l.State × Result l.Error (Unit {0}))
          → (with_gateway l b shared status phase st v t g).0.generation ≡ v.generation
      installed v t (lua, err e) = refl
      installed v t (lua, ok _) =
          enter_phase-generation b phase st v t (l.create_context lua shared status)

      entered :
          (i : ThreadLocalVm l × Result PluginError l.Table)
          → (with_instance l b request shared status phase st i).0.generation ≡ i.0.generation
      entered (v, err e) = refl
      entered (v, ok t) = installed v t (install_gateway l v.lua request b shared status)

  after_plugin-generation :
      (g started : ℕ) (b : PluginBinding l) (go_on : ThreadLocalVm l → RuntimeState → Answer l)
      → ((vm : ThreadLocalVm l) (st : RuntimeState)
          → vm.generation ≡ g
          → (go_on vm st).0.generation ≡ g)
      → (o : Outcome l) → o.0.generation ≡ g
      → (after_plugin l started b go_on o).0.generation ≡ g
  unfolding after_plugin elapsed
  after_plugin-generation g started b go_on rest (vm, st, err e) h = h
  after_plugin-generation g started b go_on rest (vm, st, ok none) h = rest vm st h
  after_plugin-generation g started b go_on rest (vm, st, ok (some e)) h = h

  pub run_access-generation :
      (g : ℕ) (request : PluginRequest) (shared : l.Table) (started limit : ℕ)
      (bindings : List (PluginBinding l)) (vm : ThreadLocalVm l) (st : RuntimeState)
      → vm.generation ≡ g
      → (run_access l request shared started limit bindings vm st).0.generation ≡ g
  unfolding run_access timeout_error elapsed
  run_access-generation g request shared started limit [] vm st h = h
  run_access-generation g request shared started limit (b ∷ bindings) vm st h =
      elim (Bool-cases (ltb limit ((elapsed l started vm).1 / 1000000))) [
        | inl late ↦ rw late h
        | inr early ↦ rw early (
            after_plugin-generation g started b (run_access l request shared started limit bindings)
              (λ v s k. run_access-generation g request shared started limit bindings v s k)
              (run_phase l request shared none "access" b (elapsed l started vm).0 st)
              (run_phase-generation request shared none "access" b (elapsed l started vm).0 st ∙ h))
      ]
