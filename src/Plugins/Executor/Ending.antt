-- ===== src/Plugins/Executor/Ending.antt =====
-- The invariant rule of the loop of `execute_access`: what every call of a plugin keeps holds of the
-- state by which the chain ends.
use open_api_gateway.Prelude.{
  ℕ, ◌/◌, String, Option-cases, Option, none, some, List, [], ◌∷◌, ltb, All, ◌≡◌, refl, Bool-cases,
  inl, inr,
}
use open_api_gateway.Prelude.Result.{Result, ok, err}
use open_api_gateway.Config.Types.{Platform}
use open_api_gateway.ExtAuthz.Events.{
  PluginRequest, PluginAccessResult, continue, short_circuit, error,
}
use open_api_gateway.Plugins.Lua.{Lua, Call, PluginBinding, PluginError, PluginExit}
use open_api_gateway.Plugins.Sdk.{RuntimeState, run_call, install_gateway, is_exit_error}
use open_api_gateway.Plugins.Vm.{ThreadLocalVm, plugin_instance}
use open_api_gateway.Plugins.Executor.{
  Outcome, phase_result, call_phase, enter_phase, with_gateway, with_instance, run_phase,
  after_plugin, elapsed, run_access, Answer,
}

module _ {p : Platform} (l : Lua p) (C : String → Type 0) (P : RuntimeState → Type 0) where
  abbrev pub IsKept : Type 0
  IsKept =
      (plugin : String) (c : Call l.State l.Error) (st : RuntimeState)
      → C plugin
      → P st
      → P (run_call l plugin c st).1

  -- A short circuit that a phase reports is the one in the state.
  abbrev Reports : RuntimeState → Result PluginError (Option PluginExit) → Type 0
  Reports st (ok (some e)) = st.short_circuit ≡ some e
  Reports st _ = Unit {0}

  Reports-ok :
      (st : RuntimeState) (o : Option PluginExit) → st.short_circuit ≡ o → Reports st (ok o)
  Reports-ok st none h = tt
  Reports-ok st (some e) h = h

  phase_result-Reports :
      (b : PluginBinding l) (st : RuntimeState) (r : Result l.Error (Unit {0}))
      → Reports st (phase_result l b st r)
  unfolding phase_result
  phase_result-Reports b st (ok _) = Reports-ok st st.short_circuit refl
  phase_result-Reports b st (err e) = elim (Bool-cases (is_exit_error l e)) [
    | inl exits ↦ rw exits (Reports-ok st st.short_circuit refl)
    | inr raises ↦ rw raises (elim (Bool-cases b.fail_open) [ inl o ↦ rw o tt | inr c ↦ rw c tt ])
  ]

  abbrev Fits : Outcome l → Type 0
  Fits (vm, st, r) = P st × Reports st r

  call_phase-Fits :
      (kept : IsKept) (b : PluginBinding l) (st : RuntimeState) (vm : ThreadLocalVm l) (t : l.Table)
      (f : l.Function) (x : l.Table)
      → C b.name
      → P st
      → Fits (call_phase l b st vm t f x)
  unfolding call_phase
  call_phase-Fits kept b st vm t f x c h =
      let r = run_call l b.name (l.call vm.lua f t x) st in
      (kept b.name (l.call vm.lua f t x) st c h, phase_result-Reports b r.1 r.2)

  enter_phase-Fits :
      (kept : IsKept) (b : PluginBinding l) (phase : String) (st : RuntimeState)
      (vm : ThreadLocalVm l) (t : l.Table) (x : l.State × Result l.Error l.Table)
      → C b.name
      → P st
      → Fits (enter_phase l b phase st vm t x)
  unfolding enter_phase
  enter_phase-Fits kept b phase st vm t (lua, err e) c h = (h, tt)
  enter_phase-Fits kept b phase st vm t (lua, ok x) c h =
      elim (Option-cases (l.get_function lua t phase)) [
        | inl e ↦ rw (e, enter_phase) (h, tt)
        | inr (f, e) ↦
            rw (e, enter_phase) (call_phase-Fits kept b st (record vm { lua = lua }) t f x c h)
      ]

  run_phase-Fits :
      (kept : IsKept) (request : PluginRequest) (shared : l.Table) (status : Option ℕ)
      (phase : String) (b : PluginBinding l) (vm : ThreadLocalVm l) (st : RuntimeState)
      → C b.name
      → P st
      → Fits (run_phase l request shared status phase b vm st)
  unfolding run_phase
  run_phase-Fits kept request shared status phase b vm st c h = entered (plugin_instance l vm b)
    where
      installed :
          (v : ThreadLocalVm l) (t : l.Table) (g : l.State × Result l.Error (Unit {0}))
          → Fits (with_gateway l b shared status phase st v t g)
      installed v t (lua, err e) = (h, tt)
      installed v t (lua, ok _) =
          enter_phase-Fits kept b phase st v t (l.create_context lua shared status) c h

      entered :
          (i : ThreadLocalVm l × Result PluginError l.Table)
          → Fits (with_instance l b request shared status phase st i)
      entered (v, err e) = (h, tt)
      entered (v, ok t) = installed v t (install_gateway l v.lua request b shared status)

  -- How a chain may end, with the state that its answer is taken from.
  abbrev pub Ends : PluginAccessResult → Type 0
  Ends (continue upstream response d) =
      (st : RuntimeState) × P st
      × (upstream ≡ st.upstream_headers)
      × (response ≡ st.response_headers)
  Ends (short_circuit name status body headers d) =
      (st : RuntimeState) × P st
      × (headers ≡ st.response_headers)
      × (st.short_circuit ≡ some record { status = status; body = body; plugin_name = name })
  Ends (error name message type d) = C name

  after_plugin-Ends :
      (started : ℕ) (b : PluginBinding l) (go_on : ThreadLocalVm l → RuntimeState → Answer l)
      → ((vm : ThreadLocalVm l) (st : RuntimeState) → P st → Ends (go_on vm st).1)
      → C b.name
      → (o : Outcome l) → Fits o
      → Ends (after_plugin l started b go_on o).1
  unfolding after_plugin
  after_plugin-Ends started b go_on rest c (vm, st, err e) f = c
  after_plugin-Ends started b go_on rest c (vm, st, ok none) f = rest vm st f.0
  after_plugin-Ends started b go_on rest c (vm, st, ok (some e)) f = (st, f.0, refl, f.1)

  pub run_access-Ends :
      (kept : IsKept) (request : PluginRequest) (shared : l.Table) (started limit : ℕ)
      (bindings : List (PluginBinding l)) (vm : ThreadLocalVm l) (st : RuntimeState)
      → All (λ b. C b.name) bindings
      → P st
      → Ends (run_access l request shared started limit bindings vm st).1
  unfolding run_access
  run_access-Ends kept request shared started limit [] vm st c h = (st, h, refl, refl)
  run_access-Ends kept request shared started limit (b ∷ bindings) vm st c h =
      elim (Bool-cases (ltb limit ((elapsed l started vm).1 / 1000000))) [
        | inl late ↦ rw late c.0
        | inr early ↦ rw early (
            after_plugin-Ends started b (run_access l request shared started limit bindings)
              (λ v s k. run_access-Ends kept request shared started limit bindings v s c.1 k) c.0
              (run_phase l request shared none "access" b (elapsed l started vm).0 st)
              (run_phase-Fits kept request shared none "access" b (elapsed l started vm).0 st c.0
                h))
      ]
