-- ===== src/Plugins/Executor.antt =====
-- controlplane/src/plugins/executor.rs: the phases of a route's chain of plugins.
pub mod Headers
pub mod Ending
pub mod Open
pub mod Generation
use open_api_gateway.Prelude.{
  ℕ, ◌-◌, ◌/◌, String, ◌<>◌, Bool, true, false, Option, none, some, List, [], ◌∷◌, ltb,
  if◌then◌else◌,
}
use open_api_gateway.Prelude.Result.{Result, ok, err}
use open_api_gateway.Prelude.Maps.{lookup}
use open_api_gateway.Prelude.Text.{decimal}
use open_api_gateway.Prelude.Text.Lower.{to_ascii_lowercase, contains}
use open_api_gateway.Config.Types.{Platform}
use open_api_gateway.ExtAuthz.Events.{
  PluginRequest, PluginErrorType, PluginAccessResult, continue, short_circuit, error,
}
use open_api_gateway.Plugins.Lua.{
  Lua, PluginBinding, PluginError, runtime, error_text, PluginExit, PluginRuntime,
}
use open_api_gateway.Plugins.Sdk.{RuntimeState, new_state, is_exit_error, run_call, install_gateway}
use open_api_gateway.Plugins.Vm.{ThreadLocalVm, with_thread_local_vm, plugin_instance}

unfoldable pub classify_error : PluginError → PluginErrorType
unfolding contains to_ascii_lowercase
classify_error (runtime name reason) =
    if contains "memory" (to_ascii_lowercase reason)
    then PluginErrorType.memory
    else PluginErrorType.runtime
classify_error _ = PluginErrorType.runtime

module _ {p : Platform} (l : Lua p) where
  open l use {State, Error, Table, Function, to_string}

  abbrev pub Outcome : Type 0
  Outcome = ThreadLocalVm l × RuntimeState × Result PluginError (Option PluginExit)

  -- `elapsed` of an instant of the interpreter's clock: the clock read on, and the nanoseconds
  unfoldable pub elapsed : ℕ → ThreadLocalVm l → ThreadLocalVm l × ℕ
  elapsed started vm = let (lua, now) = l.clock vm.lua in (record vm { lua = lua }, now - started)

  -- The last match of `run_phase`.
  unfoldable pub phase_result :
      PluginBinding l
      → RuntimeState
      → Result Error (Unit {0})
      → Result PluginError (Option PluginExit)
  unfolding is_exit_error
  phase_result binding st (ok _) = ok st.short_circuit
  phase_result binding st (err e) =
      if is_exit_error l e
      then ok st.short_circuit
      else if binding.fail_open
      then ok none
      else err (runtime binding.name (to_string e))

  unfoldable pub call_phase :
      PluginBinding l → RuntimeState → ThreadLocalVm l → Table → Function → Table → Outcome
  unfolding run_call phase_result
  call_phase binding st vm instance_table function context =
      let (lua, after, result) =
        run_call l binding.name (l.call vm.lua function instance_table context) st in
      (record vm { lua = l.clear_gateway lua }, after, phase_result binding after result)

  -- The phase's function is called if the instance has it.
  unfoldable pub enter_phase :
      PluginBinding l
      → String
      → RuntimeState
      → ThreadLocalVm l
      → Table
      → State × Result Error Table
      → Outcome
  unfolding call_phase
  enter_phase binding phase st vm instance_table (lua, err e) =
      (record vm { lua = lua }, st, err (runtime binding.name (to_string e)))
  enter_phase binding phase st vm instance_table (lua, ok context) =
      elim (l.get_function lua instance_table phase) [
        | none ↦ (record vm { lua = l.clear_gateway lua }, st, ok none)
        | some function ↦
            call_phase binding st (record vm { lua = lua }) instance_table function context
      ]

  unfoldable pub with_gateway :
      PluginBinding l
      → Table
      → Option ℕ
      → String
      → RuntimeState
      → ThreadLocalVm l
      → Table
      → State × Result Error (Unit {0})
      → Outcome
  unfolding enter_phase
  with_gateway binding shared_ctx response_status phase st vm instance_table (lua, err e) =
      (record vm { lua = lua }, st, err (runtime binding.name (to_string e)))
  with_gateway binding shared_ctx response_status phase st vm instance_table (lua, ok _) =
      enter_phase binding phase st vm instance_table
        (l.create_context lua shared_ctx response_status)

  unfoldable pub with_instance :
      PluginBinding l
      → PluginRequest
      → Table
      → Option ℕ
      → String
      → RuntimeState
      → ThreadLocalVm l × Result PluginError Table
      → Outcome
  unfolding with_gateway install_gateway
  with_instance binding request shared_ctx response_status phase st (vm, err e) = (vm, st, err e)
  with_instance binding request shared_ctx response_status phase st (vm, ok instance_table) =
      with_gateway binding shared_ctx response_status phase st vm instance_table
        (install_gateway l vm.lua request binding shared_ctx response_status)

  unfoldable pub run_phase :
      PluginRequest
      → Table
      → Option ℕ
      → String
      → PluginBinding l
      → ThreadLocalVm l
      → RuntimeState
      → Outcome
  unfolding with_instance plugin_instance
  run_phase request shared_ctx response_status phase binding vm st =
      with_instance binding request shared_ctx response_status phase st
        (plugin_instance l vm binding)

  abbrev pub Answer : Type 0
  Answer = ThreadLocalVm l × PluginAccessResult

  unfoldable pub timeout_error : ℕ → ℕ → PluginBinding l → ThreadLocalVm l → Answer
  unfolding elapsed
  timeout_error started chain_timeout_ms binding vm =
      let (vm', nanos) = elapsed started vm in
      (
        vm',
        error binding.name ("plugin chain exceeded " <> (decimal chain_timeout_ms <> " ms"))
            PluginErrorType.timeout (nanos / 1000),
      )

  -- What a plugin's outcome means for the chain: `go_on` is the loop over the plugins after it.
  unfoldable pub after_plugin :
      ℕ → PluginBinding l → (ThreadLocalVm l → RuntimeState → Answer) → Outcome → Answer
  unfolding elapsed classify_error error_text
  after_plugin started binding go_on (vm, st, err e) =
      let (vm', nanos) = elapsed started vm in
      (vm', error binding.name (error_text e) (classify_error e) (nanos / 1000))
  after_plugin started binding go_on (vm, st, ok (some exit)) =
      let (vm', nanos) = elapsed started vm in
      (vm', short_circuit exit.plugin_name exit.status exit.body st.response_headers (nanos / 1000))
  after_plugin started binding go_on (vm, st, ok none) = go_on vm st

  -- The loop of `execute_access` over the bindings.
  unfoldable pub run_access :
      PluginRequest
      → Table
      → ℕ
      → ℕ
      → List (PluginBinding l)
      → ThreadLocalVm l
      → RuntimeState
      → Answer
  unfolding elapsed timeout_error after_plugin run_phase
  run_access request shared_ctx started chain_timeout_ms [] vm st =
      let (vm', nanos) = elapsed started vm in
      (vm', continue st.upstream_headers st.response_headers (nanos / 1000))
  run_access request shared_ctx started chain_timeout_ms (binding ∷ bindings) vm st =
      let (vm', nanos) = elapsed started vm in
      let answer =
        after_plugin started binding
          (run_access request shared_ctx started chain_timeout_ms bindings)
          (run_phase request shared_ctx none "access" binding vm' st) in
      if◌then◌else◌ {A = Answer} (ltb chain_timeout_ms (nanos / 1000000))
        (timeout_error started chain_timeout_ms binding vm') answer
