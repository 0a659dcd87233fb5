-- ===== src/Plugins/Engine.antt =====
-- `PluginEngine` of controlplane/src/plugins/: from_config and reload_from_config of mod.rs, and
-- execute_access and execute_log of executor.rs.
pub mod Access
pub mod Reported
pub mod Behind
pub mod Afresh
pub mod Reload
use open_api_gateway.Prelude.{
  ℕ, ◌+◌, ◌/◌, ◌%◌, ◌^◌, String, Bool, Option, none, some, List, [], ◌∷◌, ◌++◌,
}
use mathlib.Core.List.{reverse}
use open_api_gateway.Prelude.Result.{Result, ok, err, ◌>>=◌}
use open_api_gateway.Prelude.Maps.{lookup}
use open_api_gateway.Config.Types.{Platform, GatewayConfig}
use open_api_gateway.ExtAuthz.Events.{PluginRequest, PluginAccessResult, continue}
use open_api_gateway.Plugins.Lua.{
  Lua, PluginBinding, PluginChain, PluginError, PluginRuntime, PluginEngine,
}
use open_api_gateway.Plugins.Sdk.{RuntimeState, new_state}
use open_api_gateway.Plugins.Vm.{ThreadLocalVm, with_thread_local_vm}
use open_api_gateway.Plugins.Registry.{build_runtime}
use open_api_gateway.Plugins.Executor.{run_phase, run_access}

module _ {p : Platform} (l : Lua p) where
  open l use {State, Error, Table, to_string}

  -- A thread's slot for its interpreter.
  abbrev pub Slot : Type 0
  Slot = Result PluginError (ThreadLocalVm l)

  -- `PluginEngine::new`
  unfoldable pub new_engine : PluginRuntime l → PluginEngine l
  new_engine runtime = record {
    runtime = runtime;
    next_generation = (runtime.generation + 1) % 2 ^ 64;
  }

  unfoldable pub from_config : GatewayConfig p → Result PluginError (PluginEngine l)
  unfolding build_runtime new_engine
  from_config config = build_runtime l config 1 >>= λ runtime. ok (new_engine runtime)

  -- `next_generation`: the engine after it and the generation
  unfoldable pub next_generation : PluginEngine l → PluginEngine l × ℕ
  next_generation engine = (
    record engine { next_generation = (engine.next_generation + 1) % 2 ^ 64 },
    engine.next_generation,
  )

  unfoldable pub replace_runtime :
      PluginEngine l
      → Result PluginError (PluginRuntime l)
      → PluginEngine l × Result PluginError (Unit {0})
  replace_runtime engine (err e) = (engine, err e)
  replace_runtime engine (ok runtime) = (record engine { runtime = runtime }, ok tt)

  -- One reload with no other beside it: in the program the counter, the build and the replacement are
  -- separate steps, which those of another reload can come between.
  unfoldable pub reload_from_config :
      PluginEngine l → GatewayConfig p → PluginEngine l × Result PluginError (Unit {0})
  unfolding next_generation build_runtime replace_runtime
  reload_from_config engine config =
      let (engine', generation) = next_generation engine in
      replace_runtime engine' (build_runtime l config generation)

  -- The closure of `execute_access`, with the shared table that it makes first.
  unfoldable pub access_with :
      PluginRequest
      → ℕ
      → ℕ
      → List (PluginBinding l)
      → ThreadLocalVm l
      → State × Result Error Table
      → ThreadLocalVm l × Result PluginError PluginAccessResult
  unfolding run_access
  access_with request started chain_timeout_ms bindings vm (lua, err e) =
      (record vm { lua = lua }, err (PluginError.runtime "ctx" (to_string e)))
  access_with request started chain_timeout_ms bindings vm (lua, ok shared_ctx) =
      let (vm', answer) =
        run_access l request shared_ctx started chain_timeout_ms bindings (record vm { lua = lua })
          new_state in
      (vm', ok answer)

  -- `started` is the time at which the request entered.
  unfoldable pub execute_access :
      PluginEngine l → PluginRequest → ℕ → Slot → Slot × Result PluginError PluginAccessResult
  unfolding lookup with_thread_local_vm access_with
  execute_access engine request started slot =
      elim (lookup request.route_name engine.runtime.chains) [
        | none ↦ (slot, ok (continue [] [] 0))
        | some chain ↦
            with_thread_local_vm l engine.runtime.generation engine.runtime.limits
              (λ vm.
                access_with request started engine.runtime.limits.chain_timeout_ms chain.bindings vm
                  (l.create_table vm.lua))
              slot
      ]

  -- The loop of `execute_log`, which ignores every outcome.
  unfoldable pub run_log :
      PluginRequest
      → Table
      → ℕ
      → List (PluginBinding l)
      → ThreadLocalVm l
      → RuntimeState
      → ThreadLocalVm l
  unfolding run_phase
  run_log request shared_ctx response_status [] vm st = vm
  run_log request shared_ctx response_status (binding ∷ bindings) vm st =
      let (vm', st', _) =
        run_phase l request shared_ctx (some response_status) "log" binding vm st in
      run_log request shared_ctx response_status bindings vm' st'

  unfoldable pub log_with :
      PluginRequest
      → ℕ
      → List (PluginBinding l)
      → ThreadLocalVm l
      → State × Result Error Table
      → ThreadLocalVm l × Result PluginError (Unit {0})
  unfolding run_log
  log_with request response_status bindings vm (lua, err e) =
      (record vm { lua = lua }, err (PluginError.runtime "ctx" (to_string e)))
  log_with request response_status bindings vm (lua, ok shared_ctx) = (
    run_log request shared_ctx response_status bindings (record vm { lua = lua }) new_state,
    ok tt,
  )

  unfoldable pub execute_log :
      PluginEngine l → PluginRequest → ℕ → Slot → Slot × Result PluginError (Unit {0})
  unfolding lookup with_thread_local_vm log_with
  execute_log engine request response_status slot =
      elim (lookup request.route_name engine.runtime.chains) [
        | none ↦ (slot, ok tt)
        | some chain ↦
            with_thread_local_vm l engine.runtime.generation engine.runtime.limits
              (λ vm.
                log_with request response_status (reverse chain.bindings) vm
                  (l.create_table vm.lua))
              slot
      ]
