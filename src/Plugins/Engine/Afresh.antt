-- ===== src/Plugins/Engine/Afresh.antt =====
-- What a thread does with instances of an older runtime.
use mathlib.Core.List.{reverse}
use open_api_gateway.Prelude.{ℕ, ◌<◌, some, [], false, eqb, ◌≡◌, refl, ap, arith}
use open_api_gateway.Prelude.Result.{Result, ok}
use open_api_gateway.Prelude.Maps.{lookup}
use open_api_gateway.Config.Types.{Platform, PluginLimits}
use open_api_gateway.ExtAuthz.Events.{PluginRequest}
use open_api_gateway.Plugins.Lua.{Lua, PluginError, PluginChain, PluginEngine}
use open_api_gateway.Plugins.Vm.{
  ThreadLocalVm, forget_stale, prepare, prepared, with_thread_local_vm,
}
use open_api_gateway.Plugins.Engine.{access_with, execute_access, log_with, execute_log}

module _ {p : Platform} (l : Lua p) where
  -- The interpreter without its instances.
  abbrev pub emptied : ThreadLocalVm l → ThreadLocalVm l
  emptied vm = record vm { instances = [] }

  prepare-emptied :
      (generation : ℕ) (limits : PluginLimits) (vm : ThreadLocalVm l)
      → vm.generation < generation
      → prepare l generation limits vm ≡ prepare l generation limits (emptied vm)
  unfolding prepare forget_stale
  prepare-emptied generation limits vm older =
      let other : eqb vm.generation generation ≡ false = ground arith in rw (prepare, other) refl

  with_vm-emptied :
      {R : Type 0} (generation : ℕ) (limits : PluginLimits)
      (f : ThreadLocalVm l → ThreadLocalVm l × Result PluginError R) (vm : ThreadLocalVm l)
      → vm.generation < generation
      → with_thread_local_vm l generation limits f (ok vm)
        ≡ with_thread_local_vm l generation limits f (ok (emptied vm))
  unfolding with_thread_local_vm
  with_vm-emptied generation limits f vm older =
      ap (prepared l f) (prepare-emptied generation limits vm older)

  -- Both phases of a request run as on an interpreter without instances.
  abbrev pub RunsAfresh : PluginEngine l → PluginRequest → ThreadLocalVm l → Type 0
  RunsAfresh engine request vm =
      ((started : ℕ)
        → execute_access l engine request started (ok vm)
          ≡ execute_access l engine request started (ok (emptied vm)))
      × ((status : ℕ)
          → execute_log l engine request status (ok vm)
            ≡ execute_log l engine request status (ok (emptied vm)))

  pub older-RunsAfresh :
      (engine : PluginEngine l) (request : PluginRequest) (vm : ThreadLocalVm l)
      (chain : PluginChain l)
      → lookup request.route_name engine.runtime.chains ≡ some chain
      → vm.generation < engine.runtime.generation
      → RunsAfresh engine request vm
  unfolding execute_access execute_log
  older-RunsAfresh engine request vm chain found older = (
    λ started.
        rw (execute_access, found)
          (with_vm-emptied engine.runtime.generation engine.runtime.limits
            (λ vm.
              access_with l request started engine.runtime.limits.chain_timeout_ms chain.bindings vm
                (l.create_table vm.lua))
            vm older),
    λ status.
        rw (execute_log, found)
          (with_vm-emptied engine.runtime.generation engine.runtime.limits
            (λ vm. log_with l request status (reverse chain.bindings) vm (l.create_table vm.lua)) vm
            older),
  )
