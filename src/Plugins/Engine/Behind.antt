-- ===== src/Plugins/Engine/Behind.antt =====
-- The generations of runtimes and interpreters.
use open_api_gateway.Prelude.{
  ℕ, ◌≤◌, some, List, [], ◌∷◌, ◌≡◌, refl, sym, ap, ◌∙◌, arith, Bool-cases, inl, inr,
}
use open_api_gateway.Prelude.Result.{Result, ok, err, ◌>>=◌, bind_ok, ok_inj}
use open_api_gateway.Config.Types.{Platform, GatewayConfig}
use open_api_gateway.ExtAuthz.Events.{PluginRequest}
use open_api_gateway.Plugins.Lua.{Lua, PluginBinding, PluginError, PluginRuntime}
use open_api_gateway.Plugins.Sdk.{RuntimeState, new_state}
use open_api_gateway.Plugins.Vm.{ThreadLocalVm, with_thread_local_vm, prepare, prepared}
use open_api_gateway.Plugins.Vm.Instances.{forget_stale-generation}
use open_api_gateway.Plugins.Registry.{build_runtime, runtime_with, discover_plugins, route_chains}
use open_api_gateway.Plugins.Executor.{run_phase}
use open_api_gateway.Plugins.Executor.Generation.{run_phase-generation, run_access-generation}
use open_api_gateway.Plugins.Engine.{Slot, access_with, run_log, log_with}

module _ {p : Platform} (l : Lua p) where
  -- The interpreter's generation is at most the one given.
  abbrev pub IsBehind : ℕ → Slot l → Type 0
  IsBehind g (ok vm) = vm.generation ≤ g
  IsBehind g (err e) = Unit

  pub build_runtime-generation :
      (config : GatewayConfig p) (g : ℕ) (rt : PluginRuntime l)
      → build_runtime l config g ≡ ok rt
      → rt.generation ≡ g
  unfolding build_runtime runtime_with
  build_runtime-generation config g rt h = elim (Bool-cases config.plugins.enabled) [
    | inl on ↦ elim (Bool-cases (l.exists config.plugins.directory)) [
      | inl e ↦
          let built = rw (on, e) at h in
          let (registry, _, more) =
            bind_ok (discover_plugins l config.plugins.directory config.plugins.limits)
              (λ registry.
                route_chains l registry config.plugins.global config.routes [] >>= λ chains.
                ok (runtime_with l config g chains))
              rt built in
          let (chains, made, same) =
            bind_ok (route_chains l registry config.plugins.global config.routes [])
              (λ chains. ok (runtime_with l config g chains)) rt more in
          ap (λ q. q.generation)
            (sym (ok_inj {E = PluginError} (runtime_with l config g chains) rt same))
      | inr e ↦ absurd (let bad = rw (on, e) at h in cc)
    ]
    | inr off ↦
        let built = rw off at h in
        ap (λ q. q.generation)
          (sym (ok_inj {E = PluginError} (runtime_with l config g []) rt built))
  ]

  pub access_with-generation :
      (request : PluginRequest) (started limit : ℕ) (bindings : List (PluginBinding l))
      (vm : ThreadLocalVm l) (x : l.State × Result l.Error l.Table)
      → (access_with l request started limit bindings vm x).0.generation ≡ vm.generation
  unfolding access_with
  access_with-generation request started limit bindings vm (lua, err e) = refl
  access_with-generation request started limit bindings vm (lua, ok shared) =
      run_access-generation l vm.generation request shared started limit bindings
        (record vm { lua = lua }) new_state refl

  run_log-generation :
      (request : PluginRequest) (shared : l.Table) (status : ℕ) (bindings : List (PluginBinding l))
      (vm : ThreadLocalVm l) (st : RuntimeState)
      → (run_log l request shared status bindings vm st).generation ≡ vm.generation
  unfolding run_log
  run_log-generation request shared status [] vm st = refl
  run_log-generation request shared status (b ∷ bindings) vm st =
      let o = run_phase l request shared (some status) "log" b vm st in
      run_log-generation request shared status bindings o.0 o.1
      ∙ run_phase-generation l request shared (some status) "log" b vm st

  pub log_with-generation :
      (request : PluginRequest) (status : ℕ) (bindings : List (PluginBinding l))
      (vm : ThreadLocalVm l) (x : l.State × Result l.Error l.Table)
      → (log_with l request status bindings vm x).0.generation ≡ vm.generation
  unfolding log_with
  log_with-generation request status bindings vm (lua, err e) = refl
  log_with-generation request status bindings vm (lua, ok shared) =
      run_log-generation request shared status bindings (record vm { lua = lua }) new_state

  pub with_vm-IsBehind {ℓ} :
      {R : Type ℓ} (rt : PluginRuntime l)
      (f : ThreadLocalVm l → ThreadLocalVm l × Result PluginError R)
      → ((vm : ThreadLocalVm l) → (f vm).0.generation ≡ vm.generation)
      → (slot : Slot l)
      → IsBehind rt.generation (with_thread_local_vm l rt.generation rt.limits f slot).0
  unfolding with_thread_local_vm prepare prepared
  with_vm-IsBehind rt f keeps (err e) = tt
  with_vm-IsBehind rt f keeps (ok vm) =
      ran (prepare l rt.generation rt.limits vm) (forget_stale-generation l rt.generation vm)
    where
      ran :
          (x : ThreadLocalVm l × Result PluginError (Unit {0}))
          → x.0.generation ≡ rt.generation
          → IsBehind rt.generation (prepared l f x).0
      ran (v, err e) h = omega arith
      ran (v, ok _) h = let k = keeps v in omega arith
