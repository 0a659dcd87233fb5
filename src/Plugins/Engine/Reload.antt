-- ===== src/Plugins/Engine/Reload.antt =====
-- Reloads and requests in any order, on one thread: instances of a runtime do not outlive it.
use open_api_gateway.Prelude.{
  ℕ, suc, ◌+◌, ◌^◌, ◌≤◌, ◌<◌, Option-cases, some, ◌≡◌, refl, subst, arith, inl, inr,
}
use mathlib.Core.List.{reverse}
use open_api_gateway.Prelude.Result.{Result, ok, err, bind_ok, ok_inj}
use open_api_gateway.Prelude.Maps.{lookup}
use open_api_gateway.Config.Types.{Platform, GatewayConfig}
use open_api_gateway.ExtAuthz.Events.{PluginRequest}
use open_api_gateway.Plugins.Lua.{Lua, PluginError, PluginChain, PluginRuntime, PluginEngine}
use open_api_gateway.Plugins.Vm.{ThreadLocalVm, new_vm, vm_of}
use open_api_gateway.Plugins.Registry.{build_runtime}
use open_api_gateway.Plugins.Engine.{
  Slot, new_engine, from_config, reload_from_config, replace_runtime, next_generation, access_with,
  execute_access, log_with, execute_log,
}
use open_api_gateway.Plugins.Engine.Afresh.{RunsAfresh, older-RunsAfresh}
use open_api_gateway.Plugins.Engine.Behind.{
  IsBehind, build_runtime-generation, access_with-generation, log_with-generation, with_vm-IsBehind,
}

module _ {p : Platform} (l : Lua p) where
  -- The engine with the interpreter of one thread.
  pub record System : Type 0 where
    pub engine : PluginEngine l
    pub slot : Slot l

  -- The systems after n reloads, and any requests between them.
  pub data Reach : ℕ → System → Type 0 where
    start :
        (config : GatewayConfig p) (engine : PluginEngine l)
        → from_config l config ≡ ok engine
        → Reach 0 (record { engine = engine; slot = new_vm l })
    reload :
        {n : ℕ} {s : System} (config : GatewayConfig p)
        → Reach n s
        → Reach (suc n) (record s { engine = (reload_from_config l s.engine config).0 })
    access :
        {n : ℕ} {s : System} (request : PluginRequest) (started : ℕ)
        → Reach n s
        → Reach n (record s { slot = (execute_access l s.engine request started s.slot).0 })
    log :
        {n : ℕ} {s : System} (request : PluginRequest) (status : ℕ)
        → Reach n s
        → Reach n (record s { slot = (execute_log l s.engine request status s.slot).0 })

  record Inv (n : ℕ) (s : System) : Type 0 where
    next : s.engine.next_generation ≡ n + 2
    current : s.engine.runtime.generation < n + 2
    behind : IsBehind l s.engine.runtime.generation s.slot

  -- A request changes the slot only, and the engine's generation bounds the slot's.
  access-IsBehind :
      (engine : PluginEngine l) (request : PluginRequest) (started : ℕ) (slot : Slot l)
      → IsBehind l engine.runtime.generation slot
      → IsBehind l engine.runtime.generation (execute_access l engine request started slot).0
  unfolding execute_access
  access-IsBehind engine request started slot h =
      elim (Option-cases (lookup request.route_name engine.runtime.chains)) [
        | inl e ↦ rw (e, execute_access) h
        | inr (chain, e) ↦
            rw (e, execute_access)
              (with_vm-IsBehind l engine.runtime
                (λ vm.
                  access_with l request started engine.runtime.limits.chain_timeout_ms
                    chain.bindings vm (l.create_table vm.lua))
                (λ vm.
                  access_with-generation l request started engine.runtime.limits.chain_timeout_ms
                    chain.bindings vm (l.create_table vm.lua))
                slot)
      ]

  log-IsBehind :
      (engine : PluginEngine l) (request : PluginRequest) (status : ℕ) (slot : Slot l)
      → IsBehind l engine.runtime.generation slot
      → IsBehind l engine.runtime.generation (execute_log l engine request status slot).0
  unfolding execute_log
  log-IsBehind engine request status slot h =
      elim (Option-cases (lookup request.route_name engine.runtime.chains)) [
        | inl e ↦ rw (e, execute_log) h
        | inr (chain, e) ↦
            rw (e, execute_log)
              (with_vm-IsBehind l engine.runtime
                (λ vm.
                  log_with l request status (reverse chain.bindings) vm (l.create_table vm.lua))
                (λ vm.
                  log_with-generation l request status (reverse chain.bindings) vm
                    (l.create_table vm.lua))
                slot)
      ]

  IsBehind-mono : (g h : ℕ) (slot : Slot l) → g ≤ h → IsBehind l g slot → IsBehind l h slot
  IsBehind-mono g h (ok vm) le b = omega arith
  IsBehind-mono g h (err e) le b = tt

  new_vm-IsBehind : (g : ℕ) → IsBehind l g (new_vm l)
  unfolding new_vm
  new_vm-IsBehind g = made (l.create_sandboxed_vm _)
    where
      made : (x : Result l.Error l.State) → IsBehind l g (vm_of l x)
      made (ok s) = omega arith
      made (err e) = tt

  start-Inv :
      (config : GatewayConfig p) (engine : PluginEngine l)
      → from_config l config ≡ ok engine
      → Inv 0 (record { engine = engine; slot = new_vm l })
  unfolding from_config new_engine
  start-Inv config engine h =
      let (rt, built, made) =
        bind_ok (build_runtime l config 1) (λ rt. ok (new_engine l rt)) engine h in
      let first = build_runtime-generation l config 1 rt built in
      let e = ok_inj {E = PluginError} (new_engine l rt) engine made in
      let next : (new_engine l rt).next_generation ≡ 2 = rw first refl in
      record {
        next = subst (λ n. n.next_generation ≡ 2) e next;
        current = subst (λ n. n.runtime.generation < 2) e (omega arith);
        behind = new_vm-IsBehind engine.runtime.generation;
      }

  -- The engine after a reload: its runtime is the one before, or has the generation that was next.
  reloaded-Inv :
      (n : ℕ) (s : System) (config : GatewayConfig p)
      → n + 3 < 2 ^ 64
      → Inv n s
      → Inv (suc n) (record s { engine = (reload_from_config l s.engine config).0 })
  unfolding reload_from_config next_generation replace_runtime
  reloaded-Inv n s config small h =
      replaced (build_runtime l config s.engine.next_generation)
        (build_runtime-generation l config s.engine.next_generation)
    where
      e : PluginEngine l
      e = (next_generation l s.engine).0

      replaced :
          (r : Result PluginError (PluginRuntime l))
          → ((rt : PluginRuntime l) → r ≡ ok rt → rt.generation ≡ s.engine.next_generation)
          → Inv (suc n) (record s { engine = (replace_runtime l e r).0 })
      replaced (err x) g =
          let k = h in
          record {
            next = ground (arith, h.next);
            current = ground (arith, h.current);
            behind = h.behind;
          }
      replaced (ok rt) g =
          let k = g rt refl in
          record {
            next = ground (arith, h.next);
            current = ground (arith, h.next, k);
            behind =
                IsBehind-mono s.engine.runtime.generation rt.generation s.slot
                  (ground (arith, h.next, h.current, k)) h.behind;
          }

  Reach-Inv : {n : ℕ} {s : System} → Reach n s → n + 2 < 2 ^ 64 → Inv n s
  Reach-Inv (start config engine h) small = start-Inv config engine h
  Reach-Inv (reload {n} {s} config r) small =
      reloaded-Inv n s config (omega arith) (Reach-Inv r (omega arith))
  Reach-Inv (access {n} {s} request started r) small =
      let h = Reach-Inv r small in
      record {
        next = h.next;
        current = h.current;
        behind = access-IsBehind s.engine request started s.slot h.behind;
      }
  Reach-Inv (log {n} {s} request status r) small =
      let h = Reach-Inv r small in
      record {
        next = h.next;
        current = h.current;
        behind = log-IsBehind s.engine request status s.slot h.behind;
      }

  reload-newer :
      {n : ℕ} {s : System} (config : GatewayConfig p)
      → Reach n s
      → n + 2 < 2 ^ 64
      → (reload_from_config l s.engine config).1 ≡ ok tt
      → s.engine.runtime.generation < (reload_from_config l s.engine config).0.runtime.generation
  unfolding reload_from_config next_generation replace_runtime
  reload-newer {n} {s} config r small done =
      replaced (build_runtime l config s.engine.next_generation)
        (build_runtime-generation l config s.engine.next_generation) done
    where
      h : Inv n s
      h = Reach-Inv r small

      e : PluginEngine l
      e = (next_generation l s.engine).0

      replaced :
          (x : Result PluginError (PluginRuntime l))
          → ((rt : PluginRuntime l) → x ≡ ok rt → rt.generation ≡ s.engine.next_generation)
          → (replace_runtime l e x).1 ≡ ok tt
          → s.engine.runtime.generation < (replace_runtime l e x).0.runtime.generation
      replaced (err y) g d = absurd (cc)
      replaced (ok rt) g d = let k = g rt refl in ground (arith, h.next, h.current, k)

  -- After any requests and fewer than 2 ^ 64 - 2 reloads, one after another, a reload that succeeds
  -- gives the engine a greater generation, and each phase of a request whose route has a chain then
  -- runs as on an interpreter that keeps no instances: those of earlier runtimes are not used again.
  pub reload-forgets :
      {n : ℕ} {s : System} (config : GatewayConfig p) (vm : ThreadLocalVm l)
      (request : PluginRequest) (chain : PluginChain l)
      → Reach n s
      → n + 2 < 2 ^ 64
      → s.slot ≡ ok vm
      → (reload_from_config l s.engine config).1 ≡ ok tt
      → lookup request.route_name (reload_from_config l s.engine config).0.runtime.chains
        ≡ some chain
      → let engine = (reload_from_config l s.engine config).0 in
        (s.engine.runtime.generation < engine.runtime.generation) × RunsAfresh l engine request vm
  reload-forgets {n} {s} config vm request chain r small here done found =
      let newer = reload-newer config r small done in
      let behind : vm.generation ≤ s.engine.runtime.generation =
        subst (IsBehind l s.engine.runtime.generation) here (Reach-Inv r small).behind in
      let engine = (reload_from_config l s.engine config).0 in
      (newer, older-RunsAfresh l engine request vm chain found (omega arith))
