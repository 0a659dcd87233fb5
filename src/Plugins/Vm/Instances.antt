-- ===== src/Plugins/Vm/Instances.antt =====
-- The instances that an interpreter keeps: how long, and for which bindings.
use open_api_gateway.Prelude.{
  ℕ, String, some, Option-cases, [], ◌≡◌, ◌≢◌, refl, ap, ◌∙◌, inl, inr, arith,
}
use open_api_gateway.Prelude.Result.{Result, ok, err}
use open_api_gateway.Prelude.Maps.{lookup, lookup-put}
use open_api_gateway.Config.Types.{Platform}
use open_api_gateway.Plugins.Lua.{Lua, PluginBinding, PluginError}
use open_api_gateway.Plugins.Vm.{
  ThreadLocalVm, load_error, forget_stale, keep_instance, register_instance, construct_instance,
  plugin_instance,
}

module _ {p : Platform} (l : Lua p) where
  -- The interpreter keeps an instance under the identifier.
  abbrev pub Keeps : String → ThreadLocalVm l → Type 0
  Keeps id vm = (key : l.RegistryKey) × (lookup id vm.instances ≡ some key)

  abbrev IsDone : PluginBinding l → ThreadLocalVm l × Result PluginError l.Table → Type 0
  IsDone b (vm, ok t) = Keeps b.id vm
  IsDone b (vm, err e) = Unit {0}

  abbrev Stays : ℕ → ThreadLocalVm l × Result PluginError l.Table → Type 0
  Stays g x = x.0.generation ≡ g

  register_instance-IsDone :
      (b : PluginBinding l) (vm : ThreadLocalVm l) (x : l.State × Result l.Error l.Table)
      → IsDone b (register_instance l b vm x) × Stays vm.generation (register_instance l b vm x)
  unfolding register_instance keep_instance
  register_instance-IsDone b vm (lua, err e) = (tt, refl)
  register_instance-IsDone b vm (lua, ok t) = kept (l.create_registry_value lua t)
    where
      kept :
          (x : l.State × Result l.Error l.RegistryKey)
          → IsDone b (keep_instance l b t vm x) × Stays vm.generation (keep_instance l b t vm x)
      kept (s, err e) = (tt, refl)
      kept (s, ok key) = ((key, lookup-put b.id key vm.instances), refl)

  construct_instance-IsDone :
      (b : PluginBinding l) (vm : ThreadLocalVm l) (x : l.State × Result l.Error l.Table)
      → IsDone b (construct_instance l b vm x) × Stays vm.generation (construct_instance l b vm x)
  unfolding construct_instance
  construct_instance-IsDone b vm (lua, err e) = (tt, refl)
  construct_instance-IsDone b vm (lua, ok t) = elim (Option-cases (l.get_function lua t "new")) [
    | inl e ↦ rw (e, construct_instance) (register_instance-IsDone b vm (lua, ok t))
    | inr (f, e) ↦
        rw (e, construct_instance) (register_instance-IsDone b vm (l.construct lua f t b.config))
  ]

  plugin_instance-IsDone :
      (vm : ThreadLocalVm l) (b : PluginBinding l)
      → IsDone b (plugin_instance l vm b) × Stays vm.generation (plugin_instance l vm b)
  unfolding plugin_instance load_error
  plugin_instance-IsDone vm b = elim (Option-cases (lookup b.id vm.instances)) [
    | inl e ↦
        rw (e, plugin_instance) (construct_instance-IsDone b vm (l.eval vm.lua b.source b.name))
    | inr (key, e) ↦ rw (e, plugin_instance) (found key e (l.registry_value vm.lua key))
  ]
    where
      found :
          (key : l.RegistryKey)
          → lookup b.id vm.instances ≡ some key
          → (r : Result l.Error l.Table)
          → IsDone b (vm, load_error l b.name r) × Stays vm.generation (vm, load_error l b.name r)
      found key e (ok t) = ((key, e), refl)
      found key e (err x) = (tt, refl)

  pub plugin_instance-generation :
      (vm : ThreadLocalVm l) (b : PluginBinding l)
      → (plugin_instance l vm b).0.generation ≡ vm.generation
  plugin_instance-generation vm b = (plugin_instance-IsDone vm b).1

  IsDone-ok :
      (b : PluginBinding l) (x : ThreadLocalVm l × Result PluginError l.Table) (t : l.Table)
      → x.1 ≡ ok t
      → IsDone b x
      → Keeps b.id x.0
  IsDone-ok b (vm, ok s) t e h = h
  IsDone-ok b (vm, err x) t e h = absurd (cc)

  plugin_instance_kept :
      (vm : ThreadLocalVm l) (b : PluginBinding l) (key : l.RegistryKey)
      → lookup b.id vm.instances ≡ some key
      → plugin_instance l vm b ≡ (vm, load_error l b.name (l.registry_value vm.lua key))
  unfolding plugin_instance
  plugin_instance_kept vm b key e = rw (e, plugin_instance) refl

  -- Once a binding's instance is there, every binding of the same identifier gets the value of one
  -- and the same registry key, whatever its own source and configuration are, and nothing is built.
  pub plugin_instance-shared :
      (vm : ThreadLocalVm l) (b : PluginBinding l) (t : l.Table)
      → (plugin_instance l vm b).1 ≡ ok t
      → let after = (plugin_instance l vm b).0 in
        (key : l.RegistryKey) × ((b' : PluginBinding l)
          → b'.id ≡ b.id
          → plugin_instance l after b'
            ≡ (after, load_error l b'.name (l.registry_value after.lua key)))
  plugin_instance-shared vm b t h =
      let (key, e) = IsDone-ok b (plugin_instance l vm b) t h (plugin_instance-IsDone vm b).0 in
      let after = (plugin_instance l vm b).0 in
      (
        key,
        λ b' same. plugin_instance_kept after b' key (ap (λ i. lookup i after.instances) same ∙ e),
      )

  pub forget_stale-generation :
      (g : ℕ) (vm : ThreadLocalVm l) → (forget_stale l g vm).generation ≡ g
  unfolding forget_stale
  forget_stale-generation g vm = ground arith

  pub forget_stale-instances :
      (g : ℕ) (vm : ThreadLocalVm l) → vm.generation ≢ g → (forget_stale l g vm).instances ≡ []
  unfolding forget_stale
  forget_stale-instances g vm h = ground arith
