-- ===== src/Plugins/Vm.antt =====
-- controlplane/src/plugins/pool.rs and `plugin_instance` of executor.rs: the interpreter of a thread and
-- the plugin instances it keeps, by the identifiers of their bindings.
pub mod Instances
use open_api_gateway.Prelude.{
  ℕ, String, Bool, Option, none, some, List, [], ◌∷◌, eqb, if◌then◌else◌,
}
use open_api_gateway.Prelude.Result.{Result, ok, err}
use open_api_gateway.Prelude.Maps.{put, lookup}
use open_api_gateway.Config.Types.{Platform, PluginLimits}
use open_api_gateway.Plugins.Lua.{Lua, PluginBinding, PluginError, load, error_text}

abbrev pub default_limits : PluginLimits
default_limits = record {
  max_memory_bytes = 8388608;
  max_instructions = 1000000;
  chain_timeout_ms = 50;
}

module _ {p : Platform} (l : Lua p) where
  open l use {State, Error, Table, RegistryKey, Function, Json, to_string}

  pub record ThreadLocalVm : Type 0 where
    pub lua : State
    pub generation : ℕ
    pub instances : List (String × RegistryKey)

  -- `map_err` to a load error of the plugin
  unfoldable pub load_error {ℓ} : {A : Type ℓ} → String → Result Error A → Result PluginError A
  load_error name (ok a) = ok a
  load_error name (err e) = err (load name (to_string e))

  unfoldable pub vm_of : Result Error State → Result PluginError ThreadLocalVm
  vm_of (ok lua) = ok record { lua = lua; generation = 0; instances = [] }
  vm_of (err e) = err (load "sandbox" (to_string e))

  -- `ThreadLocalVm::new`
  unfoldable pub new_vm : Result PluginError ThreadLocalVm
  unfolding vm_of
  new_vm = vm_of (l.create_sandboxed_vm default_limits)

  unfoldable pub forget_stale : ℕ → ThreadLocalVm → ThreadLocalVm
  forget_stale generation vm =
      if eqb vm.generation generation
      then vm
      else record vm { generation = generation; instances = [] }

  unfoldable pub prepare :
      ℕ → PluginLimits → ThreadLocalVm → ThreadLocalVm × Result PluginError (Unit {0})
  unfolding forget_stale load_error
  prepare generation limits vm =
      let fresh = forget_stale generation vm in
      let (lua, reset) = l.reset_limits fresh.lua limits in
      (record fresh { lua = lua }, load_error "sandbox" reset)

  unfoldable pub prepared {ℓ} :
      {R : Type ℓ}
      → (ThreadLocalVm → ThreadLocalVm × Result PluginError R)
      → ThreadLocalVm × Result PluginError (Unit {0})
      → Result PluginError ThreadLocalVm × Result PluginError R
  prepared f (vm, err e) = (ok vm, err e)
  prepared f (vm, ok _) = (ok (f vm).0, (f vm).1)

  -- The thread's slot holds an interpreter, or the error of making it.
  unfoldable pub with_thread_local_vm {ℓ} :
      {R : Type ℓ}
      → ℕ
      → PluginLimits
      → (ThreadLocalVm → ThreadLocalVm × Result PluginError R)
      → Result PluginError ThreadLocalVm
      → Result PluginError ThreadLocalVm × Result PluginError R
  unfolding prepare prepared error_text
  with_thread_local_vm generation limits f (err e) = (err e, err (load "sandbox" (error_text e)))
  with_thread_local_vm generation limits f (ok vm) = prepared f (prepare generation limits vm)

  -- The key of a new instance is kept under the binding's identifier.
  unfoldable pub keep_instance :
      PluginBinding l
      → Table
      → ThreadLocalVm
      → State × Result Error RegistryKey
      → ThreadLocalVm × Result PluginError Table
  unfolding put load_error
  keep_instance binding instance_table vm (lua, err e) =
      (record vm { lua = lua }, err (load binding.name (to_string e)))
  keep_instance binding instance_table vm (lua, ok key) =
      (record vm { lua = lua; instances = put binding.id key vm.instances }, ok instance_table)

  unfoldable pub register_instance :
      PluginBinding l
      → ThreadLocalVm
      → State × Result Error Table
      → ThreadLocalVm × Result PluginError Table
  unfolding keep_instance
  register_instance binding vm (lua, err e) =
      (record vm { lua = lua }, err (load binding.name (to_string e)))
  register_instance binding vm (lua, ok table) =
      keep_instance binding table vm (l.create_registry_value lua table)

  -- `new` is called with the configuration if the plugin has it; the plugin is its own instance if not.
  unfoldable pub construct_instance :
      PluginBinding l
      → ThreadLocalVm
      → State × Result Error Table
      → ThreadLocalVm × Result PluginError Table
  unfolding register_instance
  construct_instance binding vm (lua, err e) =
      (record vm { lua = lua }, err (load binding.name (to_string e)))
  construct_instance binding vm (lua, ok plugin) = elim (l.get_function lua plugin "new") [
    | none ↦ register_instance binding vm (lua, ok plugin)
    | some constructor ↦
        register_instance binding vm (l.construct lua constructor plugin binding.config)
  ]

  unfoldable pub plugin_instance :
      ThreadLocalVm → PluginBinding l → ThreadLocalVm × Result PluginError Table
  unfolding construct_instance lookup load_error
  plugin_instance vm binding = elim (lookup binding.id vm.instances) [
    | some key ↦ (vm, load_error binding.name (l.registry_value vm.lua key))
    | none ↦ construct_instance binding vm (l.eval vm.lua binding.source binding.name)
  ]
