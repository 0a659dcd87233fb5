-- ===== src/Tests/Plugins.antt =====
-- Plugins as scripts that a small interpreter knows by their source, and runs of a chain of them.
use open_api_gateway.Prelude.{
  ℕ, ◌+◌, String, ◌<>◌, ◌==◌, eq_iff, ◌≢◌, true, false, none, some, Option-cases, inl, inr, [], ◌∷◌,
  All, ◌≡◌, refl, ◌<◌, arith, if◌then◌else◌,
}
use open_api_gateway.Prelude.Result.{ok, err, IsOk}
use open_api_gateway.Prelude.Maps.{lookup}
use open_api_gateway.Auth.Types.{pos}
use open_api_gateway.Config.Types.{PluginInstance, GatewayConfig}
use open_api_gateway.ExtAuthz.Events.{PluginRequest, continue, short_circuit}
use open_api_gateway.Plugins.Lua.{
  Lua, Call, returned, raised, response_set_header, request_set_header, exit, PluginRuntime,
  PluginBinding, PluginChain, PluginEngine,
}
use open_api_gateway.Plugins.Sdk.{new_state}
use open_api_gateway.Plugins.Vm.{ThreadLocalVm, plugin_instance, new_vm}
use open_api_gateway.Plugins.Vm.Instances.{plugin_instance-shared}
use open_api_gateway.Plugins.Vm.{load_error}
use open_api_gateway.Plugins.Registry.{build_runtime}
use open_api_gateway.Plugins.Registry.Chains.{IsChainOf, build_runtime-HasChain}
use open_api_gateway.Plugins.Executor.{run_access}
use open_api_gateway.Plugins.Executor.Open.{IsNoFailure, run_access-IsNoFailure}
use open_api_gateway.Plugins.Engine.{from_config, reload_from_config, execute_access}
use open_api_gateway.Plugins.Engine.Access.{IsClean, execute_access-IsClean}
use open_api_gateway.Plugins.Engine.Reported.{IsReported, plugins_of, execute_access-IsReported}
use open_api_gateway.Plugins.Engine.Reload.{start, access, reload-forgets}
use open_api_gateway.Plugins.Engine.Afresh.{RunsAfresh}
use open_api_gateway.Tests.Sample.{platform, config}

-- What the plugins do: set headers, refuse with 403, forge a reserved header, or fail.
abbrev run_source : String → ℕ → Call ℕ String
run_source source clock =
    if source == "headers"
    then request_set_header "X-User" "alice"
        (λ _. response_set_header "X-Plugin" "on" (returned clock))
    else if source == "refuse"
    then exit 403 none (λ e. raised clock e)
    else if source == "forge"
    then request_set_header "X-Auth-Sub" "root"
        (λ r. elim r [ ok _ ↦ returned clock | err e ↦ raised clock e ])
    else raised clock "no memory left"

-- The state is the clock, and a table, function or key is the plugin's source.
abbrev pub lua : Lua platform
lua = record {
  State = ℕ;
  Error = String;
  Table = String;
  Function = String;
  RegistryKey = String;
  runtime_error = λ s. s;
  runtime_message = λ e. some e;
  to_string = λ e. e;
  create_sandboxed_vm = λ limits. ok 0;
  reset_limits = λ s limits. (s, ok tt);
  eval = λ s source name. (s, ok source);
  get_function = λ s table name. if name == "new" then none else some table;
  get_version = λ s table. ok "1.0";
  get_priority = λ s table. ok (pos (if table == "refuse" then 20 else 10));
  create_table = λ s. (s, ok "shared");
  create_context = λ s table status. (s, ok table);
  create_registry_value = λ s table. (s, ok table);
  registry_value = λ s key. ok key;
  Json = String;
  null = "null";
  to_json = λ value. some value;
  get_schema = λ s table. none;
  construct = λ s function table json. (s, ok table);
  install = λ s gateway. (s, ok tt);
  clear_gateway = λ s. s;
  call = λ s function instance_table context. run_source function s;
  clock = λ s. (s + 1000000, s + 1000000);
  Schema = String;
  compile = λ json. ok json;
  validate_json = λ schema json. [];
  exists = λ directory. true;
  read_dir = λ directory. ok (
      ok record {
        display = "headers.lua";
        extension = some "lua";
        file_stem = some "headers";
        contents = ok "headers";
      }
      ∷ ok record {
        display = "refuse.lua";
        extension = some "lua";
        file_stem = some "refuse";
        contents = ok "refuse";
      }
      ∷ ok record {
        display = "notes.txt";
        extension = some "txt";
        file_stem = some "notes";
        contents = err "unreadable";
      }
      ∷ []);
}

abbrev plugin : String → PluginInstance platform
plugin name = record { name = name; enabled = true; fail_mode = "open"; config = "{}" }

abbrev pub plugin_config : GatewayConfig platform
plugin_config = record config {
  plugins = record {
    enabled = true;
    directory = "plugins";
    limits = record { max_memory_bytes = 0; max_instructions = 0; chain_timeout_ms = 50 };
    global = plugin "refuse" ∷ plugin "headers" ∷ [];
  };
}

abbrev binding : String → String → ℕ → PluginBinding lua
binding route name priority = record {
  id = route <> (":" <> name);
  name = name;
  priority = pos priority;
  version = "1.0";
  fail_open = true;
  source = name;
  config = "{}";
}

abbrev pub engine : PluginEngine lua
engine = record {
  runtime = record {
    generation = 1;
    limits = plugin_config.plugins.limits;
    chains =
        (
          "home",
          record { bindings = binding "home" "headers" 10 ∷ binding "home" "refuse" 20 ∷ [] },
        )
        ∷ ("orders", record { bindings = binding "orders" "forge" 10 ∷ [] })
        ∷ [];
  };
  next_generation = 2;
}

abbrev vm : ThreadLocalVm lua
vm = record { lua = 0; generation = 0; instances = [] }

abbrev request : String → PluginRequest
request route = record {
  route_name = route;
  host = "api";
  method = "GET";
  path = "/";
  headers = [];
}

-- Two plugins in turn: the first one's response header goes out with the refusal of the second.
refused :
    (execute_access lua engine (request "home") 0 (ok vm)).1
    ≡ ok (short_circuit "refuse" 403 none (("x-plugin", "on") ∷ []) 3000)
unfolding execute_access
refused = refl

-- A plugin that fails open is passed over, and its reserved header is not set.
forged : (execute_access lua engine (request "orders") 0 (ok vm)).1 ≡ ok (continue [] [] 2000)
unfolding execute_access
forged = refl

abbrev built : PluginRuntime lua
built = record {
  generation = 1;
  limits = plugin_config.plugins.limits;
  chains =
      ("home", record { bindings = binding "home" "headers" 10 ∷ binding "home" "refuse" 20 ∷ [] })
      ∷ (
        "orders",
        record { bindings = binding "orders" "headers" 10 ∷ binding "orders" "refuse" 20 ∷ [] },
      )
      ∷ [];
}

is_built : build_runtime lua plugin_config 1 ≡ ok built
unfolding build_runtime
is_built = refl

abbrev first_engine : PluginEngine lua
first_engine = record { runtime = built; next_generation = 2 }

is_first : from_config lua plugin_config ≡ ok first_engine
unfolding from_config build_runtime
is_first = refl

is_reloaded : (reload_from_config lua first_engine plugin_config).1 ≡ ok tt
unfolding reload_from_config build_runtime
is_reloaded = refl

is_new_vm : new_vm lua ≡ ok vm
unfolding new_vm
is_new_vm = refl

home-orders : ◌≢◌ {A = String} "home" "orders"
home-orders h = let e : false ≡ true = (eq_iff "home" "orders").1 h in cc

build_runtime-HasChain_example :
    All
      (λ r.
        (chain : PluginChain lua) × (lookup r.name built.chains ≡ some chain)
        × IsChainOf lua plugin_config.plugins.global r chain)
      plugin_config.routes
build_runtime-HasChain_example =
    build_runtime-HasChain lua plugin_config 1 built refl ((home-orders, tt), (tt, tt)) is_built

execute_access-IsClean_example : IsClean (execute_access lua engine (request "home") 0 (ok vm)).1
execute_access-IsClean_example = execute_access-IsClean lua engine (request "home") 0 (ok vm)

execute_access-IsReported_example :
    IsReported
      (plugins_of lua engine (request "home"))
      (execute_access lua engine (request "home") 0 (ok vm)).1
execute_access-IsReported_example = execute_access-IsReported lua engine (request "home") 0 (ok vm)

forge_loads : (v : ThreadLocalVm lua) → IsOk (plugin_instance lua v (binding "orders" "forge" 10)).1
unfolding plugin_instance
forge_loads v = elim (Option-cases (lookup "orders:forge" v.instances)) [
  | inl e ↦ rw (e, plugin_instance) tt
  | inr (key, e) ↦ rw (e, plugin_instance) tt
]

run_access-IsNoFailure_example :
    IsNoFailure
      (run_access lua
        (request "orders")
        "shared"
        0
        50
        (binding "orders" "forge" 10 ∷ [])
        vm
        new_state).1
run_access-IsNoFailure_example =
    run_access-IsNoFailure lua record { installs = λ s g. tt; contexts = λ s t o. tt }
      (request "orders") "shared" 0 50 (binding "orders" "forge" 10 ∷ []) vm new_state
      (record { fails_open = refl; loads = forge_loads }, tt)

is_loaded : (plugin_instance lua vm (binding "home" "headers" 10)).1 ≡ ok "headers"
unfolding plugin_instance
is_loaded = refl

plugin_instance-shared_example :
    let after = (plugin_instance lua vm (binding "home" "headers" 10)).0 in
    (key : String) × ((b' : PluginBinding lua)
      → b'.id ≡ "home:headers"
      → plugin_instance lua after b'
        ≡ (after, load_error lua b'.name (lua.registry_value after.lua key)))
plugin_instance-shared_example =
    plugin_instance-shared lua vm (binding "home" "headers" 10) "headers" is_loaded

abbrev used_vm : ThreadLocalVm lua
used_vm = record {
  lua = 3000000;
  generation = 1;
  instances = ("home:headers", "headers") ∷ ("home:refuse", "refuse") ∷ [];
}

is_used : (execute_access lua first_engine (request "home") 0 (new_vm lua)).0 ≡ ok used_vm
unfolding execute_access new_vm
is_used = refl

home_chain :
    lookup "home" (reload_from_config lua first_engine plugin_config).0.runtime.chains
    ≡ some record { bindings = binding "home" "headers" 10 ∷ binding "home" "refuse" 20 ∷ [] }
unfolding reload_from_config build_runtime
home_chain = refl

-- The thread has kept the instances of both plugins from the request before the reload.
reload-forgets_example :
    let engine = (reload_from_config lua first_engine plugin_config).0 in
    (first_engine.runtime.generation < engine.runtime.generation)
    × RunsAfresh lua engine (request "home") used_vm
reload-forgets_example =
    reload-forgets lua {n = 0} plugin_config used_vm (request "home")
      record { bindings = binding "home" "headers" 10 ∷ binding "home" "refuse" 20 ∷ [] }
      (access (request "home") 0 (start plugin_config first_engine is_first)) (omega arith) is_used
      is_reloaded home_chain
