-- ===== src/Plugins/Registry.antt =====
-- controlplane/src/plugins/registry.rs: the plugins found in the directory, and the chain of each route.
pub mod Sorted
pub mod Chains
use Prim.Native.Nat.{Ordering, compare}
use Prim.Native.String
use open_api_gateway.Prelude.{
  ℕ, ◌+◌, String, ◌<>◌, ◌==◌, Bool, true, false, not, Option, none, some, List, [], ◌∷◌, ◌++◌,
  filter, if◌then◌else◌,
}
use open_api_gateway.Prelude.Result.{Result, ok, err, ◌>>=◌}
use open_api_gateway.Prelude.Maps.{put, lookup}
use open_api_gateway.Prelude.Text.{join}
use open_api_gateway.Auth.Types.{ℤ, pos, negsuc}
use open_api_gateway.Config.Types.{
  Platform, PluginInstance, RouteConfig, PluginLimits, GatewayConfig,
}
use open_api_gateway.Plugins.Lua.{
  Lua, DirEntry, PluginBinding, PluginMeta, PluginChain, PluginRuntime, PluginError,
  missing_directory, missing_plugin, schema_validation, load,
}

-- `i64::cmp`
unfoldable pub compare_i64 : ℤ → ℤ → Ordering
compare_i64 (pos a) (pos b) = compare a b
compare_i64 (pos a) (negsuc b) = Ordering.gt
compare_i64 (negsuc a) (pos b) = Ordering.lt
compare_i64 (negsuc a) (negsuc b) = compare b a

abbrev pub is_enabled : {p : Platform} → PluginInstance p → Bool
is_enabled c = c.enabled

module _ {p : Platform} (l : Lua p) where
  open l use {State, Error, Table, Json, to_string}

  abbrev pub Registry : Type 0
  Registry = List (String × PluginMeta l)

  -- the order of `sort_by`
  unfoldable pub compare_bindings : PluginBinding l → PluginBinding l → Ordering
  unfolding compare_i64
  compare_bindings left right =
      String.then (compare_i64 left.priority right.priority) (String.compare left.name right.name)

  unfoldable pub insert_binding : PluginBinding l → List (PluginBinding l) → List (PluginBinding l)
  unfolding compare_bindings
  insert_binding x [] = x ∷ []
  insert_binding x (y ∷ ys) = elim (compare_bindings x y) [
    | Ordering.gt ↦ y ∷ insert_binding x ys
    | _ ↦ x ∷ y ∷ ys
  ]

  -- `sort_by`, which is stable: an item stays before the equal ones behind it
  unfoldable pub sort_bindings : List (PluginBinding l) → List (PluginBinding l)
  unfolding insert_binding
  sort_bindings [] = []
  sort_bindings (x ∷ xs) = insert_binding x (sort_bindings xs)

  -- `serde_json::to_value(config).unwrap_or(Null)`
  unfoldable pub json_config : PluginInstance p → Json
  json_config instance_config = elim (l.to_json instance_config.config) [
    | none ↦ l.null
    | some json ↦ json
  ]

  unfoldable pub schema_errors : String → List String → Result PluginError (Unit {0})
  unfolding join
  schema_errors name [] = ok tt
  schema_errors name (e ∷ errors) = err (schema_validation name (join "; " (e ∷ errors)))

  unfoldable pub compiled_schema :
      String → Json → Result String l.Schema → Result PluginError (Unit {0})
  unfolding schema_errors
  compiled_schema name config (err reason) = err (schema_validation name reason)
  compiled_schema name config (ok schema) = schema_errors name (l.validate_json schema config)

  unfoldable pub validate_schema : PluginMeta l → PluginInstance p → Result PluginError (Unit {0})
  unfolding compiled_schema json_config
  validate_schema meta configured = elim meta.schema [
    | none ↦ ok tt
    | some schema ↦ compiled_schema meta.name (json_config configured) (l.compile schema)
  ]

  unfoldable pub binding_of : String → PluginInstance p → PluginMeta l → PluginBinding l
  unfolding json_config
  binding_of route_name configured meta = record {
    id = route_name <> (":" <> configured.name);
    name = meta.name;
    priority = meta.priority;
    version = meta.version;
    fail_open = configured.fail_mode == "open";
    source = meta.source;
    config = json_config configured;
  }

  -- One round of the loop of `push_bindings`.
  unfoldable pub bind_plugin :
      Registry → String → PluginInstance p → Result PluginError (PluginBinding l)
  unfolding lookup validate_schema binding_of
  bind_plugin registry route_name configured = elim (lookup configured.name registry) [
    | none ↦ err (missing_plugin configured.name)
    | some meta ↦
        validate_schema meta configured >>= λ _. ok (binding_of route_name configured meta)
  ]

  -- The loop, over the plugins that are enabled: what it pushes.
  unfoldable pub bind_all :
      Registry → String → List (PluginInstance p) → Result PluginError (List (PluginBinding l))
  unfolding bind_plugin
  bind_all registry route_name [] = ok []
  bind_all registry route_name (c ∷ configured) = do
    binding ← bind_plugin registry route_name c
    bindings ← bind_all registry route_name configured
    ok (binding ∷ bindings)

  unfoldable pub push_bindings :
      List (PluginBinding l)
      → String
      → List (PluginInstance p)
      → Registry
      → Result PluginError (List (PluginBinding l))
  unfolding bind_all filter
  push_bindings bindings route_name configured registry =
      bind_all registry route_name (filter is_enabled configured) >>= λ pushed.
      ok (bindings ++ pushed)

  unfoldable pub route_chain :
      Registry → List (PluginInstance p) → RouteConfig p → Result PluginError (PluginChain l)
  unfolding push_bindings sort_bindings
  route_chain registry global route = do
    shared ← push_bindings [] route.name global registry
    bindings ← push_bindings shared route.name route.plugins registry
    ok record { bindings = sort_bindings bindings }

  -- The loop over the routes, with the chains made so far.
  unfoldable pub route_chains :
      Registry
      → List (PluginInstance p)
      → List (RouteConfig p)
      → List (String × PluginChain l)
      → Result PluginError (List (String × PluginChain l))
  unfolding route_chain put
  route_chains registry global [] chains = ok chains
  route_chains registry global (r ∷ routes) chains = do
    chain ← route_chain registry global r
    route_chains registry global routes (put r.name chain chains)

  unfoldable pub loaded {ℓ} : {A : Type ℓ} → String → Result String A → Result PluginError A
  loaded name (ok a) = ok a
  loaded name (err reason) = err (load name reason)

  unfoldable pub metadata :
      String → Result Error String → Result Error ℤ → Result PluginError (String × ℤ)
  metadata name (err e) priority = err (load name ("missing VERSION: " <> to_string e))
  metadata name (ok version) (err e) = err (load name ("missing PRIORITY: " <> to_string e))
  metadata name (ok version) (ok priority) = ok (version, priority)

  unfoldable pub meta_of :
      String → String → State × Result Error Table → Result PluginError (PluginMeta l)
  unfolding metadata
  meta_of name source (lua, err e) = err (load name (to_string e))
  meta_of name source (lua, ok plugin) =
      metadata name (l.get_version lua plugin) (l.get_priority lua plugin)
      >>= λ (version, priority). ok record {
        name = name;
        priority = priority;
        version = version;
        source = source;
        schema = l.get_schema lua plugin;
      }

  unfoldable pub meta_in : String → String → Result Error State → Result PluginError (PluginMeta l)
  unfolding meta_of
  meta_in name source (err e) = err (load name (to_string e))
  meta_in name source (ok lua) = meta_of name source (l.eval lua source name)

  unfoldable pub extract_meta : String → String → PluginLimits → Result PluginError (PluginMeta l)
  unfolding meta_in
  extract_meta name source limits = meta_in name source (l.create_sandboxed_vm limits)

  unfoldable pub stem_of : DirEntry → Result PluginError String
  stem_of entry = elim entry.file_stem [
    | none ↦ err (load entry.display "invalid UTF-8 file name")
    | some stem ↦ ok stem
  ]

  unfoldable pub is_lua : Option String → Bool
  is_lua none = false
  is_lua (some extension) = extension == "lua"

  unfoldable pub discover_plugin : PluginLimits → Registry → DirEntry → Result PluginError Registry
  unfolding loaded stem_of extract_meta put
  discover_plugin limits plugins entry = do
    source ← loaded entry.display entry.contents
    name ← stem_of entry
    meta ← extract_meta name source limits
    ok (put name meta plugins)

  unfoldable pub discover_from :
      String → PluginLimits → Registry → List (Result String DirEntry) → Result PluginError Registry
  unfolding discover_plugin loaded is_lua
  discover_from directory limits plugins [] = ok plugins
  discover_from directory limits plugins (e ∷ entries) = do
    entry ← loaded directory e
    plugins' ← if is_lua entry.extension then discover_plugin limits plugins entry else ok plugins
    discover_from directory limits plugins' entries

  unfoldable pub discover_plugins : String → PluginLimits → Result PluginError Registry
  unfolding discover_from loaded
  discover_plugins directory limits =
      loaded directory (l.read_dir directory) >>= discover_from directory limits []

  unfoldable pub runtime_with :
      GatewayConfig p → ℕ → List (String × PluginChain l) → PluginRuntime l
  runtime_with config generation chains = record {
    generation = generation;
    limits = config.plugins.limits;
    chains = chains;
  }

  unfoldable pub build_runtime : GatewayConfig p → ℕ → Result PluginError (PluginRuntime l)
  unfolding runtime_with discover_plugins route_chains
  build_runtime config generation =
      if not config.plugins.enabled
      then ok (runtime_with config generation [])
      else if not (l.exists config.plugins.directory)
      then err (missing_directory config.plugins.directory)
      else discover_plugins config.plugins.directory config.plugins.limits >>= λ registry.
          route_chains registry config.plugins.global config.routes [] >>= λ chains.
          ok (runtime_with config generation chains)
