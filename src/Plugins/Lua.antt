-- ===== src/Plugins/Lua.antt =====
-- What controlplane/src/plugins/ takes from the crates mlua, serde_json and jsonschema and from the
-- file system, and the types of types.rs, which hold their values.
use open_api_gateway.Prelude.{ℕ, String, ◌<>◌, Bool, Option, List}
use open_api_gateway.Prelude.Result.{Result}
use open_api_gateway.Auth.Types.{ℤ}
use open_api_gateway.Config.Types.{Platform, PluginLimits}

-- A run of a Lua function, by the calls it makes to the functions of `gateway` that Rust provides.
-- Lua code may catch the error of a call and go on, so what follows a call depends on its result.
pub data Call (State Error : Type 0) : Type 0 where
  returned : State → Call State Error
  raised : State → Error → Call State Error
  response_set_header : (name value : String) → Call State Error → Call State Error
  request_set_header :
      (name value : String) → (Result Error (Unit {0}) → Call State Error) → Call State Error
  exit : (status : ℕ) → (body : Option String) → (Error → Call State Error) → Call State Error

pub record RequestApi : Type 0 where
  pub get_header : String → Option String
  pub get_method : String
  pub get_path : String
  pub get_host : String

-- The global `gateway` that a plugin reads.
pub record Gateway (Json Table : Type 0) : Type 0 where
  pub request : RequestApi
  pub shared : Table
  pub response_status : Option ℕ
  pub route_name : String
  pub plugin_name : String
  pub plugin_version : String
  pub plugin_config : Json

-- An entry of the plugin directory: its path as text, the extension and stem if they are UTF-8, and
-- its contents or the error of reading them.
pub record DirEntry : Type 0 where
  pub display : String
  pub extension : Option String
  pub file_stem : Option String
  pub contents : Result String String

pub record Lua (p : Platform) : Type 1 where
  -- an interpreter's state, its errors, its tables and functions, and keys of its registry
  pub State : Type 0
  pub Error : Type 0
  pub Table : Type 0
  pub Function : Type 0
  pub RegistryKey : Type 0
  -- `Error::RuntimeError` and the message of an error that is one
  pub runtime_error : String → Error
  pub runtime_message : Error → Option String
  pub to_string : Error → String
  -- `create_sandboxed_vm` and `reset_limits` of sandbox.rs, which set up an interpreter
  pub create_sandboxed_vm : PluginLimits → Result Error State
  pub reset_limits : State → PluginLimits → State × Result Error (Unit {0})
  -- `load(source).set_name(name).eval()`
  pub eval : State → (source name : String) → State × Result Error Table
  pub get_function : State → Table → String → Option Function
  pub get_version : State → Table → Result Error String
  pub get_priority : State → Table → Result Error ℤ
  -- `create_table`, and a context table with the shared table and the status set in it
  pub create_table : State → State × Result Error Table
  pub create_context : State → Table → Option ℕ → State × Result Error Table
  pub create_registry_value : State → Table → State × Result Error RegistryKey
  pub registry_value : State → RegistryKey → Result Error Table
  -- `serde_json::Value`
  pub Json : Type 0
  pub null : Json
  pub to_json : p.Value → Option Json
  pub get_schema : State → Table → Option Json
  -- the call of `new` with the configuration, and of a phase with the instance and the context
  pub construct : State → Function → Table → Json → State × Result Error Table
  pub install : State → Gateway Json Table → State × Result Error (Unit {0})
  pub clear_gateway : State → State
  pub call : State → Function → Table → Table → Call State Error
  -- the clock, in nanoseconds
  pub clock : State → State × ℕ
  -- the crate jsonschema: the errors of a value, none of them if it is valid
  pub Schema : Type 0
  pub compile : Json → Result String Schema
  pub validate_json : Schema → Json → List String
  -- the file system
  pub exists : String → Bool
  pub read_dir : String → Result String (List (Result String DirEntry))

-- `PluginError`
pub data PluginError : Type 0 where
  missing_directory : String → PluginError
  missing_plugin : String → PluginError
  schema_validation : (name reason : String) → PluginError
  load : (name reason : String) → PluginError
  runtime : (name reason : String) → PluginError

unfoldable pub error_text : PluginError → String
error_text (missing_directory d) = "plugin directory '" <> (d <> "' does not exist")
error_text (missing_plugin n) = "plugin '" <> (n <> "' is configured but no Lua file was found")
error_text (schema_validation n r) = "plugin '" <> (n <> ("' failed schema validation: " <> r))
error_text (load n r) = "plugin '" <> (n <> ("' failed to load: " <> r))
error_text (runtime n r) = "plugin '" <> (n <> ("' runtime error: " <> r))

pub record PluginExit : Type 0 where
  pub status : ℕ
  pub body : Option String
  pub plugin_name : String

module _ {p : Platform} (l : Lua p) where
  pub record PluginBinding : Type 0 where
    pub id : String
    pub name : String
    pub priority : ℤ
    pub version : String
    pub fail_open : Bool
    pub source : String
    pub config : l.Json

  pub record PluginMeta : Type 0 where
    pub name : String
    pub priority : ℤ
    pub version : String
    pub source : String
    pub schema : Option l.Json

  pub record PluginChain : Type 0 where
    pub bindings : List PluginBinding

  pub record PluginRuntime : Type 0 where
    pub generation : ℕ
    pub limits : PluginLimits
    pub chains : List (String × PluginChain)

  pub record PluginEngine : Type 0 where
    pub runtime : PluginRuntime
    pub next_generation : ℕ
