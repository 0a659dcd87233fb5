-- ===== src/Config/Validation/Checks.antt =====
-- The checks of controlplane/src/config/validation.rs that several parts of the configuration share:
-- constants, required conditions, repeated names, addresses and plugin instances.
use open_api_gateway.Prelude.{
  String, ◌<>◌, ◌==◌, Bool, true, false, not, ◌&&◌, Option, none, some, List, [], ◌∷◌, ◌++◌, any,
}
use open_api_gateway.Prelude.Text.{rsplit_colon, parse_u16, trim, is_empty_text, join}
use open_api_gateway.Config.Types.{Platform, PluginInstance}
use open_api_gateway.Config.Errors.{ConfigError, invalid_value}

abbrev pub valid_methods : List String
valid_methods = "GET" ∷ "POST" ∷ "PUT" ∷ "DELETE" ∷ "PATCH" ∷ "HEAD" ∷ []

abbrev pub valid_key_by : List String
valid_key_by = "ip" ∷ "sub" ∷ []

abbrev pub valid_plugin_fail_modes : List String
valid_plugin_fail_modes = "closed" ∷ "open" ∷ []

abbrev pub contains : List String → String → Bool
contains names name = any (λ n. n == name) names

-- `if !holds { errs.push(error) }`
abbrev pub require : Bool → ConfigError → List ConfigError
require true error = []
require false error = error ∷ []

-- The loops that insert each name into a `HashSet` and report one that is already there.
unfoldable pub duplicates : (String → ConfigError) → List String → List String → List ConfigError
duplicates error seen [] = []
duplicates error seen (name ∷ names) =
    require (not (contains seen name)) (error name) ++ duplicates error (name ∷ seen) names

abbrev pub is_some {ℓ} : {A : Type ℓ} → Option A → Bool
is_some none = false
is_some (some a) = true

-- `value.rsplitn(2, ':')` has two parts, the last a `u16` and the first not empty.
unfoldable pub is_host_port : String → Bool
is_host_port value = elim (rsplit_colon value) [
  | none ↦ false
  | some (host, port) ↦ is_some (parse_u16 port) && not (is_empty_text host)
]

unfoldable pub validate_host_port : String → String → List ConfigError
unfolding is_host_port
validate_host_port value field =
    require (is_host_port value) (invalid_value field ("must be host:port format, got: " <> value))

unfoldable pub check_optional : Option String → String → List ConfigError
unfolding validate_host_port
check_optional none field = []
check_optional (some value) field = validate_host_port value field

unfoldable pub check_enabled : Bool → String → String → List ConfigError
unfolding validate_host_port
check_enabled false value field = []
check_enabled true value field = validate_host_port value field

module _ {p : Platform} where
  unfoldable pub validate_plugin_instance : PluginInstance p → String → List ConfigError
  validate_plugin_instance plugin field_prefix =
      require (not (is_empty_text (trim plugin.name)))
        (invalid_value (field_prefix <> "[].name") "must not be empty")
      ++ require (contains valid_plugin_fail_modes plugin.fail_mode) (
          invalid_value (field_prefix <> "[" <> plugin.name <> "].fail_mode")
            ("must be one of: " <> join ", " valid_plugin_fail_modes))

  -- One round of the loops over plugins: the instance, then its name.
  unfoldable pub check_plugins :
      String → (String → ConfigError) → List String → List (PluginInstance p) → List ConfigError
  unfolding validate_plugin_instance
  check_plugins prefix error seen [] = []
  check_plugins prefix error seen (plugin ∷ plugins) =
      validate_plugin_instance plugin prefix
      ++ (require (not (contains seen plugin.name)) (error plugin.name)
          ++ check_plugins prefix error (plugin.name ∷ seen) plugins)
