-- ===== src/Config/Errors.antt =====
-- shared/src/config_error.rs
use open_api_gateway.Prelude.{ℕ, ◌+◌, String, ◌<>◌, List, [], ◌∷◌, length}
use open_api_gateway.Prelude.Text.{decimal}

pub data ConfigError : Type 0 where
  invalid_version : (expected actual : ℕ) → ConfigError
  duplicate_name : (kind name : String) → ConfigError
  unknown_reference : (field target_kind target : String) → ConfigError
  invalid_value : (field reason : String) → ConfigError
  missing_conditional : (field reason : String) → ConfigError
  yaml_parse : String → ConfigError

pub record ConfigErrors : Type 0 where
  pub errors : List ConfigError

abbrev pub len : ConfigErrors → ℕ
len e = length e.errors

-- The `Display` texts.
unfoldable pub error_text : ConfigError → String
error_text (invalid_version expected actual) =
    "version must be " <> (decimal expected <> (", got " <> decimal actual))
error_text (duplicate_name kind name) = "duplicate " <> (kind <> (" name: " <> name))
error_text (unknown_reference field target_kind target) =
    field <> (" references unknown " <> (target_kind <> (": " <> target)))
error_text (invalid_value field reason) = field <> (": " <> reason)
error_text (missing_conditional field reason) = field <> (": " <> reason)
error_text (yaml_parse message) = "YAML parse error: " <> message

-- The lines of the errors, numbered from the number given.
unfoldable pub error_lines : ℕ → List ConfigError → String
unfolding error_text
error_lines n [] = ""
error_lines n (e ∷ errors) =
    "  " <> (decimal n <> (": " <> (error_text e <> ("\n" <> error_lines (n + 1) errors))))

unfoldable pub errors_text : ConfigErrors → String
unfolding error_lines
errors_text e = decimal (len e) <> (" config error(s):\n" <> error_lines 1 e.errors)
