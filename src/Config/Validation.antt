-- ===== src/Config/Validation.antt =====
-- controlplane/src/config/validation.rs. A check that pushes onto `errs` returns what it pushes, and
-- a sequence of pushes is the concatenation; a `HashSet` of names is the list of those inserted.
pub mod Checks
pub mod Items
pub mod Laws
pub mod Names
pub mod ItemsExact
pub mod Exact
use open_api_gateway.Prelude.{
  ℕ, String, Bool, not, ◌&&◌, ◌||◌, List, [], ◌∷◌, ◌++◌, map, flat_map, is_empty, eqb,
  if◌then◌else◌,
}
use open_api_gateway.Prelude.Text.{is_empty_text}
use open_api_gateway.Prelude.Result.{Result, ok, err}
use open_api_gateway.Config.Types.{Platform, GatewayConfig}
use open_api_gateway.Config.Errors.{
  ConfigError, invalid_version, duplicate_name, invalid_value, missing_conditional, ConfigErrors,
}
use Checks.{require, duplicates, validate_host_port, check_optional, check_enabled, check_plugins}
use Items.{
  check_route_references, check_provider, check_route_values, check_service, check_plugins_enabled,
  check_route_conditions,
}

module _ {p : Platform} where
  unfoldable pub check_version : GatewayConfig p → List ConfigError
  check_version cfg = require (eqb cfg.version 1) (invalid_version 1 cfg.version)

  unfoldable pub check_uniqueness : GatewayConfig p → List ConfigError
  unfolding duplicates
  check_uniqueness cfg =
      duplicates (duplicate_name "route") [] (map (λ r. r.name) cfg.routes)
      ++ (duplicates (duplicate_name "service") [] (map (λ s. s.name) cfg.services)
          ++ duplicates (duplicate_name "auth provider") [] (map (λ a. a.name) cfg.auth.providers))

  abbrev pub service_names : GatewayConfig p → List String
  service_names cfg = map (λ s. s.name) cfg.services

  abbrev pub provider_names : GatewayConfig p → List String
  provider_names cfg = map (λ a. a.name) cfg.auth.providers

  unfoldable pub check_referential_integrity : GatewayConfig p → List ConfigError
  unfolding check_route_references
  check_referential_integrity cfg =
      flat_map (check_route_references (service_names cfg) (provider_names cfg)) cfg.routes

  unfoldable pub check_host_ports : GatewayConfig p → List ConfigError
  unfolding validate_host_port check_optional check_enabled
  check_host_ports cfg =
      validate_host_port cfg.gateway.listen_address "gateway.listen_address"
      ++ (validate_host_port cfg.gateway.admin_address "gateway.admin_address"
          ++ (check_optional cfg.gateway.extauthz_address "gateway.extauthz_address"
              ++ (check_enabled cfg.xds.enabled cfg.xds.listen_address "xds.listen_address"
                  ++ check_enabled cfg.ext_proc.enabled cfg.ext_proc.listen_address
                      "ext_proc.listen_address")))

  unfoldable pub check_value_constraints : GatewayConfig p → List ConfigError
  unfolding check_host_ports check_provider check_route_values check_service check_plugins_enabled
  check_value_constraints cfg =
      check_host_ports cfg
      ++ (flat_map (check_provider p) cfg.auth.providers
          ++ (validate_host_port cfg.rate_limits.redis_address "rate_limits.redis_address"
              ++ (flat_map check_route_values cfg.routes
                  ++ (flat_map check_service cfg.services
                      ++ (require
                            (not (
                              p.lt cfg.observability.tracing.sample_rate (p.of_u64 0)
                              || p.lt (p.of_u64 1) cfg.observability.tracing.sample_rate))
                            (invalid_value "observability.tracing.sample_rate"
                              "must be between 0.0 and 1.0")
                          ++ (check_plugins_enabled cfg.plugins cfg.plugins.enabled
                              ++ check_plugins "plugins.global" (duplicate_name "global plugin") []
                                  cfg.plugins.global))))))

  unfoldable pub check_conditional_requirements : GatewayConfig p → List ConfigError
  unfolding check_route_conditions
  check_conditional_requirements cfg =
      flat_map check_route_conditions cfg.routes
      ++ require
          (not (
            cfg.observability.tracing.enabled
            && is_empty_text cfg.observability.tracing.otlp_endpoint))
          (missing_conditional "observability.tracing.otlp_endpoint"
            "required when tracing is enabled")

  unfoldable pub all_errors : GatewayConfig p → List ConfigError
  unfolding check_version check_uniqueness check_referential_integrity check_value_constraints
      check_conditional_requirements
  all_errors cfg =
      check_version cfg
      ++ (check_uniqueness cfg
          ++ (check_referential_integrity cfg
              ++ (check_value_constraints cfg ++ check_conditional_requirements cfg)))

  unfoldable pub validate : GatewayConfig p → Result ConfigErrors (Unit {0})
  unfolding all_errors
  validate cfg =
      if is_empty (all_errors cfg) then ok tt else err (record { errors = all_errors cfg })
