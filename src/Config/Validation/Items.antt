-- ===== src/Config/Validation/Items.antt =====
-- The checks of controlplane/src/config/validation.rs on one provider, route or service.
use open_api_gateway.Prelude.{
  String, ◌<>◌, Bool, true, false, not, ◌&&◌, Option, none, some, List, [], ◌++◌, flat_map,
  is_empty, ltb, eqb,
}
use text.Mathlib.Text.{starts_with}
use open_api_gateway.Prelude.Text.{trim, is_empty_text, join}
use open_api_gateway.Config.Types.{
  Platform, RouteConfig, ServiceConfig, AuthProvider, PluginsConfig,
}
use open_api_gateway.Config.Errors.{
  ConfigError, duplicate_name, unknown_reference, invalid_value, missing_conditional,
}
use open_api_gateway.Config.Validation.Checks.{
  valid_methods, valid_key_by, contains, require, is_some, validate_host_port, check_plugins,
}

unfoldable pub check_provider_reference :
    List String → String → Bool → Option String → List ConfigError
check_provider_reference known route false provider = []
check_provider_reference known route true none = []
check_provider_reference known route true (some provider) =
    require (contains known provider)
      (unknown_reference ("routes[" <> route <> "].auth_provider") "auth provider" provider)

unfoldable pub check_provider : (p : Platform) → AuthProvider → List ConfigError
check_provider p a =
    require (not (is_empty_text a.name)) (invalid_value "auth.providers[].name" "must not be empty")
    ++ (require (p.is_url a.jwks_uri)
          (invalid_value ("auth.providers[" <> a.name <> "].jwks_uri") "must be a valid URL")
        ++ require (not (eqb a.cache_ttl_seconds 0))
            (invalid_value ("auth.providers[" <> a.name <> "].cache_ttl_seconds") "must be > 0"))

unfoldable pub check_method : String → String → List ConfigError
check_method prefix m =
    require (contains valid_methods m)
      (invalid_value (prefix <> ".methods") ("invalid HTTP method: " <> m))

unfoldable pub check_service : ServiceConfig → List ConfigError
unfolding validate_host_port
check_service s =
    let prefix = "services[" <> s.name <> "]" in
    require (not (is_empty_text s.name)) (invalid_value "services[].name" "must not be empty")
    ++ (require (not (is_empty s.endpoints))
          (invalid_value (prefix <> ".endpoints") "must not be empty")
        ++ (flat_map (λ ep. validate_host_port ep (prefix <> ".endpoints")) s.endpoints
            ++ require (starts_with s.health_check.path "/")
                (invalid_value (prefix <> ".health_check.path") "must start with '/'")))

unfoldable pub check_scopes_present : String → Option (List String) → List ConfigError
check_scopes_present prefix none = []
check_scopes_present prefix (some scopes) =
    require (not (is_empty scopes))
      (invalid_value (prefix <> ".required_scopes") "must be non-empty when present")

module _ {p : Platform} where
  unfoldable pub check_route_references :
      List String → List String → RouteConfig p → List ConfigError
  unfolding check_provider_reference
  check_route_references services providers r =
      require (contains services r.upstream.service) (
        unknown_reference ("routes[" <> r.name <> "].upstream.service") "service"
          r.upstream.service)
      ++ check_provider_reference providers r.name r.auth_required r.auth_provider

  unfoldable pub check_route_values : RouteConfig p → List ConfigError
  unfolding check_method check_plugins
  check_route_values r =
      let prefix = "routes[" <> r.name <> "]" in
      require (not (is_empty_text r.name)) (invalid_value "routes[].name" "must not be empty")
      ++ (require (not (is_empty r.hostnames))
            (invalid_value (prefix <> ".hostnames") "must not be empty")
          ++ (require (not (is_empty r.methods))
                (invalid_value (prefix <> ".methods") "must not be empty")
              ++ (require (starts_with r.path_prefix "/")
                    (invalid_value (prefix <> ".path_prefix") "must start with '/'")
                  ++ (flat_map (check_method prefix) r.methods
                      ++ (require (not (ltb r.rate_limit.bucket_capacity 1))
                            (invalid_value (prefix <> ".rate_limit.bucket_capacity") "must be >= 1")
                          ++ (require (not (p.le r.rate_limit.refill_rate_per_sec (p.of_u64 0))) (
                                invalid_value (prefix <> ".rate_limit.refill_rate_per_sec")
                                  "must be > 0")
                              ++ (require (contains valid_key_by r.rate_limit.key_by) (
                                    invalid_value (prefix <> ".rate_limit.key_by")
                                      ("must be one of: " <> join ", " valid_key_by))
                                  ++ check_plugins (prefix <> ".plugins")
                                      (λ name.
                                        duplicate_name "route plugin" (r.name <> ":" <> name))
                                      [] r.plugins)))))))

  unfoldable pub check_plugins_enabled : PluginsConfig p → Bool → List ConfigError
  check_plugins_enabled plugins false = []
  check_plugins_enabled plugins true =
      require (not (is_empty_text (trim plugins.directory)))
        (invalid_value "plugins.directory" "must not be empty when plugins are enabled")
      ++ (require (not (eqb plugins.limits.max_memory_bytes 0))
            (invalid_value "plugins.limits.max_memory_bytes" "must be > 0")
          ++ (require (not (eqb plugins.limits.max_instructions 0))
                (invalid_value "plugins.limits.max_instructions" "must be > 0")
              ++ require (not (eqb plugins.limits.chain_timeout_ms 0))
                  (invalid_value "plugins.limits.chain_timeout_ms" "must be > 0")))

  unfoldable pub check_route_conditions : RouteConfig p → List ConfigError
  unfolding check_scopes_present
  check_route_conditions r =
      let prefix = "routes[" <> r.name <> "]" in
      require (not (r.auth_required && not (is_some r.auth_provider)))
        (missing_conditional (prefix <> ".auth_provider") "required when auth_required is true")
      ++ check_scopes_present prefix r.required_scopes
