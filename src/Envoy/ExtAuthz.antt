-- ===== src/Envoy/ExtAuthz.antt =====
-- controlplane/src/config/envoy_ext_authz.rs: the filter and the cluster of the ext_authz service.
use open_api_gateway.Prelude.{ℕ, String, false, [], ◌∷◌}
use open_api_gateway.Config.Types.{Platform}
use open_api_gateway.Envoy.Values.{build_socket_address}

module _ (p : Platform) where
  open p use {Value, string, bool, sequence, mapping}

  -- `allowed_headers` of the request to the service
  unfoldable pub build_auth_request : Value
  build_auth_request = mapping (
      (
        "allowed_headers",
        mapping (
            (
              "patterns",
              sequence (
                  mapping (("exact", string "authorization") ∷ [])
                  ∷ mapping (("exact", string "host") ∷ [])
                  ∷ mapping (("prefix", string "x-forwarded-") ∷ [])
                  ∷ []),
            )
            ∷ []),
      )
      ∷ [])

  -- `allowed_upstream_headers` of its response
  unfoldable pub build_auth_response : Value
  build_auth_response = mapping (
      (
        "allowed_upstream_headers",
        mapping (
            (
              "patterns",
              sequence (
                  mapping (("prefix", string "x-auth-") ∷ [])
                  ∷ mapping (("prefix", string "x-ratelimit-") ∷ [])
                  ∷ []),
            )
            ∷ []),
      )
      ∷ [])

  unfoldable pub build_ext_authz_filter : Value
  unfolding build_auth_request build_auth_response
  build_ext_authz_filter =
      let server_uri = mapping (
        ("uri", string "http://gateway_manager_extauthz")
        ∷ ("cluster", string "gateway_manager_extauthz")
        ∷ ("timeout", string "0.250s")
        ∷ []) in
      let http_service = mapping (
        ("server_uri", server_uri)
        ∷ ("authorization_request", build_auth_request)
        ∷ ("authorization_response", build_auth_response)
        ∷ []) in
      let typed_config = mapping (
        ("@type", string "type.googleapis.com/envoy.extensions.filters.http.ext_authz.v3.ExtAuthz")
        ∷ ("transport_api_version", string "V3")
        ∷ ("http_service", http_service)
        ∷ ("failure_mode_allow", bool false)
        ∷ []) in
      mapping
        (("name", string "envoy.filters.http.ext_authz") ∷ ("typed_config", typed_config) ∷ [])

  unfoldable pub build_ext_authz_cluster : String → ℕ → Value
  build_ext_authz_cluster host port =
      let lb_ep =
        mapping (("endpoint", mapping (("address", build_socket_address p host port) ∷ [])) ∷ []) in
      let endpoint_group = mapping (("lb_endpoints", sequence (lb_ep ∷ [])) ∷ []) in
      let load_assignment = mapping (
        ("cluster_name", string "gateway_manager_extauthz")
        ∷ ("endpoints", sequence (endpoint_group ∷ []))
        ∷ []) in
      mapping (
        ("name", string "gateway_manager_extauthz")
        ∷ ("type", string "STATIC")
        ∷ ("connect_timeout", string "0.250s")
        ∷ ("load_assignment", load_assignment)
        ∷ [])
