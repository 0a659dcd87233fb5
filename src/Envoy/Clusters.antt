-- ===== src/Envoy/Clusters.antt =====
-- The clusters of controlplane/src/config/envoy_gen.rs, one for each service.
use open_api_gateway.Prelude.{ℕ, String, List, [], ◌∷◌}
use open_api_gateway.Prelude.Result.{Result, ok, ◌>>=◌}
use open_api_gateway.Config.Types.{Platform, ServiceConfig}
use open_api_gateway.Envoy.Endpoint.{EnvoyGenError, parse_endpoint}
use open_api_gateway.Envoy.Values.{duration_string, build_socket_address}

module _ (p : Platform) where
  open p use {Value, string, number, sequence, mapping}

  -- The body of the loop over the endpoints of a service.
  unfoldable pub build_lb_endpoint : String → ℕ → Value
  build_lb_endpoint host port =
      mapping (("endpoint", mapping (("address", build_socket_address p host port) ∷ [])) ∷ [])

  unfoldable pub build_lb_endpoints : List String → Result EnvoyGenError (List Value)
  unfolding parse_endpoint build_lb_endpoint
  build_lb_endpoints [] = ok []
  build_lb_endpoints (ep ∷ eps) = do
    (host, port) ← parse_endpoint ep
    rest ← build_lb_endpoints eps
    ok (build_lb_endpoint host port ∷ rest)

  unfoldable pub build_health_check : ServiceConfig → Value
  build_health_check service =
      let hc = service.health_check in
      mapping (
        ("timeout", string (duration_string hc.timeout_ms))
        ∷ ("interval", string (duration_string hc.interval_ms))
        ∷ ("unhealthy_threshold", number 3)
        ∷ ("healthy_threshold", number 1)
        ∷ ("http_health_check", mapping (("path", string hc.path) ∷ []))
        ∷ [])

  unfoldable pub assemble_cluster : ServiceConfig → List Value → Value
  unfolding build_health_check
  assemble_cluster service lb_endpoints =
      let endpoint_group = mapping (("lb_endpoints", sequence lb_endpoints) ∷ []) in
      let load_assignment = mapping (
        ("cluster_name", string service.name)
        ∷ ("endpoints", sequence (endpoint_group ∷ []))
        ∷ []) in
      mapping (
        ("name", string service.name)
        ∷ ("type", string "STRICT_DNS")
        ∷ ("lb_policy", string "ROUND_ROBIN")
        ∷ ("connect_timeout", string (duration_string service.health_check.timeout_ms))
        ∷ ("load_assignment", load_assignment)
        ∷ ("health_checks", sequence (build_health_check service ∷ []))
        ∷ [])

  unfoldable pub build_cluster : ServiceConfig → Result EnvoyGenError Value
  unfolding build_lb_endpoints assemble_cluster
  build_cluster service = build_lb_endpoints service.endpoints >>= λ lb_endpoints.
      ok (assemble_cluster service lb_endpoints)

  -- `collect` into a `Result` stops at the first error.
  unfoldable pub build_clusters : List ServiceConfig → Result EnvoyGenError (List Value)
  unfolding build_cluster
  build_clusters [] = ok []
  build_clusters (s ∷ services) = do
    cluster ← build_cluster s
    rest ← build_clusters services
    ok (cluster ∷ rest)
