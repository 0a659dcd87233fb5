-- ===== src/Envoy/Valid.antt =====
-- `generate_envoy_config` of controlplane/src/config/envoy_gen.rs on a validated configuration.
use open_api_gateway.Prelude.Text.{parse_u16}
use open_api_gateway.Prelude.Text.Colon.{with_colon}
use open_api_gateway.Prelude.{ℕ, String, Option, none, some, List, [], ◌∷◌, ◌++◌, All, ◌≡◌, refl}
use open_api_gateway.Prelude.Result.{ok}
use open_api_gateway.Config.Types.{Platform, GatewayConfig, ServiceConfig}
use open_api_gateway.Config.Validity.{IsHostPort, IsValidService}
use open_api_gateway.Config.Validation.{validate}
use open_api_gateway.Config.Validation.Exact.{validate-IsValid}
use open_api_gateway.Envoy.Endpoint.Laws.{IsHostPort-parse_endpoint, parse_endpoint_sound}
use open_api_gateway.Envoy.Clusters.{
  build_lb_endpoint, build_lb_endpoints, build_cluster, assemble_cluster, build_clusters,
}
use open_api_gateway.Envoy.ExtAuthz.{build_ext_authz_cluster}
use open_api_gateway.Envoy.Routes.Groups.{build_virtual_hosts_total}
use open_api_gateway.Envoy.{
  assemble_listener, build_listener, add_ext_authz_cluster, assemble_root, finish,
  generate_envoy_config,
}

module _ (p : Platform) where
  build_lb_endpoints_ok :
      (endpoints : List String)
      → All IsHostPort endpoints
      → (values : List p.Value) × (build_lb_endpoints p endpoints ≡ ok values)
  unfolding build_lb_endpoints
  build_lb_endpoints_ok [] h = ([], refl)
  build_lb_endpoints_ok (ep ∷ eps) (h, hs) =
      let (host, port, e) = IsHostPort-parse_endpoint ep h in
      let (rest, k) = build_lb_endpoints_ok eps hs in
      (build_lb_endpoint p host port ∷ rest, rw (e, k))

  build_clusters_ok :
      (services : List ServiceConfig)
      → All IsValidService services
      → (clusters : List p.Value) × (build_clusters p services ≡ ok clusters)
  unfolding build_clusters build_cluster
  build_clusters_ok [] h = ([], refl)
  build_clusters_ok (s ∷ services) (h, hs) =
      let (values, e) = build_lb_endpoints_ok s.endpoints h.endpoints in
      let (rest, k) = build_clusters_ok services hs in
      (assemble_cluster p s values ∷ rest, rw (e, k))

  build_listener_ok :
      (cfg : GatewayConfig p)
      → IsHostPort cfg.gateway.listen_address
      → (listener : p.Value) × (build_listener p cfg ≡ some (ok listener))
  unfolding build_listener
  build_listener_ok cfg h =
      let (host, port, e) = IsHostPort-parse_endpoint cfg.gateway.listen_address h in
      let (vhosts, k) = build_virtual_hosts_total cfg.routes in
      (assemble_listener p cfg host port vhosts, rw (e, build_listener, k))

  -- The clusters with the one of ext_authz behind them, where its address is configured: at the
  -- address's host and port.
  abbrev pub IsExtended : Option String → List p.Value → List p.Value → Type 0
  IsExtended none clusters all = all ≡ clusters
  IsExtended (some address) clusters all =
      (host digits : String) × (port : ℕ) × (address ≡ with_colon host digits)
      × (parse_u16 digits ≡ some port)
      × (all ≡ clusters ++ build_ext_authz_cluster p host port ∷ [])

  add_ext_authz_cluster_ok :
      (address : Option String) (clusters : List p.Value)
      → ((value : String) → address ≡ some value → IsHostPort value)
      → (all : List p.Value) × (add_ext_authz_cluster p address clusters ≡ ok all)
        × IsExtended address clusters all
  unfolding add_ext_authz_cluster
  add_ext_authz_cluster_ok none clusters h = (clusters, refl, refl)
  add_ext_authz_cluster_ok (some address) clusters h =
      let (host, port, e) = IsHostPort-parse_endpoint address (h address refl) in
      let (_, _, (digits, split, parsed)) = parse_endpoint_sound address host port e in
      (
        clusters ++ build_ext_authz_cluster p host port ∷ [],
        rw e,
        (host, digits, port, split, parsed, refl),
      )

  pub generate_envoy_config_valid :
      (cfg : GatewayConfig p)
      → validate cfg ≡ ok tt
      → (listener : p.Value) × (clusters : List p.Value) × (all : List p.Value) × (build_listener p
            cfg
          ≡ some (ok listener))
        × (build_clusters p cfg.services ≡ ok clusters)
        × IsExtended cfg.gateway.extauthz_address clusters all
        × (generate_envoy_config p cfg ≡ finish p (assemble_root p listener all))
  unfolding generate_envoy_config
  generate_envoy_config_valid cfg valid =
      let v = (validate-IsValid cfg).0 valid in
      let (listener, l) = build_listener_ok cfg v.listen in
      let (clusters, c) = build_clusters_ok cfg.services v.services in
      let (all, a, extended) =
        add_ext_authz_cluster_ok cfg.gateway.extauthz_address clusters v.extauthz in
      (listener, clusters, all, l, c, extended, rw (l, generate_envoy_config, c, a))
