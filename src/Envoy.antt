-- ===== src/Envoy.antt =====
-- controlplane/src/config/envoy_gen.rs: the static bootstrap configuration for Envoy. A mapping that
-- the source fills by `insert` under distinct keys is written with its entries in that order.
pub mod Endpoint
pub mod Values
pub mod ExtAuthz
pub mod Routes
pub mod Clusters
pub mod Valid
use mathlib.Core.Option
use open_api_gateway.Prelude.{ℕ, String, Bool, true, false, Option, none, some, List, [], ◌∷◌, ◌++◌}
use open_api_gateway.Prelude.Result.{Result, ok, err, ◌>>=◌}
use open_api_gateway.Config.Types.{Platform, GatewayConfig}
use Endpoint.{EnvoyGenError, serialization, parse_endpoint}
use Values.{duration_string, build_socket_address, build_admin}
use ExtAuthz.{build_ext_authz_filter, build_ext_authz_cluster}
use Routes.{build_virtual_hosts}
use Clusters.{build_clusters}

-- `generate_envoy_config` ends with the text, an error, or a panic.
pub data Outcome : Type 0 where
  generated : String → Outcome
  failed : EnvoyGenError → Outcome
  panicked : Outcome

module _ (p : Platform) where
  open p use {Value, string, bool, number, sequence, mapping, to_yaml}

  unfoldable pub build_http_filters : Option String → List Value
  unfolding build_ext_authz_filter
  build_http_filters extauthz_address =
      let router_filter = mapping (
        ("name", string "envoy.filters.http.router")
        ∷ (
          "typed_config",
          mapping (
              ("@type", string "type.googleapis.com/envoy.extensions.filters.http.router.v3.Router")
              ∷ []),
        )
        ∷ []) in
      elim extauthz_address [
        | none ↦ router_filter ∷ []
        | some address ↦ build_ext_authz_filter p ∷ router_filter ∷ []
      ]

  -- The listener around its virtual hosts.
  unfoldable pub assemble_listener : GatewayConfig p → String → ℕ → List Value → Value
  unfolding build_http_filters
  assemble_listener cfg listen_host listen_port virtual_hosts =
      let route_config =
        mapping (("name", string "local_route") ∷ ("virtual_hosts", sequence virtual_hosts) ∷ []) in
      let hcm_typed_config = mapping (
        (
          "@type",
          string
              "type.googleapis.com/envoy.extensions.filters.network.http_connection_manager.v3.HttpConnectionManager",
        )
        ∷ ("stat_prefix", string "ingress_http")
        ∷ ("generate_request_id", bool true)
        ∷ (
          "common_http_protocol_options",
          mapping (("idle_timeout", string (duration_string cfg.gateway.idle_timeout_ms)) ∷ []),
        )
        ∷ ("route_config", route_config)
        ∷ ("http_filters", sequence (build_http_filters cfg.gateway.extauthz_address))
        ∷ []) in
      let hcm_filter = mapping (
        ("name", string "envoy.filters.network.http_connection_manager")
        ∷ ("typed_config", hcm_typed_config)
        ∷ []) in
      mapping (
        ("name", string "main_listener")
        ∷ ("address", build_socket_address p listen_host listen_port)
        ∷ ("filter_chains", sequence (mapping (("filters", sequence (hcm_filter ∷ [])) ∷ []) ∷ []))
        ∷ [])

  -- `none` is the panic of `build_virtual_hosts`.
  unfoldable pub build_listener : GatewayConfig p → Option (Result EnvoyGenError Value)
  unfolding parse_endpoint build_virtual_hosts assemble_listener
  build_listener cfg = elim (parse_endpoint cfg.gateway.listen_address) [
    | err e ↦ some (err e)
    | ok (listen_host, listen_port) ↦
        Option.map (λ vhosts. ok (assemble_listener cfg listen_host listen_port vhosts))
          (build_virtual_hosts p cfg.routes)
  ]

  -- The ext_authz cluster is added if it is configured.
  unfoldable pub add_ext_authz_cluster :
      Option String → List Value → Result EnvoyGenError (List Value)
  unfolding parse_endpoint build_ext_authz_cluster
  add_ext_authz_cluster none clusters = ok clusters
  add_ext_authz_cluster (some addr) clusters = parse_endpoint addr >>= λ (host, port).
      ok (clusters ++ build_ext_authz_cluster p host port ∷ [])

  unfoldable pub assemble_root : Value → List Value → Value
  unfolding build_admin
  assemble_root listener clusters = mapping (
      (
        "static_resources",
        mapping (("listeners", sequence (listener ∷ [])) ∷ ("clusters", sequence clusters) ∷ []),
      )
      ∷ ("admin", build_admin p)
      ∷ [])

  unfoldable pub finish : Value → Outcome
  finish root = elim (to_yaml root) [ none ↦ failed serialization | some text ↦ generated text ]

  unfoldable pub generate_envoy_config : GatewayConfig p → Outcome
  unfolding build_listener build_clusters add_ext_authz_cluster assemble_root finish
  generate_envoy_config cfg = elim (build_listener cfg) [
    | none ↦ panicked
    | some (err e) ↦ failed e
    | some (ok listener) ↦
        elim (build_clusters p cfg.services
          >>= add_ext_authz_cluster cfg.gateway.extauthz_address) [
            | err e ↦ failed e
            | ok clusters ↦ finish (assemble_root listener clusters)
          ]
  ]
