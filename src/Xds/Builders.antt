-- ===== src/Xds/Builders.antt =====
-- The builders of controlplane/src/xds/resources.rs that encode what they build, and
-- `XdsSnapshot::build` of snapshot.rs.
pub mod Valid
pub mod Sent
use open_api_gateway.Prelude.{
  ℕ, String, ◌<>◌, Bool, true, false, Option, none, some, List, [], ◌∷◌, ◌++◌, if◌then◌else◌,
}
use open_api_gateway.Prelude.Result.{Result, ok, err, ◌>>=◌}
use open_api_gateway.Prelude.Maps.{put}
use open_api_gateway.Prelude.Text.{decimal}
use open_api_gateway.Config.Types.{Platform, RouteConfig, ServiceConfig, GatewayConfig}
use open_api_gateway.Xds.Snapshot.{
  XdsSnapshot, cluster_type_url, endpoint_type_url, listener_type_url, route_type_url,
}
use open_api_gateway.Xds.Resources.{
  ResourceError, encode, Duration, duration, SocketAddress, socket_address, parse_endpoint, collect,
  ClusterLoadAssignment, Cluster, HealthCheck, VirtualHost, build_cluster_assignment,
  build_virtual_hosts,
}

pub record RouteConfiguration : Type 0 where
  pub name : String
  pub virtual_hosts : List VirtualHost

-- A filter's name, and its configuration in encoded form.
pub record HttpFilter (Any : Type 0) : Type 0 where
  pub name : String
  pub typed_config : Any

pub record HttpConnectionManager (Any : Type 0) : Type 0 where
  pub stat_prefix : String
  pub generate_request_id : Bool
  pub idle_timeout : Duration
  pub route_config_name : String
  pub config_source : String
  pub http_filters : List (HttpFilter Any)

-- The listener has one filter chain, with this one filter.
pub record Listener (Any : Type 0) : Type 0 where
  pub name : String
  pub address : SocketAddress
  pub filter : HttpFilter Any

-- The messages that are encoded.
pub data Message (Any : Type 0) : Type 0 where
  listener : Listener Any → Message Any
  manager : HttpConnectionManager Any → Message Any
  route_configuration : RouteConfiguration → Message Any
  cluster : Cluster → Message Any
  assignment : ClusterLoadAssignment → Message Any
  ext_authz : String → Message Any
  ext_proc : String → Message Any
  router : Message Any

-- `Message::encode` of the crate prost, with the type URL that is kept beside the bytes
pub record Prost : Type 1 where
  pub Any : Type 0
  pub encode_as : String → Message Any → Result String Any

abbrev pub manager_url : String
manager_url =
    "type.googleapis.com/envoy.extensions.filters.network.http_connection_manager.v3.HttpConnectionManager"

abbrev pub ext_authz_url : String
ext_authz_url = "type.googleapis.com/envoy.extensions.filters.http.ext_authz.v3.ExtAuthz"

abbrev pub ext_proc_url : String
ext_proc_url = "type.googleapis.com/envoy.extensions.filters.http.ext_proc.v3.ExtProc"

abbrev pub router_url : String
router_url = "type.googleapis.com/envoy.extensions.filters.http.router.v3.Router"

module _ (q : Prost) where
  open q use {Any, encode_as}

  unfoldable pub encoded : Result String Any → Result ResourceError Any
  encoded (ok any) = ok any
  encoded (err reason) = err (encode reason)

  unfoldable pub pack_any : String → Message Any → Result ResourceError Any
  unfolding encoded
  pack_any type_url message = encoded (encode_as type_url message)

  unfoldable pub filter_with : String → String → Message Any → Result ResourceError (HttpFilter Any)
  unfolding pack_any
  filter_with name url message =
      pack_any url message >>= λ any. ok record { name = name; typed_config = any }

  unfoldable pub cluster_message : ServiceConfig → ClusterLoadAssignment → Message Any
  unfolding duration
  cluster_message service load_assignment = cluster record {
    name = service.name;
    type_name = "STRICT_DNS";
    lb_policy = "ROUND_ROBIN";
    connect_timeout = duration service.health_check.timeout_ms;
    load_assignment = load_assignment;
    health_checks =
        record {
          timeout = duration service.health_check.timeout_ms;
          interval = duration service.health_check.interval_ms;
          path = service.health_check.path;
          unhealthy_threshold = 3;
          healthy_threshold = 1;
        }
        ∷ [];
  }

  unfoldable pub build_cluster : ServiceConfig → Result ResourceError Any
  unfolding build_cluster_assignment cluster_message pack_any
  build_cluster service = build_cluster_assignment service >>= λ load.
      pack_any cluster_type_url (cluster_message service load)

  unfoldable pub build_endpoint : ServiceConfig → Result ResourceError Any
  unfolding build_cluster_assignment pack_any
  build_endpoint service =
      build_cluster_assignment service >>= λ load. pack_any endpoint_type_url (assignment load)

  module _ {p : Platform} (config : GatewayConfig p) where
    unfoldable pub ext_authz_filters : Result ResourceError (List (HttpFilter Any))
    unfolding filter_with
    ext_authz_filters = elim config.gateway.extauthz_address [
      | none ↦ ok []
      | some address ↦
          filter_with "envoy.filters.http.ext_authz" ext_authz_url (ext_authz address) >>= λ f.
          ok (f ∷ [])
    ]

    unfoldable pub ext_proc_filters : Result ResourceError (List (HttpFilter Any))
    unfolding filter_with
    ext_proc_filters =
        if config.ext_proc.enabled
        then (filter_with "envoy.filters.http.ext_proc" ext_proc_url
              (ext_proc config.ext_proc.listen_address)
            >>= λ f. ok (f ∷ []))
        else ok []

    unfoldable pub build_http_filters : Result ResourceError (List (HttpFilter Any))
    unfolding ext_authz_filters ext_proc_filters filter_with
    build_http_filters = do
      authz ← ext_authz_filters
      proc ← ext_proc_filters
      last ← filter_with "envoy.filters.http.router" router_url router
      ok (authz ++ (proc ++ last ∷ []))

    unfoldable pub listener_message : SocketAddress → HttpFilter Any → Message Any
    listener_message address filter =
        listener record { name = "main_listener"; address = address; filter = filter }

    unfoldable pub build_listener : Result ResourceError Any
    unfolding build_http_filters parse_endpoint socket_address filter_with listener_message pack_any
        duration
    build_listener = do
      http_filters ← build_http_filters
      (host, port) ← parse_endpoint config.gateway.listen_address
      filter ← filter_with "envoy.filters.network.http_connection_manager" manager_url (
          manager record {
            stat_prefix = "ingress_http";
            generate_request_id = true;
            idle_timeout = duration config.gateway.idle_timeout_ms;
            route_config_name = "gateway-routes";
            config_source = "ads";
            http_filters = http_filters;
          })
      pack_any listener_type_url (listener_message (socket_address host port) filter)

    unfoldable pub build_route_config : Result ResourceError Any
    unfolding build_virtual_hosts pack_any
    build_route_config = pack_any route_type_url (
        route_configuration
          record { name = "gateway-routes"; virtual_hosts = build_virtual_hosts config.routes })

    unfoldable pub build_clusters : Result ResourceError (List Any)
    unfolding collect build_cluster
    build_clusters = collect build_cluster config.services

    unfoldable pub build_endpoints : Result ResourceError (List Any)
    unfolding collect build_endpoint
    build_endpoints = collect build_endpoint config.services

    -- `XdsSnapshot::build`
    unfoldable pub build : ℕ → Result ResourceError (XdsSnapshot Any)
    unfolding build_clusters build_endpoints build_listener build_route_config put decimal
    build version = do
      clusters ← build_clusters
      endpoints ← build_endpoints
      main_listener ← build_listener
      routes ← build_route_config
      ok record {
        version = version;
        nonce = "snapshot-" <> decimal version;
        resources = put route_type_url (routes ∷ []) (
            put listener_type_url (main_listener ∷ [])
              (put endpoint_type_url endpoints (put cluster_type_url clusters [])));
      }
