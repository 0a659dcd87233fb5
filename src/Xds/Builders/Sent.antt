-- ===== src/Xds/Builders/Sent.antt =====
-- What is sent of a snapshot that `build` has made (controlplane/src/xds/snapshot.rs).
use open_api_gateway.Prelude.{ℕ, String, ◌<>◌, List, [], ◌∷◌, ◌≡◌, refl, subst}
use open_api_gateway.Prelude.Result.{ok, bind_ok, ok_inj}
use open_api_gateway.Prelude.Maps.{put}
use open_api_gateway.Prelude.Text.{decimal}
use open_api_gateway.Config.Types.{Platform, GatewayConfig}
use open_api_gateway.Xds.Snapshot.{
  DiscoveryResponse, XdsSnapshot, filter_map, resources_of, response_for, ordered_responses,
}
use open_api_gateway.Xds.Resources.{ResourceError}
use open_api_gateway.Xds.Builders.{
  Prost, build, build_clusters, build_endpoints, build_listener, build_route_config,
}

module _ (q : Prost) where
  -- The response that a version sends for a type.
  abbrev pub response : ℕ → String → List q.Any → DiscoveryResponse q.Any
  response version type_url resources = record {
    version_info = decimal version;
    resources = resources;
    type_url = type_url;
    nonce = "snapshot-" <> decimal version;
  }

  -- What the builders made of the configuration, and the responses with it in their order.
  abbrev pub IsSent : {p : Platform} → GatewayConfig p → ℕ → List (DiscoveryResponse q.Any) → Type 0
  IsSent config version responses =
      (clusters endpoints : List q.Any) × (main routes : q.Any) × (build_clusters q config
        ≡ ok clusters)
      × (build_endpoints q config ≡ ok endpoints)
      × (build_listener q config ≡ ok main)
      × (build_route_config q config ≡ ok routes)
      × (responses
          ≡ response version "type.googleapis.com/envoy.config.cluster.v3.Cluster" clusters
            ∷ response version "type.googleapis.com/envoy.config.endpoint.v3.ClusterLoadAssignment"
                endpoints
            ∷ response version "type.googleapis.com/envoy.config.listener.v3.Listener" (main ∷ [])
            ∷ response version "type.googleapis.com/envoy.config.route.v3.RouteConfiguration"
                (routes ∷ [])
            ∷ [])

  -- A snapshot that is built for a version is sent as four responses, of the clusters, the endpoints,
  -- the listener and the routes that the builders make of the configuration, in this order, each
  -- under its own type and with the version and its nonce.
  pub build-IsSent :
      {p : Platform} (config : GatewayConfig p) (version : ℕ) (snapshot : XdsSnapshot q.Any)
      → build q config version ≡ ok snapshot
      → IsSent config version (ordered_responses q.Any snapshot)
  unfolding build ordered_responses filter_map response_for resources_of put
  build-IsSent config version snapshot h =
      let (clusters, c, h₁) = bind_ok (build_clusters q config) _ snapshot h in
      let (endpoints, e, h₂) = bind_ok (build_endpoints q config) _ snapshot h₁ in
      let (main, m, h₃) = bind_ok (build_listener q config) _ snapshot h₂ in
      let (routes, r, h₄) = bind_ok (build_route_config q config) _ snapshot h₃ in
      subst (λ s. IsSent config version (ordered_responses q.Any s))
        (ok_inj {E = ResourceError} _ snapshot h₄)
        (clusters, endpoints, main, routes, c, e, m, r, refl)
