-- ===== src/Xds/Builders/Valid.antt =====
-- A snapshot of a valid configuration.
use open_api_gateway.Prelude.{
  ℕ, String, Bool-cases, Option-cases, inl, inr, List, [], ◌∷◌, All, subst, sym,
}
use open_api_gateway.Prelude.Result.{Result, ok, err, ◌>>=◌, IsOk, bind_IsOk}
use open_api_gateway.Config.Types.{Platform, ServiceConfig, GatewayConfig}
use open_api_gateway.Config.Validity.{IsValid, IsValidService, IsHostPort}
use open_api_gateway.Envoy.Endpoint.Laws.{IsHostPort-parse_endpoint}
use open_api_gateway.Xds.Snapshot.{
  cluster_type_url, endpoint_type_url, listener_type_url, route_type_url,
}
use open_api_gateway.Xds.Resources.{
  ResourceError, parse_endpoint, socket_address, collect, endpoint_address,
  build_cluster_assignment,
}
use open_api_gateway.Xds.Resources.Valid.{parse_endpoint-bootstrap}
use open_api_gateway.Xds.Builders.{
  Prost, Message, encoded, pack_any, filter_with, cluster_message, build_cluster, build_endpoint,
  ext_authz_filters, ext_proc_filters, build_http_filters, listener_message, build_listener,
  build_route_config, build_clusters, build_endpoints, build,
}

parse_endpoint-IsOk : (endpoint : String) → IsHostPort endpoint → IsOk (parse_endpoint endpoint)
parse_endpoint-IsOk endpoint h =
    let (host, port, e) = IsHostPort-parse_endpoint endpoint h in
    subst IsOk (sym (parse_endpoint-bootstrap endpoint)) (rw e tt)

collect-IsOk {ℓ κ} :
    {A : Type ℓ} {B : Type κ} (P : A → Type 0) (f : A → Result ResourceError B) (xs : List A)
    → ((x : A) → P x → IsOk (f x))
    → All P xs
    → IsOk (collect f xs)
unfolding collect
collect-IsOk P f [] h k = tt
collect-IsOk P f (x ∷ xs) h k =
    bind_IsOk (f x) (λ y. collect f xs >>= λ ys. ok (y ∷ ys)) (h x k.0)
      λ y. bind_IsOk (collect f xs) (λ ys. ok (y ∷ ys)) (collect-IsOk P f xs h k.1) (λ ys. tt)

endpoint_address-IsOk : (endpoint : String) → IsHostPort endpoint → IsOk (endpoint_address endpoint)
unfolding endpoint_address
endpoint_address-IsOk endpoint h =
    bind_IsOk (parse_endpoint endpoint) (λ (host, port). ok (socket_address host port))
      (parse_endpoint-IsOk endpoint h) (λ (host, port). tt)

build_cluster_assignment-IsOk :
    (s : ServiceConfig) → IsValidService s → IsOk (build_cluster_assignment s)
unfolding build_cluster_assignment
build_cluster_assignment-IsOk s h =
    bind_IsOk (collect endpoint_address s.endpoints) _
      (collect-IsOk IsHostPort endpoint_address s.endpoints endpoint_address-IsOk h.endpoints)
      (λ endpoints. tt)

module _ (q : Prost) where
  -- The encoder never fails.
  abbrev pub Encodes : Type 0
  Encodes = (url : String) (message : Message q.Any) → IsOk (q.encode_as url message)

  module _ (encodes : Encodes) where
    pack_any-IsOk : (url : String) (message : Message q.Any) → IsOk (pack_any q url message)
    unfolding pack_any encoded
    pack_any-IsOk url message = packed (q.encode_as url message) (encodes url message)
      where
        packed : (r : Result String q.Any) → IsOk r → IsOk (encoded q r)
        packed (ok any) h = tt
        packed (err e) h = h

    filter_with-IsOk :
        (name url : String) (message : Message q.Any) → IsOk (filter_with q name url message)
    unfolding filter_with
    filter_with-IsOk name url message =
        bind_IsOk (pack_any q url message) _ (pack_any-IsOk url message) (λ any. tt)

    build_cluster-IsOk : (s : ServiceConfig) → IsValidService s → IsOk (build_cluster q s)
    unfolding build_cluster
    build_cluster-IsOk s h =
        bind_IsOk (build_cluster_assignment s) _ (build_cluster_assignment-IsOk s h)
          (λ load. pack_any-IsOk cluster_type_url (cluster_message q s load))

    build_endpoint-IsOk : (s : ServiceConfig) → IsValidService s → IsOk (build_endpoint q s)
    unfolding build_endpoint
    build_endpoint-IsOk s h =
        bind_IsOk (build_cluster_assignment s) _ (build_cluster_assignment-IsOk s h)
          (λ load. pack_any-IsOk endpoint_type_url (Message.assignment load))

    module _ {p : Platform} (config : GatewayConfig p) where
      ext_authz_filters-IsOk : IsOk (ext_authz_filters q config)
      unfolding ext_authz_filters
      ext_authz_filters-IsOk = elim (Option-cases config.gateway.extauthz_address) [
        | inl e ↦ rw e tt
        | inr (address, e) ↦ rw e (
            bind_IsOk (filter_with q _ _ (Message.ext_authz address)) _
              (filter_with-IsOk _ _ (Message.ext_authz address)) (λ f. tt))
      ]

      ext_proc_filters-IsOk : IsOk (ext_proc_filters q config)
      unfolding ext_proc_filters
      ext_proc_filters-IsOk = elim (Bool-cases config.ext_proc.enabled) [
        | inl e ↦ rw e (
            bind_IsOk (filter_with q _ _ (Message.ext_proc config.ext_proc.listen_address)) _
              (filter_with-IsOk _ _ (Message.ext_proc config.ext_proc.listen_address)) (λ f. tt))
        | inr e ↦ rw e tt
      ]

      build_http_filters-IsOk : IsOk (build_http_filters q config)
      unfolding build_http_filters
      build_http_filters-IsOk =
          bind_IsOk (ext_authz_filters q config) _ ext_authz_filters-IsOk λ authz.
            bind_IsOk (ext_proc_filters q config) _ ext_proc_filters-IsOk λ proc.
              bind_IsOk (filter_with q _ _ Message.router) _ (filter_with-IsOk _ _ Message.router)
                (λ last. tt)

      build_listener-IsOk :
          IsHostPort config.gateway.listen_address → IsOk (build_listener q config)
      unfolding build_listener
      build_listener-IsOk h =
          bind_IsOk (build_http_filters q config) _ build_http_filters-IsOk λ filters.
            bind_IsOk (parse_endpoint config.gateway.listen_address) _
              (parse_endpoint-IsOk config.gateway.listen_address h)
              λ (host, port). bind_IsOk (filter_with q _ _ _) _ (filter_with-IsOk _ _ _) λ filter.
                pack_any-IsOk listener_type_url
                  (listener_message q config (socket_address host port) filter)

      -- A configuration that passes validation has a snapshot, whatever its version number, unless
      -- the encoder fails.
      pub build-IsOk : (version : ℕ) → IsValid config → IsOk (build q config version)
      unfolding build build_clusters build_endpoints build_route_config
      build-IsOk version valid =
          bind_IsOk (build_clusters q config) _
            (collect-IsOk IsValidService (build_cluster q) config.services build_cluster-IsOk
              valid.services)
            λ clusters.
              bind_IsOk (build_endpoints q config) _
                (collect-IsOk IsValidService (build_endpoint q) config.services build_endpoint-IsOk
                  valid.services)
                λ endpoints.
                  bind_IsOk (build_listener q config) _ (build_listener-IsOk valid.listen) λ main.
                    bind_IsOk (build_route_config q config) _ (pack_any-IsOk route_type_url _)
                      (λ routes. tt)
