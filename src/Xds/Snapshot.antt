-- ===== src/Xds/Snapshot.antt =====
-- controlplane/src/xds/snapshot.rs, protocol.rs and version.rs
use open_api_gateway.Prelude.{
  ℕ, ◌+◌, ◌%◌, ◌^◌, String, ◌==◌, Option, none, some, List, [], ◌∷◌, if◌then◌else◌,
}
use open_api_gateway.Prelude.Text.{decimal}

abbrev pub cluster_type_url : String
cluster_type_url = "type.googleapis.com/envoy.config.cluster.v3.Cluster"

abbrev pub endpoint_type_url : String
endpoint_type_url = "type.googleapis.com/envoy.config.endpoint.v3.ClusterLoadAssignment"

abbrev pub listener_type_url : String
listener_type_url = "type.googleapis.com/envoy.config.listener.v3.Listener"

abbrev pub route_type_url : String
route_type_url = "type.googleapis.com/envoy.config.route.v3.RouteConfiguration"

abbrev pub type_urls_in_order : List String
type_urls_in_order = cluster_type_url ∷ endpoint_type_url ∷ listener_type_url ∷ route_type_url ∷ []

-- `increment` of the counter `next`: the counter after it and the version
unfoldable pub increment : ℕ → ℕ × ℕ
increment next = ((next + 1) % 2 ^ 64, (next + 1) % 2 ^ 64)

-- `filter_map`
unfoldable pub filter_map {ℓ κ} : {A : Type ℓ} {B : Type κ} → (A → Option B) → List A → List B
filter_map f [] = []
filter_map f (x ∷ xs) = elim (f x) [ none ↦ filter_map f xs | some y ↦ y ∷ filter_map f xs ]

-- `Any` is the encoded resource of `prost_types`.
module _ (Any : Type 0) where
  pub record DiscoveryResponse : Type 0 where
    pub version_info : String
    pub resources : List Any
    pub type_url : String
    pub nonce : String

  pub record XdsSnapshot : Type 0 where
    pub version : ℕ
    pub nonce : String
    pub resources : List (String × List Any)

  unfoldable pub resources_of : String → List (String × List Any) → Option (List Any)
  resources_of type_url [] = none
  resources_of type_url ((name, found) ∷ rest) =
      if name == type_url then some found else resources_of type_url rest

  unfoldable pub response_for : XdsSnapshot → String → Option DiscoveryResponse
  unfolding resources_of
  response_for snapshot type_url = elim (resources_of type_url snapshot.resources) [
    | none ↦ none
    | some resources ↦ some record {
      version_info = decimal snapshot.version;
      resources = resources;
      type_url = type_url;
      nonce = snapshot.nonce;
    }
  ]

  unfoldable pub ordered_responses : XdsSnapshot → List DiscoveryResponse
  unfolding filter_map response_for
  ordered_responses snapshot = filter_map (response_for snapshot) type_urls_in_order
