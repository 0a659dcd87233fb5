-- ===== src/Tests/Streams.antt =====
-- The theorems on a stream's messages, applied to a NACK after an ACK.
use open_api_gateway.Prelude.{String, Option, none, some, [], ◌∷◌, ◌++◌, refl, inl}
use open_api_gateway.Xds.Snapshot.{cluster_type_url}
use open_api_gateway.Xds.Stream.{DiscoveryRequest, new_status, update_all}
use open_api_gateway.Xds.Stream.Status.{IsNack, IsSilent, IsShown, update_all-IsShown}

abbrev message : String → Option String → DiscoveryRequest
message version detail = record {
  node_id = some "envoy-1";
  type_url = cluster_type_url;
  version_info = version;
  response_nonce = "snapshot-3";
  error_detail = detail;
}

abbrev first : DiscoveryRequest
first = message "" none

abbrev acked : DiscoveryRequest
acked = message "2" none

abbrev nacked : DiscoveryRequest
nacked = message "2" (some "bad cluster")

first-IsSilent : IsSilent first
first-IsSilent = (λ detail h. absurd (cc), refl)

nacked-IsNack : IsNack nacked "bad cluster"
nacked-IsNack = (refl, λ h. (cc))

update_all-IsShown_example :
    IsShown nacked
      (update_all (first ∷ acked ∷ []) (new_status "envoy-1"))
      (update_all ((first ∷ acked ∷ []) ++ nacked ∷ first ∷ []) (new_status "envoy-1"))
      (inl ("bad cluster", nacked-IsNack))
update_all-IsShown_example =
    update_all-IsShown (first ∷ acked ∷ []) nacked (first ∷ []) (new_status "envoy-1")
      (inl ("bad cluster", nacked-IsNack)) (first-IsSilent, tt)
