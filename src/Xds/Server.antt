-- ===== src/Xds/Server.antt =====
-- controlplane/src/xds/registry.rs and the control plane and stream loop of server.rs. A stream is
-- named by a number, which stands for its sender and for the handle of its status.
pub mod Rebuild
pub mod Close
pub mod Running
pub mod Versions
use Prim.Native.Nat.{Ordering}
use Prim.Native.String
use open_api_gateway.Prelude.{
  ℕ, zero, suc, ◌+◌, ◌%◌, ◌^◌, String, ◌<>◌, Bool, true, false, not, Option, none, some, List, [],
  ◌∷◌, ◌++◌, map, length, eqb, if◌then◌else◌,
}
use open_api_gateway.Prelude.Result.{Result, ok, err, ◌>>=◌}
use open_api_gateway.Prelude.Maps.{put, lookup, delete}
use open_api_gateway.Prelude.Text.{is_empty_text}
use open_api_gateway.Config.Types.{Platform, GatewayConfig}
use open_api_gateway.Xds.Snapshot.{DiscoveryResponse, XdsSnapshot, ordered_responses, increment}
use open_api_gateway.Xds.Stream.{
  DiscoveryRequest, EnvoyConnectionStatus, Verdict, nack, ack, neither, new_status, verdict_of,
  update_status, responses_to,
}
use open_api_gateway.Xds.Resources.{ResourceError}
use open_api_gateway.Xds.Builders.{Prost, build}

-- What is recorded in the metrics.
pub data XdsMetric : Type 0 where
  set_xds_snapshot_version : ℕ → XdsMetric
  set_xds_connected_envoys : ℕ → XdsMetric
  record_xds_push : XdsMetric
  record_xds_nack : XdsMetric
  record_xds_ack : XdsMetric

-- The statuses of the streams, by their handles: each handle is written by its own stream.
abbrev pub Statuses : Type 0
Statuses = List (ℕ × EnvoyConnectionStatus)

unfoldable pub status_of : ℕ → Statuses → Option EnvoyConnectionStatus
status_of id [] = none
status_of id ((i, s) ∷ rest) = if eqb i id then some s else status_of id rest

unfoldable pub modify_status :
    ℕ → (EnvoyConnectionStatus → EnvoyConnectionStatus) → Statuses → Statuses
modify_status id f [] = []
modify_status id f ((i, s) ∷ rest) =
    let later = modify_status id f rest in if eqb i id then (i, f s) ∷ rest else (i, s) ∷ later

-- The metrics are given with the latest first.
pub record XdsControlPlane (Any : Type 0) : Type 0 where
  pub snapshot : XdsSnapshot Any
  pub versions : ℕ
  pub connections : List (String × ℕ)
  pub statuses : Statuses
  pub metrics : List XdsMetric

-- `node_id`, which is empty until the first message
pub record Stream : Type 0 where
  pub id : ℕ
  pub node_id : String

-- The sends to one stream, which takes so many messages before it is closed: those it takes, and
-- whether it took all.
unfoldable pub send_all {ℓ} : {A : Type ℓ} → ℕ → ℕ → List A → List (ℕ × A) × Bool
send_all takes id [] = ([], true)
send_all zero id (r ∷ responses) = ([], false)
send_all (suc takes) id (r ∷ responses) =
    let (sent, all) = send_all takes id responses in ((id, r) ∷ sent, all)

unfoldable pub insert_status :
    EnvoyConnectionStatus → List EnvoyConnectionStatus → List EnvoyConnectionStatus
insert_status x [] = x ∷ []
insert_status x (y ∷ ys) = elim (String.compare x.node_id y.node_id) [
  | Ordering.gt ↦ y ∷ insert_status x ys
  | _ ↦ x ∷ y ∷ ys
]

-- `XdsRegistry::statuses`: those of the connections, sorted by node
unfoldable pub statuses_of : List (String × ℕ) → Statuses → List EnvoyConnectionStatus
unfolding insert_status status_of
statuses_of [] store = []
statuses_of ((node, id) ∷ connections) store = elim (status_of id store) [
  | none ↦ statuses_of connections store
  | some status ↦ insert_status status (statuses_of connections store)
]

-- The loop over the connections: what is sent, and the nodes that are disconnected.
unfoldable pub broadcast_from {ℓ} :
    {A : Type ℓ} → (ℕ → ℕ) → List A → List (String × ℕ) → List (ℕ × A) × List String
unfolding send_all
broadcast_from takes responses [] = ([], [])
broadcast_from takes responses ((node, id) ∷ connections) =
    let (sent, all) = send_all (takes id) id responses in
    let (later, disconnected) = broadcast_from takes responses connections in
    (sent ++ later, if all then disconnected else node ∷ disconnected)

unfoldable pub remove_all : List String → List (String × ℕ) → List (String × ℕ)
unfolding delete
remove_all [] connections = connections
remove_all (node ∷ nodes) connections = remove_all nodes (delete node connections)

-- `broadcast`: the connections after it and what is sent
unfoldable pub broadcast {ℓ} :
    {A : Type ℓ} → (ℕ → ℕ) → List A → List (String × ℕ) → List (String × ℕ) × List (ℕ × A)
unfolding broadcast_from remove_all
broadcast takes responses connections =
    let (sent, disconnected) = broadcast_from takes responses connections in
    (remove_all disconnected connections, sent)

unfoldable pub node_of : DiscoveryRequest → String
node_of message = elim message.node_id [
  | none ↦ "unknown"
  | some id ↦ if is_empty_text id then "unknown" else id
]

unfoldable pub verdict_metrics : Verdict → List XdsMetric → List XdsMetric
verdict_metrics (nack detail) metrics = record_xds_nack ∷ metrics
verdict_metrics (ack version) metrics = record_xds_ack ∷ metrics
verdict_metrics neither metrics = metrics

module _ (q : Prost) where
  abbrev pub Plane : Type 0
  Plane = XdsControlPlane q.Any

  abbrev pub Sent : Type 0
  Sent = List (ℕ × DiscoveryResponse q.Any)

  -- `XdsControlPlane::new`
  unfoldable pub new_plane : {p : Platform} → GatewayConfig p → Result ResourceError Plane
  unfolding build
  new_plane config = build q config 1 >>= λ snapshot. ok record {
    snapshot = snapshot;
    versions = 1;
    connections = [];
    statuses = [];
    metrics = set_xds_snapshot_version 1 ∷ [];
  }

  -- The first half of a rebuild: the version is counted and its snapshot built.
  unfoldable pub begin_rebuild :
      {p : Platform} → Plane → GatewayConfig p → Plane × Result ResourceError (XdsSnapshot q.Any)
  unfolding increment build
  begin_rebuild plane config =
      let (versions, version) = increment plane.versions in
      (record plane { versions = versions }, build q config version)

  -- The snapshot is put in force under its lock.
  unfoldable pub install : XdsSnapshot q.Any → Plane → Plane
  install snapshot plane = record plane {
    snapshot = snapshot;
    metrics = set_xds_snapshot_version snapshot.version ∷ plane.metrics;
  }

  -- A snapshot is sent to all connections, under the lock of the registry.
  unfoldable pub push_snapshot : (ℕ → ℕ) → XdsSnapshot q.Any → Plane → Plane × Sent
  unfolding broadcast ordered_responses
  push_snapshot takes snapshot plane =
      let (connections, sent) =
        broadcast takes (ordered_responses q.Any snapshot) plane.connections in
      (record plane { connections = connections; metrics = record_xds_push ∷ plane.metrics }, sent)

  unfoldable pub publish :
      (ℕ → ℕ)
      → Plane × Result ResourceError (XdsSnapshot q.Any)
      → Plane × Sent × Result ResourceError (Unit {0})
  unfolding install push_snapshot
  publish takes (plane, err e) = (plane, [], err e)
  publish takes (plane, ok snapshot) =
      let (pushed, sent) = push_snapshot takes snapshot (install snapshot plane) in
      (pushed, sent, ok tt)

  -- A rebuild that no other one interleaves with. The program holds no lock over all of it:
  -- Server/Versions.antt is about its parts in any order.
  unfoldable pub rebuild_from_config :
      {p : Platform}
      → (ℕ → ℕ)
      → Plane
      → GatewayConfig p
      → Plane × Sent × Result ResourceError (Unit {0})
  unfolding begin_rebuild publish
  rebuild_from_config takes plane config = publish takes (begin_rebuild plane config)

  -- The first message of a stream registers it under its node.
  unfoldable pub register : Stream → DiscoveryRequest → Plane → Plane × Stream
  unfolding node_of new_status put
  register stream message plane =
      let node = node_of message in
      let connections = put node stream.id plane.connections in
      (
        record plane {
          connections = connections;
          statuses = (stream.id, new_status node) ∷ plane.statuses;
          metrics = set_xds_connected_envoys (length connections) ∷ plane.metrics;
        },
        record stream { node_id = node },
      )

  unfoldable pub connect : Stream → DiscoveryRequest → Plane → Plane × Stream
  unfolding register
  connect stream message plane =
      if◌then◌else◌ {A = Plane × Stream} (is_empty_text stream.node_id)
        (register stream message plane) (plane, stream)

  unfoldable pub note_message : ℕ → DiscoveryRequest → Plane → Plane
  unfolding modify_status verdict_metrics verdict_of update_status
  note_message id message plane = record plane {
    statuses = modify_status id (update_status message) plane.statuses;
    metrics = verdict_metrics (verdict_of message) plane.metrics;
  }

  -- One round of the stream's loop.
  unfoldable pub on_message : (ℕ → ℕ) → Stream → DiscoveryRequest → Plane → Plane × Stream × Sent
  unfolding connect note_message responses_to send_all
  on_message takes stream message plane =
      let (plane', stream') = connect stream message plane in
      let noted = note_message stream'.id message plane' in
      (
        noted,
        stream',
        (send_all (takes stream'.id) stream'.id (responses_to noted.snapshot message)).0,
      )

  -- The end of the stream.
  unfoldable pub on_close : Stream → Plane → Plane
  unfolding delete
  on_close stream plane =
      let connections = delete stream.node_id plane.connections in
      if is_empty_text stream.node_id then plane else record plane {
        connections = connections;
        metrics = set_xds_connected_envoys (length connections) ∷ plane.metrics;
      }
