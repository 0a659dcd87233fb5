-- ===== src/Xds/Server/Close.antt =====
-- What the end of a stream does to the registry.
use open_api_gateway.Prelude.{
  String, false, none, some, Option-cases, Bool-cases, inl, inr, ◌≡◌, ◌≢◌, refl,
}
use open_api_gateway.Prelude.Maps.{
  put, lookup, delete, lookup-delete, lookup-delete_other, lookup-put,
}
use open_api_gateway.Prelude.Text.{is_empty_text}
use open_api_gateway.Xds.Stream.{DiscoveryRequest}
use open_api_gateway.Xds.Builders.{Prost}
use open_api_gateway.Xds.Server.{Plane, Stream, node_of, register, on_close}

node_of_named : (message : DiscoveryRequest) → is_empty_text (node_of message) ≡ false
unfolding node_of
node_of_named message = elim (Option-cases message.node_id) [
  | inl e ↦ rw (e, node_of) refl
  | inr (id, e) ↦ elim (Bool-cases (is_empty_text id)) [
    | inl b ↦ rw (e, node_of, b) refl
    | inr b ↦ rw (e, node_of, b, b) refl
  ]
]

module _ (q : Prost) where
  on_close-delete :
      (stream : Stream) (plane : Plane q)
      → is_empty_text stream.node_id ≡ false
      → (on_close q stream plane).connections ≡ delete stream.node_id plane.connections
  unfolding on_close
  on_close-delete stream plane h = rw h refl

  -- The end of a stream that has a node removes the connection of that node and of no other, even
  -- one that a later stream of the node has registered.
  pub on_close-lookup :
      (stream : Stream) (plane : Plane q)
      → is_empty_text stream.node_id ≡ false
      → (lookup stream.node_id (on_close q stream plane).connections ≡ none)
        × ((other : String)
            → other ≢ stream.node_id
            → lookup other (on_close q stream plane).connections ≡ lookup other plane.connections)
  on_close-lookup stream plane h = rw (on_close-delete stream plane h) (
    lookup-delete stream.node_id plane.connections,
    λ other d. lookup-delete_other stream.node_id other plane.connections d,
  )

  -- When an Envoy registers a second stream before its first one ends, the end of the first leaves
  -- the registry with no connection for the node, though the second is still open.
  pub reconnect_lost :
      (first second : Stream) (hello again : DiscoveryRequest) (plane : Plane q)
      → node_of again ≡ node_of hello
      → let one = register q first hello plane in
        let two = register q second again one.0 in
        (lookup (node_of hello) two.0.connections ≡ some second.id)
        × (lookup (node_of hello) (on_close q one.1 two.0).connections ≡ none)
  unfolding register
  reconnect_lost first second hello again plane same =
      let one = register q first hello plane in
      let two = register q second again one.0 in
      (
        rw same
            (lookup-put (node_of hello) second.id (put (node_of hello) first.id plane.connections)),
        (on_close-lookup one.1 two.0 (node_of_named hello)).0,
      )
