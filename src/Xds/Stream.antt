-- ===== src/Xds/Stream.antt =====
-- The loop over the messages of one stream in controlplane/src/xds/server.rs.
pub mod Status
use open_api_gateway.Prelude.{
  String, Bool, true, false, not, Option, none, some, List, [], ◌∷◌, is_empty, if◌then◌else◌,
}
use open_api_gateway.Prelude.Text.{is_empty_text}
use open_api_gateway.Xds.Snapshot.{DiscoveryResponse, XdsSnapshot, response_for, ordered_responses}

-- The fields of a `DiscoveryRequest` that the program reads; an error is given by its message.
pub record DiscoveryRequest : Type 0 where
  pub node_id : Option String
  pub type_url : String
  pub version_info : String
  pub response_nonce : String
  pub error_detail : Option String

pub record EnvoyConnectionStatus : Type 0 where
  pub node_id : String
  pub last_type_url : Option String
  pub last_acked_version : Option String
  pub last_nonce : Option String
  pub last_nack : Option String

-- `(!text.is_empty()).then_some(text)`
abbrev pub non_empty : String → Option String
non_empty text = if is_empty_text text then none else some text

unfoldable pub is_nack : DiscoveryRequest → Bool
is_nack request = elim request.error_detail [
  | none ↦ false
  | some message ↦ not (is_empty_text message)
]

-- The status that `register` begins with.
unfoldable pub new_status : String → EnvoyConnectionStatus
new_status node_id = record {
  node_id = node_id;
  last_type_url = none;
  last_acked_version = none;
  last_nonce = none;
  last_nack = none;
}

-- What a message is to the status.
pub data Verdict : Type 0 where
  nack : Option String → Verdict
  ack : String → Verdict
  neither : Verdict

unfoldable pub verdict_of : DiscoveryRequest → Verdict
unfolding is_nack
verdict_of message =
    if is_nack message
    then nack message.error_detail
    else if not (is_empty_text message.version_info)
    then ack message.version_info
    else neither

unfoldable pub record_verdict : Verdict → EnvoyConnectionStatus → EnvoyConnectionStatus
record_verdict (nack detail) status = record status { last_nack = detail }
record_verdict (ack version) status = record status {
  last_acked_version = some version;
  last_nack = none;
}
record_verdict neither status = status

unfoldable pub update_status : DiscoveryRequest → EnvoyConnectionStatus → EnvoyConnectionStatus
unfolding verdict_of record_verdict
update_status message status = record_verdict (verdict_of message) (record status {
  last_type_url = non_empty message.type_url;
  last_nonce = non_empty message.response_nonce;
})

-- The status after the messages of a stream.
unfoldable pub update_all : List DiscoveryRequest → EnvoyConnectionStatus → EnvoyConnectionStatus
unfolding update_status
update_all [] status = status
update_all (message ∷ messages) status = update_all messages (update_status message status)

module _ {Any : Type 0} where
  -- `if responses.is_empty() { … }`
  abbrev pub or_all : XdsSnapshot Any → List (DiscoveryResponse Any) → List (DiscoveryResponse Any)
  or_all snapshot [] = ordered_responses Any snapshot
  or_all snapshot (r ∷ rs) = r ∷ rs

  abbrev pub to_list : Option (DiscoveryResponse Any) → List (DiscoveryResponse Any)
  to_list none = []
  to_list (some r) = r ∷ []

  -- What is sent in answer to a message.
  unfoldable pub responses_to : XdsSnapshot Any → DiscoveryRequest → List (DiscoveryResponse Any)
  unfolding ordered_responses response_for
  responses_to snapshot message = or_all snapshot (
      if is_empty_text message.type_url
      then ordered_responses Any snapshot
      else to_list (response_for Any snapshot message.type_url))
