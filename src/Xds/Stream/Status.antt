-- ===== src/Xds/Stream/Status.antt =====
-- What the status of a connection says of the messages it has seen (controlplane/src/xds/server.rs).
use open_api_gateway.Prelude.{
  String, false, Option-cases, none, some, List, [], ◌∷◌, ◌++◌, All, ◌≡◌, ◌≢◌, ◌⊎◌, refl, ◌∙◌, inl,
  inr, arith,
}
use open_api_gateway.Prelude.Text.{is_empty_text}
use open_api_gateway.Config.Validation.Laws.{not-is_empty_text}
use open_api_gateway.Xds.Stream.{
  is_nack, DiscoveryRequest, EnvoyConnectionStatus, nack, ack, neither, verdict_of, record_verdict,
  update_status, update_all,
}

-- The message has an error with this text, which is not empty.
abbrev pub IsNack : DiscoveryRequest → String → Type 0
IsNack message detail = (message.error_detail ≡ some detail) × (detail ≢ "")

abbrev pub HasNoError : DiscoveryRequest → Type 0
HasNoError message = (detail : String) → message.error_detail ≡ some detail → detail ≡ ""

abbrev pub IsAck : DiscoveryRequest → Type 0
IsAck message = HasNoError message × (message.version_info ≢ "")

-- The message has neither an error nor a version.
abbrev pub IsSilent : DiscoveryRequest → Type 0
IsSilent message = HasNoError message × (message.version_info ≡ "")

is_empty_text-other : (text : String) → text ≢ "" → is_empty_text text ≡ false
is_empty_text-other text ne = let full = (not-is_empty_text text).1 ne in ground arith

is_nack-HasNoError : (message : DiscoveryRequest) → HasNoError message → is_nack message ≡ false
unfolding is_nack
is_nack-HasNoError message h = elim (Option-cases message.error_detail) [
  | inl e ↦ rw e refl
  | inr (detail, e) ↦ rw (e, h detail e) refl
]

verdict_of-nack :
    (message : DiscoveryRequest) (detail : String)
    → IsNack message detail
    → verdict_of message ≡ nack (some detail)
unfolding verdict_of is_nack
verdict_of-nack message detail (e, ne) = rw (e, is_empty_text-other detail ne) refl

verdict_of-ack :
    (message : DiscoveryRequest) → IsAck message → verdict_of message ≡ ack message.version_info
unfolding verdict_of
verdict_of-ack message (fine, ne) =
    rw (is_nack-HasNoError message fine, is_empty_text-other message.version_info ne) refl

verdict_of-silent : (message : DiscoveryRequest) → IsSilent message → verdict_of message ≡ neither
unfolding verdict_of
verdict_of-silent message (fine, e) = rw (is_nack-HasNoError message fine, e) refl

update_status-nack :
    (message : DiscoveryRequest) (detail : String) (status : EnvoyConnectionStatus)
    → IsNack message detail
    → let after = update_status message status in
      (after.last_nack ≡ some detail) × (after.last_acked_version ≡ status.last_acked_version)
unfolding update_status record_verdict
update_status-nack message detail status h = rw (verdict_of-nack message detail h) (refl, refl)

update_status-ack :
    (message : DiscoveryRequest) (status : EnvoyConnectionStatus)
    → IsAck message
    → let after = update_status message status in
      (after.last_nack ≡ none) × (after.last_acked_version ≡ some message.version_info)
unfolding update_status record_verdict
update_status-ack message status h = rw (verdict_of-ack message h) (refl, refl)

update_status-silent :
    (message : DiscoveryRequest) (status : EnvoyConnectionStatus)
    → IsSilent message
    → let after = update_status message status in
      (after.last_nack ≡ status.last_nack) × (after.last_acked_version ≡ status.last_acked_version)
unfolding update_status record_verdict
update_status-silent message status h = rw (verdict_of-silent message h) (refl, refl)

-- Messages with neither an error nor a version leave both fields.
update_all-silent :
    (messages : List DiscoveryRequest) (status : EnvoyConnectionStatus)
    → All IsSilent messages
    → let after = update_all messages status in
      (after.last_nack ≡ status.last_nack) × (after.last_acked_version ≡ status.last_acked_version)
unfolding update_all
update_all-silent [] status h = (refl, refl)
update_all-silent (m ∷ messages) status (h, hs) =
    let (n, a) = update_all-silent messages (update_status m status) hs in
    let (n', a') = update_status-silent m status h in (n ∙ n', a ∙ a')

update_all-append :
    (before messages : List DiscoveryRequest) (status : EnvoyConnectionStatus)
    → update_all (before ++ messages) status ≡ update_all messages (update_all before status)
unfolding update_all
update_all-append [] messages status = refl
update_all-append (m ∷ before) messages status =
    update_all-append before messages (update_status m status)

-- The error of a NACK is shown as long as only messages follow that are neither ACK nor NACK, and the
-- version that was acknowledged before it stays.
update_all-nack :
    (before : List DiscoveryRequest) (message : DiscoveryRequest) (detail : String)
    (after : List DiscoveryRequest) (status : EnvoyConnectionStatus)
    → IsNack message detail
    → All IsSilent after
    → let seen = update_all (before ++ message ∷ after) status in
      (seen.last_nack ≡ some detail)
      × (seen.last_acked_version ≡ (update_all before status).last_acked_version)
unfolding update_all
update_all-nack before message detail after status h silent =
    let old = update_all before status in
    let (n, a) = update_all-silent after (update_status message old) silent in
    let (n', a') = update_status-nack message detail old h in
    rw (update_all-append before (message ∷ after) status) (n ∙ n', a ∙ a')

-- The version of an ACK is shown as the acknowledged one, and no error, as long as only messages
-- follow that are neither ACK nor NACK.
update_all-ack :
    (before : List DiscoveryRequest) (message : DiscoveryRequest) (after : List DiscoveryRequest)
    (status : EnvoyConnectionStatus)
    → IsAck message
    → All IsSilent after
    → let seen = update_all (before ++ message ∷ after) status in
      (seen.last_nack ≡ none) × (seen.last_acked_version ≡ some message.version_info)
unfolding update_all
update_all-ack before message after status h silent =
    let old = update_all before status in
    let (n, a) = update_all-silent after (update_status message old) silent in
    let (n', a') = update_status-ack message old h in
    rw (update_all-append before (message ∷ after) status) (n ∙ n', a ∙ a')

-- What the status shows of a NACK or an ACK: the error of a NACK, with the version that was
-- acknowledged before it, and the version of an ACK, without an error.
abbrev pub IsShown :
    (message : DiscoveryRequest) (old seen : EnvoyConnectionStatus)
    → (((detail : String) × IsNack message detail) ⊎ IsAck message)
    → Type 0
IsShown message old seen (inl (detail, _)) =
    (seen.last_nack ≡ some detail) × (seen.last_acked_version ≡ old.last_acked_version)
IsShown message old seen (inr _) =
    (seen.last_nack ≡ none) × (seen.last_acked_version ≡ some message.version_info)

-- After any messages the status shows the last one that was a NACK or an ACK: the error of a NACK,
-- with the version that was acknowledged before it, or the version of an ACK, without an error.
pub update_all-IsShown :
    (before : List DiscoveryRequest) (message : DiscoveryRequest) (after : List DiscoveryRequest)
    (status : EnvoyConnectionStatus)
    (kind : ((detail : String) × IsNack message detail) ⊎ IsAck message)
    → All IsSilent after
    → IsShown message
        (update_all before status)
        (update_all (before ++ message ∷ after) status)
        kind
update_all-IsShown before message after status (inl (detail, h)) silent =
    update_all-nack before message detail after status h silent
update_all-IsShown before message after status (inr h) silent =
    update_all-ack before message after status h silent
