-- ===== src/Reliable/ReliableChannel/Sending.antt =====
-- packages/sdk/src/reliable_channel/reliable_channel.ts: the callbacks that put a message on the network,
-- with what the encoder and `_send` return as arguments, and the messages that come from it.
use mathlib.Core.List.{append_assoc}
use logos_messaging_js.Prelude.{
  ℕ, ◌≡◌, refl, Bool, true, false, not, ◌&&◌, Option, none, some, List, [], ◌∷◌, ◌++◌, String,
  length, any, ◌==◌, ◌===◌, if◌then◌else◌, Bool-cases, inl, inr,
}
use logos_messaging_js.Message.{Codec}
use logos_messaging_js.Message
use logos_messaging_js.Reliable.ReliableChannel.{
  ReliableChannel, ReliableChannelEvent, sending_message, sending_message_irrecoverable_error,
  dispatch, process_incoming_message,
}

pub data LightPushError : Type 0 where
  generic_fail decode_failed no_peer_available no_stream_available : LightPushError
  no_response stream_aborted encode_failed empty_payload size_too_big : LightPushError
  topic_not_configured rln_proof_generation remote_peer_rejected : LightPushError
  bad_request payload_too_large invalid_message unsupported_topic : LightPushError
  too_many_requests internal_error unavailable no_rln_proof no_peers : LightPushError

-- `IRRECOVERABLE_SENDING_ERRORS.includes(error)`
unfoldable pub is_irrecoverable : LightPushError → Bool
is_irrecoverable encode_failed = true
is_irrecoverable empty_payload = true
is_irrecoverable size_too_big = true
is_irrecoverable rln_proof_generation = true
is_irrecoverable error = false

-- The failures of a send up to the first that is irrecoverable.
unfoldable pub report_failures :
    String → List LightPushError → ReliableChannel → Bool × ReliableChannel
report_failures id [] s = (true, s)
report_failures id (error ∷ failures) s =
    let rest = report_failures id failures s in
    if is_irrecoverable error
    then (false, dispatch (sending_message_irrecoverable_error id) s)
    else rest

-- The callback of `_wrapAndSend`: whether it succeeded, the retrieval hint, and the channel. The hash of
-- the encoded message is there if the encoder encodes it.
unfoldable pub wrap_and_send_callback :
    String
    → Option (List ℕ)
    → List LightPushError
    → ReliableChannel
    → (Bool × Option (List ℕ)) × ReliableChannel
unfolding report_failures
wrap_and_send_callback id none failures s =
    ((false, none), dispatch (sending_message_irrecoverable_error id) s)
wrap_and_send_callback id (some hash) failures s =
    let reported = report_failures id failures (dispatch (sending_message id) s) in
    ((reported.0, some hash), reported.1)

-- The callback of `sendSyncMessage`.
unfoldable pub sync_callback : List LightPushError → Bool
sync_callback failures = length failures == 0

module _ (codec : Codec) where
  -- The callback of `subscribe`.
  unfoldable pub receive : List ℕ → List ℕ → ReliableChannel → ReliableChannel
  receive payload hash s = if s.started then process_incoming_message codec payload hash s else s

  unfoldable pub process_incoming_messages :
      List (List ℕ × List ℕ) → ReliableChannel → ReliableChannel
  process_incoming_messages [] s = s
  process_incoming_messages ((payload, hash) ∷ messages) s =
      process_incoming_messages messages (process_incoming_message codec payload hash s)

  -- Whether a message of the store ends the query on connect.
  unfoldable pub is_channel_message_with_causal_history : List ℕ → ReliableChannel → Bool
  is_channel_message_with_causal_history payload s = elim (Message.decode codec payload) [
    | none ↦ false
    | some m ↦ (m.channel_id === s.message_channel.channel_id) && not (length m.causal_history == 0)
  ]

abbrev pub told_of : String → Option (List ℕ) → List LightPushError → List ReliableChannelEvent
told_of id none failures = sending_message_irrecoverable_error id ∷ []
told_of id (some hash) failures =
    if any is_irrecoverable failures
    then sending_message id ∷ sending_message_irrecoverable_error id ∷ []
    else sending_message id ∷ []

abbrev pub is_encoded : Option (List ℕ) → Bool
is_encoded none = false
is_encoded (some hash) = true

report_failures_lem :
    (id : String) (failures : List LightPushError) (s : ReliableChannel)
    → report_failures id failures s ≡ (
        if any is_irrecoverable failures
        then (false, dispatch (sending_message_irrecoverable_error id) s)
        else (true, s))
unfolding report_failures
report_failures_lem id [] s = refl
report_failures_lem id (error ∷ failures) s = elim (Bool-cases (is_irrecoverable error)) [
  | inl e ↦ rw e refl
  | inr e ↦ rw e (report_failures_lem id failures s)
]

-- The callback that sends a message succeeds exactly if the message can be encoded and no failure
-- of the send is irrecoverable, whatever its other failures are; it tells that the message is
-- being sent if it can be encoded, then one irrecoverable error if it does not succeed, and leaves
-- the retries as they are.
pub wrap_and_send_callback_lem :
    (id : String) (hash : Option (List ℕ)) (failures : List LightPushError) (s : ReliableChannel)
    → ((wrap_and_send_callback id hash failures s).0.0
        ≡ (is_encoded hash && not (any is_irrecoverable failures)))
      × ((wrap_and_send_callback id hash failures s).1.dispatched
          ≡ s.dispatched ++ told_of id hash failures)
      × ((wrap_and_send_callback id hash failures s).1.retry_manager ≡ s.retry_manager)
unfolding wrap_and_send_callback
wrap_and_send_callback_lem id none failures s = (refl, refl, refl)
wrap_and_send_callback_lem id (some hash) failures s =
    let e = report_failures_lem id failures (dispatch (sending_message id) s) in
    elim (Bool-cases (any is_irrecoverable failures)) [
      | inl f ↦ rw (e, f) (refl, append_assoc s.dispatched _ _, refl)
      | inr f ↦ rw (e, f) (refl, refl, refl)
    ]
