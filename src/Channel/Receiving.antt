-- ===== src/Channel/Receiving.antt =====
-- `_pushIncomingMessage`: what the channel does with a message from the network.
pub mod Guards
use logos_messaging_js.Prelude.{
  ℕ, Bool, true, false, not, ◌&&◌, ◌||◌, Option, none, some, List, [], ◌∷◌, ◌++◌, String, map,
  if◌then◌else◌, ◌===◌,
}
use logos_messaging_js.Prelude.Effects.{Outcome, ok, throw, Eff, ◌>>◌, modify}
use logos_messaging_js.Prelude.Maps.{contains, insert}
use logos_messaging_js.Platform.{Platform}
use logos_messaging_js.Message.{
  Message, HistoryEntry, has_content, is_content_message, is_sync_message, is_ephemeral_message,
}
use logos_messaging_js.History.{Lodash}
use logos_messaging_js.Repair.Manager
use logos_messaging_js.Channel.{
  Channel, Event, in_sync_received, in_message_received, repair_request_received,
  in_message_missing, emit, on_repair, missing_dependencies, insert_filter, deliver_and_emit,
}
use logos_messaging_js.Channel.Acks.{review_ack_status}

-- The early returns: another channel, a duplicate, an own message, an ephemeral one, or one that
-- is of no kind.
unfoldable pub is_ignored : Message → Channel → Bool
is_ignored m c =
    not (m.channel_id === c.channel_id)
    || (has_content m.content && contains m.message_id c.time_received)
    || (c.sender_id === m.sender_id)
    || is_ephemeral_message m
    || (not (is_sync_message m) && not (is_content_message m))

unfoldable pub note_received : Message → Channel → Channel
note_received m c = emit (if is_sync_message m then in_sync_received m else in_message_received m) c

-- `repairManager?.markMessageReceived`
unfoldable pub mark_repaired : Message → Channel → Channel
mark_repaired m c = elim c.repair_manager [
  | none ↦ c
  | some r ↦ record c { repair_manager = some (Manager.mark_message_received m.message_id r) }
]

module _ ⦃platform : Platform⦄ where
  -- The repair requests that the message carries.
  unfoldable pub take_requests : Message → List HistoryEntry → ℕ → Eff Channel (Unit {0})
  take_requests m [] now c = ok tt c
  take_requests m (r ∷ rs) now c =
      on_repair (Manager.process_incoming_repair_requests (r ∷ rs) c.local_history now)
        (emit (repair_request_received (map (λ e. e.message_id) (r ∷ rs)) m.sender_id) c)

  unfoldable pub note_filter : Message → Eff Channel (Unit {0})
  note_filter m c = if is_content_message m then insert_filter m.message_id c else ok tt c

  module _ ⦃lodash : Lodash⦄ where
    -- The message waits in the incoming buffer while it misses dependencies.
    unfoldable pub settle : Message → List HistoryEntry → ℕ → Eff Channel (Unit {0})
    settle m [] now c = if is_content_message m then deliver_and_emit m c else ok tt c
    settle m (d ∷ ds) now c =
        (do
          modify (λ c. record c {
            incoming_buffer = c.incoming_buffer ++ m ∷ [];
            time_received = insert m.message_id now c.time_received;
          })
          on_repair (Manager.mark_dependencies_missing (d ∷ ds) now)
          modify (emit (in_message_missing (d ∷ ds))))
          c

    -- The steps of a message that is not ignored, before its dependencies are looked at.
    unfoldable pub review_message : Message → ℕ → Eff Channel (Unit {0})
    unfolding note_received mark_repaired
    review_message m now c =
        (do take_requests m m.repair_request now; review_ack_status m; note_filter m)
          (mark_repaired m (note_received m c))

    unfoldable pub push_incoming_message : Message → ℕ → Eff Channel (Unit {0})
    unfolding review_message
    push_incoming_message m now c =
        if is_ignored m c
        then ok tt c
        else (review_message m now >> (λ c'. settle m (missing_dependencies m c') now c')) c
