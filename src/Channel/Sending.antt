-- ===== src/Channel/Sending.antt =====
-- The outgoing messages. A send has two halves, before and after it waits for the callback;
-- between them other calls may change the channel.
pub mod Clock
pub mod Hints
use logos_messaging_js.Prelude.{
  ℕ, ◌+◌, Bool, true, false, not, ◌&&◌, ◌||◌, Option, none, some, List, [], ◌∷◌, ◌++◌, String, map,
  find, ltb, if◌then◌else◌, ◌===◌, ◌==◌, length,
}
use Prim.Native.String
use logos_messaging_js.Prelude.Effects.{
  Outcome, ok, throw, callback_error, library_error, Eff, ◌>>◌, ◌>>=◌, modify, pure,
}
use logos_messaging_js.Prelude.Maps.{insert}
use logos_messaging_js.Platform.{Platform}
use logos_messaging_js.Message.{Message, HistoryEntry, is_content_message}
use logos_messaging_js.History
use logos_messaging_js.History.{Lodash, LocalHistory, has_id}
use logos_messaging_js.Bloom
use logos_messaging_js.Repair.Manager
use logos_messaging_js.Channel.{
  Channel, Event, Reply, rejected, resolved, out_message_sent, out_sync_sent, repair_request_sent,
  emit, timestamp_of, lamport_timestamp_increment, insert_filter, push_history,
}

abbrev pub max_repair_requests_per_message : ℕ
max_repair_requests_per_message = 3

abbrev pub tick : ℕ → Channel → Channel
tick now c = record c { lamport_timestamp = lamport_timestamp_increment now c.lamport_timestamp }

-- `repairManager?.getRepairRequests(...) ?? []`
unfoldable pub take_repair_requests : ℕ → Channel → List HistoryEntry × Channel
take_repair_requests now c = elim c.repair_manager [
  | none ↦ ([], c)
  | some r ↦
      let (requests, r') = Manager.get_repair_requests max_repair_requests_per_message now r in
      (requests, record c { repair_manager = some r' })
]

-- The last messages of the history, as causal history entries.
unfoldable pub causal_history_of : Channel → List HistoryEntry
causal_history_of c =
    map
      (λ m. record {
        message_id = m.message_id;
        retrieval_hint = m.retrieval_hint;
        sender_id = some m.sender_id;
      })
      (History.slice_last c.causal_history_size c.local_history)

-- The message that a send puts together at the state `c`.
unfoldable pub new_message : String → Option (List ℕ) → List HistoryEntry → Channel → Message
unfolding causal_history_of
new_message id content requests c = record {
  message_id = id;
  channel_id = c.channel_id;
  sender_id = c.sender_id;
  causal_history = causal_history_of c;
  lamport_timestamp = some c.lamport_timestamp;
  bloom_filter = some (Bloom.to_bytes c.filter);
  content = content;
  repair_request = requests;
  retrieval_hint = none;
}

-- The sender, the id and the timestamp tell the message objects of this participant apart.
abbrev same_object : Message → Message → Bool
same_object a b =
    (a.message_id === b.message_id)
    && ((a.sender_id === b.sender_id) && (timestamp_of a == timestamp_of b))

-- `message.retrievalHint = hint`, seen through every array that holds the object.
unfoldable pub set_hint : Message → Option (List ℕ) → List Message → List Message
set_hint m hint = map (λ x. if same_object m x then record x { retrieval_hint = hint } else x)

module _ ⦃platform : Platform⦄ where
  unfoldable pub get_message_id : List ℕ → String
  get_message_id payload = platform.bytes_to_hex (platform.sha256 payload)

  -- `_pushOutgoingMessage` up to the callback. A message that is still in the outgoing buffer is sent again.
  unfoldable pub begin_send : List ℕ → ℕ → Eff Channel Message
  begin_send payload now c =
      let c₁ = tick now c in
      let id = get_message_id payload in
      elim (find (has_id id) c₁.outgoing_buffer) [
        | some m ↦ ok m c₁
        | none ↦
            let (requests, c₂) = take_repair_requests now c₁ in
            let m = new_message id (some payload) requests c₂ in
            if length payload == 0
            then throw library_error c₂
            else ok m (record c₂ { outgoing_buffer = c₂.outgoing_buffer ++ m ∷ [] })
      ]

  module _ ⦃lodash : Lodash⦄ where
    -- The rest of it, once the callback ends as `reply`; with no callback nothing follows.
    unfoldable pub finish_send : Message → Option Reply → Eff Channel (Unit {0})
    finish_send m none c = ok tt c
    finish_send m (some rejected) c = throw callback_error c
    finish_send m (some (resolved success hint now)) c =
        if success && is_content_message m
        then (let m' = record m { retrieval_hint = hint } in
              do
                modify (λ c.
                    let h = c.local_history in
                    record c {
                      outgoing_buffer = set_hint m hint c.outgoing_buffer;
                      local_history = record h { items = set_hint m hint h.items };
                    })
                insert_filter m.message_id
                push_history m'
                modify (λ c. record c { time_received = insert m.message_id now c.time_received })
                modify (emit (out_message_sent m')))
            c
        else ok tt c

  -- `_pushOutgoingEphemeralMessage`
  unfoldable pub ephemeral_message : List ℕ → Channel → Message
  ephemeral_message payload c = record {
    message_id = get_message_id payload;
    channel_id = c.channel_id;
    sender_id = c.sender_id;
    causal_history = [];
    lamport_timestamp = none;
    bloom_filter = none;
    content = some payload;
    repair_request = [];
    retrieval_hint = none;
  }

unfoldable pub send_ephemeral_message : List ℕ → Option Reply → Eff Channel (Unit {0})
send_ephemeral_message payload none c =
    if length payload == 0 then throw library_error c else ok tt c
send_ephemeral_message payload (some rejected) c =
    if length payload == 0 then throw library_error c else throw callback_error c
send_ephemeral_message payload (some (resolved success hint t)) c =
    if length payload == 0 then throw library_error c else ok tt c

-- `pushOutgoingSyncMessage` up to the callback: no message if there is nothing to tell.
unfoldable pub begin_sync : String → ℕ → Channel → Option Message × Channel
begin_sync random now c =
    let (requests, c') = take_repair_requests now (tick now c) in
    let m = new_message (String.◌++◌ "sync-" random) none requests c' in
    ((if (length m.causal_history == 0) && (length requests == 0) then none else some m), c')

unfoldable pub finish_sync : Option Message → Option Reply → Eff Channel Bool
finish_sync none reply c = ok false c
finish_sync (some m) none c = ok true c
finish_sync (some m) (some rejected) c = throw callback_error c
finish_sync (some m) (some (resolved success hint t)) c =
    let c' = emit (out_sync_sent m) c in
    ok true (
      if length m.repair_request == 0
      then c'
      else emit (repair_request_sent (map (λ e. e.message_id) m.repair_request) m.message_id) c')
