-- ===== src/Channel.antt =====
-- packages/sds/src/message_channel/message_channel.ts: the state of a message channel and its
-- small operations. The children hold the methods: Acks, Receiving, Sweeping, Sending and Tasks.
-- The events that the channel dispatches are recorded in order; `now` is what `Date.now()` returns.
pub mod Acks
pub mod Receiving
pub mod Sweeping
pub mod Sending
pub mod Tasks
pub mod Invariant
use Prim.Native.Nat.{max}
use logos_messaging_js.Prelude.{
  ℕ, ◌+◌, Bool, true, false, not, ◌&&◌, ◌||◌, Option, none, some, List, [], ◌∷◌, ◌++◌, String, map,
  any, filter, ltb, if◌then◌else◌, ◌===◌,
}
use logos_messaging_js.Prelude.Effects.{Outcome, ok, throw, type_error, Eff}
use logos_messaging_js.Platform.{Platform}
use logos_messaging_js.Message.{Message, HistoryEntry, is_content_message}
use logos_messaging_js.History
use logos_messaging_js.History.{LocalHistory, Lodash, has_id}
use logos_messaging_js.Bloom
use logos_messaging_js.Bloom.{BloomFilter, BloomFilterOptions, default_bloom_filter_options}
use logos_messaging_js.Repair.Manager
use logos_messaging_js.Repair.Manager.{RepairManager, RepairConfig}

pub data Event : Type 0 where
  out_message_sent : Message → Event
  in_message_delivered : String → Event
  in_message_received : Message → Event
  out_message_acknowledged : String → Event
  out_message_possibly_acknowledged : String → ℕ → Event
  in_message_missing : List HistoryEntry → Event
  out_sync_sent : Message → Event
  in_sync_received : Message → Event
  in_message_lost : List HistoryEntry → Event
  -- Both `taskError` and `sds:error-task`.
  error_task : Event
  repair_request_sent : List String → String → Event
  repair_request_received : List String → String → Event
  repair_response_sent : String → Event

-- How a caller's callback ends: it rejects, or resolves at a time with success or not and a hint.
pub data Reply : Type 0 where
  rejected : Reply
  resolved : Bool → Option (List ℕ) → ℕ → Reply

-- A queued task. A send carries how its callback will end, if there is one.
pub data Task : Type 0 where
  send : List ℕ → Option Reply → Task
  receive : Message → Task
  send_ephemeral : List ℕ → Option Reply → Task

pub record Channel : Type 0 where
  pub channel_id : String
  pub sender_id : String
  pub lamport_timestamp : ℕ
  pub filter : BloomFilter
  pub outgoing_buffer : List Message
  pub possible_acks : List (String × ℕ)
  pub incoming_buffer : List Message
  pub local_history : LocalHistory
  pub time_received : List (String × ℕ)
  pub causal_history_size : ℕ
  pub possible_acks_threshold : ℕ
  pub timeout_for_lost_messages_ms : Option ℕ
  pub repair_manager : Option RepairManager
  pub tasks : List Task
  pub events : List Event

pub record MessageChannelOptions : Type 0 where
  pub causal_history_size : Option ℕ
  pub timeout_for_lost_messages_ms : Option ℕ
  pub possible_acks_threshold : Option ℕ
  pub enable_repair : Option Bool
  pub repair_config : RepairConfig

abbrev or_default {ℓ} : {A : Type ℓ} → Option A → A → A
or_default none d = d
or_default (some a) d = a

unfoldable pub init : String → String → MessageChannelOptions → LocalHistory → ℕ → Channel
init channel_id sender_id options history now = record {
  channel_id = channel_id;
  sender_id = sender_id;
  lamport_timestamp = now;
  filter = Bloom.init default_bloom_filter_options;
  outgoing_buffer = [];
  possible_acks = [];
  incoming_buffer = [];
  local_history = history;
  time_received = [];
  causal_history_size = or_default options.causal_history_size 200;
  possible_acks_threshold = or_default options.possible_acks_threshold 2;
  timeout_for_lost_messages_ms = options.timeout_for_lost_messages_ms;
  repair_manager =
      (if or_default options.enable_repair true
        then some (Manager.init sender_id options.repair_config)
        else none);
  tasks = [];
  events = [];
}

-- `safeSendEvent`
abbrev pub emit : Event → Channel → Channel
emit e c = record c { events = c.events ++ e ∷ [] }

-- `lamportTimestampIncrement`
unfoldable pub lamport_timestamp_increment : ℕ → ℕ → ℕ
lamport_timestamp_increment now t = if ltb (t + 1) now then now else t + 1

-- The timestamp of a content message.
abbrev pub timestamp_of : Message → ℕ
timestamp_of m = or_default m.lamport_timestamp 0

unfoldable pub is_message_available : String → Channel → Bool
is_message_available id c = History.has id c.local_history || any (has_id id) c.incoming_buffer

-- The causal history of a message that is not available.
unfoldable pub missing_dependencies : Message → Channel → List HistoryEntry
missing_dependencies m c = filter (λ e. not (is_message_available e.message_id c)) m.causal_history

-- A call on the repair manager, if repair is enabled.
abbrev on_manager : Eff RepairManager (Unit {0}) → Option RepairManager → Eff Channel (Unit {0})
on_manager f none c = ok tt c
on_manager f (some r) c = elim (f r) [
  | ok a r' ↦ ok tt (record c { repair_manager = some r' })
  | throw e r' ↦ throw e (record c { repair_manager = some r' })
]

abbrev on_repair : Eff RepairManager (Unit {0}) → Eff Channel (Unit {0})
on_repair f c = on_manager f c.repair_manager c

-- `if (message.lamportTimestamp > this.lamportTimestamp) ...`
unfoldable pub advance_clock : Message → Channel → Channel
advance_clock m c =
    if ltb c.lamport_timestamp (timestamp_of m)
    then record c { lamport_timestamp = timestamp_of m }
    else c

abbrev as_delivered : Outcome Channel (Unit {0}) → Outcome Channel Bool
as_delivered (ok a c) = ok true c
as_delivered (throw e c) = throw e c

-- The event of a delivery that succeeded.
abbrev announce : Message → Outcome Channel Bool → Outcome Channel (Unit {0})
announce m (ok true c) = ok tt (emit (in_message_delivered m.message_id) c)
announce m (ok false c) = ok tt c
announce m (throw e c) = throw e c

module _ ⦃platform : Platform⦄ where
  unfoldable pub insert_filter : String → Eff Channel (Unit {0})
  insert_filter id c = elim (Bloom.insert c.filter id) [
    | none ↦ throw type_error c
    | some f ↦ ok tt (record c { filter = f })
  ]

  unfoldable pub has_pending_repair_requests : ℕ → Channel → Bool
  has_pending_repair_requests now c = elim c.repair_manager [
    | none ↦ false
    | some r ↦ Manager.has_requests_ready now r
  ]

  module _ ⦃lodash : Lodash⦄ where
    unfoldable pub push_history : Message → Eff Channel (Unit {0})
    push_history m c = elim (History.push (m ∷ []) c.local_history) [
      | ok n h ↦ ok tt (record c { local_history = h })
      | throw e h ↦ throw e (record c { local_history = h })
    ]

    -- The result says whether the message counts as delivered.
    unfoldable pub deliver_message : Message → Eff Channel Bool
    unfolding advance_clock
    deliver_message m c =
        if is_content_message m
        then (let c' = advance_clock m c in
            if History.has m.message_id c'.local_history
            then ok true c'
            else as_delivered (push_history m c'))
        else ok false c

    -- `if (isContentMessage(message) && this.deliverMessage(message))` and its event.
    unfoldable pub deliver_and_emit : Message → Eff Channel (Unit {0})
    deliver_and_emit m c = announce m (deliver_message m c)
