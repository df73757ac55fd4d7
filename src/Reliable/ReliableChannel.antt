-- ===== src/Reliable/ReliableChannel.antt =====
-- packages/sdk/src/reliable_channel/reliable_channel.ts: `ReliableChannel`, over the message channel,
-- the sync status, the retry manager and the retriever. The events of the message channel are handled
-- in order, after the call that dispatched them; a multiplier of the sync timer is in hundredths. What
-- `_send`, `_subscribe`, the encoder and the query on connect do is not here, and neither is what the
-- sync timer does when it fires.
pub mod Lifecycle
pub mod Sending
pub mod Unstarted
pub mod Acknowledged
use logos_messaging_js.Prelude.{
  ℕ, zero, suc, ◌+◌, ◌*◌, ◌/◌, Bool, true, false, not, ◌&&◌, Option, none, some, List, [], ◌∷◌,
  ◌++◌, map, filter, String, ◌==◌, ◌===◌, if◌then◌else◌,
}
use logos_messaging_js.Prelude.Effects.{Outcome, ok, throw, library_error}
use logos_messaging_js.Platform.{Platform}
use logos_messaging_js.Message.{Message, HistoryEntry, Codec, has_content, is_content_message}
use logos_messaging_js.Message
use logos_messaging_js.Repair.Manager.{has_requests_ready}
use logos_messaging_js.Channel.{
  Channel, Reply, Event, out_message_sent, out_message_acknowledged,
  out_message_possibly_acknowledged, in_sync_received, in_message_received, in_message_missing,
  in_message_lost,
}
use logos_messaging_js.Channel.Sending.{get_message_id}
use logos_messaging_js.Channel.Tasks.{push_outgoing_message, push_incoming_message}
use logos_messaging_js.Reliable.SyncStatus
use logos_messaging_js.Reliable.SyncStatus.{SyncStatus}
use logos_messaging_js.Reliable.RetryManager
use logos_messaging_js.Reliable.RetryManager.{RetryManager}
use logos_messaging_js.Reliable.MissingMessageRetriever
use logos_messaging_js.Reliable.MissingMessageRetriever.{MissingMessageRetriever}

pub data RetrievalStrategy : Type 0 where
  both sds_r_only store_only none_at_all : RetrievalStrategy

-- The events that the application sees.
pub data ReliableChannelEvent : Type 0 where
  sending_message message_sent message_acknowledged : String → ReliableChannelEvent
  message_possibly_acknowledged : String → ℕ → ReliableChannelEvent
  message_received : List ℕ → ReliableChannelEvent
  sending_message_irrecoverable_error : String → ReliableChannelEvent

-- The two sweep loops; an interval of the host has a handle and runs one of them.
pub data Loop : Type 0 where
  sweep_incoming sweep_repair : Loop

pub record ReliableChannel : Type 0 where
  pub message_channel : Channel
  pub sync_status : SyncStatus
  pub retry_manager : Option RetryManager
  pub missing_message_retriever : Option MissingMessageRetriever
  pub retrieval_strategy : RetrievalStrategy
  pub has_store : Bool
  pub started : Bool
  pub listens : Bool
  pub sync_min_interval_ms : ℕ
  -- The timer of `syncRandomTimeout`: the multiplier that it was set with.
  pub sync_timer : Option ℕ
  pub sweep_in_buf_interval : Option ℕ
  pub sweep_repair_interval : Option ℕ
  pub intervals : List (ℕ × Loop)
  pub next_handle : ℕ
  pub process_task_timeout : Bool
  pub dispatched : List ReliableChannelEvent

unfoldable pub should_use_store : RetrievalStrategy → Bool
should_use_store both = true
should_use_store store_only = true
should_use_store strategy = false

unfoldable pub should_use_sds_r : RetrievalStrategy → Bool
should_use_sds_r both = true
should_use_sds_r sds_r_only = true
should_use_sds_r strategy = false

-- `safeSendEvent`
abbrev pub dispatch : ReliableChannelEvent → ReliableChannel → ReliableChannel
dispatch e s = record s { dispatched = s.dispatched ++ e ∷ [] }

-- `syncRandomTimeout.restart`, and `stop`.
unfoldable pub restart_timer : ℕ → ReliableChannel → ReliableChannel
restart_timer multiplier s = record s {
  sync_timer = (if s.sync_min_interval_ms == 0 then none else some multiplier);
}

unfoldable pub stop_sync : ReliableChannel → ReliableChannel
stop_sync s = record s { sync_timer = none }

-- `messageChannel.hasPendingRepairRequests()`
unfoldable pub has_pending_repair_requests : ℕ → Channel → Bool
has_pending_repair_requests now c = elim c.repair_manager [
  | none ↦ false
  | some r ↦ has_requests_ready now r
]

unfoldable pub restart_sync : ℕ → ℕ → ReliableChannel → ReliableChannel
unfolding restart_timer has_pending_repair_requests should_use_sds_r
restart_sync now multiplier s =
    if should_use_sds_r s.retrieval_strategy && has_pending_repair_requests now s.message_channel
    then restart_timer (multiplier * 30 / 100) s
    else restart_timer multiplier s

abbrev pub on_retries : (RetryManager → RetryManager) → ReliableChannel → ReliableChannel
on_retries f s = elim s.retry_manager [
  | none ↦ s
  | some r ↦ record s { retry_manager = some (f r) }
]

abbrev pub on_retriever :
    (MissingMessageRetriever → MissingMessageRetriever) → ReliableChannel → ReliableChannel
on_retriever f s = elim s.missing_message_retriever [
  | none ↦ s
  | some r ↦ record s { missing_message_retriever = some (f r) }
]

-- The missing messages with a hint, for the store.
unfoldable pub add_missing : List HistoryEntry → MissingMessageRetriever → MissingMessageRetriever
add_missing [] r = r
add_missing (e ∷ entries) r = elim e.retrieval_hint [
  | none ↦ add_missing entries r
  | some hint ↦
      add_missing entries (MissingMessageRetriever.add_missing_message e.message_id hint r)
]

abbrev pub ids_of : List HistoryEntry → List String
ids_of entries = map (λ e. e.message_id) entries

abbrev pub or_no_bytes : Option (List ℕ) → List ℕ
or_no_bytes none = []
or_no_bytes (some bytes) = bytes

module _ ⦃platform : Platform⦄ where
  -- The listeners of `setupEventListeners`.
  unfoldable pub handle_event : ℕ → Event → ReliableChannel → ReliableChannel
  unfolding restart_sync add_missing
  handle_event now (out_message_sent m) s =
      if is_content_message m
      then restart_sync now 100 (dispatch (message_sent (get_message_id (or_no_bytes m.content))) s)
      else s
  handle_event now (out_message_acknowledged id) s =
      if id === ""
      then s
      else on_retries (RetryManager.stop_retries id) (dispatch (message_acknowledged id) s)
  handle_event now (out_message_possibly_acknowledged id count) s =
      dispatch (message_possibly_acknowledged id count) s
  handle_event now (in_sync_received m) s = restart_sync now 100 s
  handle_event now (in_message_received m) s =
      let s' = record s {
        sync_status = SyncStatus.on_messages_received (m.message_id ∷ []) s.sync_status;
      } in
      if is_content_message m then restart_sync now 50 s' else s'
  handle_event now (in_message_missing entries) s =
      on_retriever (add_missing entries)
        (record s { sync_status = SyncStatus.on_messages_missing (ids_of entries) s.sync_status })
  handle_event now (in_message_lost entries) s = record s {
    sync_status = SyncStatus.on_messages_lost (ids_of entries) s.sync_status;
  }
  handle_event now event s = s

  unfoldable pub handle_events : ℕ → List Event → ReliableChannel → ReliableChannel
  unfolding handle_event
  handle_events now [] s = s
  handle_events now (e ∷ events) s = handle_events now events (handle_event now e s)

  -- The events that the message channel has dispatched reach the listeners, if there are any.
  unfoldable pub take_events : ℕ → ReliableChannel → ReliableChannel
  unfolding handle_events
  take_events now s =
      let taken = record s { message_channel = record s.message_channel { events = [] } } in
      if s.listens then handle_events now s.message_channel.events taken else taken

  -- `send`, up to the task in the queue of the message channel; `reply` is how the callback will end.
  unfoldable pub send : List ℕ → Option Reply → ReliableChannel → Outcome ReliableChannel String
  send payload reply s =
      let id = get_message_id payload in
      let told = if s.started then s else dispatch (sending_message_irrecoverable_error id) s in
      let retrying = on_retries (RetryManager.start_retries id) told in
      elim (push_outgoing_message payload reply retrying.message_channel) [
        | ok _ c ↦ ok id (record retrying { message_channel = c })
        | throw e c ↦ throw e (record retrying { message_channel = c })
      ]

unfoldable pub queue_process_tasks : ReliableChannel → ReliableChannel
queue_process_tasks s = if s.started then record s { process_task_timeout = true } else s

unfoldable pub clear_process_tasks : ReliableChannel → ReliableChannel
clear_process_tasks s = record s { process_task_timeout = false }

module _ (codec : Codec) where
  abbrev receive_decoded : Message → List ℕ → ReliableChannel → ReliableChannel
  receive_decoded m hash s =
      let pushed = record s {
        message_channel = push_incoming_message m (some hash) s.message_channel;
      } in
      let found =
        on_retriever (MissingMessageRetriever.remove_missing_message m.message_id) pushed in
      if has_content m.content
      then dispatch (message_received (or_no_bytes m.content)) found
      else found

  unfoldable pub process_incoming_message : List ℕ → List ℕ → ReliableChannel → ReliableChannel
  unfolding queue_process_tasks
  process_incoming_message payload hash s = elim (Message.decode codec payload) [
    | none ↦ s
    | some m ↦
        if m.channel_id === s.message_channel.channel_id
        then queue_process_tasks (receive_decoded m hash s)
        else s
  ]

-- `clearInterval`
abbrev pub clear_interval : ℕ → List (ℕ × Loop) → List (ℕ × Loop)
clear_interval handle intervals = filter (λ e. not (e.0 == handle)) intervals

unfoldable pub stop_sweep_incoming_buffer_loop : ReliableChannel → ReliableChannel
stop_sweep_incoming_buffer_loop s = elim s.sweep_in_buf_interval [
  | none ↦ s
  | some handle ↦ record s {
    intervals = clear_interval handle s.intervals;
    sweep_in_buf_interval = none;
  }
]

unfoldable pub start_sweep_incoming_buffer_loop : ReliableChannel → ReliableChannel
unfolding stop_sweep_incoming_buffer_loop
start_sweep_incoming_buffer_loop s =
    let stopped = stop_sweep_incoming_buffer_loop s in
    record stopped {
      sweep_in_buf_interval = some stopped.next_handle;
      intervals = (stopped.next_handle, sweep_incoming) ∷ stopped.intervals;
      next_handle = suc stopped.next_handle;
    }

-- It resets the handle of the other loop, not its own.
unfoldable pub stop_repair_sweep_loop : ReliableChannel → ReliableChannel
stop_repair_sweep_loop s = elim s.sweep_repair_interval [
  | none ↦ s
  | some handle ↦ record s {
    intervals = clear_interval handle s.intervals;
    sweep_in_buf_interval = none;
  }
]

unfoldable pub start_repair_sweep_loop : ReliableChannel → ReliableChannel
unfolding stop_repair_sweep_loop should_use_sds_r
start_repair_sweep_loop s =
    let stopped = stop_repair_sweep_loop s in
    if should_use_sds_r s.retrieval_strategy
    then record stopped {
      sweep_repair_interval = some stopped.next_handle;
      intervals = (stopped.next_handle, sweep_repair) ∷ stopped.intervals;
      next_handle = suc stopped.next_handle;
    }
    else s

-- `start`, up to the subscription.
unfoldable pub start : ℕ → ReliableChannel → ReliableChannel
unfolding restart_sync start_sweep_incoming_buffer_loop start_repair_sweep_loop
start now s =
    if s.started
    then s
    else let synced = restart_sync now 100 (record s { started = true; listens = true }) in
      let sweeping = start_repair_sweep_loop (start_sweep_incoming_buffer_loop synced) in
      if s.has_store then on_retriever MissingMessageRetriever.start sweeping else sweeping

-- `stop` until it waits, and after its waits.
unfoldable pub begin_stop : ReliableChannel → ReliableChannel
unfolding stop_sync stop_sweep_incoming_buffer_loop stop_repair_sweep_loop clear_process_tasks
begin_stop s =
    if s.started
    then clear_process_tasks (
        stop_repair_sweep_loop (
          stop_sweep_incoming_buffer_loop
            (stop_sync (record s { started = false; listens = false }))))
    else s

unfoldable pub finish_stop : ReliableChannel → ReliableChannel
finish_stop s =
    let retrieved =
      on_retriever (λ r. MissingMessageRetriever.finish_stop (MissingMessageRetriever.begin_stop r))
        s in
    let quiet = on_retries RetryManager.stop_all_retries retrieved in
    record quiet { sync_status = SyncStatus.clean_up quiet.sync_status }
