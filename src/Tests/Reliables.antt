-- ===== src/Tests/Reliables.antt =====
-- A reliable channel that is started, stopped and sent to.
use logos_messaging_js.Prelude.{
  ℕ, ◌≡◌, refl, true, false, not, ◌&&◌, none, some, List, [], ◌∷◌, ◌++◌, length, any, ◌==◌, ◌===◌,
  if◌then◌else◌,
}
use logos_messaging_js.Prelude.Effects.{state_of, returned}
use logos_messaging_js.History
use logos_messaging_js.Channel
use logos_messaging_js.Channel.Acks.{acknowledge_all}
use logos_messaging_js.Channel.Sending.{get_message_id}
use logos_messaging_js.Reliable.SyncStatus
use logos_messaging_js.Reliable.MissingMessageRetriever
use logos_messaging_js.Reliable.RetryManager
use logos_messaging_js.Reliable.RetryManager.{RetryManager, new}
use logos_messaging_js.Reliable.RetryManager.Attempts.{IsValid, scheduled, retry-IsValid}
use logos_messaging_js.Reliable.RetryManager.Bounded.{new-IsValid}
use logos_messaging_js.Reliable.ReliableChannel.{
  ReliableChannel, both, sweep_incoming, sending_message_irrecoverable_error, should_use_sds_r,
  take_events, send, start, begin_stop, finish_stop,
}
use logos_messaging_js.Reliable.ReliableChannel.Acknowledged.{
  attempt_in, take_events-acknowledge_all,
}
use logos_messaging_js.Reliable.ReliableChannel.Lifecycle.{IsFresh, begin_stop-start}
use logos_messaging_js.Reliable.ReliableChannel.Sending.{
  LightPushError, no_response, size_too_big, is_irrecoverable, told_of, is_encoded,
  wrap_and_send_callback, wrap_and_send_callback_lem,
}
use logos_messaging_js.Reliable.ReliableChannel.Unstarted.{send_lem}
use logos_messaging_js.Tests.Fixtures.{small_platform, entry, content_message, no_options}

abbrev retrying : RetryManager
retrying = RetryManager.retry "m3" 0 (new 10)

retrying-IsValid : IsValid retrying
retrying-IsValid = retry-IsValid "m3" 0 (new 10) (new-IsValid 10)

abbrev one_byte : List ℕ
one_byte = 1 ∷ []

-- Not started, with all that a channel may have.
abbrev quiet : ReliableChannel
quiet = record {
  message_channel = Channel.init "general" "bob" no_options (History.init 10) 1000;
  sync_status = SyncStatus.init;
  retry_manager = some (new 10);
  missing_message_retriever = some (MissingMessageRetriever.init 10000);
  retrieval_strategy = both;
  has_store = true;
  started = false;
  listens = false;
  sync_min_interval_ms = 30000;
  sync_timer = none;
  sweep_in_buf_interval = none;
  sweep_repair_interval = none;
  intervals = [];
  next_handle = 1;
  process_task_timeout = false;
  dispatched = [];
}

quiet-IsFresh : IsFresh quiet
unfolding should_use_sds_r
quiet-IsFresh = record {
  started = refl;
  repairs = refl;
  no_incoming = refl;
  no_repair = refl;
  no_interval = refl;
}

begin_stop-start_example :
    ((begin_stop (start 1000 quiet)).intervals ≡ [])
    × ((begin_stop (start 2000 (finish_stop (begin_stop (start 1000 quiet))))).intervals
        ≡ (3, sweep_incoming) ∷ [])
    × ((begin_stop (start 2000 (finish_stop (begin_stop (start 1000 quiet))))).sweep_in_buf_interval
        ≡ none)
begin_stop-start_example = begin_stop-start 1000 2000 quiet quiet-IsFresh

send_lem_example :
    (attempt_in (get_message_id one_byte) (state_of (send one_byte none quiet)).retry_manager
      ≡ scheduled 10 0)
    × (returned (send one_byte none quiet) ≡ not (length one_byte == 0))
    × ((state_of (send one_byte none quiet)).dispatched ≡ (
        if quiet.started
        then quiet.dispatched
        else quiet.dispatched
          ++ sending_message_irrecoverable_error (get_message_id one_byte) ∷ []))
send_lem_example = send_lem one_byte none quiet (new 10) refl (new-IsValid 10)

-- Started, with the message "m3" sent and its retries on.
abbrev waiting : ReliableChannel
waiting = record quiet {
  message_channel = record quiet.message_channel {
    outgoing_buffer = content_message "m3" 2001 [] ∷ [];
  };
  retry_manager = some retrying;
  listens = true;
}

take_events-acknowledge_all_example :
    attempt_in "m3"
      (take_events 3000 (record waiting {
        message_channel = acknowledge_all (entry "m3" ∷ []) waiting.message_channel;
      })).retry_manager
    ≡ none
unfolding ◌===◌
take_events-acknowledge_all_example =
    take_events-acknowledge_all 3000 "m3" (entry "m3" ∷ []) waiting refl refl retrying-IsValid refl
      refl

abbrev two_failures : List LightPushError
two_failures = no_response ∷ size_too_big ∷ []

wrap_and_send_callback_lem_example :
    ((wrap_and_send_callback "m3" (some one_byte) two_failures waiting).0.0
      ≡ (is_encoded (some one_byte) && not (any is_irrecoverable two_failures)))
    × ((wrap_and_send_callback "m3" (some one_byte) two_failures waiting).1.dispatched
        ≡ waiting.dispatched ++ told_of "m3" (some one_byte) two_failures)
    × ((wrap_and_send_callback "m3" (some one_byte) two_failures waiting).1.retry_manager
        ≡ waiting.retry_manager)
wrap_and_send_callback_lem_example =
    wrap_and_send_callback_lem "m3" (some one_byte) two_failures waiting
