-- ===== src/Tests/Channels.antt =====
-- A channel that sends and receives a few messages.
use logos_messaging_js.Prelude.{
  ℕ, ◌≡◌, ◌≢◌, ◌+◌, ◌≤◌, ◌<◌, refl, true, not, some, List, [], ◌∷◌, arith, length, filter, ◌===◌,
}
use logos_messaging_js.Prelude.Effects.{ok, state_of}
use logos_messaging_js.Prelude.Maps.{lookup}
use logos_messaging_js.Message.{
  Message, has_content, is_content_message, is_ephemeral_message, is_sync_message,
}
use logos_messaging_js.History
use logos_messaging_js.Bloom
use logos_messaging_js.Bloom.{BloomFilter, default_bloom_filter_options}
use logos_messaging_js.Bloom.Shape.{init-IsShaped}
use logos_messaging_js.Channel.{send, rejected}
use logos_messaging_js.Channel.{
  Channel, receive, init, insert_filter, missing_dependencies, advance_clock, push_history,
  deliver_message, deliver_and_emit,
}
use logos_messaging_js.Channel.Acks.{
  acknowledge_all, review_possible, review_bloom_filter, review_ack_status,
}
use logos_messaging_js.Channel.Acks.Causal.{named_in, acknowledge_all_lem}
use logos_messaging_js.Channel.Acks.Possible.{is_acknowledged, review_possible_lem}
use logos_messaging_js.Channel.Receiving.{
  is_ignored, note_received, mark_repaired, take_requests, note_filter, settle, review_message,
  push_incoming_message,
}
use logos_messaging_js.Channel.Receiving.Guards.{settle_again}
use logos_messaging_js.Channel.Sending.{begin_send, tick, new_message}
use logos_messaging_js.Channel.Sending.Clock.{begin_send_again}
use logos_messaging_js.Channel.Tasks.{run_handler, execute_task, process_tasks}
use logos_messaging_js.History.Order.{keep_first}
use logos_messaging_js.Channel.Invariant.{IsValid}
use logos_messaging_js.Channel.Invariant.Runs.{Run, task, start, step, init-IsValid, run-IsValid}
use logos_messaging_js.Channel.Invariant.Queue.{process_tasks_lem}
use logos_messaging_js.Channel.Invariant.Filters.{sent_filter_acknowledges}
use logos_messaging_js.Tests.Fixtures.{
  small_platform, first_lodash, small_platform-IsSound, small_platform-IsBoundedHash,
  content_message, entry, no_options,
}

abbrev fresh : Channel
fresh = init "general" "bob" no_options (History.init 10) 1000

fresh-IsValid : IsValid fresh
fresh-IsValid = init-IsValid "general" "bob" no_options 10 1000 (omega arith)

-- A message arrives whose dependencies are all there.
abbrev received : Channel
received = execute_task (receive (content_message "m1" 2000 [])) 2000 fresh

abbrev receiving : Run fresh received
receiving = step (start fresh) (task (receive (content_message "m1" 2000 [])) 2000 fresh)

run-IsValid_example : IsValid received
run-IsValid_example = run-IsValid small_platform-IsSound fresh received receiving fresh-IsValid

-- Two tasks: a message that misses a dependency, and a send whose callback rejects.
abbrev queued : Channel
queued = record fresh {
  tasks =
      receive (content_message "m3" 2000 (entry "m9" ∷ [])) ∷ send (1 ∷ []) (some rejected) ∷ [];
}

process_tasks_lem_example :
    (c' : Channel) × (process_tasks 3 (λ k. 2000 + k) queued ≡ some c')
    × (c'.tasks ≡ [])
    × IsValid c'
    × (queued.lamport_timestamp ≤ c'.lamport_timestamp)
process_tasks_lem_example =
    process_tasks_lem small_platform-IsSound 3 (λ k. 2000 + k) queued fresh-IsValid (omega arith)

abbrev payload : List ℕ
payload = 1 ∷ 2 ∷ []

not_empty : length payload ≢ 0
not_empty e = absurd (omega (arith, e))

begin_send_again_example :
    (m : Message) × (c' : Channel) × (begin_send payload 2000 fresh ≡ ok m c')
    × (begin_send payload 3000 c' ≡ ok m (tick 3000 c'))
begin_send_again_example = begin_send_again payload 2000 3000 fresh not_empty

abbrev waiting : Message
waiting = content_message "m3" 2000 (entry "m9" ∷ [])

waiting_content : has_content waiting.content ≡ true
unfolding has_content
waiting_content = refl

settle_again_example :
    push_incoming_message waiting 3000 (state_of (settle waiting (entry "m9" ∷ []) 2000 fresh))
    ≡ ok tt (state_of (settle waiting (entry "m9" ∷ []) 2000 fresh))
settle_again_example = settle_again waiting (entry "m9") [] 2000 3000 fresh waiting_content

abbrev small_filter : BloomFilter
small_filter = Bloom.init (record { capacity = 2; n_bits_per_elem = 50; k_hashes = 3 })

has_bits : 0 < small_filter.total_bits
unfolding Bloom.init
has_bits = omega arith

review_possible_lem_example :
    (c' : Channel) × (review_possible small_filter (waiting ∷ []) fresh
      ≡ ok
          (filter
            (λ m.
              not
                (is_acknowledged small_filter fresh.possible_acks_threshold fresh.possible_acks m))
            (waiting ∷ []))
          c')
review_possible_lem_example =
    review_possible_lem small_platform-IsBoundedHash small_filter
      (init-IsShaped (record { capacity = 2; n_bits_per_elem = 50; k_hashes = 3 })) has_bits
      (waiting ∷ []) fresh (refl, tt)

-- The channel of "bob" with the message "m3" sent and not acknowledged.
abbrev unacknowledged : Channel
unacknowledged = record fresh { outgoing_buffer = waiting ∷ content_message "m4" 2001 [] ∷ [] }

acknowledge_all_lem_example :
    (acknowledge_all (entry "m3" ∷ []) unacknowledged).outgoing_buffer
    ≡ filter (λ m. not (named_in (entry "m3" ∷ []) m)) unacknowledged.outgoing_buffer
acknowledge_all_lem_example = acknowledge_all_lem (entry "m3" ∷ []) unacknowledged

received_m1 : History.has "m1" received.local_history ≡ true
unfolding execute_task History.has History.push push_incoming_message insert_filter run_handler
    is_ignored ◌===◌ init has_content lookup is_ephemeral_message is_sync_message is_content_message
    take_requests review_ack_status note_filter Bloom.insert Bloom.set_bits Bloom.compute_hashes
    Bloom.init settle missing_dependencies deliver_and_emit deliver_message advance_clock
    push_history review_message mark_repaired note_received Bloom.hashes_from Bloom.or_at
    Bloom.word_count keep_first History.drop_oldest acknowledge_all review_bloom_filter History.init
received_m1 = refl

sent_filter_acknowledges_example :
    (bytes : List ℕ) × (f : BloomFilter) × ((new_message "m5"
        (some payload)
        []
        received).bloom_filter
      ≡ some bytes)
    × (Bloom.from_bytes bytes default_bloom_filter_options ≡ some f)
    × (Bloom.lookup f "m1" ≡ some true)
sent_filter_acknowledges_example =
    sent_filter_acknowledges small_platform-IsSound "general" "bob" no_options 10 1000 received "m5"
      (some payload) [] "m1" (omega arith) receiving received_m1
