-- ===== src/Reliable/ReliableChannel/Acknowledged.antt =====
-- An acknowledgement from the message channel ends the retries of a message.
use mathlib.Core.Path.{subst}
use logos_messaging_js.Prelude.{
  ℕ, ◌≡◌, refl, sym, ap, ◌∙◌, Bool, true, false, not, ◌&&◌, ◌||◌, Option, none, some, List, [], ◌∷◌,
  map, filter, any, any-append, String, ◌===◌, ===_iff, if◌then◌else◌, arith, Bool-cases,
  Option-cases, inl, inr,
}
use logos_messaging_js.Platform.{Platform}
use logos_messaging_js.Message.{Message, HistoryEntry, is_content_message}
use logos_messaging_js.History.{has_id}
use logos_messaging_js.Channel.{
  Channel, Event, out_message_acknowledged, out_message_sent, out_message_possibly_acknowledged,
  in_sync_received, in_message_received, in_message_missing, in_message_lost, in_message_delivered,
  out_sync_sent, error_task, repair_request_sent, repair_request_received, repair_response_sent,
}
use logos_messaging_js.Channel.Acks.{acknowledge, acknowledge_all}
use logos_messaging_js.Channel.Sending.{get_message_id}
use logos_messaging_js.Reliable.SyncStatus
use logos_messaging_js.Reliable.RetryManager
use logos_messaging_js.Reliable.RetryManager.{RetryManager}
use logos_messaging_js.Reliable.RetryManager.Attempts.{
  IsValid, attempt_of, attempt_of-stop_retries, stop_retries-IsValid,
}
use logos_messaging_js.Reliable.ReliableChannel.{
  ReliableChannel, dispatch, message_sent, or_no_bytes, should_use_sds_r,
  has_pending_repair_requests, restart_timer, restart_sync, handle_event, handle_events,
  take_events,
}

-- The attempt of a message that a timer is set for.
abbrev pub attempt_in : String → Option RetryManager → Option ℕ
attempt_in id none = none
attempt_in id (some r) = attempt_of id r

abbrev pub IsOrderly : Option RetryManager → Type 0
IsOrderly none = Unit
IsOrderly (some r) = IsValid r

-- The message that an event acknowledges.
abbrev acked_by : Event → Option String
acked_by (out_message_acknowledged j) = some j
acked_by e = none

abbrev names_id : String → Option String → Bool
names_id id none = false
names_id id (some j) = j === id

abbrev pub is_ack : String → Event → Bool
is_ack id e = names_id id (acked_by e)

-- What an acknowledgement does to the retries.
abbrev stop_acked : Option String → Option RetryManager → Option RetryManager
stop_acked none o = o
stop_acked (some j) none = none
stop_acked (some j) (some r) = if j === "" then some r else some (RetryManager.stop_retries j r)

stop_acked-IsOrderly :
    (a : Option String) (o : Option RetryManager) → IsOrderly o → IsOrderly (stop_acked a o)
stop_acked-IsOrderly none o v = v
stop_acked-IsOrderly (some j) none v = tt
stop_acked-IsOrderly (some j) (some r) v = elim (Bool-cases (j === "")) [
  | inl e ↦ rw e v
  | inr e ↦ rw e (stop_retries-IsValid j r v)
]

attempt_in-stop_acked :
    (id : String) (a : Option String) (o : Option RetryManager)
    → (id === "") ≡ false
    → IsOrderly o
    → attempt_in id (stop_acked a o) ≡ (if names_id id a then none else attempt_in id o)
attempt_in-stop_acked id none o ne v = refl
attempt_in-stop_acked id (some j) none ne v = ground arith
attempt_in-stop_acked id (some j) (some r) ne v = elim (Bool-cases (j === "")) [
  | inl e ↦
      let other : (j === id) ≡ false =
        ground (arith, e, ne, ===_iff j id, ===_iff j "", ===_iff id "") in
      rw (e, other) refl
  | inr e ↦ rw e (attempt_of-stop_retries j id r v)
]

retries-restart_sync :
    (now multiplier : ℕ) (s : ReliableChannel)
    → (restart_sync now multiplier s).retry_manager ≡ s.retry_manager
unfolding restart_sync restart_timer
retries-restart_sync now multiplier s =
    elim (Bool-cases (
      should_use_sds_r s.retrieval_strategy && has_pending_repair_requests now s.message_channel)) [
        | inl e ↦ rw e refl
        | inr e ↦ rw e refl
      ]

module _ ⦃platform : Platform⦄ where
  retries-handle_event :
      (now : ℕ) (e : Event) (s : ReliableChannel)
      → (handle_event now e s).retry_manager ≡ stop_acked (acked_by e) s.retry_manager
  unfolding handle_event
  retries-handle_event now (out_message_sent m) s = elim (Bool-cases (is_content_message m)) [
    | inl e ↦ rw e (
        retries-restart_sync now 100
          (dispatch (message_sent (get_message_id (or_no_bytes m.content))) s))
    | inr e ↦ rw e refl
  ]
  retries-handle_event now (out_message_acknowledged j) s = elim (Bool-cases (j === "")) [
    | inl e ↦ elim (Option-cases s.retry_manager) [
      | inl n ↦ rw (n, e) refl
      | inr (r, n) ↦ rw (n, e) refl
    ]
    | inr e ↦ elim (Option-cases s.retry_manager) [
      | inl n ↦ rw (n, e) refl
      | inr (r, n) ↦ rw (n, e) refl
    ]
  ]
  retries-handle_event now (out_message_possibly_acknowledged j n) s = refl
  retries-handle_event now (in_sync_received m) s = retries-restart_sync now 100 s
  retries-handle_event now (in_message_received m) s = elim (Bool-cases (is_content_message m)) [
    | inl e ↦ rw e (
        retries-restart_sync now 50 (record s {
          sync_status = SyncStatus.on_messages_received (m.message_id ∷ []) s.sync_status;
        }))
    | inr e ↦ rw e refl
  ]
  retries-handle_event now (in_message_missing entries) s =
      elim (Option-cases s.missing_message_retriever) [ inl n ↦ rw n refl | inr (r, n) ↦ rw n refl ]
  retries-handle_event now (in_message_lost entries) s = refl
  retries-handle_event now (in_message_delivered j) s = refl
  retries-handle_event now (out_sync_sent m) s = refl
  retries-handle_event now error_task s = refl
  retries-handle_event now (repair_request_sent ids j) s = refl
  retries-handle_event now (repair_request_received ids j) s = refl
  retries-handle_event now (repair_response_sent j) s = refl

  -- Handling events ends the retries of the messages that they acknowledge, and of no other.
  pub attempt_in-handle_events :
      (now : ℕ) (id : String) (events : List Event) (s : ReliableChannel)
      → (id === "") ≡ false
      → IsOrderly s.retry_manager
      → attempt_in id (handle_events now events s).retry_manager
        ≡ (if any (is_ack id) events then none else attempt_in id s.retry_manager)
  unfolding handle_events
  attempt_in-handle_events now id [] s ne v = refl
  attempt_in-handle_events now id (e ∷ events) s ne v =
      let step = retries-handle_event now e s in
      let set : IsOrderly (handle_event now e s).retry_manager =
        subst IsOrderly (sym step) (stop_acked-IsOrderly (acked_by e) s.retry_manager v) in
      let rest = attempt_in-handle_events now id events (handle_event now e s) ne set in
      let here = attempt_in-stop_acked id (acked_by e) s.retry_manager ne v in
      ground (arith, rest, here, ap (attempt_in id) step)

acks_of :
    (id j : String) (ms : List Message)
    → any (is_ack id) (map (λ m. out_message_acknowledged j) (filter (has_id j) ms))
      ≡ ((j === id) && any (has_id j) ms)
acks_of id j [] = ground arith
acks_of id j (m ∷ ms) = ground (arith, acks_of id j ms)

acks-acknowledge :
    (id j : String) (c : Channel)
    → any (is_ack id) (acknowledge j c).events
      ≡ (any (is_ack id) c.events || ((j === id) && any (has_id j) c.outgoing_buffer))
unfolding acknowledge
acks-acknowledge id j c =
    any-append (is_ack id) c.events
      (map (λ m. out_message_acknowledged j) (filter (has_id j) c.outgoing_buffer))
    ∙ ap (λ b. any (is_ack id) c.events || b) (acks_of id j c.outgoing_buffer)

acks-acknowledge_all :
    (id : String) (es : List HistoryEntry) (c : Channel)
    → any (is_ack id) c.events ≡ true
    → any (is_ack id) (acknowledge_all es c).events ≡ true
unfolding acknowledge_all
acks-acknowledge_all id [] c h = h
acks-acknowledge_all id (e ∷ es) c h =
    acks-acknowledge_all id es (acknowledge e.message_id c)
      (ground (arith, acks-acknowledge id e.message_id c, h))

kept-other :
    (id j : String) (ms : List Message)
    → (j === id) ≡ false
    → any (has_id id) (filter (λ m. not (has_id j m)) ms) ≡ any (has_id id) ms
kept-other id j [] ne = refl
kept-other id j (m ∷ ms) ne =
    ground
      (arith, kept-other id j ms ne, ===_iff m.message_id id, ===_iff m.message_id j, ===_iff j id)

-- A message in the outgoing buffer that a causal history names is acknowledged to the listeners.
acks-causal :
    (id : String) (es : List HistoryEntry) (c : Channel)
    → any (λ e. e.message_id === id) es ≡ true
    → any (has_id id) c.outgoing_buffer ≡ true
    → any (is_ack id) (acknowledge_all es c).events ≡ true
unfolding acknowledge_all acknowledge
acks-causal id [] c named own = ground (arith, named)
acks-causal id (e ∷ es) c named own = elim (Bool-cases (e.message_id === id)) [
  | inl f ↦ acks-acknowledge_all id es (acknowledge e.message_id c) (
      ground (
        arith,
        acks-acknowledge id e.message_id c,
        own,
        f,
        ===_iff e.message_id id,
        ap (λ k. any (has_id k) c.outgoing_buffer) {x = e.message_id} {y = id},
      ))
  | inr f ↦
      acks-causal id es (acknowledge e.message_id c) (ground (arith, named, f))
        (kept-other id e.message_id c.outgoing_buffer f ∙ own)
]

-- A message in the outgoing buffer that a causal history names: its retries end when the events of the
-- review reach the listeners. Other messages of the review keep their attempts, as above.
module _ ⦃platform : Platform⦄ where
  -- If the causal history of a received message names a message of the outgoing buffer, whose id
  -- is not empty, and the channel listens and the timers of its retry manager are in order, then
  -- no retry of that message is set any more once the events of the review have reached the
  -- listeners.
  pub take_events-acknowledge_all :
      (now : ℕ) (id : String) (es : List HistoryEntry) (s : ReliableChannel)
      → s.listens ≡ true
      → (id === "") ≡ false
      → IsOrderly s.retry_manager
      → any (λ e. e.message_id === id) es ≡ true
      → any (has_id id) s.message_channel.outgoing_buffer ≡ true
      → attempt_in id
          (take_events now
            (record s { message_channel = acknowledge_all es s.message_channel })).retry_manager
        ≡ none
  unfolding take_events
  take_events-acknowledge_all now id es s l ne v named own =
      let acks = acks-causal id es s.message_channel named own in
      let reviewed = acknowledge_all es s.message_channel in
      let taken = record s { message_channel = record reviewed { events = [] } } in
      ap
        (λ b.
          attempt_in id
            (if b then handle_events now reviewed.events taken else taken).retry_manager)
        l
      ∙ attempt_in-handle_events now id reviewed.events taken ne v
      ∙ ap (λ b. if b then none else attempt_in id s.retry_manager) acks
