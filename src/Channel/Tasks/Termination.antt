-- ===== src/Channel/Tasks/Termination.antt =====
-- Every handler keeps the queue, so `processTasks` ends.
use logos_messaging_js.Prelude.{
  ℕ, ◌≤◌, ◌&&◌, Option, none, some, List, [], ◌∷◌, ◌++◌, arith, Option-cases, Bool-cases, inl, inr,
  length, ◌==◌, find,
}
use logos_messaging_js.Prelude.Effects.{
  Outcome, ok, throw, state_of, Eff, Ensures-state, state-then, modify, ◌>>◌,
}
use logos_messaging_js.Prelude.Maps.{insert}
use logos_messaging_js.Platform.{Platform}
use logos_messaging_js.Message.{Message, HistoryEntry, is_content_message}
use logos_messaging_js.History
use logos_messaging_js.History.{Lodash, LocalHistory, has_id}
use logos_messaging_js.Repair.Manager
use logos_messaging_js.Channel.{
  Channel, Task, send, receive, send_ephemeral, Reply, rejected, resolved, emit, error_task,
  insert_filter, push_history, advance_clock, deliver_message, deliver_and_emit, on_repair,
  missing_dependencies, in_message_missing, out_message_sent,
}
use logos_messaging_js.Channel.Acks.{acknowledge_all, review_ack_status}
use logos_messaging_js.Channel.Receiving
use logos_messaging_js.Channel.Receiving.{
  is_ignored, note_received, mark_repaired, take_requests, note_filter, settle, review_message,
}
use logos_messaging_js.Channel.Sending.{
  tick, begin_send, finish_send, get_message_id, set_hint, send_ephemeral_message,
}
use logos_messaging_js.Channel.Sending.Clock.{increment_later, take_repair_requests_frame}
use logos_messaging_js.Channel.Tasks.{run_handler, execute_task}
use logos_messaging_js.Channel.Tasks.Frame.{
  After, on_manager-After, acknowledge_all-After, advance_clock-After, as_delivered-After,
  announce-After, mark_repaired-After, insert_filter-After, review_bloom_filter-After,
  note_filter-After, take_requests-After,
}

module _ (ts : List Task) (t : ℕ) ⦃platform : Platform⦄ where
  review_ack_status-After :
      (m : Message) (c : Channel) → After ts t c → After ts t (state_of (review_ack_status m c))
  unfolding review_ack_status
  review_ack_status-After m c a =
      review_bloom_filter-After ts t m.bloom_filter (acknowledge_all m.causal_history c)
        (acknowledge_all-After ts t m.causal_history c a)

  module _ ⦃lodash : Lodash⦄ where
    push_history-After :
        (m : Message) (c : Channel) → After ts t c → After ts t (state_of (push_history m c))
    unfolding push_history
    push_history-After m c a = go (History.push (m ∷ []) c.local_history)
      where
        go :
            (o : Outcome LocalHistory ℕ)
            → After ts t (
                state_of {S = Channel} {A = Unit {0}} (elim o [
                  | ok n h ↦ ok tt (record c { local_history = h })
                  | throw e h ↦ throw e (record c { local_history = h })
                ]))
        go (ok n h) = a
        go (throw e h) = a

    deliver_message-After :
        (m : Message) (c : Channel) → After ts t c → After ts t (state_of (deliver_message m c))
    unfolding deliver_message
    deliver_message-After m c a = elim (Bool-cases (is_content_message m)) [
      | inr other ↦ rw other a
      | inl content ↦
          let c' = advance_clock m c in
          let b = advance_clock-After ts t m c a in
          rw content (elim (Bool-cases (History.has m.message_id c'.local_history)) [
            | inl old ↦ rw old b
            | inr new ↦
                rw new (as_delivered-After ts t (push_history m c') (push_history-After m c' b))
          ])
    ]

    settle-After :
        (m : Message) (ds : List HistoryEntry) (now : ℕ) (c : Channel)
        → After ts t c
        → After ts t (state_of (settle m ds now c))
    unfolding settle deliver_and_emit
    settle-After m [] now c a = elim (Bool-cases (is_content_message m)) [
      | inr other ↦ rw other a
      | inl content ↦
          rw content (announce-After ts t m (deliver_message m c) (deliver_message-After m c a))
    ]
    settle-After m (d ∷ ds) now c a =
        let waiting = record c {
          incoming_buffer = c.incoming_buffer ++ m ∷ [];
          time_received = insert m.message_id now c.time_received;
        } in
        let mark = on_repair (Manager.mark_dependencies_missing (d ∷ ds) now) in
        state-then (After ts t) (After ts t) mark (modify (emit (in_message_missing (d ∷ ds))))
          waiting
          (Ensures-state (After ts t) (mark waiting)
            (on_manager-After ts t _ c.repair_manager waiting a))
          (λ c' w. w)

    push_incoming_message-After :
        (m : Message) (now : ℕ) (c : Channel)
        → After ts t c
        → After ts t (state_of (Receiving.push_incoming_message m now c))
    unfolding Receiving.push_incoming_message review_message note_received
    push_incoming_message-After m now c a = elim (Bool-cases (is_ignored m c)) [
      | inl ignored ↦ rw ignored a
      | inr taken ↦
          let start = mark_repaired m (note_received m c) in
          let rest : Eff Channel (Unit {0}) = λ c'. settle m (missing_dependencies m c') now c' in
          rw taken (
            state-then (After ts t) (After ts t) (review_message m now) rest c
              (Ensures-state (After ts t) (review_message m now c) (
                state-then (After ts t) (After ts t) (take_requests m m.repair_request now)
                  (review_ack_status m >> note_filter m) start
                  (Ensures-state (After ts t) (take_requests m m.repair_request now start) (
                    take_requests-After ts t m m.repair_request now start
                      (mark_repaired-After ts t m (note_received m c) a)))
                  (λ c₁ w.
                    state-then (After ts t) (After ts t) (review_ack_status m) (note_filter m) c₁
                      (Ensures-state (After ts t) (review_ack_status m c₁)
                        (review_ack_status-After m c₁ w))
                      (note_filter-After ts t m))))
              (λ c' w. settle-After m (missing_dependencies m c') now c' w))
    ]

module _ (ts : List Task) (t : ℕ) ⦃platform : Platform⦄ where
  begin_send-After :
      (payload : List ℕ) (now : ℕ) (c : Channel)
      → After ts t c
      → After ts t (state_of (begin_send payload now c))
  unfolding begin_send
  begin_send-After payload now c a =
      let later : t ≤ (tick now c).lamport_timestamp =
        omega (arith, a.1, increment_later now c.lamport_timestamp) in
      elim (Option-cases (find (has_id (get_message_id payload)) c.outgoing_buffer)) [
        | inr (m, found) ↦ rw (found, begin_send) (a.0, later)
        | inl free ↦
            let (requests, r, e) = take_repair_requests_frame now (tick now c) in
            elim (Bool-cases (length payload == 0)) [
              | inl empty ↦ rw (free, e, empty, begin_send) (a.0, later)
              | inr full ↦ rw (free, e, full, begin_send) (a.0, later)
            ]
      ]

  ephemeral-After :
      (payload : List ℕ) (reply : Option Reply) (c : Channel)
      → After ts t c
      → After ts t (state_of (send_ephemeral_message payload reply c))
  unfolding send_ephemeral_message
  ephemeral-After payload none c a = ground arith
  ephemeral-After payload (some rejected) c a = ground arith
  ephemeral-After payload (some (resolved success hint now)) c a = ground arith

  module _ ⦃lodash : Lodash⦄ where
    finish_send-After :
        (m : Message) (reply : Option Reply) (c : Channel)
        → After ts t c
        → After ts t (state_of (finish_send m reply c))
    unfolding finish_send
    finish_send-After m none c a = a
    finish_send-After m (some rejected) c a = a
    finish_send-After m (some (resolved success hint now)) c a =
        elim (Bool-cases (success && is_content_message m)) [
          | inr failed ↦ rw failed a
          | inl sent ↦
              let m' = record m { retrieval_hint = hint } in
              let h = c.local_history in
              let c₁ = record c {
                outgoing_buffer = set_hint m hint c.outgoing_buffer;
                local_history = record h { items = set_hint m hint h.items };
              } in
              let rest : Eff Channel (Unit {0}) =
                modify (λ c. record c { time_received = insert m.message_id now c.time_received })
                >> modify (emit (out_message_sent m')) in
              rw sent (
                state-then (After ts t) (After ts t) (insert_filter m.message_id)
                  (push_history m' >> rest) c₁
                  (Ensures-state (After ts t) (insert_filter m.message_id c₁)
                    (insert_filter-After ts t m.message_id c₁ a))
                  (λ c₂ w.
                    state-then (After ts t) (After ts t) (push_history m') rest c₂
                      (Ensures-state (After ts t) (push_history m' c₂)
                        (push_history-After ts t m' c₂ w))
                      (λ c₃ u. u)))
        ]

    run_handler-After :
        (task : Task) (now : ℕ) (c : Channel)
        → After ts t c
        → After ts t (state_of (run_handler task now c))
    unfolding run_handler
    run_handler-After (send payload reply) now c a =
        go (begin_send payload now c) (begin_send-After payload now c a)
      where
        go :
            (o : Outcome Channel Message)
            → After ts t (state_of o)
            → After ts t (
                state_of {S = Channel} {A = Unit {0}}
                  (elim o [ ok m c' ↦ finish_send m reply c' | throw e c' ↦ throw e c' ]))
        go (ok m c') b = finish_send-After m reply c' b
        go (throw e c') b = b
    run_handler-After (receive m) now c a = push_incoming_message-After ts t m now c a
    run_handler-After (send_ephemeral payload reply) now c a = ephemeral-After payload reply c a

    -- A task neither queues nor drops a task, and leaves the clock where it is or later.
    pub execute_task-After :
        (task : Task) (now : ℕ) (c : Channel) → After ts t c → After ts t (execute_task task now c)
    unfolding execute_task
    execute_task-After task now c a = go (run_handler task now c) (run_handler-After task now c a)
      where
        go :
            (o : Outcome Channel (Unit {0}))
            → After ts t (state_of o)
            → After ts t
                (let x : Channel = elim o [ ok b c' ↦ c' | throw e c' ↦ emit error_task c' ] in x)
        go (ok b c') w = w
        go (throw e c') w = w
