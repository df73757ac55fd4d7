-- ===== src/Channel/Tasks/Frame.antt =====
-- The handlers neither queue nor drop tasks, and never set the Lamport clock back.
use logos_messaging_js.Prelude.{
  ℕ, ◌+◌, ◌≤◌, ◌≡◌, Bool, true, false, Option, none, some, List, [], ◌∷◌, String, arith,
  Option-cases, Bool-cases, inl, inr, ltb,
}
use logos_messaging_js.Prelude.Effects.{Outcome, ok, throw, state_of, Eff}
use logos_messaging_js.Prelude.Maps.{lookup}
use logos_messaging_js.Platform.{Platform}
use logos_messaging_js.Message.{Message, HistoryEntry, is_content_message}
use logos_messaging_js.Bloom
use logos_messaging_js.Bloom.{BloomFilter, default_bloom_filter_options}
use logos_messaging_js.Repair.Manager
use logos_messaging_js.Repair.Manager.{RepairManager}
use logos_messaging_js.Channel.{
  Channel, Task, insert_filter, advance_clock, as_delivered, announce, on_manager, timestamp_of,
}
use logos_messaging_js.Channel.Acks.{
  acknowledge, acknowledge_all, count_of, count_ack, end_ack, review_possible, review_bloom_filter,
}
use logos_messaging_js.Channel.Receiving.{mark_repaired, take_requests, note_filter}

-- The tasks are `ts`, and the clock is `t` or later.
abbrev pub After : List Task → ℕ → Channel → Type 0
After ts t c = (c.tasks ≡ ts) × (t ≤ c.lamport_timestamp)

module _ (ts : List Task) (t : ℕ) where
  pub on_manager-After :
      (f : Eff RepairManager (Unit {0})) (r : Option RepairManager) (c : Channel)
      → After ts t c
      → After ts t (state_of (on_manager f r c))
  on_manager-After f none c a = a
  on_manager-After f (some r) c a = go (f r)
    where
      go :
          (o : Outcome RepairManager (Unit {0}))
          → After ts t (
              state_of {S = Channel} {A = Unit {0}} (elim o [
                | ok a r' ↦ ok tt (record c { repair_manager = some r' })
                | throw e r' ↦ throw e (record c { repair_manager = some r' })
              ]))
      go (ok b r') = a
      go (throw e r') = a

  pub acknowledge_all-After :
      (es : List HistoryEntry) (c : Channel) → After ts t c → After ts t (acknowledge_all es c)
  unfolding acknowledge_all
  acknowledge_all-After [] c a = a
  acknowledge_all-After (e ∷ es) c a = acknowledge_all-After es (acknowledge e.message_id c) a

  pub advance_clock-After :
      (m : Message) (c : Channel) → After ts t c → After ts t (advance_clock m c)
  unfolding advance_clock
  advance_clock-After m c a = elim (Bool-cases (ltb c.lamport_timestamp (timestamp_of m))) [
    | inl ahead ↦ rw ahead (a.0, ground arith)
    | inr behind ↦ rw behind a
  ]

  pub as_delivered-After :
      (o : Outcome Channel (Unit {0}))
      → After ts t (state_of o)
      → After ts t (state_of (as_delivered o))
  as_delivered-After (ok b c) a = a
  as_delivered-After (throw e c) a = a

  pub announce-After :
      (m : Message) (o : Outcome Channel Bool)
      → After ts t (state_of o)
      → After ts t (state_of (announce m o))
  announce-After m (ok true c) a = a
  announce-After m (ok false c) a = a
  announce-After m (throw e c) a = a

  pub mark_repaired-After :
      (m : Message) (c : Channel) → After ts t c → After ts t (mark_repaired m c)
  unfolding mark_repaired
  mark_repaired-After m c a = elim (Option-cases c.repair_manager) [
    | inl off ↦ rw off a
    | inr (r, on) ↦ rw on a
  ]

  module _ ⦃platform : Platform⦄ where
    pub insert_filter-After :
        (id : String) (c : Channel) → After ts t c → After ts t (state_of (insert_filter id c))
    unfolding insert_filter
    insert_filter-After id c a = elim (Option-cases (Bloom.insert c.filter id)) [
      | inl e ↦ rw (e, insert_filter) a
      | inr (f, e) ↦ rw (e, insert_filter) a
    ]

    keep-After :
        (m : Message) (o : Outcome Channel (List Message))
        → After ts t (state_of o)
        → After ts t (
            state_of (
              let x : Outcome Channel (List Message) = elim o [
                | ok kept c' ↦ ok (m ∷ kept) c'
                | throw e c' ↦ throw e c'
              ] in
              x))
    keep-After m (ok kept c) a = a
    keep-After m (throw e c) a = a

    review_possible-After :
        (f : BloomFilter) (ms : List Message) (c : Channel)
        → After ts t c
        → After ts t (state_of (review_possible f ms c))
    unfolding review_possible
    review_possible-After f [] c a = a
    review_possible-After f (m ∷ ms) c a =
        let count = count_of (lookup m.message_id c.possible_acks) + 1 in
        elim (Option-cases (Bloom.lookup f m.message_id)) [
          | inl unknown ↦ rw (unknown, review_possible) a
          | inr (false, absent) ↦
              rw (absent, review_possible)
                (keep-After m (review_possible f ms c) (review_possible-After f ms c a))
          | inr (true, present) ↦ elim (Bool-cases (ltb count c.possible_acks_threshold)) [
            | inl few ↦
                rw (present, review_possible)
                  (rw few (
                    keep-After m (review_possible f ms (count_ack m.message_id count c))
                      (review_possible-After f ms (count_ack m.message_id count c) a)))
            | inr many ↦
                rw (present, review_possible)
                  (rw many (review_possible-After f ms (end_ack m.message_id c) a))
          ]
        ]

    pub review_bloom_filter-After :
        (bytes : Option (List ℕ)) (c : Channel)
        → After ts t c
        → After ts t (state_of (review_bloom_filter bytes c))
    unfolding review_bloom_filter
    review_bloom_filter-After none c a = a
    review_bloom_filter-After (some bytes) c a =
        elim (Option-cases (Bloom.from_bytes bytes default_bloom_filter_options)) [
          | inl short ↦ rw (short, review_bloom_filter) a
          | inr (f, read) ↦
              rw (read, review_bloom_filter)
                (done (review_possible f c.outgoing_buffer c)
                  (review_possible-After f c.outgoing_buffer c a))
        ]
      where
        done :
            (o : Outcome Channel (List Message))
            → After ts t (state_of o)
            → After ts t (
                state_of {S = Channel} {A = Unit {0}} (elim o [
                  | ok kept c' ↦ ok tt (record c' { outgoing_buffer = kept })
                  | throw e c' ↦ throw e c'
                ]))
        done (ok kept c') b = b
        done (throw e c') b = b

    pub note_filter-After :
        (m : Message) (c : Channel) → After ts t c → After ts t (state_of (note_filter m c))
    unfolding note_filter
    note_filter-After m c a = elim (Bool-cases (is_content_message m)) [
      | inl e ↦ rw e (insert_filter-After m.message_id c a)
      | inr e ↦ rw e a
    ]

    pub take_requests-After :
        (m : Message) (rs : List HistoryEntry) (now : ℕ) (c : Channel)
        → After ts t c
        → After ts t (state_of (take_requests m rs now c))
    unfolding take_requests
    take_requests-After m [] now c a = a
    take_requests-After m (r ∷ rs) now c a =
        on_manager-After (Manager.process_incoming_repair_requests (r ∷ rs) c.local_history now)
          c.repair_manager _ a
