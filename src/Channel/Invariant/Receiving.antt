-- ===== src/Channel/Invariant/Receiving.antt =====
-- Receiving a message keeps the invariant.
use logos_messaging_js.Prelude.{
  ℕ, inl, inr, refl, Option, none, some, List, [], ◌∷◌, ◌++◌, All, Bool-cases,
}
use logos_messaging_js.Prelude.Sorting.{All-append}
use logos_messaging_js.Prelude.Effects.{
  state_of, Ensures, Ensures-state, then-Ensures, state-then, modify,
}
use logos_messaging_js.Prelude.Maps.{insert}
use logos_messaging_js.Platform.{Platform}
use logos_messaging_js.Message.{Message, HistoryEntry, is_content_message}
use logos_messaging_js.History.{LocalHistory, Lodash}
use logos_messaging_js.Bloom.{BloomFilter}
use logos_messaging_js.Repair.Manager
use logos_messaging_js.Repair.Manager.{RepairManager}
use logos_messaging_js.Repair.Manager.Validity.{
  mark_message_received-IsValid, mark_dependencies_missing-IsValid,
}
use logos_messaging_js.Repair.Manager.Answering.{process_incoming_repair_requests-IsValid}
use logos_messaging_js.Channel.{Channel, emit, on_repair, in_message_missing, missing_dependencies}
use logos_messaging_js.Channel.Acks.{review_ack_status}
use logos_messaging_js.Channel.Receiving.{
  is_ignored, note_received, review_message, mark_repaired, take_requests, note_filter, settle,
  push_incoming_message,
}
use logos_messaging_js.Channel.Invariant.{IsSound, IsValidRepair, IsNoted, Holds, IsValid}
use logos_messaging_js.Channel.Invariant.Parts.{insert_filter_lem, repair-Holds, on_repair-IsValid}
use logos_messaging_js.Channel.Invariant.Acking.{review_ack_status-IsValid}
use logos_messaging_js.Channel.Invariant.Delivering.{deliver_and_emit-IsValid}

module _ ⦃platform : Platform⦄ where
  -- Another incoming buffer.
  pub incoming-Holds :
      {h : LocalHistory} {t : ℕ} {out inc : List Message} {f : BloomFilter}
      {r : Option RepairManager} (inc' : List Message)
      → All (IsNoted f) inc'
      → Holds h t out f inc r
      → Holds h t out f inc' r
  incoming-Holds inc' noted v = record {
    ordered = v.ordered;
    clocked = v.clocked;
    outgoing_clocked = v.outgoing_clocked;
    built = v.built;
    filtered = v.filtered;
    noted = noted;
    repair_valid = v.repair_valid;
  }

  mark_repaired-IsValid : (m : Message) (c : Channel) → IsValid c → IsValid (mark_repaired m c)
  unfolding mark_repaired
  mark_repaired-IsValid m c v = go c.repair_manager v.repair_valid
    where
      go :
          (r : Option RepairManager)
          → IsValidRepair r
          → IsValid (elim r [
            | none ↦ c
            | some r ↦ record c {
              repair_manager = some (Manager.mark_message_received m.message_id r);
            }
          ])
      go none w = v
      go (some r) w = repair-Holds _ (mark_message_received-IsValid m.message_id r w) v

  take_requests-IsValid :
      (m : Message) (rs : List HistoryEntry) (now : ℕ) (c : Channel)
      → IsValid c
      → IsValid (state_of (take_requests m rs now c))
  unfolding take_requests
  take_requests-IsValid m [] now c v = v
  take_requests-IsValid m (r ∷ rs) now c v =
      on_repair-IsValid (Manager.process_incoming_repair_requests (r ∷ rs) c.local_history now) _
        (process_incoming_repair_requests-IsValid (r ∷ rs) c.local_history now) v

module _ ⦃platform : Platform⦄ ⦃lodash : Lodash⦄ (sound : IsSound platform lodash) where
  -- A message that is not ignored is noted in the filter, if it has content.
  note_filter-Ensures :
      (m : Message) (c : Channel)
      → IsValid c
      → Ensures (λ c'. IsValid c' × IsNoted c'.filter m) IsValid (note_filter m c)
  unfolding note_filter
  note_filter-Ensures m c v = elim (Bool-cases (is_content_message m)) [
    | inr other ↦ rw (other, note_filter) (v, inl refl)
    | inl content ↦
        let (g, e, w, noted) = insert_filter_lem sound m.message_id c v in
        rw (content, e) (w, inr noted)
  ]

  settle-IsValid :
      (m : Message) (ds : List HistoryEntry) (now : ℕ) (c : Channel)
      → IsNoted c.filter m
      → IsValid c
      → IsValid (state_of (settle m ds now c))
  unfolding settle
  settle-IsValid m [] now c noted v = deliver noted
    where
      deliver : IsNoted c.filter m → IsValid (state_of (settle m [] now c))
      deliver (inl other) = rw other v
      deliver (inr noted) = elim (Bool-cases (is_content_message m)) [
        | inr other ↦ rw other v
        | inl content ↦ rw content (deliver_and_emit-IsValid sound m c noted v)
      ]
  settle-IsValid m (d ∷ ds) now c noted v =
      let waiting = record c {
        incoming_buffer = c.incoming_buffer ++ m ∷ [];
        time_received = insert m.message_id now c.time_received;
      } in
      state-then IsValid IsValid (on_repair (Manager.mark_dependencies_missing (d ∷ ds) now))
        (modify (emit (in_message_missing (d ∷ ds)))) waiting
        (Ensures-state IsValid (on_repair (Manager.mark_dependencies_missing (d ∷ ds) now) waiting)
          (on_repair-IsValid (Manager.mark_dependencies_missing (d ∷ ds) now) waiting
            (mark_dependencies_missing-IsValid (d ∷ ds) now)
            (incoming-Holds (c.incoming_buffer ++ m ∷ [])
              (All-append (IsNoted c.filter) c.incoming_buffer (m ∷ []) v.noted (noted, tt)) v)))
        (λ c' w. w)

  review_message-Ensures :
      (m : Message) (now : ℕ) (c : Channel)
      → IsValid c
      → Ensures (λ c'. IsValid c' × IsNoted c'.filter m) IsValid (review_message m now c)
  unfolding review_message note_received
  review_message-Ensures m now c v =
      let start = mark_repaired m (note_received m c) in
      let Noted : Channel → Type 0 = λ c'. IsValid c' × IsNoted c'.filter m in
      then-Ensures IsValid Noted IsValid (take_requests m m.repair_request now) _ start
        (Ensures-state IsValid (take_requests m m.repair_request now start) (
          take_requests-IsValid m m.repair_request now start
            (mark_repaired-IsValid m (note_received m c) v)))
        (λ c₁ v₁.
          then-Ensures IsValid Noted IsValid (review_ack_status m) (note_filter m) c₁
            (Ensures-state IsValid (review_ack_status m c₁) (review_ack_status-IsValid m c₁ v₁))
            (note_filter-Ensures m))

  -- Whatever arrives, and whether its handling returns or throws, the invariant is kept.
  pub push_incoming_message-IsValid :
      (m : Message) (now : ℕ) (c : Channel)
      → IsValid c
      → IsValid (state_of (push_incoming_message m now c))
  unfolding push_incoming_message
  push_incoming_message-IsValid m now c v = elim (Bool-cases (is_ignored m c)) [
    | inl ignored ↦ rw ignored v
    | inr taken ↦ rw taken (
        state-then (λ c'. IsValid c' × IsNoted c'.filter m) IsValid (review_message m now)
          (λ c'. settle m (missing_dependencies m c') now c') c (review_message-Ensures m now c v)
          (λ c' w. settle-IsValid m (missing_dependencies m c') now c' w.1 w.0))
  ]
