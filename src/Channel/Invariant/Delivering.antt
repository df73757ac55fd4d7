-- ===== src/Channel/Invariant/Delivering.antt =====
-- Delivering a message keeps the invariant.
use logos_messaging_js.Prelude.{
  ℕ, ◌≤◌, inl, inr, Bool, true, false, Option, List, [], ◌∷◌, arith, Bool-cases, ltb,
}
use logos_messaging_js.Prelude.Sorting.{All-imp}
use logos_messaging_js.Prelude.Effects.{Outcome, ok, throw, state_of}
use logos_messaging_js.Platform.{Platform}
use logos_messaging_js.Message.{Message, is_content_message}
use logos_messaging_js.History
use logos_messaging_js.History.{LocalHistory, Lodash}
use logos_messaging_js.History.Pushing.{push-IsValid, All-push}
use logos_messaging_js.Bloom.{BloomFilter}
use logos_messaging_js.Repair.Manager.{RepairManager}
use logos_messaging_js.Channel.{
  Channel, timestamp_of, push_history, as_delivered, announce, advance_clock, deliver_message,
  deliver_and_emit,
}
use logos_messaging_js.Channel.Invariant.{IsSound, IsClocked, InFilter, Holds, IsValid}

IsClocked-mono : (t u : ℕ) → t ≤ u → (m : Message) → IsClocked t m → IsClocked u m
IsClocked-mono t u le m k = omega arith

module _ ⦃platform : Platform⦄ where
  -- A later clock.
  pub clock-Holds :
      {h : LocalHistory} {t : ℕ} {out inc : List Message} {f : BloomFilter}
      {r : Option RepairManager} (u : ℕ)
      → t ≤ u
      → Holds h t out f inc r
      → Holds h u out f inc r
  clock-Holds {h} {t} {out} u le v = record {
    ordered = v.ordered;
    clocked = All-imp _ (IsClocked-mono t u le) h.items v.clocked;
    outgoing_clocked = All-imp _ (IsClocked-mono t u le) out v.outgoing_clocked;
    built = v.built;
    filtered = v.filtered;
    noted = v.noted;
    repair_valid = v.repair_valid;
  }

  advance_clock-IsValid :
      (m : Message) (c : Channel)
      → IsValid c
      → IsValid (advance_clock m c) × IsClocked (advance_clock m c).lamport_timestamp m
  unfolding advance_clock
  advance_clock-IsValid m c v = elim (Bool-cases (ltb c.lamport_timestamp (timestamp_of m))) [
    | inl ahead ↦ rw ahead (clock-Holds (timestamp_of m) (ground arith) v, omega arith)
    | inr behind ↦ rw behind (v, ground arith)
  ]

module _ ⦃platform : Platform⦄ where
  as_delivered-IsValid :
      (o : Outcome Channel (Unit {0})) → IsValid (state_of o) → IsValid (state_of (as_delivered o))
  as_delivered-IsValid (ok a c) v = v
  as_delivered-IsValid (throw e c) v = v

  announce-IsValid :
      (m : Message) (o : Outcome Channel Bool)
      → IsValid (state_of o)
      → IsValid (state_of (announce m o))
  announce-IsValid m (ok true c) v = v
  announce-IsValid m (ok false c) v = v
  announce-IsValid m (throw e c) v = v

module _ ⦃platform : Platform⦄ ⦃lodash : Lodash⦄ (sound : IsSound platform lodash) where
  -- A message in the filter and not ahead of the clock goes into the history.
  pushed-Holds :
      {h : LocalHistory} {t : ℕ} {out inc : List Message} {f : BloomFilter}
      {r : Option RepairManager} (m : Message)
      → IsClocked t m
      → InFilter f m
      → Holds h t out f inc r
      → Holds (state_of (History.push (m ∷ []) h)) t out f inc r
  pushed-Holds {h} {t} {out} {inc} {f} m clocked noted v = record {
    ordered = push-IsValid sound.collation sound.uniq (m ∷ []) h v.ordered;
    clocked = All-push sound.collation sound.uniq (IsClocked t) (m ∷ []) h v.clocked (clocked, tt);
    outgoing_clocked = v.outgoing_clocked;
    built = v.built;
    filtered = All-push sound.collation sound.uniq (InFilter f) (m ∷ []) h v.filtered (noted, tt);
    noted = v.noted;
    repair_valid = v.repair_valid;
  }

  pub push_history-IsValid :
      (m : Message) (c : Channel)
      → IsClocked c.lamport_timestamp m
      → InFilter c.filter m
      → IsValid c
      → IsValid (state_of (push_history m c))
  unfolding push_history
  push_history-IsValid m c clocked noted v =
      go (History.push (m ∷ []) c.local_history) (pushed-Holds m clocked noted v)
    where
      go :
          (o : Outcome LocalHistory ℕ)
          → Holds
              (state_of o)
              c.lamport_timestamp
              c.outgoing_buffer
              c.filter
              c.incoming_buffer
              c.repair_manager
          → IsValid (
              state_of {A = Unit {0}} (elim o [
                | ok n h ↦ ok tt (record c { local_history = h })
                | throw e h ↦ throw e (record c { local_history = h })
              ]))
      go (ok n h) w = w
      go (throw e h) w = w

  deliver_message-IsValid :
      (m : Message) (c : Channel)
      → InFilter c.filter m
      → IsValid c
      → IsValid (state_of (deliver_message m c))
  unfolding deliver_message
  deliver_message-IsValid m c noted v = elim (Bool-cases (is_content_message m)) [
    | inr other ↦ rw other v
    | inl content ↦ elim (Bool-cases (History.has m.message_id (advance_clock m c).local_history)) [
      | inl old ↦ rw (content, old) moved.0
      | inr new ↦
          rw (content, new)
            (as_delivered-IsValid (push_history m (advance_clock m c))
              (push_history-IsValid m (advance_clock m c) moved.1 still moved.0))
    ]
  ]
    where
      moved : IsValid (advance_clock m c) × IsClocked (advance_clock m c).lamport_timestamp m
      moved = advance_clock-IsValid m c v

      still : InFilter (advance_clock m c).filter m
      still = elim (Bool-cases (ltb c.lamport_timestamp (timestamp_of m))) [
        | inl ahead ↦ rw ahead noted
        | inr behind ↦ rw behind noted
      ]

  -- Delivering a message that is in the filter keeps the invariant.
  pub deliver_and_emit-IsValid :
      (m : Message) (c : Channel)
      → InFilter c.filter m
      → IsValid c
      → IsValid (state_of (deliver_and_emit m c))
  unfolding deliver_and_emit
  deliver_and_emit-IsValid m c noted v =
      announce-IsValid m (deliver_message m c) (deliver_message-IsValid m c noted v)
