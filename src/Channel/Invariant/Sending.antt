-- ===== src/Channel/Invariant/Sending.antt =====
-- Sending keeps the invariant: both halves of a send, and a sync message.
use logos_messaging_js.Prelude.{
  ℕ, ◌≡◌, refl, Bool, ◌&&◌, Option, none, some, List, [], ◌∷◌, ◌++◌, String, find, arith,
  Option-cases, Bool-cases, inl, inr, length, ◌==◌, All,
}
use logos_messaging_js.Prelude.Effects.{
  Outcome, ok, throw, state_of, Ensures, Ensures-state, state-then, modify, ◌>>◌, Eff,
}
use logos_messaging_js.Prelude.Maps.{insert}
use logos_messaging_js.Prelude.Sorting.{All-append}
use logos_messaging_js.Platform.{Platform}
use logos_messaging_js.Message.{Message, HistoryEntry, is_content_message}
use logos_messaging_js.History.{Lodash, has_id}
use logos_messaging_js.Repair.Manager
use logos_messaging_js.Repair.Manager.{RepairManager}
use logos_messaging_js.Repair.Manager.Validity.{get_repair_requests-IsValid}
use logos_messaging_js.Channel.{
  Channel, Reply, rejected, resolved, emit, out_message_sent, insert_filter, push_history,
}
use logos_messaging_js.Channel.Sending.{
  tick, take_repair_requests, new_message, get_message_id, begin_send, set_hint, finish_send,
  begin_sync,
}
use logos_messaging_js.Channel.Sending.Clock.{increment_later}
use logos_messaging_js.Channel.Sending.Hints.{set_hint-All, set_hint-IsValid}
use logos_messaging_js.Channel.Invariant.{IsSound, IsValidRepair, IsClocked, InFilter, IsValid}
use logos_messaging_js.Channel.Invariant.Parts.{insert_filter_lem, repair-Holds}
use logos_messaging_js.Channel.Invariant.Acking.{outgoing-Holds}
use logos_messaging_js.Channel.Invariant.Delivering.{clock-Holds, push_history-IsValid}

All-find :
    (P : Message → Type 0) (p : Message → Bool) (xs : List Message) {m : Message}
    → All P xs
    → find p xs ≡ some m
    → P m
All-find P p [] h e = absurd (ground arith)
All-find P p (x ∷ xs) {m} h e = elim (Bool-cases (p x)) [
  | inl hit ↦ let same : x ≡ m = ground arith in rw (← same) h.0
  | inr miss ↦ All-find P p xs h.1 (ground arith)
]

module _ ⦃platform : Platform⦄ where
  tick-IsValid : (now : ℕ) (c : Channel) → IsValid c → IsValid (tick now c)
  tick-IsValid now c v = clock-Holds _ (omega (arith, increment_later now c.lamport_timestamp)) v

  -- Taking the repair requests keeps the invariant, the clock and the outgoing buffer.
  take_repair_requests-IsValid :
      (now : ℕ) (c : Channel)
      → IsValid c
      → IsValid (take_repair_requests now c).1
        × ((take_repair_requests now c).1.lamport_timestamp ≡ c.lamport_timestamp)
  unfolding take_repair_requests
  take_repair_requests-IsValid now c v = go c.repair_manager v.repair_valid
    where
      go :
          (o : Option RepairManager)
          → IsValidRepair o
          → (let x : List HistoryEntry × Channel = elim o [
            | none ↦ ([], c)
            | some r ↦
                let (requests, r') = Manager.get_repair_requests 3 now r in
                (requests, record c { repair_manager = some r' })
          ] in
              IsValid x.1 × (x.1.lamport_timestamp ≡ c.lamport_timestamp))
      go none w = (v, refl)
      go (some r) w = (repair-Holds _ (get_repair_requests-IsValid 3 now r w) v, refl)

  abbrev pub Begun : Outcome Channel Message → Type 0
  Begun (ok m c) = IsValid c × IsClocked c.lamport_timestamp m
  Begun (throw e c) = IsValid c

  -- The first half of a send keeps the invariant, and its message is not ahead of the clock.
  pub begin_send-Begun :
      (payload : List ℕ) (now : ℕ) (c : Channel) → IsValid c → Begun (begin_send payload now c)
  unfolding begin_send new_message
  begin_send-Begun payload now c v =
      elim (Option-cases (find (has_id (get_message_id payload)) c.outgoing_buffer)) [
        | inr (m, found) ↦
            let w = tick-IsValid now c v in
            rw (found, begin_send)
              (
                w,
                All-find (IsClocked (tick now c).lamport_timestamp) _ c.outgoing_buffer
                    w.outgoing_clocked found,
              )
        | inl free ↦
            let w = take_repair_requests-IsValid now (tick now c) (tick-IsValid now c v) in
            elim (Bool-cases (length payload == 0)) [
              | inl empty ↦ rw (free, begin_send) (rw empty w.0)
              | inr full ↦
                  let c₂ = (take_repair_requests now (tick now c)).1 in
                  let m =
                    new_message (get_message_id payload) (some payload)
                      (take_repair_requests now (tick now c)).0 c₂ in
                  let clocked : IsClocked c₂.lamport_timestamp m = omega arith in
                  rw (free, begin_send)
                    (rw full (
                      outgoing-Holds (c₂.outgoing_buffer ++ m ∷ [])
                          (All-append (IsClocked c₂.lamport_timestamp) c₂.outgoing_buffer (m ∷ [])
                            w.0.outgoing_clocked (clocked, tt))
                          w.0,
                      clocked,
                    ))
            ]
      ]

  pub begin_sync-IsValid :
      (random : String) (now : ℕ) (c : Channel) → IsValid c → IsValid (begin_sync random now c).1
  unfolding begin_sync
  begin_sync-IsValid random now c v =
      (take_repair_requests-IsValid now (tick now c) (tick-IsValid now c v)).0

  -- The hint of a message, wherever the message stands.
  hinted-IsValid :
      (m : Message) (hint : Option (List ℕ)) (c : Channel)
      → IsValid c
      → (let h = c.local_history in
          IsValid (record c {
            outgoing_buffer = set_hint m hint c.outgoing_buffer;
            local_history = record h { items = set_hint m hint h.items };
          }))
  hinted-IsValid m hint c v = record {
    ordered = set_hint-IsValid m hint c.local_history v.ordered;
    clocked =
        set_hint-All m hint (IsClocked c.lamport_timestamp) (λ x h. h) c.local_history.items
          v.clocked;
    outgoing_clocked =
        set_hint-All m hint (IsClocked c.lamport_timestamp) (λ x h. h) c.outgoing_buffer
          v.outgoing_clocked;
    built = v.built;
    filtered = set_hint-All m hint (InFilter c.filter) (λ x h. h) c.local_history.items v.filtered;
    noted = v.noted;
    repair_valid = v.repair_valid;
  }

module _ ⦃platform : Platform⦄ ⦃lodash : Lodash⦄ (sound : IsSound platform lodash) where
  abbrev Noted : Message → Channel → Type 0
  Noted m c = IsValid c × IsClocked c.lamport_timestamp m × InFilter c.filter m

  insert_filter-Ensures :
      (m : Message) (c : Channel)
      → IsClocked c.lamport_timestamp m
      → IsValid c
      → Ensures (Noted m) IsValid (insert_filter m.message_id c)
  insert_filter-Ensures m c clocked v =
      let (g, e, w, noted) = insert_filter_lem sound m.message_id c v in rw e (w, clocked, noted)

  -- The second half keeps it too, however the callback ends.
  pub finish_send-IsValid :
      (m : Message) (reply : Option Reply) (c : Channel)
      → IsClocked c.lamport_timestamp m
      → IsValid c
      → IsValid (state_of (finish_send m reply c))
  unfolding finish_send
  finish_send-IsValid m none c clocked v = v
  finish_send-IsValid m (some rejected) c clocked v = v
  finish_send-IsValid m (some (resolved success hint now)) c clocked v =
      elim (Bool-cases (success && is_content_message m)) [
        | inr failed ↦ rw failed v
        | inl sent ↦
            let m' = record m { retrieval_hint = hint } in
            let h = c.local_history in
            let c₁ = record c {
              outgoing_buffer = set_hint m hint c.outgoing_buffer;
              local_history = record h { items = set_hint m hint h.items };
            } in
            let rest : Eff Channel (Unit {0}) =
              modify (λ c. record c { time_received = insert m.message_id now c.time_received })
              >> modify (emit (out_message_sent m')) in
            rw sent (
              state-then (Noted m) IsValid (insert_filter m.message_id) (push_history m' >> rest) c₁
                (insert_filter-Ensures m c₁ clocked (hinted-IsValid m hint c v))
                (λ c₂ w.
                  state-then IsValid IsValid (push_history m') rest c₂
                    (Ensures-state IsValid (push_history m' c₂)
                      (push_history-IsValid sound m' c₂ w.1 w.2 w.0))
                    (λ c₃ u. u)))
      ]
