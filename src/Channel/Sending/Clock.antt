-- ===== src/Channel/Sending/Clock.antt =====
-- `_pushOutgoingMessage` up to the callback: the clock, the message, and what is sent again.
use logos_messaging_js.Prelude.{
  ℕ, ◌≤◌, ◌<◌, ◌≡◌, ◌≢◌, refl, false, Option, none, some, List, [], ◌∷◌, ◌++◌, String, any, find,
  arith, Option-cases, inl, inr, length, ◌==◌, ===_refl, find-append_none, is_some-find, ◌∙◌,
}
use logos_messaging_js.Prelude.Effects.{ok}
use logos_messaging_js.Platform.{Platform}
use logos_messaging_js.Message.{Message, HistoryEntry}
use logos_messaging_js.History.{has_id}
use logos_messaging_js.Repair.Manager
use logos_messaging_js.Repair.Manager.{RepairManager}
use logos_messaging_js.Channel.{Channel, lamport_timestamp_increment}
use logos_messaging_js.Channel.Sending.{
  tick, take_repair_requests, causal_history_of, new_message, get_message_id, begin_send,
}

pub increment_later : (now t : ℕ) → t < lamport_timestamp_increment now t
unfolding lamport_timestamp_increment
increment_later now t = ground arith

pub increment_now : (now t : ℕ) → now ≤ lamport_timestamp_increment now t
unfolding lamport_timestamp_increment
increment_now now t = ground arith

-- Asking the repair manager changes the repair manager alone.
pub take_repair_requests_frame :
    (now : ℕ) (c : Channel)
    → (requests : List HistoryEntry) × (r : Option RepairManager) × (take_repair_requests now c
        ≡ (requests, record c { repair_manager = r }))
unfolding take_repair_requests
take_repair_requests_frame now c = go c.repair_manager
  where
    go :
        (o : Option RepairManager)
        → (requests : List HistoryEntry) × (r : Option RepairManager) × ((let x : List HistoryEntry
                  × Channel =
                elim o [
                  | none ↦ ([], c)
                  | some r ↦
                      let (requests, r') = Manager.get_repair_requests 3 now r in
                      (requests, record c { repair_manager = some r' })
                ] in
              x)
            ≡ (requests, record c { repair_manager = r }))
    go none = ([], c.repair_manager, refl)
    go (some r) = (_, _, refl)

module _ ⦃platform : Platform⦄ (payload : List ℕ) (now : ℕ) (c : Channel) where
  pub begin_send_new :
      length payload ≢ 0
      → any (has_id (get_message_id payload)) c.outgoing_buffer ≡ false
      → (m : Message) × (c' : Channel) × (begin_send payload now c ≡ ok m c')
        × (m.message_id ≡ get_message_id payload)
        × (m.lamport_timestamp ≡ some c'.lamport_timestamp)
        × (c.lamport_timestamp < c'.lamport_timestamp)
        × (now ≤ c'.lamport_timestamp)
        × (c'.outgoing_buffer ≡ c.outgoing_buffer ++ m ∷ [])
        × (m.causal_history ≡ causal_history_of c)
  unfolding begin_send new_message causal_history_of
  begin_send_new content absent =
      let (requests, r, e) = take_repair_requests_frame now (tick now c) in
      let free : find (has_id (get_message_id payload)) c.outgoing_buffer ≡ none =
        ground (arith, is_some-find (has_id (get_message_id payload)) c.outgoing_buffer) in
      let full : (length payload == 0) ≡ false = ground arith in
      let c₂ = record c {
        lamport_timestamp = lamport_timestamp_increment now c.lamport_timestamp;
        repair_manager = r;
      } in
      let m = new_message (get_message_id payload) (some payload) requests c₂ in
      (
        m,
        record c₂ { outgoing_buffer = c.outgoing_buffer ++ m ∷ [] },
        rw (free, e, full, begin_send) refl,
        refl,
        refl,
        increment_later now c.lamport_timestamp,
        increment_now now c.lamport_timestamp,
        refl,
        refl,
      )

  -- A message that is still in the outgoing buffer is sent again as it is: nothing but the clock
  -- changes.
  begin_send_found :
      (m : Message)
      → find (has_id (get_message_id payload)) c.outgoing_buffer ≡ some m
      → begin_send payload now c ≡ ok m (tick now c)
  unfolding begin_send
  begin_send_found m found = rw (found, begin_send) refl

find_last :
    (id : String) (ms : List Message) (m : Message)
    → any (has_id id) ms ≡ false
    → m.message_id ≡ id
    → find (has_id id) (ms ++ m ∷ []) ≡ some m
find_last id ms m absent same =
    find-append_none (has_id id) ms (m ∷ []) absent ∙ rw (same, ===_refl id) refl

module _ ⦃platform : Platform⦄ (payload : List ℕ) (now later : ℕ) (c : Channel) where
  -- Sending content that is not empty returns a message, and sending it once more from the
  -- resulting state returns the very same message and changes nothing but the clock.
  pub begin_send_again :
      length payload ≢ 0
      → (m : Message) × (c' : Channel) × (begin_send payload now c ≡ ok m c')
        × (begin_send payload later c' ≡ ok m (tick later c'))
  begin_send_again content =
      let id = get_message_id payload in
      elim (Option-cases (find (has_id id) c.outgoing_buffer)) [
        | inr (m, found) ↦ (
          m,
          tick now c,
          begin_send_found payload now c m found,
          begin_send_found payload later (tick now c) m found,
        )
        | inl free ↦
            let absent : any (has_id id) c.outgoing_buffer ≡ false =
              ground (arith, is_some-find (has_id id) c.outgoing_buffer) in
            let (m, c', e, same, _, _, _, buffer, _) =
              begin_send_new payload now c content absent in
            (
              m,
              c',
              e,
              begin_send_found payload later c' m
                  (rw buffer (find_last id c.outgoing_buffer m absent same)),
            )
      ]
