-- ===== src/Channel/Receiving/Guards.antt =====
-- The messages that leave a channel as it is.
use logos_messaging_js.Prelude.{
  ℕ, ◌≡◌, refl, true, Option, none, some, List, [], ◌∷◌, ◌++◌, String, arith, ===_refl,
}
use logos_messaging_js.Prelude.Effects.{
  Outcome, ok, throw, state_of, Eff, Ensures-state, state-then, modify,
}
use logos_messaging_js.Prelude.Maps.{insert, contains, lookup-insert}
use logos_messaging_js.Platform.{Platform}
use logos_messaging_js.Message.{Message, HistoryEntry, has_content}
use logos_messaging_js.History.{Lodash}
use logos_messaging_js.Repair.Manager
use logos_messaging_js.Repair.Manager.{RepairManager}
use logos_messaging_js.Channel.{Channel, on_manager, on_repair, emit, in_message_missing}
use logos_messaging_js.Channel.Receiving.{is_ignored, settle, push_incoming_message}

on_manager-Received :
    (id : String) (f : Eff RepairManager (Unit {0})) (r : Option RepairManager) (c : Channel)
    → contains id c.time_received ≡ true
    → contains id (state_of (on_manager f r c)).time_received ≡ true
on_manager-Received id f none c h = h
on_manager-Received id f (some r) c h = go (f r)
  where
    go :
        (o : Outcome RepairManager (Unit {0}))
        → contains id
            (state_of {S = Channel} {A = Unit {0}} (elim o [
              | ok a r' ↦ ok tt (record c { repair_manager = some r' })
              | throw e r' ↦ throw e (record c { repair_manager = some r' })
            ])).time_received
          ≡ true
    go (ok a r') = h
    go (throw e r') = h

module _ ⦃platform : Platform⦄ ⦃lodash : Lodash⦄ where
  settle-Received :
      (m : Message) (d : HistoryEntry) (ds : List HistoryEntry) (now : ℕ) (c : Channel)
      → contains m.message_id (state_of (settle m (d ∷ ds) now c)).time_received ≡ true
  unfolding settle
  settle-Received m d ds now c =
      let Received : Channel → Type 0 = λ c'. contains m.message_id c'.time_received ≡ true in
      let waiting = record c {
        incoming_buffer = c.incoming_buffer ++ m ∷ [];
        time_received = insert m.message_id now c.time_received;
      } in
      let first : Received waiting =
        rw (lookup-insert m.message_id m.message_id now c.time_received, ===_refl m.message_id)
          refl in
      let mark = on_repair (Manager.mark_dependencies_missing (d ∷ ds) now) in
      state-then Received Received mark (modify (emit (in_message_missing (d ∷ ds)))) waiting
        (Ensures-state Received (mark waiting)
          (on_manager-Received m.message_id _ c.repair_manager waiting first))
        (λ c' w. w)

  -- A message with content that waits in the incoming buffer for dependencies is ignored when it
  -- arrives again: the state and the events stay as they are.
  pub settle_again :
      (m : Message) (d : HistoryEntry) (ds : List HistoryEntry) (now later : ℕ) (c : Channel)
      → has_content m.content ≡ true
      → push_incoming_message m later (state_of (settle m (d ∷ ds) now c))
        ≡ ok tt (state_of (settle m (d ∷ ds) now c))
  unfolding push_incoming_message is_ignored
  settle_again m d ds now later c content =
      let noted = settle-Received m d ds now c in ground (arith, noted, content)
