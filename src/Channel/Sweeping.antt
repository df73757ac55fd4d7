-- ===== src/Channel/Sweeping.antt =====
-- The sweeps: messages that wait for dependencies, own messages that wait for acknowledgement, and
-- repairs that are due.
pub mod Outgoing
use logos_messaging_js.Prelude.{
  ℕ, ◌+◌, Bool, true, false, not, ◌&&◌, Option, none, some, List, [], ◌∷◌, ◌++◌, String, map,
  filter, ltb, ◌==◌, if◌then◌else◌,
}
use logos_messaging_js.Prelude.Effects.{Outcome, ok, throw, Eff, ◌>>◌, ◌>>=◌, modify, pure}
use logos_messaging_js.Prelude.Maps.{lookup, contains}
use logos_messaging_js.Platform.{Platform}
use logos_messaging_js.Message.{Message, HistoryEntry, is_content_message}
use logos_messaging_js.History.{Lodash}
use logos_messaging_js.Repair.Manager
use logos_messaging_js.Channel.{
  Channel, Event, Reply, rejected, resolved, in_message_missing, in_message_lost,
  repair_response_sent, emit, missing_dependencies, deliver_and_emit,
}

-- A dependency has been missing for longer than the timeout. A timeout of 0 is none, and a time of
-- reception 0 counts as no time.
unfoldable pub is_timed_out : Option ℕ → Option ℕ → ℕ → Bool
is_timed_out none received now = false
is_timed_out (some timeout) none now = false
is_timed_out (some timeout) (some received) now =
    not (timeout == 0) && (not (received == 0) && ltb (received + timeout) now)

-- A message that stays, and what it misses, go in front of the others.
abbrev pub collect :
    Message
    → List HistoryEntry
    → Bool
    → Outcome Channel (List Message × List HistoryEntry)
    → Outcome Channel (List Message × List HistoryEntry)
collect m missing true (ok (kept, others) c) = ok (m ∷ kept, missing ++ others) c
collect m missing false (ok (kept, others) c) = ok (kept, others) c
collect m missing stays (throw e c) = throw e c

module _ ⦃platform : Platform⦄ ⦃lodash : Lodash⦄ where
  abbrev pub deliver_content : Message → Eff Channel (Unit {0})
  deliver_content m c = if is_content_message m then deliver_and_emit m c else ok tt c

  -- One message of the incoming buffer that misses the given dependencies: whether it stays.
  unfoldable pub sweep_message : Message → List HistoryEntry → ℕ → Eff Channel Bool
  unfolding is_timed_out
  sweep_message m [] now c = (do deliver_content m; pure false) c
  sweep_message m (d ∷ ds) now c =
      if is_timed_out c.timeout_for_lost_messages_ms (lookup m.message_id c.time_received) now
      then (do modify (emit (in_message_lost (d ∷ ds))); deliver_content m; pure false) c
      else ok true c

  -- The messages that stay, and what they miss. The buffer itself is replaced at the end only.
  unfoldable pub sweep_from : List Message → ℕ → Eff Channel (List Message × List HistoryEntry)
  sweep_from [] now c = ok ([], []) c
  sweep_from (m ∷ ms) now c =
      let missing = missing_dependencies m c in
      (sweep_message m missing now >>= (λ stays c'. collect m missing stays (sweep_from ms now c')))
        c

  -- `this.incomingBuffer = buffer`, and the event.
  unfoldable pub finish_sweep : List Message × List HistoryEntry → Eff Channel (List HistoryEntry)
  finish_sweep (kept, missing) c =
      ok missing (emit (in_message_missing missing) (record c { incoming_buffer = kept }))

  unfoldable pub sweep_incoming_buffer : ℕ → Eff Channel (List HistoryEntry)
  unfolding finish_sweep
  sweep_incoming_buffer now c = (sweep_from c.incoming_buffer now >>= finish_sweep) c

-- The events of the rebroadcast repairs, as the callback of each ends.
unfoldable pub repair_events : List (Message × Reply) → List Event
repair_events [] = []
repair_events ((m, rejected) ∷ rs) = repair_events rs
repair_events ((m, resolved success hint t) ∷ rs) =
    repair_response_sent m.message_id ∷ repair_events rs

unfoldable pub sweep_repair_incoming_buffer : ℕ → Channel → List Message × Channel
sweep_repair_incoming_buffer now c = elim c.repair_manager [
  | none ↦ ([], c)
  | some r ↦
      let (messages, r') = Manager.sweep_incoming_buffer c.local_history now r in
      (messages, record c { repair_manager = some r' })
]

unfoldable pub finish_repair_sweep : List (Message × Reply) → Channel → Channel
unfolding repair_events
finish_repair_sweep replies c = record c { events = c.events ++ repair_events replies }

-- The unacknowledged messages, and those that some Bloom filter has acknowledged.
unfoldable pub sweep_outgoing_buffer : Channel → List Message × List Message
sweep_outgoing_buffer c = (
  filter (λ m. not (contains m.message_id c.possible_acks)) c.outgoing_buffer,
  filter (λ m. contains m.message_id c.possible_acks) c.outgoing_buffer,
)
