-- ===== src/Tests/Repairs.antt =====
-- The repair buffers with a few entries, and a repair manager with them.
use logos_messaging_js.Prelude.{
  ℕ, ◌≡◌, ◌≢◌, ◌↔◌, refl, Bool, true, false, not, ◌&&◌, none, ◌-◌, ◌⊎◌, List, [], ◌∷◌, ◌++◌, String,
  arith, any, map, filter, take, drop, ◌===◌, ===_iff,
}
use logos_messaging_js.Prelude.Effects.{ok, state_of, returned}
use logos_messaging_js.History.{LocalHistory}
use logos_messaging_js.Repair.Buffer.{has, add}
use logos_messaging_js.Repair.Buffer.Order.{IsValid}
use logos_messaging_js.Repair.Buffer.Inserting.{IsPlaced, add_lem}
use logos_messaging_js.Repair.Outgoing
use logos_messaging_js.Repair.Outgoing.{
  OutgoingBufferEntry, OutgoingRepairBuffer, outgoing_timed, get_eligible,
}
use logos_messaging_js.Repair.Outgoing.Eligible.{due}
use logos_messaging_js.Repair.Outgoing.Requests.{get_eligible_lem}
use logos_messaging_js.Repair.Incoming.{IncomingRepairBuffer, incoming_timed, get_ready}
use logos_messaging_js.Repair.Incoming.Ready.{is_ready, get_ready_lem}
use logos_messaging_js.Repair.Manager.{
  RepairManager, default_repair_config, calculate_t_req, calculate_t_resp,
  process_incoming_repair_requests, get_repair_requests, has_requests_ready,
}
use logos_messaging_js.Repair.Manager.Timing.{calculate_throws_iff}
use logos_messaging_js.Repair.Manager.Validity.{IsValid as IsValidManager}
use logos_messaging_js.Repair.Manager.Answering.{process_incoming_repair_requests_lem}
use logos_messaging_js.Repair.Manager.Readiness.{has_requests_ready_after_sweep}
use logos_messaging_js.Tests.Fixtures.{small_platform, content_message, entry}

abbrev request : String → ℕ → Bool → OutgoingBufferEntry
request id t requested = record { entry = entry id; t_req = t; requested = requested }

-- A full buffer: two repairs are due at 20, one of them requested before.
abbrev outgoing : OutgoingRepairBuffer
outgoing = record {
  items = request "m1" 10 true ∷ request "m2" 20 false ∷ request "m3" 30 false ∷ [];
  max_size = 3;
}

outgoing-IsValid : IsValid outgoing
unfolding ◌===◌
outgoing-IsValid = record {
  sorted = ((refl, (refl, tt)), ((refl, tt), (tt, tt)));
  distinct = (refl, (refl, (refl, tt)));
  bounded = omega arith;
}

abbrev incoming : IncomingRepairBuffer
incoming = record {
  items =
      record { entry = entry "m4"; t_resp = 15 } ∷ record { entry = entry "m5"; t_resp = 25 } ∷ [];
  max_size = 3;
}

incoming-IsValid : IsValid incoming
unfolding ◌===◌
incoming-IsValid = record {
  sorted = ((refl, tt), (tt, tt));
  distinct = (refl, (refl, tt));
  bounded = omega arith;
}

abbrev empty_buffer : OutgoingRepairBuffer
empty_buffer = record { items = []; max_size = 0 }

-- "m3" is dropped, and the new entry comes first.
add_lem_example :
    ((has "m6" outgoing ≡ true) × (add (request "m6" 5 false) outgoing ≡ ok false outgoing))
    ⊎ ((before : List OutgoingBufferEntry) × (after : List OutgoingBufferEntry) × (has "m6" outgoing
          ≡ false)
        × (add (request "m6" 5 false) outgoing
            ≡ ok true (record outgoing { items = before ++ request "m6" 5 false ∷ after }))
        × IsPlaced (request "m6" 5 false) (take (3 - 1) outgoing.items) before after)
add_lem_example = add_lem (request "m6" 5 false) outgoing (omega arith) outgoing-IsValid

get_eligible_lem_example :
    ((get_eligible 20 2 outgoing).0 ≡ take 2 (due 20 outgoing.items))
    × (due 20 (get_eligible 20 2 outgoing).1.items ≡ drop 2 (due 20 outgoing.items))
    × IsValid (get_eligible 20 2 outgoing).1
    × ((id : String) → Outgoing.has id (get_eligible 20 2 outgoing).1 ≡ Outgoing.has id outgoing)
get_eligible_lem_example = get_eligible_lem 20 2 outgoing outgoing-IsValid

get_ready_lem_example :
    ((get_ready 20 incoming).0 ≡ map (λ i. i.entry) (filter (is_ready 20) incoming.items))
    × ((get_ready 20 incoming).1.items ≡ filter (λ i. not (is_ready 20 i)) incoming.items)
    × IsValid (get_ready 20 incoming).1
get_ready_lem_example = get_ready_lem 20 incoming incoming-IsValid

abbrev manager : RepairManager
manager = record {
  participant_id = "bob";
  config = default_repair_config;
  outgoing_buffer = outgoing;
  incoming_buffer = incoming;
}

manager-IsValid : IsValidManager manager
manager-IsValid = record {
  outgoing = outgoing-IsValid;
  incoming = incoming-IsValid;
  outgoing_room = omega arith;
  incoming_room = omega arith;
}

calculate_throws_iff_example :
    ((calculate_t_req manager "m7" 1000 ≡ none) ↔ (manager.config.t_min ≡ manager.config.t_max))
    × ((calculate_t_resp manager "alice" "m7" 1000 ≡ none) ↔ (manager.config.t_max ≡ 0))
calculate_throws_iff_example = calculate_throws_iff manager "m7" 1000 "alice"

abbrev alice : String
alice = "alice"

alice_named : alice ≢ ""
unfolding ◌===◌
alice_named e =
    let same : (alice === "") ≡ true = (===_iff alice "").1 e in absurd (ground (arith, same))

abbrev history : LocalHistory
history = record { items = content_message "m1" 5 [] ∷ []; max_length = 3 }

process_incoming_repair_requests_lem_example :
    (returned (process_incoming_repair_requests (entry "m1" ∷ []) history 1000 manager) ≡ true)
    × (Outgoing.has "m1"
          (state_of (
            process_incoming_repair_requests
              (entry "m1" ∷ [])
              history
              1000
              manager)).outgoing_buffer
        ≡ (Outgoing.has "m1" outgoing && not (any (λ r. "m1" === r.message_id) (entry "m1" ∷ []))))
process_incoming_repair_requests_lem_example =
    process_incoming_repair_requests_lem (entry "m1" ∷ []) history 1000 manager "m1" manager-IsValid
      (λ e. omega (arith, e))

has_requests_ready_after_sweep_example :
    let m' = (get_repair_requests 3 20 manager).1 in
    ((get_repair_requests 5 20 m').0 ≡ [])
    × (has_requests_ready 20 m' ≡ has_requests_ready 20 manager)
has_requests_ready_after_sweep_example =
    has_requests_ready_after_sweep 20 3 5 manager manager-IsValid (omega arith)
