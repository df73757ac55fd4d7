-- ===== src/Repair/Manager/Validity.antt =====
-- The two buffers stay valid under every method of the manager.
use logos_messaging_js.Prelude.{
  ℕ, ◌<◌, ◌≡◌, ◌≢◌, refl, true, some, List, [], ◌∷◌, String, arith, Option-cases, inl, inr,
}
use logos_messaging_js.Prelude.Effects.{state_of, returned, ok_cases}
use logos_messaging_js.Platform.{Platform}
use logos_messaging_js.Message.{HistoryEntry}
use logos_messaging_js.History.{LocalHistory}
use logos_messaging_js.Repair.Buffer.{remove as buffer_remove}
use logos_messaging_js.Repair.Buffer.Order.{IsValid as IsValidBuffer, remove-IsValid}
use logos_messaging_js.Repair.Buffer.Adding.{add-IsValid, max_size-add, returned-add}
use logos_messaging_js.Repair.Outgoing
use logos_messaging_js.Repair.Outgoing.{OutgoingRepairBuffer, outgoing_timed}
use logos_messaging_js.Repair.Outgoing.Requests.{get_eligible_lem}
use logos_messaging_js.Repair.Incoming
use logos_messaging_js.Repair.Incoming.{IncomingRepairBuffer, incoming_timed}
use logos_messaging_js.Repair.Incoming.Ready.{get_ready_lem}
use logos_messaging_js.Repair.Manager.Timing.{calculate_throws_iff}
use logos_messaging_js.Repair.Manager.{
  RepairManager, init, RepairConfig, calculate_t_req, mark_dependencies_missing,
  mark_message_received, get_repair_requests, sweep_incoming_buffer,
}

-- Both buffers are valid, and have room for one entry at least.
pub record IsValid (m : RepairManager) : Type 0 where
  pub outgoing : IsValidBuffer m.outgoing_buffer
  pub incoming : IsValidBuffer m.incoming_buffer
  pub outgoing_room : 0 < m.outgoing_buffer.max_size
  pub incoming_room : 0 < m.incoming_buffer.max_size

pub init-IsValid :
    (id : String) (config : RepairConfig) → 0 < config.buffer_size → IsValid (init id config)
unfolding init Outgoing.init Incoming.init
init-IsValid id config pos = record {
  outgoing = record { sorted = tt; distinct = tt; bounded = omega arith };
  incoming = record { sorted = tt; distinct = tt; bounded = omega arith };
  outgoing_room = pos;
  incoming_room = pos;
}

-- An entry more in the outgoing buffer.
outgoing-add :
    (m : RepairManager) (entry : HistoryEntry) (t : ℕ)
    → IsValid m
    → IsValid (record m { outgoing_buffer = state_of (Outgoing.add entry t m.outgoing_buffer) })
unfolding Outgoing.add
outgoing-add m entry t v = record {
  outgoing = add-IsValid _ m.outgoing_buffer v.outgoing_room v.outgoing;
  incoming = v.incoming;
  outgoing_room = rw (max_size-add _ m.outgoing_buffer) v.outgoing_room;
  incoming_room = v.incoming_room;
}

pub incoming-add :
    (m : RepairManager) (entry : HistoryEntry) (t : ℕ)
    → IsValid m
    → IsValid (record m { incoming_buffer = state_of (Incoming.add entry t m.incoming_buffer) })
unfolding Incoming.add
incoming-add m entry t v = record {
  outgoing = v.outgoing;
  incoming = add-IsValid _ m.incoming_buffer v.incoming_room v.incoming;
  outgoing_room = v.outgoing_room;
  incoming_room = rw (max_size-add _ m.incoming_buffer) v.incoming_room;
}

returned-outgoing :
    (m : RepairManager) (entry : HistoryEntry) (t : ℕ)
    → IsValid m
    → returned (Outgoing.add entry t m.outgoing_buffer) ≡ true
unfolding Outgoing.add
returned-outgoing m entry t v = returned-add _ m.outgoing_buffer v.outgoing_room v.outgoing

pub returned-incoming :
    (m : RepairManager) (entry : HistoryEntry) (t : ℕ)
    → IsValid m
    → returned (Incoming.add entry t m.incoming_buffer) ≡ true
unfolding Incoming.add
returned-incoming m entry t v = returned-add _ m.incoming_buffer v.incoming_room v.incoming

pub outgoing-remove :
    (m : RepairManager) (id : String)
    → IsValid m
    → IsValid (record m { outgoing_buffer = Outgoing.remove id m.outgoing_buffer })
unfolding Outgoing.remove buffer_remove
outgoing-remove m id v = record {
  outgoing = remove-IsValid id m.outgoing_buffer v.outgoing;
  incoming = v.incoming;
  outgoing_room = v.outgoing_room;
  incoming_room = v.incoming_room;
}

module _ ⦃platform : Platform⦄ where
  -- One round of the loop, when the time of the request is defined.
  mark_next :
      (e : HistoryEntry) (entries : List HistoryEntry) (now t : ℕ) (m : RepairManager)
      → IsValid m
      → calculate_t_req m e.message_id now ≡ some t
      → mark_dependencies_missing (e ∷ entries) now m
        ≡ mark_dependencies_missing entries now
            (record m { outgoing_buffer = state_of (Outgoing.add e t m.outgoing_buffer) })
  unfolding mark_dependencies_missing
  mark_next e entries now t m v some_t =
      let (added, o) = ok_cases (Outgoing.add e t m.outgoing_buffer) (returned-outgoing m e t v) in
      ground (arith, some_t, o)

  -- Whether it returns or throws, `markDependenciesMissing` leaves valid buffers.
  pub mark_dependencies_missing-IsValid :
      (entries : List HistoryEntry) (now : ℕ) (m : RepairManager)
      → IsValid m
      → IsValid (state_of (mark_dependencies_missing entries now m))
  unfolding mark_dependencies_missing
  mark_dependencies_missing-IsValid [] now m v = v
  mark_dependencies_missing-IsValid (e ∷ entries) now m v =
      elim (Option-cases (calculate_t_req m e.message_id now)) [
        | inl none_t ↦ rw (none_t, mark_dependencies_missing) v
        | inr (t, some_t) ↦
            rw (mark_next e entries now t m v some_t)
              (mark_dependencies_missing-IsValid entries now _ (outgoing-add m e t v))
      ]

  -- On valid buffers and with t_min different from t_max, marking dependencies missing returns and
  -- does not throw.
  pub mark_dependencies_missing_returns :
      (entries : List HistoryEntry) (now : ℕ) (m : RepairManager)
      → IsValid m
      → m.config.t_min ≢ m.config.t_max
      → returned (mark_dependencies_missing entries now m) ≡ true
  unfolding mark_dependencies_missing
  mark_dependencies_missing_returns [] now m v window = refl
  mark_dependencies_missing_returns (e ∷ entries) now m v window =
      elim (Option-cases (calculate_t_req m e.message_id now)) [
        | inl none_t ↦ absurd (window ((calculate_throws_iff m e.message_id now "").0.0 none_t))
        | inr (t, some_t) ↦
            rw (mark_next e entries now t m v some_t)
              (mark_dependencies_missing_returns entries now _ (outgoing-add m e t v) window)
      ]

-- The methods that cannot throw keep valid buffers.
pub mark_message_received-IsValid :
    (id : String) (m : RepairManager) → IsValid m → IsValid (mark_message_received id m)
unfolding mark_message_received Outgoing.remove Incoming.remove buffer_remove
mark_message_received-IsValid id m v = ground (
  arith,
  remove-IsValid id m.outgoing_buffer v.outgoing,
  remove-IsValid id m.incoming_buffer v.incoming,
)

pub get_repair_requests-IsValid :
    (max_requests now : ℕ) (m : RepairManager)
    → IsValid m
    → IsValid (get_repair_requests max_requests now m).1
unfolding get_repair_requests Outgoing.get_eligible
get_repair_requests-IsValid max_requests now m v = record {
  outgoing = (get_eligible_lem now max_requests m.outgoing_buffer v.outgoing).2;
  incoming = v.incoming;
  outgoing_room = v.outgoing_room;
  incoming_room = v.incoming_room;
}

pub sweep_incoming_buffer-IsValid :
    (history : LocalHistory) (now : ℕ) (m : RepairManager)
    → IsValid m
    → IsValid (sweep_incoming_buffer history now m).1
unfolding sweep_incoming_buffer Incoming.get_ready
sweep_incoming_buffer-IsValid history now m v = record {
  outgoing = v.outgoing;
  incoming = (get_ready_lem now m.incoming_buffer v.incoming).2;
  outgoing_room = v.outgoing_room;
  incoming_room = v.incoming_room;
}
