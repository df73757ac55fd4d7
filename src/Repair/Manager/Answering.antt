-- ===== src/Repair/Manager/Answering.antt =====
-- What the repair requests of others do to the manager.
use logos_messaging_js.Prelude.{
  ℕ, ◌≡◌, ◌≢◌, refl, ap, sym, ◌∙◌, true, not, ◌&&◌, List, [], ◌∷◌, String, arith, Bool-cases,
  Option-cases, inl, inr, any, ◌===◌,
}
use logos_messaging_js.Prelude.Effects.{
  Outcome, ok_cases, ok, throw, state_of, returned, range_error,
}
use logos_messaging_js.Platform.{Platform}
use logos_messaging_js.Message.{HistoryEntry}
use logos_messaging_js.History.{LocalHistory, find_id}
use logos_messaging_js.Repair.Buffer.Order.{has-remove}
use logos_messaging_js.Repair.Outgoing
use logos_messaging_js.Repair.Outgoing.{outgoing_timed}
use logos_messaging_js.Repair.Incoming
use logos_messaging_js.Repair.Incoming.{incoming_timed}
use logos_messaging_js.Repair.Manager.{
  RepairManager, calculate_t_resp, is_in_response_group, process_request,
  process_incoming_repair_requests,
}
use logos_messaging_js.Repair.Manager.Timing.{calculate_throws_iff}
use logos_messaging_js.Repair.Manager.Validity.{
  IsValid, incoming-add, returned-incoming, outgoing-remove,
}

-- The state after one request has been handled: the request leaves the own outgoing buffer, and
-- the incoming buffer is as it was or has an answer more.
data Handled (request : HistoryEntry) (m : RepairManager)
    : Outcome RepairManager (Unit {0}) → Type 0 where
  no_answer :
      {o : Outcome RepairManager (Unit {0})}
      → o
        ≡ ok tt
            (record m { outgoing_buffer = Outgoing.remove request.message_id m.outgoing_buffer })
      → Handled request m o
  answer :
      {o : Outcome RepairManager (Unit {0})} (t : ℕ)
      → o
        ≡ ok tt (record m {
          outgoing_buffer = Outgoing.remove request.message_id m.outgoing_buffer;
          incoming_buffer = state_of (Incoming.add request t m.incoming_buffer);
        })
      → Handled request m o
  no_time :
      {o : Outcome RepairManager (Unit {0})}
      → m.config.t_max ≡ 0
      → o
        ≡ throw range_error
            (record m { outgoing_buffer = Outgoing.remove request.message_id m.outgoing_buffer })
      → Handled request m o

module _ ⦃platform : Platform⦄ where
  process_request-Handled :
      (request : HistoryEntry) (history : LocalHistory) (now : ℕ) (m : RepairManager)
      → IsValid m
      → Handled request m (process_request request history now m)
  unfolding process_request
  process_request-Handled request history now m v =
      let m' = record m {
        outgoing_buffer = Outgoing.remove request.message_id m.outgoing_buffer;
      } in
      elim (Option-cases (find_id request.message_id history)) [
        | inl e ↦ no_answer (rw (e, process_request))
        | inr (message, e) ↦ elim (Option-cases request.sender_id) [
          | inl f ↦ no_answer (ground (arith, e, f))
          | inr (sender, f) ↦
              elim (Bool-cases (is_in_response_group m' sender request.message_id)) [
                | inr g ↦ no_answer (ground (arith, e, f, g))
                | inl g ↦ elim (Option-cases (calculate_t_resp m' sender request.message_id now)) [
                  | inl n ↦
                      no_time ((calculate_throws_iff m' request.message_id now sender).1.0 n)
                        (ground (arith, e, f, g, n))
                  | inr (t, s) ↦
                      let (added, o) =
                        ok_cases (Incoming.add request t m.incoming_buffer)
                          (returned-incoming m request t v) in
                      answer t (ground (arith, e, f, g, s, o))
                ]
              ]
        ]
      ]

Handled-IsValid :
    (request : HistoryEntry) (m : RepairManager) (o : Outcome RepairManager (Unit {0}))
    → IsValid m
    → Handled request m o
    → IsValid (state_of o)
Handled-IsValid request m o v (no_answer e) = rw e (outgoing-remove m request.message_id v)
Handled-IsValid request m o v (answer t e) =
    rw e (incoming-add _ request t (outgoing-remove m request.message_id v))
Handled-IsValid request m o v (no_time z e) = rw e (outgoing-remove m request.message_id v)

Handled-returned :
    (request : HistoryEntry) (m : RepairManager) (o : Outcome RepairManager (Unit {0}))
    → m.config.t_max ≢ 0
    → Handled request m o
    → (returned o ≡ true)
      × ((state_of o).config ≡ m.config)
      × ((state_of o).outgoing_buffer ≡ Outgoing.remove request.message_id m.outgoing_buffer)
Handled-returned request m o pos (no_answer e) = rw e (refl, refl, refl)
Handled-returned request m o pos (answer t e) = rw e (refl, refl, refl)
Handled-returned request m o pos (no_time z e) = absurd (pos z)

has-remove_outgoing :
    (q id : String) (m : RepairManager)
    → Outgoing.has q (Outgoing.remove id m.outgoing_buffer)
      ≡ (Outgoing.has q m.outgoing_buffer && not (q === id))
unfolding Outgoing.has Outgoing.remove
has-remove_outgoing q id m = has-remove q id m.outgoing_buffer

module _ ⦃platform : Platform⦄ where
  -- Whether it returns or throws, the handling of the requests leaves valid buffers.
  pub process_incoming_repair_requests-IsValid :
      (requests : List HistoryEntry) (history : LocalHistory) (now : ℕ) (m : RepairManager)
      → IsValid m
      → IsValid (state_of (process_incoming_repair_requests requests history now m))
  unfolding process_incoming_repair_requests
  process_incoming_repair_requests-IsValid [] history now m v = v
  process_incoming_repair_requests-IsValid (r ∷ requests) history now m v =
      go (process_request r history now m)
        (Handled-IsValid r m _ v (process_request-Handled r history now m v))
        (process_incoming_repair_requests-IsValid requests history now)
    where
      go :
          (o : Outcome RepairManager (Unit {0}))
          → IsValid (state_of o)
          → ((n : RepairManager)
              → IsValid n
              → IsValid (state_of (process_incoming_repair_requests requests history now n)))
          → IsValid (
              state_of {A = Unit {0}} (elim o [
                | ok a n ↦ process_incoming_repair_requests requests history now n
                | throw e n ↦ throw e n
              ]))
      go (ok a n) w k = k n w
      go (throw e n) w k = w

  process_next :
      (r : HistoryEntry) (requests : List HistoryEntry) (history : LocalHistory) (now : ℕ)
      (m n : RepairManager) (a : Unit {0})
      → process_request r history now m ≡ ok a n
      → process_incoming_repair_requests (r ∷ requests) history now m
        ≡ process_incoming_repair_requests requests history now n
  unfolding process_incoming_repair_requests
  process_next r requests history now m n a e = ground (arith, e)

  -- On valid buffers and with a positive t_max, handling repair requests of others returns, and
  -- afterwards this participant asks for exactly the messages that it asked for before and that
  -- are not among the requests.
  pub process_incoming_repair_requests_lem :
      (requests : List HistoryEntry) (history : LocalHistory) (now : ℕ) (m : RepairManager)
      (q : String)
      → IsValid m
      → m.config.t_max ≢ 0
      → (returned (process_incoming_repair_requests requests history now m) ≡ true)
        × (Outgoing.has q
              (state_of (process_incoming_repair_requests requests history now m)).outgoing_buffer
            ≡ (Outgoing.has q m.outgoing_buffer && not (any (λ r. q === r.message_id) requests)))
  unfolding process_incoming_repair_requests
  process_incoming_repair_requests_lem [] history now m q v pos = (refl, ground arith)
  process_incoming_repair_requests_lem (r ∷ requests) history now m q v pos =
      let o = process_request r history now m in
      let h = process_request-Handled r history now m v in
      let (ret, config, out) = Handled-returned r m o pos h in
      let (a, eq) = ok_cases o ret in
      let (returns, asks) =
        process_incoming_repair_requests_lem requests history now (state_of o) q
          (Handled-IsValid r m o v h) (λ z. pos (ap (λ c. c.t_max) (sym config) ∙ z)) in
      rw (process_next r requests history now m (state_of o) a eq) (
        returns,
        ground (arith, asks, ap (Outgoing.has q) out, has-remove_outgoing q r.message_id m),
      )
