-- ===== src/Channel/Invariant/Sweeping.antt =====
-- The sweep of the incoming buffer keeps the invariant.
use logos_messaging_js.Prelude.{
  ℕ, ◌≡◌, inl, inr, refl, Bool, true, false, Option, none, some, List, [], ◌∷◌, All, arith,
  Bool-cases, ◌∙◌,
}
use logos_messaging_js.Prelude.Effects.{
  Outcome, ok, throw, state_of, Ensures, Ensures-state, then-Ensures, pure,
}
use logos_messaging_js.Prelude.Maps.{lookup}
use logos_messaging_js.Platform.{Platform}
use logos_messaging_js.Message.{Message, HistoryEntry, is_content_message}
use logos_messaging_js.History.{Lodash}
use logos_messaging_js.Bloom.{BloomFilter}
use logos_messaging_js.Repair.Manager
use logos_messaging_js.Repair.Manager.{RepairManager}
use logos_messaging_js.Repair.Manager.Validity.{
  sweep_incoming_buffer-IsValid as manager_sweep-IsValid,
}
use logos_messaging_js.Channel.{
  Channel, emit, in_message_lost, missing_dependencies, deliver_and_emit, deliver_message,
  push_history, advance_clock,
}
use logos_messaging_js.Channel.Sweeping.{
  is_timed_out, deliver_content, collect, finish_sweep, sweep_message, sweep_from,
  sweep_incoming_buffer, sweep_repair_incoming_buffer,
}
use logos_messaging_js.Channel.Invariant.{IsSound, IsValidRepair, IsNoted, IsValid}
use logos_messaging_js.Channel.Invariant.Parts.{repair-Holds}
use logos_messaging_js.Channel.Invariant.Receiving.{incoming-Holds}
use logos_messaging_js.Channel.Invariant.Delivering.{deliver_and_emit-IsValid}

module _ ⦃platform : Platform⦄ ⦃lodash : Lodash⦄ where
  -- A delivery leaves the filter alone.
  deliver_content-filter :
      (m : Message) (c : Channel) → (state_of (deliver_content m c)).filter ≡ c.filter
  unfolding deliver_and_emit deliver_message push_history advance_clock
  deliver_content-filter m c = ground arith

-- The invariant, under the filter `f`.
abbrev Swept : ⦃platform : Platform⦄ → BloomFilter → Channel → Type 0
Swept f c = IsValid c × (c.filter ≡ f)

module _ ⦃platform : Platform⦄ ⦃lodash : Lodash⦄ (sound : IsSound platform lodash) where
  deliver_content-Swept :
      (f : BloomFilter) (m : Message) (c : Channel)
      → IsNoted f m
      → Swept f c
      → Swept f (state_of (deliver_content m c))
  deliver_content-Swept f m c noted (v, e) = (valid noted, deliver_content-filter m c ∙ e)
    where
      valid : IsNoted f m → IsValid (state_of (deliver_content m c))
      valid (inl other) = rw other v
      valid (inr noted) = elim (Bool-cases (is_content_message m)) [
        | inr other ↦ rw other v
        | inl content ↦ rw content (deliver_and_emit-IsValid sound m c (rw e noted) v)
      ]

  sweep_message-Ensures :
      (f : BloomFilter) (m : Message) (ds : List HistoryEntry) (now : ℕ) (c : Channel)
      → IsNoted f m
      → Swept f c
      → Ensures (Swept f) (Swept f) (sweep_message m ds now c)
  unfolding sweep_message
  sweep_message-Ensures f m [] now c noted s =
      then-Ensures (Swept f) (Swept f) (Swept f) (deliver_content m) (pure false) c
        (Ensures-state (Swept f) (deliver_content m c) (deliver_content-Swept f m c noted s))
        (λ c' s'. s')
  sweep_message-Ensures f m (d ∷ ds) now c noted s =
      elim (Bool-cases
        (is_timed_out c.timeout_for_lost_messages_ms (lookup m.message_id c.time_received) now)) [
          | inr waits ↦ rw waits s
          | inl lost ↦
              let told = emit (in_message_lost (d ∷ ds)) c in
              rw lost (
                then-Ensures (Swept f) (Swept f) (Swept f) (deliver_content m) (pure false) told
                  (Ensures-state (Swept f) (deliver_content m told)
                    (deliver_content-Swept f m told noted s))
                  (λ c' s'. s'))
        ]

  abbrev Collected : BloomFilter → Outcome Channel (List Message × List HistoryEntry) → Type 0
  Collected f (ok (kept, missing) c) = Swept f c × All (IsNoted f) kept
  Collected f (throw e c) = Swept f c

  collect-Collected :
      (f : BloomFilter) (m : Message) (missing : List HistoryEntry) (stays : Bool)
      (o : Outcome Channel (List Message × List HistoryEntry))
      → IsNoted f m
      → Collected f o
      → Collected f (collect m missing stays o)
  collect-Collected f m missing true (ok (kept, others) c) noted h = (h.0, (noted, h.1))
  collect-Collected f m missing false (ok (kept, others) c) noted h = h
  collect-Collected f m missing true (throw e c) noted h = h
  collect-Collected f m missing false (throw e c) noted h = h

  sweep_from-Collected :
      (f : BloomFilter) (ms : List Message) (now : ℕ) (c : Channel)
      → All (IsNoted f) ms
      → Swept f c
      → Collected f (sweep_from ms now c)
  unfolding sweep_from
  sweep_from-Collected f [] now c noted s = (s, tt)
  sweep_from-Collected f (m ∷ ms) now c noted s =
      go (sweep_message m (missing_dependencies m c) now c)
        (sweep_message-Ensures f m (missing_dependencies m c) now c noted.0 s)
        (λ c'. sweep_from-Collected f ms now c' noted.1)
    where
      go :
          (o : Outcome Channel Bool)
          → Ensures (Swept f) (Swept f) o
          → ((c' : Channel) → Swept f c' → Collected f (sweep_from ms now c'))
          → Collected f (elim o [
            | ok stays c' ↦ collect m (missing_dependencies m c) stays (sweep_from ms now c')
            | throw e c' ↦ throw e c'
          ])
      go (ok stays c') h k = collect-Collected f m _ stays (sweep_from ms now c') noted.0 (k c' h)
      go (throw e c') h k = h

  -- A sweep of the incoming buffer keeps the invariant.
  pub sweep_incoming_buffer-IsValid :
      (now : ℕ) (c : Channel) → IsValid c → IsValid (state_of (sweep_incoming_buffer now c))
  unfolding sweep_incoming_buffer
  sweep_incoming_buffer-IsValid now c v =
      go (sweep_from c.incoming_buffer now c)
        (sweep_from-Collected c.filter c.incoming_buffer now c v.noted (v, refl))
    where
      go :
          (o : Outcome Channel (List Message × List HistoryEntry))
          → Collected c.filter o
          → IsValid (
              state_of {A = List HistoryEntry}
                (elim o [ ok p c' ↦ finish_sweep p c' | throw e c' ↦ throw e c' ]))
      go (ok (kept, missing) c') h = incoming-Holds kept (rw h.0.1 h.1) h.0.0
      go (throw e c') h = h.0

module _ ⦃platform : Platform⦄ where
  -- So does a sweep of the repairs that are due.
  pub sweep_repair_incoming_buffer-IsValid :
      (now : ℕ) (c : Channel) → IsValid c → IsValid (sweep_repair_incoming_buffer now c).1
  unfolding sweep_repair_incoming_buffer
  sweep_repair_incoming_buffer-IsValid now c v = go c.repair_manager v.repair_valid
    where
      go :
          (r : Option RepairManager)
          → IsValidRepair r
          → IsValid
              (let x : List Message × Channel = elim r [
                | none ↦ ([], c)
                | some r ↦
                    let (messages, r') = Manager.sweep_incoming_buffer c.local_history now r in
                    (messages, record c { repair_manager = some r' })
              ] in
                x).1
      go none w = v
      go (some r) w = repair-Holds _ (manager_sweep-IsValid c.local_history now r w) v
