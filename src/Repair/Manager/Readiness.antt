-- ===== src/Repair/Manager/Readiness.antt =====
-- `hasRequestsReady`, which `MessageChannel.hasPendingRepairRequests` returns.
use logos_messaging_js.Prelude.{
  ℕ, ◌≤◌, ◌≡◌, refl, ap, sym, ◌∙◌, true, false, List, [], ◌∷◌, arith, any, leb, length, take, drop,
  All, zero, suc,
}
use logos_messaging_js.Prelude.Sorting.{IsSorted}
use logos_messaging_js.Message.{HistoryEntry}
use logos_messaging_js.Repair.Buffer.{earlier}
use logos_messaging_js.Repair.Outgoing
use logos_messaging_js.Repair.Outgoing.{OutgoingBufferEntry, outgoing_timed, marked_from}
use logos_messaging_js.Repair.Outgoing.Eligible.{due}
use logos_messaging_js.Repair.Outgoing.Requests.{get_eligible_lem}
use logos_messaging_js.Repair.Manager.{RepairManager, get_repair_requests, has_requests_ready}
use logos_messaging_js.Repair.Manager.Validity.{IsValid, get_repair_requests-IsValid}

any_later :
    (now : ℕ) (item : OutgoingBufferEntry) (items : List OutgoingBufferEntry)
    → leb item.t_req now ≡ false
    → All (λ y. earlier item y ≡ true) items
    → any (λ i. leb i.t_req now) items ≡ false
any_later now item [] h k = refl
any_later now item (i ∷ items) h k = ground (arith, k.0, any_later now item items h k.1)

ready_items :
    (now : ℕ) (m : RepairManager) (items : List OutgoingBufferEntry)
    → m.outgoing_buffer.items ≡ items
    → IsSorted earlier items
    → has_requests_ready now m ≡ any (λ i. leb i.t_req now) items
unfolding has_requests_ready
ready_items now m [] e s = rw (e, has_requests_ready)
ready_items now m (item ∷ items) e s = ground (arith, e, any_later now item items)

-- It tells whether the time of some missing message has come, requested or not.
pub has_requests_ready-any :
    (now : ℕ) (m : RepairManager)
    → IsValid m
    → has_requests_ready now m ≡ any (λ i. leb i.t_req now) m.outgoing_buffer.items
has_requests_ready-any now m v = ready_items now m m.outgoing_buffer.items refl v.outgoing.sorted

any-marked_from :
    (t now m n : ℕ) (items : List OutgoingBufferEntry)
    → any (λ i. leb i.t_req t) (marked_from now m n items) ≡ any (λ i. leb i.t_req t) items
unfolding marked_from
any-marked_from t now m n [] = refl
any-marked_from t now m n (item ∷ items) =
    ground (arith, any-marked_from t now m n items, any-marked_from t now m (suc n) items)

length-due : (now : ℕ) (items : List OutgoingBufferEntry) → length (due now items) ≤ length items
length-due now [] = omega arith
length-due now (item ∷ items) = ground (arith, length-due now items)

drop_all : {A : Type 0} (n : ℕ) (xs : List A) → length xs ≤ n → drop n xs ≡ []
drop_all zero [] h = refl
drop_all zero (x ∷ xs) h = absurd (omega arith)
drop_all (suc n) [] h = refl
drop_all (suc n) (x ∷ xs) h = drop_all n xs (omega arith)

take_nil : (k : ℕ) → take {A = HistoryEntry} k [] ≡ []
take_nil zero = refl
take_nil (suc k) = refl

-- Once a sweep with enough room has requested every due repair of valid buffers, a further sweep
-- at that time returns nothing, while hasRequestsReady answers as it did before the sweep.
pub has_requests_ready_after_sweep :
    (now n k : ℕ) (m : RepairManager)
    → IsValid m
    → length m.outgoing_buffer.items ≤ n
    → let m' = (get_repair_requests n now m).1 in
      ((get_repair_requests k now m').0 ≡ [])
      × (has_requests_ready now m' ≡ has_requests_ready now m)
unfolding get_repair_requests Outgoing.get_eligible
has_requests_ready_after_sweep now n k m v many =
    let b = m.outgoing_buffer in
    let (_, left, valid, _) = get_eligible_lem now n b v.outgoing in
    let (again, _, _, _) = get_eligible_lem now k (Outgoing.get_eligible now n b).1 valid in
    let m' = (get_repair_requests n now m).1 in
    (
      again
          ∙ (ap (take k)
                (left ∙ drop_all n (due now b.items) (omega (arith, length-due now b.items)))
              ∙ take_nil k),
      has_requests_ready-any now m' (get_repair_requests-IsValid n now m v)
          ∙ (any-marked_from now now n 0 b.items ∙ sym (has_requests_ready-any now m v)),
    )
