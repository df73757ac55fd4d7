-- ===== src/Repair/Outgoing/Requests.antt =====
-- `getEligible` as a whole: what it returns, what it leaves, and that nothing is requested twice.
use logos_messaging_js.Prelude.{
  ℕ, suc, ◌≡◌, refl, ap, true, List, [], ◌∷◌, String, length, take, drop, arith, ◌∙◌, ltb, leb,
  Bool-cases, inl, inr,
}
use logos_messaging_js.Prelude.Sorting.{IsSorted}
use logos_messaging_js.Repair.Buffer.{earlier, has as buffer_has}
use logos_messaging_js.Repair.Buffer.Order.{IsValid, Distinct}
use logos_messaging_js.Repair.Outgoing.{
  OutgoingBufferEntry, outgoing_timed, picks, OutgoingRepairBuffer, marked_from, get_eligible, has,
}
use logos_messaging_js.Repair.Outgoing.Eligible.{
  due, eligible_from-due, due-marked_from, All-marked_from, any-marked_from,
}

marked-IsSorted :
    (now m n : ℕ) (items : List OutgoingBufferEntry)
    → IsSorted earlier items
    → IsSorted earlier (marked_from now m n items)
unfolding marked_from
marked-IsSorted now m n [] s = tt
marked-IsSorted now m n (item ∷ items) s = elim (Bool-cases (ltb now item.t_req)) [
  | inl late ↦ rw late s
  | inr now_due ↦ elim (Bool-cases (picks item n m)) [
    | inl e ↦
        rw (now_due, e)
          (elim (Bool-cases (leb m (suc n))) [
            | inl stop ↦ rw stop s
            | inr more ↦ rw more (
              All-marked_from (λ y. earlier item y ≡ true) (λ i h. h) now m (suc n) items s.0,
              marked-IsSorted now m (suc n) items s.1,
            )
          ])
    | inr e ↦
        rw (now_due, e)
          (elim (Bool-cases (leb m n)) [
            | inl stop ↦ rw stop s
            | inr more ↦ rw more (
              All-marked_from (λ y. earlier item y ≡ true) (λ i h. h) now m n items s.0,
              marked-IsSorted now m n items s.1,
            )
          ])
  ]
]

marked-Distinct :
    (now m n : ℕ) (items : List OutgoingBufferEntry)
    → Distinct items
    → Distinct (marked_from now m n items)
unfolding marked_from
marked-Distinct now m n [] d = tt
marked-Distinct now m n (item ∷ items) d = ground (
  arith,
  any-marked_from item.entry.message_id now m n items,
  any-marked_from item.entry.message_id now m (suc n) items,
  marked-Distinct now m n items d.1,
  marked-Distinct now m (suc n) items d.1,
)

length-marked :
    (now m n : ℕ) (items : List OutgoingBufferEntry)
    → length (marked_from now m n items) ≡ length items
unfolding marked_from
length-marked now m n [] = refl
length-marked now m n (item ∷ items) =
    ground (arith, length-marked now m n items, length-marked now m (suc n) items)

-- On a valid buffer getEligible returns the due repairs that were not requested before, earliest
-- first and at most as many as asked for; the buffer stays valid and keeps every message, and its
-- due repairs are those that were not returned.
pub get_eligible_lem :
    (now max_requests : ℕ) (b : OutgoingRepairBuffer)
    → IsValid b
    → ((get_eligible now max_requests b).0 ≡ take max_requests (due now b.items))
      × (due now (get_eligible now max_requests b).1.items ≡ drop max_requests (due now b.items))
      × IsValid (get_eligible now max_requests b).1
      × ((id : String) → has id (get_eligible now max_requests b).1 ≡ has id b)
unfolding get_eligible has buffer_has
get_eligible_lem now m b v = (
  eligible_from-due now m 0 b.items v.sorted ∙ ap (λ k. take k (due now b.items)) (omega arith),
  due-marked_from now m 0 b.items v.sorted ∙ ap (λ k. drop k (due now b.items)) (omega arith),
  record {
    sorted = marked-IsSorted now m 0 b.items v.sorted;
    distinct = marked-Distinct now m 0 b.items v.distinct;
    bounded = omega (arith, length-marked now m 0 b.items, v.bounded);
  },
  λ id. any-marked_from id now m 0 b.items,
)

-- Two calls of getEligible at one time return the due repairs of a valid buffer in order, none of
-- them twice.
pub get_eligible_again :
    (now m k : ℕ) (b : OutgoingRepairBuffer)
    → IsValid b
    → (get_eligible now k (get_eligible now m b).1).0 ≡ take k (drop m (due now b.items))
get_eligible_again now m k b v =
    let (returned, left, valid, _) = get_eligible_lem now m b v in
    let (again, _, _, _) = get_eligible_lem now k (get_eligible now m b).1 valid in
    again ∙ ap (take k) left
