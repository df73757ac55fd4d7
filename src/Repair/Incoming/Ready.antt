-- ===== src/Repair/Incoming/Ready.antt =====
-- `getReady` splits a valid buffer at the given time.
use logos_messaging_js.Prelude.{
  ℕ, suc, ◌≡◌, refl, ap, Bool, true, not, List, [], ◌∷◌, map, take, drop, filter, All, arith, leb,
  ltb, Bool-cases, inl, inr, length-drop,
}
use logos_messaging_js.Prelude.Sorting.{IsSorted, drop-IsSorted}
use logos_messaging_js.Repair.Buffer.{earlier}
use logos_messaging_js.Repair.Buffer.Order.{IsValid, filter-Distinct}
use logos_messaging_js.Repair.Incoming.{
  IncomingBufferEntry, incoming_timed, IncomingRepairBuffer, cutoff_from, get_ready,
}

abbrev pub is_ready : ℕ → IncomingBufferEntry → Bool
is_ready now item = leb item.t_resp now

later_items :
    (now : ℕ) (item : IncomingBufferEntry) (items : List IncomingBufferEntry)
    → ltb now item.t_resp ≡ true
    → All (λ y. earlier item y ≡ true) items
    → (filter (is_ready now) items ≡ []) × (filter (λ i. not (is_ready now i)) items ≡ items)
later_items now item [] h k = (refl, refl)
later_items now item (i ∷ items) h k = ground (arith, k.0, later_items now item items h k.1)

cutoff_shift :
    (now k : ℕ) (items : List IncomingBufferEntry)
    → cutoff_from now (suc k) items ≡ suc (cutoff_from now k items)
unfolding cutoff_from
cutoff_shift now k [] = refl
cutoff_shift now k (item ∷ items) = ground (arith, cutoff_shift now (suc k) items)

cutoff_splits :
    (now : ℕ) (items : List IncomingBufferEntry)
    → IsSorted earlier items
    → (take (cutoff_from now 0 items) items ≡ filter (is_ready now) items)
      × (drop (cutoff_from now 0 items) items ≡ filter (λ i. not (is_ready now i)) items)
unfolding cutoff_from
cutoff_splits now [] s = (refl, refl)
cutoff_splits now (item ∷ items) s = elim (Bool-cases (ltb now item.t_resp)) [
  | inl late ↦ ground (arith, late, later_items now item items late s.0)
  | inr ready ↦
      rw (ready, cutoff_shift now 0 items) (ground (arith, ready, cutoff_splits now items s.1))
]

-- On a valid buffer getReady returns exactly the entries whose time has come, in order, and keeps
-- exactly the others; the buffer stays valid.
pub get_ready_lem :
    (now : ℕ) (b : IncomingRepairBuffer)
    → IsValid b
    → ((get_ready now b).0 ≡ map (λ i. i.entry) (filter (is_ready now) b.items))
      × ((get_ready now b).1.items ≡ filter (λ i. not (is_ready now i)) b.items)
      × IsValid (get_ready now b).1
unfolding get_ready
get_ready_lem now b v =
    let (ready, rest) = cutoff_splits now b.items v.sorted in
    (
      ap (map (λ i. i.entry)) ready,
      rest,
      record {
        sorted = drop-IsSorted earlier (cutoff_from now 0 b.items) b.items v.sorted;
        distinct = rw rest (filter-Distinct _ b.items v.distinct);
        bounded = omega (arith, length-drop (cutoff_from now 0 b.items) b.items, v.bounded);
      },
    )
