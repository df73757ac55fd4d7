-- ===== src/Repair/Outgoing/Eligible.antt =====
-- Which repairs `getEligible` returns, and that none is returned twice.
use logos_messaging_js.Prelude.{
  ℕ, zero, suc, ◌-◌, ◌≤◌, ◌≡◌, refl, ap, Bool, true, not, ◌&&◌, List, [], ◌∷◌, map, String, ltb,
  leb, take, drop, filter, All, arith, Bool-cases, inl, inr, any, sym, ◌∙◌, ltb→lt,
}
use logos_messaging_js.Prelude.Sorting.{IsSorted}
use logos_messaging_js.Message.{HistoryEntry}
use logos_messaging_js.Repair.Buffer.{earlier, is_about}
use logos_messaging_js.Repair.Outgoing.{
  OutgoingBufferEntry, outgoing_timed, picks, eligible_from, marked_from,
}

-- A repair is due and has not been requested yet.
abbrev pub is_due : ℕ → OutgoingBufferEntry → Bool
is_due now item = leb item.t_req now && not item.requested

abbrev pub due : ℕ → List OutgoingBufferEntry → List HistoryEntry
due now items = map (λ i. i.entry) (filter (is_due now) items)

-- Where the first item is not due yet, none is.
due_none :
    (now : ℕ) (items : List OutgoingBufferEntry)
    → All (λ i. ltb now i.t_req ≡ true) items
    → due now items ≡ []
due_none now [] h = refl
due_none now (item ∷ items) h = ground (arith, due_none now items h.1)

later_items :
    (now : ℕ) (item : OutgoingBufferEntry) (items : List OutgoingBufferEntry)
    → ltb now item.t_req ≡ true
    → All (λ y. earlier item y ≡ true) items
    → All (λ i. ltb now i.t_req ≡ true) items
later_items now item [] h k = tt
later_items now item (i ∷ items) h k = (ground (arith, k.0), later_items now item items h k.1)

take_none : {A : Type 0} (xs : List A) (m n : ℕ) → m ≤ n → take (m - n) xs ≡ []
take_none xs m n h = let e : m - n ≡ 0 = omega arith in rw e

take_nil : (A : Type 0) (n : ℕ) → take {A = A} n [] ≡ []
take_nil A zero = refl
take_nil A (suc n) = refl

drop_nil : (A : Type 0) (n : ℕ) → drop {A = A} n [] ≡ []
drop_nil A zero = refl
drop_nil A (suc n) = refl

drop_none : {A : Type 0} (xs : List A) (m n : ℕ) → m ≤ n → drop (m - n) xs ≡ xs
drop_none xs m n h = let e : m - n ≡ 0 = omega arith in rw e

-- The loop returns what is due, up to the requests that are left.
pub eligible_from-due :
    (now m n : ℕ) (items : List OutgoingBufferEntry)
    → IsSorted earlier items
    → eligible_from now m n items ≡ take (m - n) (due now items)
unfolding eligible_from picks
eligible_from-due now m n [] s = sym (take_nil HistoryEntry (m - n))
eligible_from-due now m n (item ∷ items) s = elim (Bool-cases (ltb now item.t_req)) [
  | inl late ↦
      let none_due : due now (item ∷ items) ≡ [] =
        due_none now (item ∷ items) (late, later_items now item items late s.0) in
      rw (late, none_due) (sym (take_nil HistoryEntry (m - n)))
  | inr now_due ↦ elim (Bool-cases (ltb n m)) [
    | inl room ↦
        let e : m - n ≡ suc (m - suc n) = omega (arith, ltb→lt n m room) in
        rw e (
          ground (
            arith,
            eligible_from-due now m n items s.1,
            eligible_from-due now m (suc n) items s.1,
            take_none (due now items) m (suc n),
            e,
          ))
    | inr full ↦
        ground (arith, take_none (due now items) m n, take_none (due now (item ∷ items)) m n)
  ]
]

-- What the loop leaves due is what it did not return.
pub due-marked_from :
    (now m n : ℕ) (items : List OutgoingBufferEntry)
    → IsSorted earlier items
    → due now (marked_from now m n items) ≡ drop (m - n) (due now items)
unfolding marked_from picks
due-marked_from now m n [] s = sym (drop_nil HistoryEntry (m - n))
due-marked_from now m n (item ∷ items) s = elim (Bool-cases (ltb now item.t_req)) [
  | inl late ↦
      let none_due : due now (item ∷ items) ≡ [] =
        due_none now (item ∷ items) (late, later_items now item items late s.0) in
      rw late (none_due ∙ (sym (drop_nil HistoryEntry (m - n)) ∙ ap (drop (m - n)) (sym none_due)))
  | inr now_due ↦ elim (Bool-cases (ltb n m)) [
    | inl room ↦
        let e : m - n ≡ suc (m - suc n) = omega (arith, ltb→lt n m room) in
        rw e (
          ground (
            arith,
            due-marked_from now m n items s.1,
            due-marked_from now m (suc n) items s.1,
            drop_none (due now items) m (suc n),
            e,
          ))
    | inr full ↦
        ground (arith, drop_none (due now items) m n, drop_none (due now (item ∷ items)) m n)
  ]
]

-- Only flags are set: what holds of an item whatever its flag still holds of all.
pub All-marked_from :
    (P : OutgoingBufferEntry → Type 0)
    → ((i : OutgoingBufferEntry) → P i → P (record i { requested = true }))
    → (now m n : ℕ) (items : List OutgoingBufferEntry) → All P items
    → All P (marked_from now m n items)
unfolding marked_from
All-marked_from P f now m n [] h = tt
All-marked_from P f now m n (item ∷ items) h = ground (
  arith,
  f item h.0,
  All-marked_from P f now m n items h.1,
  All-marked_from P f now m (suc n) items h.1,
)

pub any-marked_from :
    (id : String) (now m n : ℕ) (items : List OutgoingBufferEntry)
    → any (is_about id) (marked_from now m n items) ≡ any (is_about id) items
unfolding marked_from
any-marked_from id now m n [] = refl
any-marked_from id now m n (item ∷ items) =
    ground (arith, any-marked_from id now m n items, any-marked_from id now m (suc n) items)
