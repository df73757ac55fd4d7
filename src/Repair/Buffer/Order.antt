-- ===== src/Repair/Buffer/Order.antt =====
-- The invariant of a buffer: sorted by time, one entry for each message id, within its size.
use logos_messaging_js.Prelude.{
  ◌≡◌, ◌≤◌, ◌⊎◌, refl, Bool, true, false, not, List, [], ◌∷◌, String, length, any, filter, arith,
  leb, ◌===◌, ===_iff, ◌&&◌, length-filter-le,
}
use logos_messaging_js.Prelude.Sorting.{IsSorted, filter-IsSorted}
use logos_messaging_js.Repair.Buffer.{Timed, Buffer, is_about, earlier, has, remove}

module _ {A : Type 0} ⦃timed : Timed A⦄ where
  pub earlier_total : (a b : A) → (earlier a b ≡ true) ⊎ (earlier b a ≡ true)
  earlier_total a b = ground arith

  pub earlier_trans : (a b c : A) → earlier a b ≡ true → earlier b c ≡ true → earlier a c ≡ true
  earlier_trans a b c h k = ground arith

  -- No two entries are about one message.
  abbrev pub Distinct : List A → Type 0
  Distinct [] = Unit {0}
  Distinct (x ∷ xs) = (any (is_about (timed.message_id x)) xs ≡ false) × Distinct xs

  -- The order that the entries are to have: the earlier time first.
  abbrev pub in_time_order : A → A → Bool
  in_time_order a b = leb (timed.time a) (timed.time b)

  pub record IsValid (b : Buffer A) : Type 0 where
    pub sorted : IsSorted in_time_order b.items
    pub distinct : Distinct b.items
    pub bounded : length b.items ≤ b.max_size

  pub any-filter_false :
      (p q : A → Bool) (xs : List A) → any p xs ≡ false → any p (filter q xs) ≡ false
  any-filter_false p q [] h = refl
  any-filter_false p q (x ∷ xs) h = ground (arith, any-filter_false p q xs)

  pub filter-Distinct : (q : A → Bool) (xs : List A) → Distinct xs → Distinct (filter q xs)
  filter-Distinct q [] d = tt
  filter-Distinct q (x ∷ xs) d =
      ground
        (arith, any-filter_false (is_about (timed.message_id x)) q xs, filter-Distinct q xs d.1)

  any-filter_remove :
      (q id : String) (xs : List A)
      → any (is_about q) (filter (λ a. not (is_about id a)) xs)
        ≡ (any (is_about q) xs && not (q === id))
  any-filter_remove q id [] = refl
  any-filter_remove q id (x ∷ xs) = ground (
    arith,
    ===_iff (timed.message_id x) q,
    ===_iff (timed.message_id x) id,
    ===_iff q id,
    any-filter_remove q id xs,
  )

  -- A removal keeps the invariant.
  pub remove-IsValid : (id : String) (b : Buffer A) → IsValid b → IsValid (remove id b)
  unfolding remove
  remove-IsValid id b v = record {
    sorted = filter-IsSorted in_time_order _ b.items v.sorted;
    distinct = filter-Distinct _ b.items v.distinct;
    bounded = ground (arith, length-filter-le (λ a. not (is_about id a)) b.items);
  }

  -- A removal takes out the message with the given id and no other.
  pub has-remove :
      (q id : String) (b : Buffer A) → has q (remove id b) ≡ (has q b && not (q === id))
  unfolding remove has
  has-remove q id b = any-filter_remove q id b.items
