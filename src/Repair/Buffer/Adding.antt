-- ===== src/Repair/Buffer/Adding.antt =====
-- What `add` does to a buffer.
use logos_messaging_js.Prelude.{
  ◌+◌, ◌≡◌, ◌≤◌, ◌<◌, inl, inr, refl, Bool, true, false, List, [], ◌∷◌, ◌++◌, length, any,
  any-append, length-append, length-drop_last, drop_last, arith, Bool-cases, ===_iff, ===_refl, leb,
  leb→le, ◌∙◌, if◌then◌else◌,
}
use logos_messaging_js.Prelude.Sorting.{sort, sort-IsSorted, put, any-put, any-sort, length-sort}
use logos_messaging_js.Prelude.Effects.{ok, throw, type_error, state_of, returned}
use logos_messaging_js.Repair.Buffer.{Timed, Buffer, is_about, earlier, has, evict, make_room, add}
use logos_messaging_js.Repair.Buffer.Order.{IsValid, Distinct, earlier_total, earlier_trans}

module _ {A : Type 0} ⦃timed : Timed A⦄ where
  any-drop_last : (p : A → Bool) (xs : List A) → any p xs ≡ false → any p (drop_last xs) ≡ false
  any-drop_last p [] h = refl
  any-drop_last p (x ∷ []) h = refl
  any-drop_last p (x ∷ y ∷ xs) h = ground (arith, any-drop_last p (y ∷ xs))

  drop_last-Distinct : (xs : List A) → Distinct xs → Distinct (drop_last xs)
  drop_last-Distinct [] d = tt
  drop_last-Distinct (x ∷ []) d = tt
  drop_last-Distinct (x ∷ y ∷ xs) d =
      (any-drop_last (is_about (timed.message_id x)) (y ∷ xs) d.0, drop_last-Distinct (y ∷ xs) d.1)

  -- Putting an entry about a new message into its place keeps the entries distinct.
  put-Distinct :
      (a : A) (xs : List A)
      → any (is_about (timed.message_id a)) xs ≡ false
      → Distinct xs
      → Distinct (put earlier a xs)
  put-Distinct a [] n d = (refl, tt)
  put-Distinct a (x ∷ xs) n d = elim (Bool-cases (earlier a x)) [
    | inl e ↦ rw e (n, d)
    | inr e ↦ rw e (
      ground (
        arith,
        any-put earlier (is_about (timed.message_id x)) a xs,
        ===_iff (timed.message_id a) (timed.message_id x),
        ===_iff (timed.message_id x) (timed.message_id a),
      ),
      put-Distinct a xs (ground arith) d.1,
    )
  ]

  sort-Distinct : (xs : List A) → Distinct xs → Distinct (sort earlier xs)
  sort-Distinct [] d = tt
  sort-Distinct (x ∷ xs) d =
      put-Distinct x (sort earlier xs) (any-sort earlier _ xs ∙ d.0) (sort-Distinct xs d.1)

  append-Distinct :
      (xs : List A) (a : A)
      → any (is_about (timed.message_id a)) xs ≡ false
      → Distinct xs
      → Distinct (xs ++ a ∷ [])
  append-Distinct [] a n d = (refl, tt)
  append-Distinct (x ∷ xs) a n d = (
    ground (
      arith,
      any-append (is_about (timed.message_id x)) xs (a ∷ []),
      ===_iff (timed.message_id a) (timed.message_id x),
      ===_iff (timed.message_id x) (timed.message_id a),
    ),
    append-Distinct xs a (ground arith) d.1,
  )

  -- The entries that `add` keeps when it makes room.
  abbrev pub kept_by : Buffer A → List A
  kept_by b = if leb b.max_size (length b.items) then drop_last b.items else b.items

  pub make_room_lem : (b : Buffer A) → 0 < b.max_size → IsValid b → make_room b ≡ ok (kept_by b) b
  unfolding make_room evict
  make_room_lem b pos v = elim (Bool-cases (leb b.max_size (length b.items))) [
    | inl full ↦ rw full (evict_lem b.items (omega (arith, leb→le _ _ full)))
    | inr room ↦ rw room
  ]
    where
      evict_lem : (xs : List A) → 0 < length xs → evict xs b ≡ ok (drop_last xs) b
      evict_lem [] h = absurd (omega arith)
      evict_lem (x ∷ xs) h = refl

  -- `add` on a valid buffer of positive size, with its room made.
  pub add_valid :
      (a : A) (b : Buffer A)
      → 0 < b.max_size
      → IsValid b
      → add a b ≡ (
          if has (timed.message_id a) b
          then ok false b
          else ok true (record b { items = sort earlier (kept_by b ++ a ∷ []) }))
  unfolding add
  add_valid a b pos v = rw (make_room_lem b pos v)

  kept_by-IsValid :
      (b : Buffer A)
      → 0 < b.max_size
      → IsValid b
      → (length (kept_by b) + 1 ≤ b.max_size) × Distinct (kept_by b)
  kept_by-IsValid b pos v = elim (Bool-cases (leb b.max_size (length b.items))) [
    | inl full ↦
        rw full (
          omega (arith, length-drop_last b.items, v.bounded),
          drop_last-Distinct b.items v.distinct,
        )
    | inr room ↦ rw room (ground arith, v.distinct)
  ]

  any-kept_by : (p : A → Bool) (b : Buffer A) → any p b.items ≡ false → any p (kept_by b) ≡ false
  any-kept_by p b h = ground (arith, any-drop_last p b.items)

  added-IsValid :
      (a : A) (b : Buffer A)
      → 0 < b.max_size
      → IsValid b
      → has (timed.message_id a) b ≡ false
      → IsValid (record b { items = sort earlier (kept_by b ++ a ∷ []) })
  unfolding has
  added-IsValid a b pos v new =
      let (room, distinct) = kept_by-IsValid b pos v in
      record {
        sorted = sort-IsSorted earlier earlier_total earlier_trans (kept_by b ++ a ∷ []);
        distinct =
            sort-Distinct (kept_by b ++ a ∷ [])
              (append-Distinct (kept_by b) a (any-kept_by _ b new) distinct);
        bounded =
            omega (
              arith,
              length-sort earlier (kept_by b ++ a ∷ []),
              length-append (kept_by b) (a ∷ []),
            );
      }

  -- Adding an entry to a valid buffer of positive size leaves it sorted by time, with one entry
  -- for each message id and within its size.
  pub add-IsValid :
      (a : A) (b : Buffer A) → 0 < b.max_size → IsValid b → IsValid (state_of (add a b))
  add-IsValid a b pos v = rw (add_valid a b pos v) (elim (Bool-cases (has (timed.message_id a) b)) [
    | inl old ↦ rw old v
    | inr new ↦ rw new (added-IsValid a b pos v new)
  ])

  -- After `add` the message is in the buffer, be it new or not.
  pub has-add :
      (a : A) (b : Buffer A)
      → 0 < b.max_size
      → IsValid b
      → has (timed.message_id a) (state_of (add a b)) ≡ true
  unfolding has
  has-add a b pos v = rw (add_valid a b pos v) (elim (Bool-cases (has (timed.message_id a) b)) [
    | inl old ↦ rw old old
    | inr new ↦ rw new (
        ground (
          arith,
          any-sort earlier (is_about (timed.message_id a)) (kept_by b ++ a ∷ []),
          any-append (is_about (timed.message_id a)) (kept_by b) (a ∷ []),
          ===_refl (timed.message_id a),
        ))
  ])

  -- On a valid buffer of positive size `add` returns.
  pub returned-add : (a : A) (b : Buffer A) → 0 < b.max_size → IsValid b → returned (add a b) ≡ true
  returned-add a b pos v = rw (add_valid a b pos v) (ground arith)

  -- The size of the buffer never changes.
  pub max_size-add : (a : A) (b : Buffer A) → (state_of (add a b)).max_size ≡ b.max_size
  unfolding add make_room evict
  max_size-add a b = ground arith

  -- Adding to an empty buffer of size 0 throws a TypeError.
  pub add_no_size :
      (a : A) (b : Buffer A) → b.max_size ≡ 0 → b.items ≡ [] → add a b ≡ throw type_error b
  unfolding add make_room evict has
  add_no_size a b z e = ground arith
