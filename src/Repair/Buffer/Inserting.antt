-- ===== src/Repair/Buffer/Inserting.antt =====
-- Where `add` puts a new entry, and which of the old entries stay.
use logos_messaging_js.Prelude.{
  ℕ, zero, suc, ◌-◌, ◌≡◌, ◌≤◌, ◌<◌, ◌⊎◌, inl, inr, refl, ◌∙◌, sym, ap, true, false, List, [], ◌∷◌,
  ◌++◌, length, take, drop_last, arith, All, Bool-cases, leb,
}
use logos_messaging_js.Prelude.Sorting.{sort, put, IsSorted, drop_last-IsSorted}
use logos_messaging_js.Prelude.Effects.{ok}
use logos_messaging_js.Repair.Buffer.{Timed, Buffer, earlier, has, add}
use logos_messaging_js.Repair.Buffer.Order.{IsValid, in_time_order}
use logos_messaging_js.Repair.Buffer.Adding.{kept_by, add_valid}

take_all {ℓ} : {A : Type ℓ} (n : ℕ) (xs : List A) → length xs ≤ n → take n xs ≡ xs
take_all zero [] h = refl
take_all zero (x ∷ xs) h = absurd (omega arith)
take_all (suc n) [] h = refl
take_all (suc n) (x ∷ xs) h = ap (λ ys. x ∷ ys) (take_all n xs (omega arith))

drop_last-take {ℓ} :
    {A : Type ℓ} (n : ℕ) (xs : List A) → length xs ≡ suc n → drop_last xs ≡ take n xs
drop_last-take n [] h = absurd (omega arith)
drop_last-take zero (x ∷ []) h = refl
drop_last-take (suc n) (x ∷ []) h = absurd (omega arith)
drop_last-take zero (x ∷ y ∷ xs) h = absurd (omega arith)
drop_last-take (suc n) (x ∷ y ∷ xs) h = ap (λ ys. x ∷ ys) (drop_last-take n (y ∷ xs) (omega arith))

module _ {A : Type 0} ⦃timed : Timed A⦄ where
  -- The new entry stands behind the entries that are due no later, and before those due later.
  abbrev pub IsPlaced : A → List A → List A → List A → Type 0
  IsPlaced a old before after =
      (before ++ after ≡ old)
      × All (λ x. timed.time x ≤ timed.time a) before
      × All (λ x. timed.time a < timed.time x) after

  abbrev Placed : A → List A → List A → Type 0
  Placed a old new =
      (before : List A) × (after : List A) × (new ≡ before ++ a ∷ after)
      × IsPlaced a old before after

  put_least :
      (x : A) (xs : List A) → All (λ y. in_time_order x y ≡ true) xs → put earlier x xs ≡ x ∷ xs
  put_least x [] h = refl
  put_least x (y ∷ xs) h = rw h.0 refl

  put-Placed :
      (x a : A) (before after : List A)
      → All (λ y. in_time_order x y ≡ true) (before ++ after)
      → All (λ y. timed.time y ≤ timed.time a) before
      → All (λ y. timed.time a < timed.time y) after
      → Placed a (x ∷ (before ++ after)) (put earlier x (before ++ a ∷ after))
  put-Placed x a [] after least hb ha = elim (Bool-cases (in_time_order x a)) [
    | inl e ↦ rw e (x ∷ [], after, refl, (refl, (ground (arith, e), tt), ha))
    | inr e ↦
        rw (e, put_least x after least) ([], x ∷ after, refl, (refl, tt, (ground (arith, e), ha)))
  ]
  put-Placed x a (y ∷ before) after least hb ha =
      rw (least.0) (x ∷ y ∷ before, after, refl, (refl, (ground (arith, least.0, hb.0), hb), ha))

  sort-Placed :
      (a : A) (xs : List A) → IsSorted in_time_order xs → Placed a xs (sort earlier (xs ++ a ∷ []))
  sort-Placed a [] h = ([], [], refl, (refl, tt, tt))
  sort-Placed a (x ∷ xs) h =
      let (before, after, e, (f, hb, ha)) = sort-Placed a xs h.1 in
      rw (e, ← f) (put-Placed x a before after (rw f h.0) hb ha)

  kept_by-take :
      (b : Buffer A) → 0 < b.max_size → IsValid b → kept_by b ≡ take (b.max_size - 1) b.items
  kept_by-take b pos v = elim (Bool-cases (leb b.max_size (length b.items))) [
    | inl full ↦ rw full (drop_last-take (b.max_size - 1) b.items (ground (arith, full, v.bounded)))
    | inr room ↦ rw room (sym (take_all (b.max_size - 1) b.items (ground (arith, room))))
  ]

  kept_by-IsSorted : (b : Buffer A) → IsValid b → IsSorted in_time_order (kept_by b)
  kept_by-IsSorted b v = elim (Bool-cases (leb b.max_size (length b.items))) [
    | inl full ↦ rw full (drop_last-IsSorted in_time_order b.items v.sorted)
    | inr room ↦ rw room v.sorted
  ]

  -- On a valid buffer of positive size add never throws. Either the message is there and nothing
  -- changes; or of the old entries as many of the first ones stay as leave room for one more, in
  -- their order, and the new entry stands behind those of them that are due no later than it and
  -- before those that are due later.
  pub add_lem :
      (a : A) (b : Buffer A)
      → 0 < b.max_size
      → IsValid b
      → ((has (timed.message_id a) b ≡ true) × (add a b ≡ ok false b))
        ⊎ ((before : List A) × (after : List A) × (has (timed.message_id a) b ≡ false)
            × (add a b ≡ ok true (record b { items = before ++ a ∷ after }))
            × IsPlaced a (take (b.max_size - 1) b.items) before after)
  add_lem a b pos v = elim (Bool-cases (has (timed.message_id a) b)) [
    | inl old ↦ inl (old, add_valid a b pos v ∙ rw old refl)
    | inr new ↦
        let (before, after, e, (f, hb, ha)) = sort-Placed a (kept_by b) (kept_by-IsSorted b v) in
        inr (
          before,
          after,
          new,
          add_valid a b pos v ∙ rw (new, e) refl,
          (f ∙ kept_by-take b pos v, hb, ha),
        )
  ]
