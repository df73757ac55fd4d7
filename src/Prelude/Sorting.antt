-- ===== src/Prelude/Sorting.antt =====
-- `Array.prototype.sort` with a comparator, as the language defines it: a stable sort. `le a b`
-- stands for `compare(a, b) <= 0`.
use Prim.Native.Nat.{ℕ, zero, suc, ◌+◌}
use mathlib.Core.Path.{◌≡◌, refl, ◌∙◌, ap}
use mathlib.Core.Bool.{Bool, true, false, ◌||◌}
use mathlib.Core.Logic.{◌⊎◌, inl, inr}
use mathlib.Core.List.{List, [], ◌∷◌, ◌++◌, Perm}
use mathlib.Core.List.Perm
use native.Mathlib.Omega.{arith}
use logos_messaging_js.Prelude.Tests.{if◌then◌else◌, Bool-cases}
use logos_messaging_js.Prelude.Lists.{length, any, All, filter, drop, take, drop_last}

module _ {ℓ κ} {A : Type ℓ} (P : A → Type κ) where
  pub All-append : (xs ys : List A) → All P xs → All P ys → All P (xs ++ ys)
  All-append [] ys h k = k
  All-append (x ∷ xs) ys h k = (h.0, All-append xs ys h.1 k)

  pub All-filter : (p : A → Bool) (xs : List A) → All P xs → All P (filter p xs)
  All-filter p [] h = tt
  All-filter p (x ∷ xs) h = elim (Bool-cases (p x)) [
    | inl e ↦ rw e (h.0, All-filter p xs h.1)
    | inr e ↦ rw e (All-filter p xs h.1)
  ]

  pub All-drop : (n : ℕ) (xs : List A) → All P xs → All P (drop n xs)
  All-drop zero xs h = h
  All-drop (suc n) [] h = tt
  All-drop (suc n) (x ∷ xs) h = All-drop n xs h.1

  pub All-take : (n : ℕ) (xs : List A) → All P xs → All P (take n xs)
  All-take zero xs h = tt
  All-take (suc n) [] h = tt
  All-take (suc n) (x ∷ xs) h = (h.0, All-take n xs h.1)

  pub All-drop_last : (xs : List A) → All P xs → All P (drop_last xs)
  All-drop_last [] h = tt
  All-drop_last (x ∷ []) h = tt
  All-drop_last (x ∷ y ∷ xs) h = (h.0, All-drop_last (y ∷ xs) h.1)

  pub All-imp {μ} : {Q : A → Type μ} → ((a : A) → P a → Q a) → (xs : List A) → All P xs → All Q xs
  All-imp f [] h = tt
  All-imp f (x ∷ xs) h = (f x h.0, All-imp f xs h.1)

module _ {ℓ} {A : Type ℓ} (le : A → A → Bool) where
  -- An equal element stays behind the one that is put in: the sort is stable.
  abbrev pub put : A → List A → List A
  put x [] = x ∷ []
  put x (y ∷ ys) = if le x y then x ∷ (y ∷ ys) else y ∷ put x ys

  abbrev pub sort : List A → List A
  sort [] = []
  sort (x ∷ xs) = put x (sort xs)

  -- Each element stands before those that follow it.
  abbrev pub IsSorted : List A → Type 0
  IsSorted [] = Unit {0}
  IsSorted (x ∷ xs) = All (λ y. le x y ≡ true) xs × IsSorted xs

  pub put-perm : (x : A) (ys : List A) → Perm (put x ys) (x ∷ ys)
  put-perm x [] = Perm.refl _
  put-perm x (y ∷ ys) = elim (Bool-cases (le x y)) [
    | inl e ↦ rw e (Perm.refl _)
    | inr e ↦ rw e (Perm.trans (Perm.cons y (put-perm x ys)) (Perm.swap x y ys))
  ]

  -- A sort keeps every element, as often.
  pub sort-perm : (xs : List A) → Perm (sort xs) xs
  sort-perm [] = Perm.refl _
  sort-perm (x ∷ xs) = Perm.trans (put-perm x (sort xs)) (Perm.cons x (sort-perm xs))

  length-put : (x : A) (ys : List A) → length (put x ys) ≡ length ys + 1
  length-put x [] = omega arith
  length-put x (y ∷ ys) = ground (arith, length-put x ys)

  pub length-sort : (xs : List A) → length (sort xs) ≡ length xs
  length-sort [] = refl
  length-sort (x ∷ xs) = omega (arith, length-put x (sort xs), length-sort xs)

  pub any-put : (p : A → Bool) (x : A) (ys : List A) → any p (put x ys) ≡ (p x || any p ys)
  any-put p x [] = refl
  any-put p x (y ∷ ys) = ground (arith, any-put p x ys)

  pub any-sort : (p : A → Bool) (xs : List A) → any p (sort xs) ≡ any p xs
  any-sort p [] = refl
  any-sort p (x ∷ xs) = any-put p x (sort xs) ∙ ap (λ t. p x || t) (any-sort p xs)

  All-put {κ} : (P : A → Type κ) (x : A) (ys : List A) → P x → All P ys → All P (put x ys)
  All-put P x [] h k = (h, tt)
  All-put P x (y ∷ ys) h k = elim (Bool-cases (le x y)) [
    | inl e ↦ rw e (h, k)
    | inr e ↦ rw e (k.0, All-put P x ys h k.1)
  ]

  pub All-sort {κ} : (P : A → Type κ) (xs : List A) → All P xs → All P (sort xs)
  All-sort P [] h = tt
  All-sort P (x ∷ xs) h = All-put P x (sort xs) h.0 (All-sort P xs h.1)

  -- Sorting what is sorted changes nothing.
  pub sort_of_IsSorted : (xs : List A) → IsSorted xs → sort xs ≡ xs
  sort_of_IsSorted [] h = refl
  sort_of_IsSorted (x ∷ []) h = refl
  sort_of_IsSorted (x ∷ y ∷ xs) h = rw (sort_of_IsSorted (y ∷ xs) h.1) (rw h.0.0)

  pub filter-IsSorted : (p : A → Bool) (xs : List A) → IsSorted xs → IsSorted (filter p xs)
  filter-IsSorted p [] h = tt
  filter-IsSorted p (x ∷ xs) h = elim (Bool-cases (p x)) [
    | inl e ↦ rw e (All-filter _ p xs h.0, filter-IsSorted p xs h.1)
    | inr e ↦ rw e (filter-IsSorted p xs h.1)
  ]

  pub drop-IsSorted : (n : ℕ) (xs : List A) → IsSorted xs → IsSorted (drop n xs)
  drop-IsSorted zero xs h = h
  drop-IsSorted (suc n) [] h = tt
  drop-IsSorted (suc n) (x ∷ xs) h = drop-IsSorted n xs h.1

  pub drop_last-IsSorted : (xs : List A) → IsSorted xs → IsSorted (drop_last xs)
  drop_last-IsSorted [] h = tt
  drop_last-IsSorted (x ∷ []) h = tt
  drop_last-IsSorted (x ∷ y ∷ xs) h =
      (All-drop_last _ (y ∷ xs) h.0, drop_last-IsSorted (y ∷ xs) h.1)

module _ {ℓ} {A : Type ℓ} (le : A → A → Bool)
    (total : (a b : A) → (le a b ≡ true) ⊎ (le b a ≡ true))
    (trans : (a b c : A) → le a b ≡ true → le b c ≡ true → le a c ≡ true) where
  put-IsSorted : (x : A) (ys : List A) → IsSorted le ys → IsSorted le (put le x ys)
  put-IsSorted x [] h = (tt, tt)
  put-IsSorted x (y ∷ ys) h = elim (Bool-cases (le x y)) [
    | inl e ↦ rw e ((e, All-imp _ (λ z. trans x y z e) ys h.0), h)
    | inr e ↦ rw e (All-put le _ x ys (other e (total x y)) h.0, put-IsSorted x ys h.1)
  ]
    where
      other : le x y ≡ false → (le x y ≡ true) ⊎ (le y x ≡ true) → le y x ≡ true
      other e (inl k) = cc
      other e (inr k) = k

  -- With a comparator that is a total order the result is sorted.
  pub sort-IsSorted : (xs : List A) → IsSorted le (sort le xs)
  sort-IsSorted [] = tt
  sort-IsSorted (x ∷ xs) = put-IsSorted x (sort le xs) (sort-IsSorted xs)
