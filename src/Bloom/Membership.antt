-- ===== src/Bloom/Membership.antt =====
-- No false negatives: what `insert` put into a filter, `lookup` finds, also after later inserts.
use Prim.Native.Nat.{bit_or}
use native.Mathlib.Decide.{ℕ_discrete}
use logos_messaging_js.Prelude.{
  ℕ, zero, suc, ◌/◌, ◌%◌, ◌^◌, ◌≡◌, refl, ap, true, some, List, [], ◌∷◌, String, get_elem?, set,
  All, arith, Option-cases, ==_iff, inl, inr, ◌≢◌,
}
use logos_messaging_js.Prelude.Bits.{bit_or_absorbs_added, bit_or_keeps}
use logos_messaging_js.Platform.{Platform}
use logos_messaging_js.Bloom.{
  BloomFilter, or_at, test_at, set_bits, test_bits, compute_hashes, insert, lookup,
}

get_elem?-set_self :
    (ws : List ℕ) (i v w : ℕ) → get_elem? ws i ≡ some w → get_elem? (set ws i v) i ≡ some v
get_elem?-set_self [] i v w h = ground arith
get_elem?-set_self (x ∷ ws) zero v w h = refl
get_elem?-set_self (x ∷ ws) (suc i) v w h = get_elem?-set_self ws i v w h

get_elem?-set_ne : (ws : List ℕ) (i j v : ℕ) → i ≢ j → get_elem? (set ws i v) j ≡ get_elem? ws j
get_elem?-set_ne [] i j v h = refl
get_elem?-set_ne (x ∷ ws) zero zero v h = absurd (h refl)
get_elem?-set_ne (x ∷ ws) zero (suc j) v h = refl
get_elem?-set_ne (x ∷ ws) (suc i) zero v h = refl
get_elem?-set_ne (x ∷ ws) (suc i) (suc j) v h = get_elem?-set_ne ws i j v (λ e. h (ap suc e))

-- A mask that was added is found.
test_at-or_at_self :
    (ws ws' : List ℕ) (i m : ℕ) → or_at ws i m ≡ some ws' → test_at ws' i m ≡ some true
unfolding or_at test_at
test_at-or_at_self ws ws' i m h = elim (Option-cases (get_elem? ws i)) [
  | inl e ↦ ground arith
  | inr (w, e) ↦ ground (
    arith,
    get_elem?-set_self ws i (bit_or w m) w e,
    bit_or_absorbs_added w m,
    ==_iff (bit_or w m) (bit_or (bit_or w m) m),
  )
]

-- A mask that is found stays, whatever mask is added at whatever word.
test_at-or_at :
    (ws ws' : List ℕ) (i j m n : ℕ)
    → or_at ws j n ≡ some ws'
    → test_at ws i m ≡ some true
    → test_at ws' i m ≡ some true
unfolding or_at test_at
test_at-or_at ws ws' i j m n h k = elim (Option-cases (get_elem? ws i)) [
  | inl e ↦ ground arith
  | inr (w, e) ↦ elim (ℕ_discrete j i) [
    | yes p ↦ ground (
      arith,
      get_elem?-set_self ws i (bit_or w n) w e,
      λ (q : bit_or w m ≡ w). bit_or_keeps w m n q,
      ==_iff w (bit_or w m),
      ==_iff (bit_or w n) (bit_or (bit_or w n) m),
    )
    | no p ↦ elim (Option-cases (get_elem? ws j)) [
      | inl f ↦ ground arith
      | inr (v, f) ↦ ground (arith, get_elem?-set_ne ws j i (bit_or v n) p)
    ]
  ]
]

IsSetAt : List ℕ → ℕ → Type 0
IsSetAt ws h = test_at ws (h / 64) (2 ^ (h % 64)) ≡ some true

set_bits-keeps :
    (hs ws ws' : List ℕ) (h : ℕ) → set_bits ws hs ≡ some ws' → IsSetAt ws h → IsSetAt ws' h
unfolding set_bits IsSetAt
set_bits-keeps [] ws ws' h e k = ground arith
set_bits-keeps (g ∷ hs) ws ws' h e k = elim (Option-cases (or_at ws (g / 64) (2 ^ (g % 64)))) [
  | inl q ↦ ground arith
  | inr (v, q) ↦ set_bits-keeps hs v ws' h (ground arith) (test_at-or_at ws v _ _ _ _ q k)
]

set_bits-sets : (hs ws ws' : List ℕ) → set_bits ws hs ≡ some ws' → All (IsSetAt ws') hs
unfolding set_bits IsSetAt
set_bits-sets [] ws ws' e = tt
set_bits-sets (g ∷ hs) ws ws' e = elim (Option-cases (or_at ws (g / 64) (2 ^ (g % 64)))) [
  | inl q ↦ absurd (ground arith)
  | inr (v, q) ↦
      let e' : set_bits v hs ≡ some ws' = ground arith in
      (set_bits-keeps hs v ws' g e' (test_at-or_at_self ws v _ _ q), set_bits-sets hs v ws' e')
]

test_bits_of_All : (hs ws : List ℕ) → All (IsSetAt ws) hs → test_bits ws hs ≡ some true
unfolding test_bits IsSetAt
test_bits_of_All [] ws k = refl
test_bits_of_All (g ∷ hs) ws k = rw (k.0, test_bits) (test_bits_of_All hs ws k.1)

All-test_bits : (hs ws : List ℕ) → test_bits ws hs ≡ some true → All (IsSetAt ws) hs
unfolding test_bits IsSetAt
All-test_bits [] ws k = tt
All-test_bits (g ∷ hs) ws k = (ground arith, All-test_bits hs ws (ground arith))

All-keeps :
    (gs hs ws ws' : List ℕ) → set_bits ws gs ≡ some ws' → All (IsSetAt ws) hs → All (IsSetAt ws') hs
All-keeps gs [] ws ws' e k = tt
All-keeps gs (h ∷ hs) ws ws' e k = (set_bits-keeps gs ws ws' h e k.0, All-keeps gs hs ws ws' e k.1)

module _ ⦃platform : Platform⦄ where
  -- An insert changes the words alone.
  pub insert_words :
      (f g : BloomFilter) (item : String)
      → insert f item ≡ some g
      → (ws : List ℕ) × (set_bits f.words (compute_hashes f item) ≡ some ws)
        × (g ≡ record f { words = ws })
  unfolding insert
  insert_words f g item h = elim (Option-cases (set_bits f.words (compute_hashes f item))) [
    | inl e ↦ absurd (ground arith)
    | inr (ws, e) ↦ (ws, e, ground arith)
  ]

  -- An item that was inserted is found.
  pub lookup-insert_self :
      (f g : BloomFilter) (item : String) → insert f item ≡ some g → lookup g item ≡ some true
  unfolding lookup compute_hashes
  lookup-insert_self f g item h =
      let (ws, e, p) = insert_words f g item h in
      rw p (test_bits_of_All _ ws (set_bits-sets _ f.words ws e))

  -- An item that was found before the insert of any item is found after it.
  pub lookup-insert_kept :
      (f g : BloomFilter) (item other : String)
      → insert f item ≡ some g
      → lookup f other ≡ some true
      → lookup g other ≡ some true
  unfolding lookup compute_hashes
  lookup-insert_kept f g item other h k =
      let (ws, e, p) = insert_words f g item h in
      rw p (
        test_bits_of_All _ ws
          (All-keeps (compute_hashes f item) _ f.words ws e (All-test_bits _ f.words k)))
