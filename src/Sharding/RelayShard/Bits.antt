-- ===== src/Sharding/RelayShard/Bits.antt =====
-- Setting and testing the bits of the vector.
use Prim.Native.Nat.{bit_or, bit_and}
use logos_messaging_js.Prelude.{
  ℕ, zero, suc, ◌+◌, ◌-◌, ◌/◌, ◌%◌, ◌^◌, ◌<◌, ◌≤◌, ◌≡◌, refl, ap, Bool, true, false, not, ◌&&◌,
  ◌||◌, none, some, List, [], ◌∷◌, length, get_elem?, set, get_or, any, All, ◌==◌, ==_iff, ltb, leb,
  leb→le, if◌then◌else◌, arith, Bool-cases, inl, inr, ◌∙◌, sym,
}
use logos_messaging_js.Sharding.RelayShard.{test_bit, set_bit, write_bits}

-- `count` numbers from `i` on pass the test. The facts on bytes below are tables that are run.
each_from : (ℕ → Bool) → ℕ → ℕ → Bool
each_from test i zero = true
each_from test i (suc count) = if test i then each_from test (suc i) count else false

each_from_lem :
    (test : ℕ → Bool) (count i x : ℕ)
    → each_from test i count ≡ true
    → i ≤ x
    → x < i + count
    → test x ≡ true
unfolding each_from
each_from_lem test zero i x passed low high = absurd (omega arith)
each_from_lem test (suc count) i x passed low high = elim (Bool-cases (i == x)) [
  | inl here ↦ rw (← (==_iff i x).0 here) (ground (arith, passed))
  | inr later ↦
      each_from_lem test count (suc i) x (ground (arith, passed)) (ground arith) (omega arith)
]

abbrev has_bit : ℕ → ℕ → Bool
has_bit b k = not (bit_and b (2 ^ k) == 0)

abbrev same : Bool → Bool → Bool
same true b = b
same false b = not b

abbrev set_table : ℕ → Bool
set_table b =
    each_from
      (λ k.
        ltb (bit_or b (2 ^ k)) 256
        && each_from (λ j. same (has_bit (bit_or b (2 ^ k)) j) (has_bit b j || (k == j))) 0 8)
      0 8

set_table_holds : each_from set_table 0 256 ≡ true
unfolding each_from
set_table_holds = refl

has_bit-set :
    (b k j : ℕ)
    → b < 256
    → k < 8
    → j < 8
    → (has_bit (bit_or b (2 ^ k)) j ≡ (has_bit b j || (k == j))) × (bit_or b (2 ^ k) < 256)
has_bit-set b k j h hk hj =
    let row = each_from_lem set_table 256 0 b set_table_holds (omega arith) (omega arith) in
    let cell = each_from_lem _ 8 0 k row (omega arith) (omega arith) in
    let bit : ℕ → Bool = λ j. same (has_bit (bit_or b (2 ^ k)) j) (has_bit b j || (k == j)) in
    ground (arith, cell, each_from_lem bit 8 0 j)

-- A vector of 128 bytes.
pub record IsVector (vector : List ℕ) : Type 0 where
  pub counted : length vector ≡ 128
  pub bytes : All (λ b. b < 256) vector

get_or-set :
    (xs : List ℕ) (i j v : ℕ)
    → i < length xs
    → get_or (set xs i v) j 0 ≡ (if i == j then v else get_or xs j 0)
get_or-set [] i j v h = absurd (omega arith)
get_or-set (x ∷ xs) zero zero v h = refl
get_or-set (x ∷ xs) zero (suc j) v h = ground arith
get_or-set (x ∷ xs) (suc i) zero v h = ground arith
get_or-set (x ∷ xs) (suc i) (suc j) v h = ground (arith, get_or-set xs i j v)

All-set : (P : ℕ → Type 0) (xs : List ℕ) (i v : ℕ) → P v → All P xs → All P (set xs i v)
All-set P [] i v h k = k
All-set P (x ∷ xs) zero v h k = (h, k.1)
All-set P (x ∷ xs) (suc i) v h k = (k.0, All-set P xs i v h k.1)

length-set : (xs : List ℕ) (i v : ℕ) → length (set xs i v) ≡ length xs
length-set [] i v = refl
length-set (x ∷ xs) zero v = refl
length-set (x ∷ xs) (suc i) v = omega (arith, length-set xs i v)

-- A byte inside the vector.
byte_at :
    (xs : List ℕ) (i : ℕ)
    → All (λ b. b < 256) xs
    → i < length xs
    → (b : ℕ) × (get_elem? xs i ≡ some b) × (get_or xs i 0 ≡ b) × (b < 256)
byte_at [] i h lt = absurd (omega arith)
byte_at (x ∷ xs) zero h lt = (x, refl, refl, h.0)
byte_at (x ∷ xs) (suc i) h lt = byte_at xs i h.1 (omega arith)

byte_outside : (xs : List ℕ) (i : ℕ) → length xs ≤ i → get_elem? xs i ≡ none
byte_outside [] i h = refl
byte_outside (x ∷ xs) zero h = absurd (omega arith)
byte_outside (x ∷ xs) (suc i) h = byte_outside xs i (omega arith)

same_bit : (i j : ℕ) → i / 8 ≡ j / 8 → (7 - i % 8 == 7 - j % 8) ≡ (i == j)
same_bit i j e = ground (arith, e)

other_byte : (i j : ℕ) → (i / 8 == j / 8) ≡ false → (i == j) ≡ false
other_byte i j e = ground arith

test_bit-set :
    (vector : List ℕ) (i j b : ℕ)
    → i / 8 < length vector
    → get_or vector (i / 8) 0 ≡ b
    → b < 256
    → test_bit (set vector (i / 8) (bit_or b (2 ^ (7 - i % 8)))) j ≡ (test_bit vector j || (i == j))
unfolding test_bit
test_bit-set vector i j b inside at small =
    let (table, _) = has_bit-set b (7 - i % 8) (7 - j % 8) small (omega arith) (omega arith) in
    let written = get_or-set vector (i / 8) (j / 8) (bit_or b (2 ^ (7 - i % 8))) inside in
    elim (Bool-cases (i / 8 == j / 8)) [
      | inl e ↦
          let q = (==_iff (i / 8) (j / 8)).0 e in
          let here : get_or vector (j / 8) 0 ≡ b = ap (λ x. get_or vector x 0) (sym q) ∙ at in
          rw (written, e) (rw here (table ∙ ap (λ z. has_bit b (7 - j % 8) || z) (same_bit i j q)))
      | inr e ↦ rw (written, e) (ground (arith, other_byte i j e))
    ]

-- Below 1024 an index sets its own bit and no other.
pub set_bit_lem :
    (vector : List ℕ) (i : ℕ)
    → IsVector vector
    → i < 1024
    → (vector' : List ℕ) × (set_bit vector i ≡ some vector')
      × IsVector vector'
      × ((j : ℕ) → test_bit vector' j ≡ (test_bit vector j || (i == j)))
unfolding set_bit
set_bit_lem vector i v lt =
    let inside : i / 8 < length vector = omega (arith, v.counted) in
    let (b, at, or, small) = byte_at vector (i / 8) v.bytes inside in
    let b' = bit_or b (2 ^ (7 - i % 8)) in
    (
      set vector (i / 8) b',
      rw (at, set_bit) refl,
      record {
        counted = length-set vector (i / 8) b' ∙ v.counted;
        bytes =
            All-set (λ b. b < 256) vector (i / 8) b'
              (has_bit-set b (7 - i % 8) 0 small (omega arith) (omega arith)).1 v.bytes;
      },
      λ j. test_bit-set vector i j b inside or small,
    )

pub set_bit_outside :
    (vector : List ℕ) (i : ℕ) → IsVector vector → 1024 ≤ i → set_bit vector i ≡ none
unfolding set_bit
set_bit_outside vector i v h =
    rw (byte_outside vector (i / 8) (omega (arith, v.counted)), set_bit) refl

-- The whole loop: with every index below 1024 it ends, and sets the bits of the indices.
pub write_bits_lem :
    (shards vector : List ℕ)
    → IsVector vector
    → All (λ i. i < 1024) shards
    → (vector' : List ℕ) × (write_bits vector shards ≡ some vector')
      × IsVector vector'
      × ((j : ℕ) → test_bit vector' j ≡ (test_bit vector j || any (λ i. i == j) shards))
unfolding write_bits
write_bits_lem [] vector v h = (vector, refl, v, λ j. ground arith)
write_bits_lem (i ∷ shards) vector v h =
    let (next, one, w, bit) = set_bit_lem vector i v h.0 in
    let (last, rest, u, bits) = write_bits_lem shards next w h.1 in
    (last, rw (one, write_bits) rest, u, λ j. ground (arith, bits j, bit j))

-- One index outside makes it throw.
pub write_bits_outside :
    (shards vector : List ℕ)
    → IsVector vector
    → any (λ i. leb 1024 i) shards ≡ true
    → write_bits vector shards ≡ none
unfolding write_bits
write_bits_outside [] vector v h = absurd (ground arith)
write_bits_outside (i ∷ shards) vector v h = elim (Bool-cases (leb 1024 i)) [
  | inl out ↦ rw (set_bit_outside vector i v (leb→le 1024 i out), write_bits) refl
  | inr fine ↦
      let (next, one, w, bit) = set_bit_lem vector i v (ground arith) in
      rw (one, write_bits) (write_bits_outside shards next w (ground arith))
]
