-- ===== src/Bloom/Shape.antt =====
-- The shape of a filter: enough words for its bits, each a 64-bit word. Inserts keep it, and under
-- it no read or write leaves the array.
use Prim.Native.Nat.{bit_or}
use native.Mathlib.Nat.{pow-suc, pow-le-pow_right}
use mathlib.Core.Path.{subst}
use logos_messaging_js.Prelude.{
  ℕ, zero, suc, ◌*◌, ◌/◌, ◌%◌, ◌^◌, ◌<◌, ◌≡◌, refl, Bool, true, false, some, List, [], ◌∷◌, String,
  length, get_elem?, set, replicate, All, arith, inl, inr, ap, ◌==◌, Bool-cases,
}
use logos_messaging_js.Prelude.Bits.{bit_or_low}
use logos_messaging_js.Platform.{Platform, IsBoundedHash}
use logos_messaging_js.Bloom.{
  BloomFilter, BloomFilterOptions, word_count, init, or_at, test_at, set_bits, test_bits,
  hashes_from, compute_hashes, insert, lookup,
}

pub record IsShaped (f : BloomFilter) : Type 0 where
  pub counted : length f.words ≡ word_count f.total_bits
  pub sized : All (λ w. w < 256 ^ 8) f.words

bit_or-lt : (k a b : ℕ) → a < 2 ^ k → b < 2 ^ k → bit_or a b < 2 ^ k
bit_or-lt zero a b h k =
    let p : a ≡ 0 = omega arith in let q : b ≡ 0 = omega arith in rw (p, q) (omega arith)
bit_or-lt (suc n) a b h k = omega (
  arith,
  pow-suc 2 n,
  bit_or_low a b,
  bit_or-lt n (a / 2) (b / 2) (omega (arith, pow-suc 2 n)) (omega (arith, pow-suc 2 n)),
)

-- A mask of one bit below the 64th fits a word.
mask_fits : (h : ℕ) → 2 ^ (h % 64) < 256 ^ 8
mask_fits h =
    omega (arith, pow-le-pow_right {n = 2} (omega arith) {i = h % 64} {j = 63} (omega arith))

length-set : (ws : List ℕ) (i v : ℕ) → length (set ws i v) ≡ length ws
length-set [] i v = refl
length-set (w ∷ ws) zero v = refl
length-set (w ∷ ws) (suc i) v = ap suc (length-set ws i v)

get_elem?_below : (ws : List ℕ) (i : ℕ) → i < length ws → (w : ℕ) × (get_elem? ws i ≡ some w)
get_elem?_below [] i h = absurd (omega arith)
get_elem?_below (w ∷ ws) zero h = (w, refl)
get_elem?_below (w ∷ ws) (suc i) h = get_elem?_below ws i (omega arith)

module _ (P : ℕ → Type 0) where
  All-set : (ws : List ℕ) (i v : ℕ) → All P ws → P v → All P (set ws i v)
  All-set [] i v h k = tt
  All-set (w ∷ ws) zero v h k = (k, h.1)
  All-set (w ∷ ws) (suc i) v h k = (h.0, All-set ws i v h.1 k)

  All-get : (ws : List ℕ) (i w : ℕ) → All P ws → get_elem? ws i ≡ some w → P w
  All-get [] i w h e = absurd (ground arith)
  All-get (x ∷ ws) zero w h e = (let p : x ≡ w = ground arith in subst P p h.0)
  All-get (x ∷ ws) (suc i) w h e = All-get ws i w h.1 e

abbrev IsWord : ℕ → Type 0
IsWord w = w < 256 ^ 8

or_at-IsShaped :
    (ws : List ℕ) (i m : ℕ)
    → All IsWord ws
    → i < length ws
    → m < 256 ^ 8
    → (ws' : List ℕ) × (or_at ws i m ≡ some ws') × (length ws' ≡ length ws) × All IsWord ws'
unfolding or_at
or_at-IsShaped ws i m sized below fits =
    let (w, e) = get_elem?_below ws i below in
    (
      set ws i (bit_or w m),
      rw (e, or_at),
      length-set ws i _,
      All-set IsWord ws i _ sized (bit_or-lt 64 w m (All-get IsWord ws i w sized e) fits),
    )

set_bits-IsShaped :
    (bits : ℕ) (hs ws : List ℕ)
    → All (λ h. h < bits) hs
    → length ws ≡ word_count bits
    → All IsWord ws
    → (ws' : List ℕ) × (set_bits ws hs ≡ some ws') × (length ws' ≡ word_count bits) × All IsWord ws'
unfolding set_bits word_count
set_bits-IsShaped bits [] ws below counted sized = (ws, refl, counted, sized)
set_bits-IsShaped bits (h ∷ hs) ws below counted sized =
    let (v, e, n, s) =
      or_at-IsShaped ws (h / 64) (2 ^ (h % 64)) sized (omega arith) (mask_fits h) in
    let (ws', e', n', s') = set_bits-IsShaped bits hs v below.1 (omega arith) s in
    (ws', rw (e, set_bits) e', n', s')

test_bits_total :
    (bits : ℕ) (hs ws : List ℕ)
    → All (λ h. h < bits) hs
    → length ws ≡ word_count bits
    → (b : Bool) × (test_bits ws hs ≡ some b)
unfolding test_bits word_count test_at
test_bits_total bits [] ws below counted = (true, refl)
test_bits_total bits (h ∷ hs) ws below counted =
    let (w, e) = get_elem?_below ws (h / 64) (omega arith) in
    let (b, k) = test_bits_total bits hs ws below.1 counted in
    elim (Bool-cases (w == bit_or w (2 ^ (h % 64)))) [
      | inl t ↦ (b, rw (e, test_bits) (rw t k))
      | inr f ↦ (false, rw (e, test_bits) (rw f))
    ]

module _ ⦃platform : Platform⦄ (bounded : IsBoundedHash platform) where
  hashes_below :
      (item : String) (bits n k : ℕ) → 0 < bits → All (λ h. h < bits) (hashes_from item bits n k)
  unfolding hashes_from
  hashes_below item bits n zero pos = tt
  hashes_below item bits n (suc k) pos =
      (bounded.below item n bits pos, hashes_below item bits (suc n) k pos)

  module _ (f : BloomFilter) (item : String) (pos : 0 < f.total_bits) (shape : IsShaped f) where
    -- With a hash below its maximum, an insert into a filter of its shape that has bits never
    -- leaves the array: it returns a filter of the same shape, with the same number of bits and
    -- hashes and words of 64 bits.
    pub insert-IsShaped :
        (g : BloomFilter) × (insert f item ≡ some g)
        × IsShaped g
        × (g.total_bits ≡ f.total_bits)
        × (g.k_hashes ≡ f.k_hashes)
    unfolding insert compute_hashes
    insert-IsShaped =
        let hs = hashes_from item f.total_bits 0 f.k_hashes in
        let (ws, e, n, s) =
          set_bits-IsShaped f.total_bits hs f.words
            (hashes_below item f.total_bits 0 f.k_hashes pos) shape.counted shape.sized in
        (record f { words = ws }, rw (e, insert), record { counted = n; sized = s }, refl, refl)

    -- A lookup answers.
    pub lookup_total : (b : Bool) × (lookup f item ≡ some b)
    unfolding lookup compute_hashes
    lookup_total =
        test_bits_total f.total_bits _ f.words (hashes_below item f.total_bits 0 f.k_hashes pos)
          shape.counted

length-replicate : (n w : ℕ) → length (replicate n w) ≡ n
length-replicate zero w = refl
length-replicate (suc n) w = ap suc (length-replicate n w)

All-replicate : (n : ℕ) → All IsWord (replicate n 0)
All-replicate zero = tt
All-replicate (suc n) = (omega arith, All-replicate n)

pub init-IsShaped : (options : BloomFilterOptions) → IsShaped (init options)
unfolding init
init-IsShaped options = record {
  counted = length-replicate _ 0;
  sized = All-replicate (word_count (options.capacity * options.n_bits_per_elem));
}
