-- ===== src/Bloom.antt =====
-- packages/sds/src/bloom_filter/bloom.ts. `data` is an array of 64-bit words. Reading or writing
-- past its end mixes `undefined` with a bigint, which throws: `none`.
pub mod Membership
pub mod Shape
pub mod Serial
use Prim.Native.Nat.{bit_or}
use logos_messaging_js.Prelude.{
  ℕ, zero, suc, ◌+◌, ◌*◌, ◌/◌, ◌%◌, ◌^◌, Bool, true, false, Option, none, some, List, [], ◌∷◌, ◌++◌,
  String, length, get_elem?, set, take, drop, replicate, ◌==◌, leb, if◌then◌else◌,
}
use logos_messaging_js.Platform.{Platform}
use logos_messaging_js.Prelude.Words.{be_bytes, be_read}

pub record BloomFilter : Type 0 where
  pub total_bits : ℕ
  pub words : List ℕ
  pub k_hashes : ℕ

-- The sizes that the constructor derives from the options: how many elements, bits for each, and
-- hash functions. (`DEFAULT_BLOOM_FILTER_OPTIONS`, 10000 at 0.001, gives 15 bits and 10 hashes.)
pub record BloomFilterOptions : Type 0 where
  pub capacity : ℕ
  pub n_bits_per_elem : ℕ
  pub k_hashes : ℕ

abbrev pub default_bloom_filter_options : BloomFilterOptions
default_bloom_filter_options = record { capacity = 10000; n_bits_per_elem = 15; k_hashes = 10 }

-- `mInts`
unfoldable pub word_count : ℕ → ℕ
word_count total_bits = suc (total_bits / 64)

unfoldable pub init : BloomFilterOptions → BloomFilter
unfolding word_count
init options = record {
  total_bits = options.capacity * options.n_bits_per_elem;
  words = replicate (word_count (options.capacity * options.n_bits_per_elem)) 0;
  k_hashes = options.k_hashes;
}

-- `data[i] = data[i] | m`
unfoldable pub or_at : List ℕ → ℕ → ℕ → Option (List ℕ)
or_at words i m = elim (get_elem? words i) [
  | none ↦ none
  | some w ↦ some (set words i (bit_or w m))
]

-- `!(data[i] != (data[i] | m))`
unfoldable pub test_at : List ℕ → ℕ → ℕ → Option Bool
test_at words i m = elim (get_elem? words i) [ none ↦ none | some w ↦ some (w == bit_or w m) ]

-- The loop of `insert`.
unfoldable pub set_bits : List ℕ → List ℕ → Option (List ℕ)
unfolding or_at
set_bits words [] = some words
set_bits words (h ∷ hs) = elim (or_at words (h / 64) (2 ^ (h % 64))) [
  | none ↦ none
  | some words' ↦ set_bits words' hs
]

-- The loop of `lookup`.
unfoldable pub test_bits : List ℕ → List ℕ → Option Bool
unfolding test_at
test_bits words [] = some true
test_bits words (h ∷ hs) = elim (test_at words (h / 64) (2 ^ (h % 64))) [
  | none ↦ none
  | some true ↦ test_bits words hs
  | some false ↦ some false
]

module _ ⦃platform : Platform⦄ where
  -- The hashes `n` to `n + k - 1`.
  unfoldable pub hashes_from : String → ℕ → ℕ → ℕ → List ℕ
  hashes_from item total_bits n zero = []
  hashes_from item total_bits n (suc k) =
      platform.hash_n item n total_bits ∷ hashes_from item total_bits (suc n) k

  unfoldable pub compute_hashes : BloomFilter → String → List ℕ
  unfolding hashes_from
  compute_hashes f item = hashes_from item f.total_bits 0 f.k_hashes

  unfoldable pub insert : BloomFilter → String → Option BloomFilter
  insert f item = elim (set_bits f.words (compute_hashes f item)) [
    | none ↦ none
    | some words ↦ some (record f { words = words })
  ]

  unfoldable pub lookup : BloomFilter → String → Option Bool
  lookup f item = test_bits f.words (compute_hashes f item)

-- `view.setBigInt64` of each word: the lowest 64 bits, the highest byte first.
unfoldable pub words_bytes : List ℕ → List ℕ
words_bytes [] = []
words_bytes (w ∷ ws) = be_bytes 8 w ++ words_bytes ws

unfoldable pub to_bytes : BloomFilter → List ℕ
to_bytes f = words_bytes f.words

-- `view.getBigUint64` of `n` words in a row; past the end of the bytes it throws: `none`.
unfoldable pub read_words : ℕ → List ℕ → Option (List ℕ)
read_words zero bytes = some []
read_words (suc n) bytes = elim (read_words n (drop 8 bytes)) [
  | none ↦ none
  | some ws ↦ if leb 8 (length bytes) then some (be_read 0 (take 8 bytes) ∷ ws) else none
]

unfoldable pub from_bytes : List ℕ → BloomFilterOptions → Option BloomFilter
from_bytes bytes options = elim (read_words (length (init options).words) bytes) [
  | none ↦ none
  | some words ↦ some (record (init options) { words = words })
]
