-- ===== src/Tests/Filters.antt =====
-- The Bloom filter at a small size.
use logos_messaging_js.Prelude.{ℕ, ◌≡◌, ◌<◌, ◌*◌, refl, true, false, some, [], ◌∷◌, arith, length}
use logos_messaging_js.Bloom
use logos_messaging_js.Bloom.{
  BloomFilter, BloomFilterOptions, insert, lookup, to_bytes, from_bytes, set_bits, or_at,
  compute_hashes, hashes_from, word_count, test_bits, test_at,
}
use logos_messaging_js.Bloom.Shape.{IsShaped, insert-IsShaped}
use logos_messaging_js.Bloom.Serial.{IsBuiltFrom, from_bytes-to_bytes}
use logos_messaging_js.Tests.Fixtures.{small_platform, small_platform-IsBoundedHash}

abbrev small_options : BloomFilterOptions
small_options = record { capacity = 2; n_bits_per_elem = 50; k_hashes = 3 }

-- The bits 3, 4 and 5.
abbrev one_item : BloomFilter
one_item = record { total_bits = 100; words = 56 ∷ 0 ∷ []; k_hashes = 3 }

-- And 5, 6 and 7.
abbrev two_items : BloomFilter
two_items = record { total_bits = 100; words = 248 ∷ 0 ∷ []; k_hashes = 3 }

insert_first : insert (Bloom.init small_options) "abc" ≡ some one_item
unfolding insert set_bits or_at compute_hashes hashes_from Bloom.init word_count
insert_first = refl

insert_second : insert one_item "abcde" ≡ some two_items
unfolding insert set_bits or_at compute_hashes hashes_from
insert_second = refl

lookup_first : lookup one_item "abc" ≡ some true
unfolding lookup test_bits test_at compute_hashes hashes_from
lookup_first = refl

lookup_absent : lookup one_item "abcde" ≡ some false
unfolding lookup test_bits test_at compute_hashes hashes_from
lookup_absent = refl

two_items-IsShaped : IsShaped two_items
unfolding word_count
two_items-IsShaped = record { counted = refl; sized = (omega arith, (omega arith, tt)) }

insert-IsShaped_example :
    (g : BloomFilter) × (insert two_items "x" ≡ some g)
    × IsShaped g
    × (g.total_bits ≡ two_items.total_bits)
    × (g.k_hashes ≡ two_items.k_hashes)
insert-IsShaped_example =
    insert-IsShaped small_platform-IsBoundedHash two_items "x" (omega arith) two_items-IsShaped

two_items-IsBuiltFrom : IsBuiltFrom small_options two_items
unfolding Bloom.init
two_items-IsBuiltFrom = record { bits = refl; hashes = refl; shaped = two_items-IsShaped }

from_bytes-to_bytes_example : from_bytes (to_bytes two_items) small_options ≡ some two_items
from_bytes-to_bytes_example = from_bytes-to_bytes small_options two_items two_items-IsBuiltFrom

few_bytes : length {A = ℕ} (1 ∷ 2 ∷ []) < 8 * length (Bloom.init small_options).words
unfolding Bloom.init word_count
few_bytes = omega arith
