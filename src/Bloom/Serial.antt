-- ===== src/Bloom/Serial.antt =====
-- A filter sent as bytes is read back as it was.
use logos_messaging_js.Prelude.{
  ℕ, zero, suc, ◌*◌, ◌^◌, ◌<◌, ◌≡◌, refl, ap, true, none, some, List, [], ◌∷◌, ◌++◌, length,
  length-append, take, drop, leb, All, arith, sym, ◌∙◌, Bool-cases, inl, inr, leb→le, length-drop,
}
use logos_messaging_js.Prelude.Words.{
  be_bytes, length-be_bytes, be_read-be_bytes, take-append_length, drop-append_length,
}
use logos_messaging_js.Bloom.{
  BloomFilter, BloomFilterOptions, word_count, init, words_bytes, to_bytes, read_words, from_bytes,
}
use logos_messaging_js.Bloom.Shape.{IsShaped, init-IsShaped}

length-word : (w : ℕ) (rest : List ℕ) → leb 8 (length (be_bytes 8 w ++ rest)) ≡ true
length-word w rest = ground (arith, length-append (be_bytes 8 w) rest, length-be_bytes 8 w)

take-word : (w : ℕ) (rest : List ℕ) → take 8 (be_bytes 8 w ++ rest) ≡ be_bytes 8 w
take-word w rest = rw (length-be_bytes 8 w) at (take-append_length (be_bytes 8 w) rest)

drop-word : (w : ℕ) (rest : List ℕ) → drop 8 (be_bytes 8 w ++ rest) ≡ rest
drop-word w rest = rw (length-be_bytes 8 w) at (drop-append_length (be_bytes 8 w) rest)

read_words-words_bytes :
    (ws : List ℕ) → All (λ w. w < 256 ^ 8) ws → read_words (length ws) (words_bytes ws) ≡ some ws
unfolding read_words words_bytes
read_words-words_bytes [] sized = refl
read_words-words_bytes (w ∷ ws) sized =
    rw (drop-word w (words_bytes ws), read_words-words_bytes ws sized.1)
      (rw (
        length-word w (words_bytes ws),
        take-word w (words_bytes ws),
        be_read-be_bytes 8 w sized.0,
      ))

read_words_short : (n : ℕ) (bytes : List ℕ) → length bytes < 8 * n → read_words n bytes ≡ none
unfolding read_words
read_words_short zero bytes h = absurd (omega arith)
read_words_short (suc n) bytes h = elim (Bool-cases (leb 8 (length bytes))) [
  | inl enough ↦ rw (
      read_words_short n (drop 8 bytes)
        (omega (arith, length-drop 8 bytes, leb→le 8 (length bytes) enough)))
  | inr few ↦ ground (arith, few)
]

-- A filter that was built from the options and has their shape.
pub record IsBuiltFrom (options : BloomFilterOptions) (f : BloomFilter) : Type 0 where
  pub bits : f.total_bits ≡ (init options).total_bits
  pub hashes : f.k_hashes ≡ (init options).k_hashes
  pub shaped : IsShaped f

-- The bytes of a filter that was built from some options, read under the same options, give the
-- same filter.
pub from_bytes-to_bytes :
    (options : BloomFilterOptions) (f : BloomFilter)
    → IsBuiltFrom options f
    → from_bytes (to_bytes f) options ≡ some f
unfolding from_bytes to_bytes
from_bytes-to_bytes options f built =
    let same : length (init options).words ≡ length f.words =
      (init-IsShaped options).counted ∙ sym (built.shaped.counted ∙ ap word_count built.bits) in
    let read : read_words (length (init options).words) (words_bytes f.words) ≡ some f.words =
      rw same (read_words-words_bytes f.words built.shaped.sized) in
    rw (read, from_bytes)
      (λ i.
        some (record {
          total_bits = sym built.bits i;
          words = f.words;
          k_hashes = sym built.hashes i;
        }))

-- Bytes that are too few for the words of the options make fromBytes throw.
pub from_bytes_short :
    (options : BloomFilterOptions) (bytes : List ℕ)
    → length bytes < 8 * length (init options).words
    → from_bytes bytes options ≡ none
unfolding from_bytes
from_bytes_short options bytes h =
    rw (read_words_short (length (init options).words) bytes h, from_bytes)
