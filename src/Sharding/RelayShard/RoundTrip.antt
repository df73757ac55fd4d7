-- ===== src/Sharding/RelayShard/RoundTrip.antt =====
-- What `decodeRelayShard` makes of the bytes of `encodeRelayShard`.
use Prim.Native.Nat.{bit_and-bitwise}
use logos_messaging_js.Prelude.{
  ℕ, zero, suc, ◌+◌, ◌-◌, ◌*◌, ◌/◌, ◌%◌, ◌^◌, ◌<◌, ◌≤◌, ◌≡◌, refl, ap, Bool, true, false, none,
  some, List, [], ◌∷◌, ◌++◌, length, length-append, replicate, get_or, any, All, map, filter, ◌==◌,
  leb, arith, ◌∙◌,
}
use logos_messaging_js.Prelude.Words.{be_bytes, length-be_bytes}
use logos_messaging_js.Sharding.RelayShard.{
  ShardInfo, test_bit, read_bits, read_indices, decode_body, with_cluster, decode_relay_shard,
  write_indices, encode_relay_shard,
}
use logos_messaging_js.Sharding.RelayShard.Bits.{IsVector, write_bits_lem, write_bits_outside}

-- The two bytes of a 16-bit number.
two_bytes : (n : ℕ) → be_bytes 2 n ≡ (n / 256 % 256) ∷ (n % 256) ∷ []
unfolding be_bytes
two_bytes n = refl

two_bytes_value : (n : ℕ) → n / 256 % 256 * 256 + n % 256 ≡ n % 65536
two_bytes_value n = omega arith

read_indices-write_indices :
    (shards : List ℕ)
    → read_indices (length shards) (write_indices shards) ≡ some (map (λ s. s % 65536) shards)
unfolding read_indices write_indices
read_indices-write_indices [] = refl
read_indices-write_indices (s ∷ shards) =
    rw (two_bytes s, read_indices-write_indices shards, two_bytes_value s) refl

length-write_indices : (shards : List ℕ) → length (write_indices shards) ≡ 2 * length shards
unfolding write_indices
length-write_indices [] = omega arith
length-write_indices (s ∷ shards) = omega (
  arith,
  length-append (be_bytes 2 s) (write_indices shards),
  length-be_bytes 2 s,
  length-write_indices shards,
)

-- With fewer than 64 shards, decodeRelayShard reads from the bytes of encodeRelayShard the cluster
-- and the shards in their order, each number modulo 65536.
pub decode-encode_list :
    (info : ShardInfo)
    → length info.shards < 64
    → (bytes : List ℕ) × (encode_relay_shard info ≡ some bytes)
      × (decode_relay_shard bytes
          ≡ some (record {
            cluster_id = info.cluster_id % 65536;
            shards = map (λ s. s % 65536) info.shards;
          }))
unfolding encode_relay_shard decode_relay_shard decode_body with_cluster
decode-encode_list info few =
    let n = length info.shards in
    let body = (n % 256) ∷ write_indices info.shards in
    let listed : leb 64 n ≡ false = ground arith in
    let odd : (length body + 2 == 130) ≡ false = ground (arith, length-write_indices info.shards) in
    let small : n % 256 ≡ n = omega arith in
    (
      be_bytes 2 info.cluster_id ++ body,
      rw listed refl,
      rw (two_bytes info.cluster_id) (
          rw odd (
            rw (small, read_indices-write_indices info.shards, two_bytes_value info.cluster_id)
              refl)),
    )

replicate_byte : (n i : ℕ) → get_or {A = ℕ} (replicate n 0) i 0 ≡ 0
replicate_byte zero i = refl
replicate_byte (suc n) zero = refl
replicate_byte (suc n) (suc i) = replicate_byte n i

All-replicate : (n : ℕ) → All (λ b. b < 256) (replicate n 0)
All-replicate zero = tt
All-replicate (suc n) = (omega arith, All-replicate n)

length-replicate : (n : ℕ) → length {A = ℕ} (replicate n 0) ≡ n
length-replicate zero = refl
length-replicate (suc n) = ap suc (length-replicate n)

empty-IsVector : IsVector (replicate 128 0)
empty-IsVector = record { counted = length-replicate 128; bytes = All-replicate 128 }

no_bit : (j : ℕ) → test_bit (replicate 128 0) j ≡ false
unfolding test_bit
no_bit j = rw (replicate_byte 128 (j / 8)) (ground (arith, bit_and-bitwise 0 (2 ^ (7 - j % 8))))

-- The numbers from `i` on, `n` of them.
unfoldable pub range_from : ℕ → ℕ → List ℕ
range_from i zero = []
range_from i (suc n) = i ∷ range_from (suc i) n

read_bits-eq-filter :
    (vector : List ℕ) (p : ℕ → Bool)
    → ((j : ℕ) → test_bit vector j ≡ p j)
    → (i n : ℕ) → read_bits vector i n ≡ filter p (range_from i n)
unfolding read_bits range_from
read_bits-eq-filter vector p same i zero = refl
read_bits-eq-filter vector p same i (suc n) =
    ground (arith, same i, read_bits-eq-filter vector p same (suc i) n)

decode-vector :
    (cluster : ℕ) (vector : List ℕ)
    → length vector ≡ 128
    → decode_relay_shard (be_bytes 2 cluster ++ vector)
      ≡ some (record { cluster_id = cluster % 65536; shards = read_bits vector 0 1024 })
unfolding decode_relay_shard decode_body with_cluster
decode-vector cluster [] e = absurd (omega (arith, e))
decode-vector cluster (b ∷ vector) e =
    let long : (length (b ∷ vector) + 2 == 130) ≡ true = ground (arith, e) in
    rw (two_bytes cluster) (rw long (rw (two_bytes_value cluster) refl))

-- From 64 shards on, all of them below 1024, decodeRelayShard reads from the bytes of
-- encodeRelayShard the cluster modulo 65536 and the shards in increasing order, each once.
pub decode-encode_vector :
    (info : ShardInfo)
    → 64 ≤ length info.shards
    → All (λ s. s < 1024) info.shards
    → (bytes : List ℕ) × (encode_relay_shard info ≡ some bytes)
      × (decode_relay_shard bytes
          ≡ some (record {
            cluster_id = info.cluster_id % 65536;
            shards = filter (λ j. any (λ s. s == j) info.shards) (range_from 0 1024);
          }))
unfolding encode_relay_shard
decode-encode_vector info many small =
    let (vector, written, v, bits) =
      write_bits_lem info.shards (replicate 128 0) empty-IsVector small in
    let long : leb 64 (length info.shards) ≡ true = ground arith in
    let members =
      read_bits-eq-filter vector (λ j. any (λ s. s == j) info.shards)
        (λ j. bits j ∙ rw (no_bit j) refl) 0 1024 in
    (
      be_bytes 2 info.cluster_id ++ vector,
      rw (long, written) refl,
      decode-vector info.cluster_id vector v.counted ∙ rw members refl,
    )

-- From 64 shards on one index past the vector makes `encodeRelayShard` throw.
pub encode_outside :
    (info : ShardInfo)
    → 64 ≤ length info.shards
    → any (λ s. leb 1024 s) info.shards ≡ true
    → encode_relay_shard info ≡ none
unfolding encode_relay_shard
encode_outside info many out =
    let long : leb 64 (length info.shards) ≡ true = ground arith in
    rw (long, write_bits_outside info.shards (replicate 128 0) empty-IsVector out) refl
