-- ===== src/Sharding/RelayShard.antt =====
-- packages/utils/src/common/relay_shard_codec.ts: a cluster and its shards in bytes, as a list of
-- indices or, from 64 shards on, as a vector of 1024 bits. `none` is an `Error` or the `RangeError`
-- of a `DataView`.
pub mod Bits
pub mod RoundTrip
use Prim.Native.Nat.{bit_or, bit_and}
use logos_messaging_js.Prelude.{
  ℕ, zero, suc, ◌+◌, ◌-◌, ◌*◌, ◌/◌, ◌%◌, ◌^◌, Bool, true, false, not, Option, none, some, List, [],
  ◌∷◌, ◌++◌, length, get_elem?, set, replicate, get_or, ◌==◌, ltb, leb, if◌then◌else◌,
}
use logos_messaging_js.Prelude.Words.{be_bytes}

pub record ShardInfo : Type 0 where
  pub cluster_id : ℕ
  pub shards : List ℕ

-- `view.getUint8(i / 8) & (1 << (7 - i % 8))` is not 0, over the bytes after the cluster.
unfoldable pub test_bit : List ℕ → ℕ → Bool
test_bit vector i = not (bit_and (get_or vector (i / 8) 0) (2 ^ (7 - i % 8)) == 0)

-- The indices of the bits that are set, among the `n` from index `i` on.
unfoldable pub read_bits : List ℕ → ℕ → ℕ → List ℕ
unfolding test_bit
read_bits vector i zero = []
read_bits vector i (suc n) =
    let rest = read_bits vector (suc i) n in if test_bit vector i then i ∷ rest else rest

-- `n` indices of two bytes each; too few bytes throw.
unfoldable pub read_indices : ℕ → List ℕ → Option (List ℕ)
read_indices zero bytes = some []
read_indices (suc n) (a ∷ b ∷ bytes) = elim (read_indices n bytes) [
  | none ↦ none
  | some rest ↦ some ((a * 256 + b) ∷ rest)
]
read_indices (suc n) bytes = none

unfoldable pub decode_body : ℕ → List ℕ → Option (List ℕ)
unfolding read_bits read_indices
decode_body total [] = none
decode_body total (count ∷ rest) =
    if total == 130 then some (read_bits (count ∷ rest) 0 1024) else read_indices count rest

unfoldable pub with_cluster : ℕ → Option (List ℕ) → Option ShardInfo
with_cluster cluster none = none
with_cluster cluster (some shards) = some (record { cluster_id = cluster; shards = shards })

-- Fewer than three bytes throw.
unfoldable pub decode_relay_shard : List ℕ → Option ShardInfo
unfolding decode_body with_cluster
decode_relay_shard (a ∷ b ∷ body) = with_cluster (a * 256 + b) (decode_body (length body + 2) body)
decode_relay_shard bytes = none

-- `view.setUint8(i / 8, view.getUint8(i / 8) | (1 << (7 - i % 8)))`; outside the vector it throws.
unfoldable pub set_bit : List ℕ → ℕ → Option (List ℕ)
set_bit vector i = elim (get_elem? vector (i / 8)) [
  | none ↦ none
  | some b ↦ some (set vector (i / 8) (bit_or b (2 ^ (7 - i % 8))))
]

unfoldable pub write_bits : List ℕ → List ℕ → Option (List ℕ)
unfolding set_bit
write_bits vector [] = some vector
write_bits vector (i ∷ shards) = elim (set_bit vector i) [
  | none ↦ none
  | some vector' ↦ write_bits vector' shards
]

-- `view.setUint16` keeps the lowest 16 bits.
unfoldable pub write_indices : List ℕ → List ℕ
write_indices [] = []
write_indices (i ∷ shards) = be_bytes 2 i ++ write_indices shards

unfoldable pub encode_relay_shard : ShardInfo → Option (List ℕ)
unfolding write_bits write_indices
encode_relay_shard info =
    if leb 64 (length info.shards)
    then elim (write_bits (replicate 128 0) info.shards) [
      | none ↦ none
      | some vector ↦ some (be_bytes 2 info.cluster_id ++ vector)
    ]
    else some (be_bytes 2 info.cluster_id ++ length info.shards % 256 ∷ write_indices info.shards)
