-- ===== src/Tests/Codecs.antt =====
-- Shards and addresses in bytes.
use logos_messaging_js.Prelude.{
  ℕ, suc, ◌+◌, ◌%◌, ◌<◌, ◌≤◌, ◌≡◌, refl, false, some, List, [], ◌∷◌, ◌++◌, map, filter, any, All,
  ◌==◌, length, arith, zero,
}
use logos_messaging_js.Sharding.RelayShard.{ShardInfo, encode_relay_shard, decode_relay_shard}
use logos_messaging_js.Sharding.RelayShard.RoundTrip.{
  decode-encode_list, decode-encode_vector, range_from,
}
use logos_messaging_js.Enr.Multiaddrs.{Uint8Array, Library, encode_multiaddrs, decode_multiaddrs}
use logos_messaging_js.Enr.Multiaddrs.RoundTrip.{decode_multiaddrs-encode_multiaddrs}

abbrev three_shards : ShardInfo
three_shards = record { cluster_id = 16; shards = 2 ∷ 4 ∷ 300 ∷ [] }

decode-encode_list_example :
    (bytes : List ℕ) × (encode_relay_shard three_shards ≡ some bytes)
    × (decode_relay_shard bytes
        ≡ some
            (record { cluster_id = 16 % 65536; shards = map (λ s. s % 65536) (2 ∷ 4 ∷ 300 ∷ []) }))
decode-encode_list_example = decode-encode_list three_shards (omega arith)

abbrev many_shards : ShardInfo
many_shards = record { cluster_id = 1; shards = range_from 10 70 }

range_from-All : (i n : ℕ) → i + n ≤ 1024 → All (λ s. s < 1024) (range_from i n)
unfolding range_from
range_from-All i zero h = tt
range_from-All i (suc n) h = (omega arith, range_from-All (suc i) n (omega arith))

length-range_from : (i n : ℕ) → length (range_from i n) ≡ n
unfolding range_from
length-range_from i zero = refl
length-range_from i (suc n) = omega (arith, length-range_from (suc i) n)

decode-encode_vector_example :
    (bytes : List ℕ) × (encode_relay_shard many_shards ≡ some bytes)
    × (decode_relay_shard bytes
        ≡ some (record {
          cluster_id = 1 % 65536;
          shards = filter (λ j. any (λ s. s == j) (range_from 10 70)) (range_from 0 1024);
        }))
decode-encode_vector_example =
    decode-encode_vector many_shards (omega (arith, length-range_from 10 70))
      (range_from-All 10 70 (omega arith))

-- Addresses that are their own bytes.
abbrev plain_library : Library (List ℕ)
plain_library = record { parse = λ bytes. some bytes; bytes_of = λ m. m; has_peer_id = λ m. false }

abbrev two_addresses : List (List ℕ)
two_addresses = (4 ∷ 127 ∷ 0 ∷ 0 ∷ 1 ∷ []) ∷ (53 ∷ 2 ∷ []) ∷ []

decode_multiaddrs-encode_multiaddrs_example :
    (written : Uint8Array) × (encode_multiaddrs plain_library two_addresses ≡ some written)
    × (decode_multiaddrs plain_library (record written { buffer = written.buffer ++ 9 ∷ 9 ∷ [] })
        ≡ some two_addresses)
decode_multiaddrs-encode_multiaddrs_example =
    decode_multiaddrs-encode_multiaddrs plain_library two_addresses (9 ∷ 9 ∷ []) (
      record { no_peer_id = refl; short = omega arith; parsed = refl },
      (record { no_peer_id = refl; short = omega arith; parsed = refl }, tt),
    )
