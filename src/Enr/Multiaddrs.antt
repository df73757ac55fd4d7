-- ===== src/Enr/Multiaddrs.antt =====
-- packages/enr/src/multiaddrs_codec.ts: multiaddresses, each after its length in two bytes. What is
-- thrown, by the code, by a `DataView` or by `multiaddr`, is `none`.
pub mod RoundTrip
use logos_messaging_js.Prelude.{
  ℕ, zero, suc, ◌+◌, ◌*◌, Bool, Option, none, some, List, [], ◌∷◌, ◌++◌, length, take, drop, leb,
  if◌then◌else◌,
}
use logos_messaging_js.Prelude.Words.{be_bytes}

-- A `Uint8Array` is a view of a buffer.
pub record Uint8Array : Type 0 where
  pub buffer : List ℕ
  pub byte_offset : ℕ
  pub byte_length : ℕ

unfoldable pub contents : Uint8Array → List ℕ
contents bytes = take bytes.byte_length (drop bytes.byte_offset bytes.buffer)

-- `new DataView(bytes.buffer, index, 2).getUint16(0)`: the index counts from the start of the buffer,
-- not from the start of the view.
unfoldable pub get_size : Uint8Array → ℕ → Option ℕ
get_size bytes index = elim (drop index bytes.buffer) [
  | [] ↦ none
  | a ∷ rest ↦ elim rest [ [] ↦ none | b ∷ _ ↦ some (a * 256 + b) ]
]

-- The parts of the package @multiformats/multiaddr that the codec calls.
pub record Library (M : Type 0) : Type 0 where
  pub parse : List ℕ → Option M
  pub bytes_of : M → List ℕ
  pub has_peer_id : M → Bool

module _ {M : Type 0} (lib : Library M) where
  unfoldable pub push_first : Option M → Option (List M) → Option (List M)
  push_first none rest = none
  push_first (some m) none = none
  push_first (some m) (some ms) = some (m ∷ ms)

  -- The loop, from an index on; each round moves the index by two at least.
  unfoldable pub decode_from : ℕ → Uint8Array → ℕ → Option (List M)
  unfolding contents get_size push_first
  decode_from zero bytes index = if leb bytes.byte_length index then some [] else none
  decode_from (suc fuel) bytes index =
      if leb bytes.byte_length index then some [] else elim (get_size bytes index) [
        | none ↦ none
        | some size ↦
            push_first (lib.parse (take size (drop (index + 2) (contents bytes))))
              (decode_from fuel bytes (index + 2 + size))
      ]

  unfoldable pub decode_multiaddrs : Uint8Array → Option (List M)
  unfolding decode_from
  decode_multiaddrs bytes = decode_from bytes.byte_length bytes 0

  -- `setUint16` keeps the lowest 16 bits of a length.
  unfoldable pub encode_entries : List M → Option (List ℕ)
  encode_entries [] = some []
  encode_entries (m ∷ ms) =
      let rest = encode_entries ms in
      if lib.has_peer_id m then none else elim rest [
        | none ↦ none
        | some bytes ↦ some (be_bytes 2 (length (lib.bytes_of m)) ++ lib.bytes_of m ++ bytes)
      ]

  -- The array is as long as its entries and views all of its buffer.
  unfoldable pub encode_multiaddrs : List M → Option Uint8Array
  unfolding encode_entries
  encode_multiaddrs ms = elim (encode_entries ms) [
    | none ↦ none
    | some bytes ↦ some (record { buffer = bytes; byte_offset = 0; byte_length = length bytes })
  ]
