-- ===== src/Enr/Multiaddrs/RoundTrip.antt =====
-- What `decodeMultiaddrs` reads from the bytes of `encodeMultiaddrs`.
use mathlib.Core.List.{append_assoc}
use logos_messaging_js.Prelude.{
  ℕ, zero, suc, ◌+◌, ◌/◌, ◌%◌, ◌<◌, ◌≤◌, ◌≡◌, refl, ap, sym, ◌∙◌, false, some, List, [], ◌∷◌, ◌++◌,
  length, length-append, take, drop, leb, All, arith,
}
use logos_messaging_js.Prelude.Words.{be_bytes, take-append_length, drop-append_length}
use logos_messaging_js.Enr.Multiaddrs.{
  Uint8Array, contents, get_size, Library, decode_from, decode_multiaddrs, encode_entries,
  encode_multiaddrs,
}

two_bytes : (n : ℕ) → be_bytes 2 n ≡ (n / 256 % 256) ∷ (n % 256) ∷ []
unfolding be_bytes
two_bytes n = refl

nothing {ℓ} : {A : Type ℓ} (k : ℕ) → ◌≡◌ {A = List A} [] (drop k [])
nothing zero = refl
nothing (suc k) = refl

drop-add {ℓ} : {A : Type ℓ} (n k : ℕ) (xs : List A) → drop (n + k) xs ≡ drop k (drop n xs)
drop-add zero k xs = ap (λ j. drop j xs) (omega arith)
drop-add (suc n) k [] = sym (nothing (suc n + k)) ∙ nothing k
drop-add (suc n) k (x ∷ xs) =
    let e : suc n + k ≡ suc (n + k) = omega arith in rw e (drop-add n k xs)

module _ {M : Type 0} (lib : Library M) where
  -- An address that the codec can write: no peer id, a length of 16 bits, and the library reads it
  -- back.
  pub record IsWritable (m : M) : Type 0 where
    pub no_peer_id : lib.has_peer_id m ≡ false
    pub short : length (lib.bytes_of m) < 65536
    pub parsed : lib.parse (lib.bytes_of m) ≡ some m

  abbrev entry : M → List ℕ
  entry m = length (lib.bytes_of m) / 256 % 256 ∷ length (lib.bytes_of m) % 256 ∷ lib.bytes_of m

  abbrev entries : List M → List ℕ
  entries [] = []
  entries (m ∷ ms) = entry m ++ entries ms

  encode_entries_lem : (ms : List M) → All IsWritable ms → encode_entries lib ms ≡ some (entries ms)
  unfolding encode_entries
  encode_entries_lem [] h = refl
  encode_entries_lem (m ∷ ms) h =
      rw (h.0.no_peer_id, encode_entries_lem ms h.1, two_bytes (length (lib.bytes_of m))) refl

  -- The loop at the first byte of the entries that are left.
  decode_from-entries :
      (ms : List M) (index fuel : ℕ) (view : Uint8Array) (trail : List ℕ)
      → All IsWritable ms
      → drop index view.buffer ≡ entries ms ++ trail
      → drop index (contents view) ≡ entries ms
      → view.byte_length ≡ index + length (entries ms)
      → length (entries ms) ≤ fuel
      → decode_from lib fuel view index ≡ some ms
  unfolding decode_from
  decode_from-entries [] index zero view trail h b c l enough = ground (arith, l)
  decode_from-entries [] index (suc fuel) view trail h b c l enough = ground (arith, l)
  decode_from-entries (m ∷ ms) index zero view trail h b c l enough = absurd (omega arith)
  decode_from-entries (m ∷ ms) index (suc fuel) view trail h b c l enough =
      let n = length (lib.bytes_of m) in
      let whole = length-append (lib.bytes_of m) (entries ms) in
      let more : leb view.byte_length index ≡ false = ground (arith, l) in
      let size : get_size view index ≡ some n =
        rw (get_size, b) (ap some (omega (arith, h.0.short))) in
      let raw : drop (index + 2) (contents view) ≡ lib.bytes_of m ++ entries ms =
        drop-add index 2 (contents view) ∙ rw c refl in
      let below : drop (index + 2) view.buffer ≡ lib.bytes_of m ++ (entries ms ++ trail) =
        drop-add index 2 view.buffer ∙ rw b (append_assoc (lib.bytes_of m) (entries ms) trail) in
      let first : lib.parse (take n (drop (index + 2) (contents view))) ≡ some m =
        rw raw (ap lib.parse (take-append_length (lib.bytes_of m) (entries ms)) ∙ h.0.parsed) in
      let rest =
        decode_from-entries ms (index + 2 + n) fuel view trail h.1
          (drop-add (index + 2) n view.buffer
            ∙ ap (drop n) below
            ∙ drop-append_length (lib.bytes_of m) (entries ms ++ trail))
          (drop-add (index + 2) n (contents view)
            ∙ ap (drop n) raw
            ∙ drop-append_length (lib.bytes_of m) (entries ms))
          (omega (arith, l, whole)) (omega (arith, enough, whole)) in
      rw more (rw size (rw (first, rest) refl))

  take_all : (xs : List ℕ) (ys : List ℕ) → take (length xs) (xs ++ ys) ≡ xs
  take_all xs ys = take-append_length xs ys

  -- If each address has no peer id, fewer than 65536 bytes, and is read back by the library,
  -- encodeMultiaddrs returns bytes from which decodeMultiaddrs reads the addresses, also if the
  -- buffer goes on behind the bytes.
  pub decode_multiaddrs-encode_multiaddrs :
      (ms : List M) (trail : List ℕ)
      → All IsWritable ms
      → (written : Uint8Array) × (encode_multiaddrs lib ms ≡ some written)
        × (decode_multiaddrs lib (record written { buffer = written.buffer ++ trail }) ≡ some ms)
  unfolding encode_multiaddrs decode_multiaddrs contents
  decode_multiaddrs-encode_multiaddrs ms trail h = (
    record { buffer = entries ms; byte_offset = 0; byte_length = length (entries ms) },
    rw (encode_entries_lem ms h, encode_multiaddrs) refl,
    decode_from-entries ms 0 (length (entries ms)) _ trail h refl (take_all (entries ms) trail)
        (omega arith) (omega arith),
  )
