-- ===== src/Enr/Waku2.antt =====
-- packages/enr/src/waku2_codec.ts: the protocols that a node supports, as the lowest bits of a number.
use logos_messaging_js.Prelude.{
  ℕ, ◌+◌, ◌*◌, ◌/◌, ◌%◌, ◌<◌, ◌≡◌, Bool, not, ◌==◌, if◌then◌else◌, arith,
}

pub record Waku2 : Type 0 where
  pub relay : Bool
  pub store : Bool
  pub filter : Bool
  pub light_push : Bool

-- `if (flag) byte += 1`
unfoldable pub add_flag : Bool → ℕ → ℕ
add_flag flag byte = if flag then byte + 1 else byte

-- `byte << 1` is a multiplication while the number is small.
unfoldable pub encode_waku2 : Waku2 → ℕ
unfolding add_flag
encode_waku2 protocols =
    let light_push = add_flag protocols.light_push 0 in
    let filter = add_flag protocols.filter (light_push * 2) in
    let store = add_flag protocols.store (filter * 2) in add_flag protocols.relay (store * 2)

-- `if (byte % 2)`
abbrev is_odd : ℕ → Bool
is_odd byte = not (byte % 2 == 0)

unfoldable pub decode_waku2 : ℕ → Waku2
decode_waku2 byte = record {
  relay = is_odd byte;
  store = is_odd (byte / 2);
  filter = is_odd (byte / 2 / 2);
  light_push = is_odd (byte / 2 / 2 / 2);
}

each_protocol :
    (relay store filter light_push : Bool)
    → (decode_waku2 (
          encode_waku2
            (record { relay = relay; store = store; filter = filter; light_push = light_push }))
        ≡ record { relay = relay; store = store; filter = filter; light_push = light_push })
      × (encode_waku2
            (record { relay = relay; store = store; filter = filter; light_push = light_push })
          < 16)
unfolding encode_waku2 decode_waku2 add_flag
each_protocol relay store filter light_push = ground arith

-- decodeWaku2 reads back the protocols, and the number that encodeWaku2 returns fits four bits.
pub decode_waku2-encode_waku2 :
    (protocols : Waku2)
    → (decode_waku2 (encode_waku2 protocols) ≡ protocols) × (encode_waku2 protocols < 16)
decode_waku2-encode_waku2 protocols =
    each_protocol protocols.relay protocols.store protocols.filter protocols.light_push

-- Of any number, decodeWaku2 reads the lowest four bits.
pub encode_waku2-decode_waku2 : (byte : ℕ) → encode_waku2 (decode_waku2 byte) ≡ byte % 16
unfolding encode_waku2 decode_waku2 add_flag
encode_waku2-decode_waku2 byte = ground arith
