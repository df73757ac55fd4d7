-- ===== src/Message.antt =====
-- packages/sds/src/message_channel/message.ts: a message, the tests that tell its kind, and
-- `encode` and `decode` over the generated codec. A `Uint8Array` is the list of its bytes, a bigint
-- timestamp (a `uint64` on the wire) a natural number, an optional field an `Option`.
pub mod Decoding
pub mod Text
use logos_messaging_js.Prelude.{
  ℕ, zero, suc, ◌≡◌, Bool, true, false, not, ◌&&◌, Option, none, some, List, [], ◌∷◌, String,
  length, is_some, if◌then◌else◌, ◌==◌,
}

pub record HistoryEntry : Type 0 where
  pub message_id : String
  pub retrieval_hint : Option (List ℕ)
  pub sender_id : Option String

pub record Message : Type 0 where
  pub message_id : String
  pub channel_id : String
  pub sender_id : String
  pub causal_history : List HistoryEntry
  pub lamport_timestamp : Option ℕ
  pub bloom_filter : Option (List ℕ)
  pub content : Option (List ℕ)
  pub repair_request : List HistoryEntry
  -- Not encoded: set by the transport after the message was sent or received.
  pub retrieval_hint : Option (List ℕ)

-- `content && content.length`
unfoldable pub has_content : Option (List ℕ) → Bool
has_content none = false
has_content (some []) = false
has_content (some (b ∷ bs)) = true

unfoldable pub is_sync_message : Message → Bool
unfolding has_content
is_sync_message m = is_some m.lamport_timestamp && not (has_content m.content)

unfoldable pub is_ephemeral_message : Message → Bool
unfolding has_content
is_ephemeral_message m = not (is_some m.lamport_timestamp) && has_content m.content

unfoldable pub is_content_message : Message → Bool
unfolding has_content
is_content_message m = is_some m.lamport_timestamp && has_content m.content

-- The generated codec (packages/proto/src/generated/sds_message.ts): `none` when it throws.
pub record Codec : Type 0 where
  pub encode : Message → List ℕ
  pub decode : List ℕ → Option Message

-- What the constructors of the three classes keep: an ephemeral message has no timestamp, a sync
-- message no content, and none has a retrieval hint yet.
unfoldable pub decode_kind : Message → Option Message
decode_kind m =
    if is_content_message m
    then some (record m { retrieval_hint = none })
    else (if is_ephemeral_message m
        then some (record m { lamport_timestamp = none; retrieval_hint = none })
        else (if is_sync_message m
            then some (record m { content = none; retrieval_hint = none })
            else none))

unfoldable pub encode : Codec → Message → List ℕ
encode codec m = codec.encode m

unfoldable pub decode : Codec → List ℕ → Option Message
decode codec bytes = elim (codec.decode bytes) [ none ↦ none | some m ↦ decode_kind m ]
