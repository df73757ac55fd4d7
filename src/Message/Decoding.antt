-- ===== src/Message/Decoding.antt =====
-- The three kinds of message, and the kinds that `decode` returns.
use logos_messaging_js.Prelude.{
  ℕ, ◌≡◌, true, false, not, ◌&&◌, ◌||◌, none, some, List, arith, is_some,
}
use logos_messaging_js.Message.{
  Message, Codec, has_content, is_sync_message, is_ephemeral_message, is_content_message,
  decode_kind, decode,
}

-- A message is of at most one kind, and of none exactly if it has neither a timestamp nor content
-- that is not empty.
pub kind_unique :
    (m : Message)
    → ((is_content_message m && is_sync_message m) ≡ false)
      × ((is_content_message m && is_ephemeral_message m) ≡ false)
      × ((is_sync_message m && is_ephemeral_message m) ≡ false)
      × ((is_content_message m || is_sync_message m || is_ephemeral_message m)
          ≡ (is_some m.lamport_timestamp || has_content m.content))
unfolding is_sync_message is_content_message is_ephemeral_message
kind_unique m = ground arith

-- A message that decode returns is of one of the three kinds, has no retrieval hint, and is a sync
-- message exactly if it has no content.
pub decode_kinds :
    (codec : Codec) (bytes : List ℕ) (m : Message)
    → decode codec bytes ≡ some m
    → ((is_content_message m || is_ephemeral_message m || is_sync_message m) ≡ true)
      × (m.retrieval_hint ≡ none)
      × (is_sync_message m ≡ not (has_content m.content))
unfolding decode decode_kind is_content_message is_ephemeral_message is_sync_message
decode_kinds codec bytes m h = ground arith
