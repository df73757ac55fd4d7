-- ===== src/Tests/Fixtures.antt =====
-- A small platform, and messages and channels to run.
use native.Mathlib.Nat.{mod-lt}
use logos_messaging_js.Prelude.{
  ℕ, suc, ◌+◌, ◌%◌, refl, none, some, List, [], ◌∷◌, String, leb, arith,
}
use logos_messaging_js.Platform.{Platform, IsCollation, IsBoundedHash}
use logos_messaging_js.Message.{Message, HistoryEntry}
use logos_messaging_js.History.{Lodash}
use logos_messaging_js.History.Order.{keep_first, KeepsFirst}
use logos_messaging_js.Repair.Manager.{default_repair_config}
use logos_messaging_js.Channel.{MessageChannelOptions}
use logos_messaging_js.Channel.Invariant.{IsSound}

abbrev pub text_length : String → ℕ
text_length String.[] = 0
text_length (String.◌∷◌ c s) = suc (text_length s)

instance abbrev pub small_platform : Platform
small_platform = record {
  sha256 = λ bytes. bytes;
  bytes_to_hex = λ bytes. "a1";
  encode_text = λ text. text_length text ∷ 1 ∷ 2 ∷ 3 ∷ 4 ∷ 5 ∷ 6 ∷ 7 ∷ [];
  locale_le = λ a b. leb (text_length a) (text_length b);
  hash_n = λ item n max_value. (text_length item + n) % max_value;
}

instance abbrev pub first_lodash : Lodash
first_lodash = record { uniq_by_message_id = keep_first }

pub small_platform-IsCollation : IsCollation small_platform
small_platform-IsCollation = record {
  total = λ a b. ground arith;
  trans = λ a b c h k. ground arith;
}

pub first_lodash-KeepsFirst : KeepsFirst first_lodash
first_lodash-KeepsFirst = record { keeps_first = λ ms. refl }

pub small_platform-IsBoundedHash : IsBoundedHash small_platform
small_platform-IsBoundedHash = record {
  below = λ item n max_value pos. mod-lt (text_length item + n) {m = max_value} pos;
}

pub small_platform-IsSound : IsSound small_platform first_lodash
small_platform-IsSound = record {
  collation = small_platform-IsCollation;
  uniq = first_lodash-KeepsFirst;
  bounded = small_platform-IsBoundedHash;
}

abbrev pub entry : String → HistoryEntry
entry id = record { message_id = id; retrieval_hint = none; sender_id = some "alice" }

-- A content message of another participant.
abbrev pub content_message : String → ℕ → List HistoryEntry → Message
content_message id t dependencies = record {
  message_id = id;
  channel_id = "general";
  sender_id = "alice";
  causal_history = dependencies;
  lamport_timestamp = some t;
  bloom_filter = none;
  content = some (1 ∷ 2 ∷ []);
  repair_request = [];
  retrieval_hint = none;
}

abbrev pub no_options : MessageChannelOptions
no_options = record {
  causal_history_size = none;
  timeout_for_lost_messages_ms = none;
  possible_acks_threshold = none;
  enable_repair = none;
  repair_config = default_repair_config;
}
