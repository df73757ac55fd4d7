-- ===== src/Reliable/MissingMessageRetriever.antt =====
-- packages/sdk/src/reliable_channel/missing_message_retriever.ts: the messages that are asked of a store
-- node. The pages of a query are given to it.
use logos_messaging_js.Prelude.{
  ℕ, Bool, true, false, not, Option, none, some, List, [], ◌∷◌, map, String, ◌==◌, if◌then◌else◌,
}
use logos_messaging_js.Prelude.Maps.{insert, delete, contains}

pub record MissingMessageRetriever : Type 0 where
  pub retrieve_frequency_ms : ℕ
  -- `retrieveInterval`, `abortController` and `activeQueryPromise` are set.
  pub has_interval : Bool
  pub has_controller : Bool
  pub active_query : Bool
  pub missing_messages : List (String × List ℕ)

unfoldable pub init : ℕ → MissingMessageRetriever
init retrieve_frequency_ms = record {
  retrieve_frequency_ms = retrieve_frequency_ms;
  has_interval = false;
  has_controller = false;
  active_query = false;
  missing_messages = [];
}

unfoldable pub start : MissingMessageRetriever → MissingMessageRetriever
start s = record s { has_controller = true; has_interval = not (s.retrieve_frequency_ms == 0) }

-- `stop` until it waits for a query, and after it.
unfoldable pub begin_stop : MissingMessageRetriever → MissingMessageRetriever
begin_stop s = record s { has_interval = false; has_controller = false }

unfoldable pub finish_stop : MissingMessageRetriever → MissingMessageRetriever
finish_stop s = record s { missing_messages = [] }

unfoldable pub add_missing_message :
    String → List ℕ → MissingMessageRetriever → MissingMessageRetriever
add_missing_message message_id retrieval_hint s =
    if contains message_id s.missing_messages
    then s
    else record s { missing_messages = insert message_id retrieval_hint s.missing_messages }

unfoldable pub remove_missing_message : String → MissingMessageRetriever → MissingMessageRetriever
remove_missing_message message_id s =
    if contains message_id s.missing_messages
    then record s { missing_messages = delete message_id s.missing_messages }
    else s

-- The hashes that a tick of the interval asks for; with none there is no query.
unfoldable pub begin_retrieve :
    MissingMessageRetriever → Option (List (List ℕ)) × MissingMessageRetriever
begin_retrieve s = elim s.missing_messages [
  | [] ↦ (none, s)
  | m ∷ ms ↦ (some (map (λ e. e.1) (m ∷ ms)), record s { active_query = true })
]

unfoldable pub finish_retrieve : MissingMessageRetriever → MissingMessageRetriever
finish_retrieve s = record s { active_query = false }
