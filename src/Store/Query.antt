-- ===== src/Store/Query.antt =====
-- packages/sdk/src/store/store.ts: the queries that `queryGenerator` makes of its options, and the
-- pages that it yields. An option that is given as `undefined` counts as not given.
pub mod Ranges
use Prim.Native.String.{String}
use logos_messaging_js.Prelude.{
  ℕ, zero, suc, ◌+◌, ◌-◌, Bool, true, false, not, ◌&&◌, Option, none, some, List, [], ◌∷◌, ◌++◌,
  ◌⊎◌, inl, inr, length, any, all, map, filter, ltb, ◌===◌, if◌then◌else◌,
}
use logos_messaging_js.Prelude.Maps.{insert, contains}
use logos_messaging_js.Store.{
  QueryRequestParams, StoreQueryRequest, WakuMessage, Reply, Yields, End, done, unfinished, thrown,
  ends, has_some, max_time_range, query_per_page,
}

pub record QueryOptions (H : Type 0) : Type 0 where
  pub include_data : Option Bool
  pub pubsub_topic : Option String
  pub content_topics : Option (List String)
  pub time_start : Option ℕ
  pub time_end : Option ℕ
  pub message_hashes : Option (List H)
  pub pagination_cursor : Option H
  pub pagination_forward : Option Bool
  pub pagination_limit : Option ℕ

pub record Decoder (B D : Type 0) : Type 0 where
  pub content_topic : String
  pub pubsub_topic : String
  pub from_proto_obj : String → WakuMessage B → Option D

pub data QueryError : Type 0 where
  no_decoders many_pubsub_topics same_content_topic no_peers : QueryError

abbrev or_else {ℓ} : {A : Type ℓ} → Option A → A → A
or_else none d = d
or_else (some a) d = a

pub record Validated (B D : Type 0) : Type 0 where
  pub pubsub_topic : String
  pub content_topics : List String
  pub decoders_as_map : List (String × (String → WakuMessage B → Option D))

-- `decodersAsMap`, unless two decoders have the same content topic.
unfoldable pub unique_decoders :
    {B D : Type 0}
    → List (Decoder B D)
    → List (String × (String → WakuMessage B → Option D))
    → Option (List (String × (String → WakuMessage B → Option D)))
unique_decoders [] m = some m
unique_decoders (d ∷ decoders) m =
    let rest = unique_decoders decoders (insert d.content_topic d.from_proto_obj m) in
    if contains d.content_topic m then none else rest

-- The decoders of a query for hashes: the last one of each content topic.
unfoldable pub all_decoders :
    {B D : Type 0}
    → List (Decoder B D)
    → List (String × (String → WakuMessage B → Option D))
    → List (String × (String → WakuMessage B → Option D))
all_decoders [] m = m
all_decoders (d ∷ decoders) m = all_decoders decoders (insert d.content_topic d.from_proto_obj m)

unfoldable pub validate_decoders_and_pubsub_topic :
    {B D : Type 0} → List (Decoder B D) → QueryError ⊎ Validated B D
unfolding unique_decoders
validate_decoders_and_pubsub_topic [] = inl no_decoders
validate_decoders_and_pubsub_topic (d ∷ decoders) =
    if any (λ e. not (e.pubsub_topic === d.pubsub_topic)) decoders
    then inl many_pubsub_topics
    else elim (unique_decoders (d ∷ decoders) []) [
      | none ↦ inl same_content_topic
      | some m ↦ inr (record {
        pubsub_topic = d.pubsub_topic;
        content_topics =
            map (λ e. e.content_topic)
              (filter (λ e. e.pubsub_topic === d.pubsub_topic) (d ∷ decoders));
        decoders_as_map = m;
      })
    ]

-- The topic of a query for hashes: `options.pubsubTopic || decoders[0]?.pubsubTopic || ""`.
abbrev first_topic : {B D : Type 0} → List (Decoder B D) → String
first_topic [] = ""
first_topic (d ∷ decoders) = d.pubsub_topic

abbrev hash_query_topic : {B D : Type 0} → Option String → List (Decoder B D) → String
hash_query_topic none decoders = first_topic decoders
hash_query_topic (some topic) decoders = if topic === "" then first_topic decoders else topic

unfoldable pub choose_decoders :
    {H B D : Type 0} → QueryOptions H → List (Decoder B D) → QueryError ⊎ Validated B D
unfolding validate_decoders_and_pubsub_topic all_decoders
choose_decoders options decoders =
    if has_some (or_else options.message_hashes [])
    then inr (record {
      pubsub_topic = hash_query_topic options.pubsub_topic decoders;
      content_topics = [];
      decoders_as_map = all_decoders decoders [];
    })
    else validate_decoders_and_pubsub_topic decoders

-- The loop over the time range; a round moves the start by a day.
unfoldable pub full_ranges : ℕ → ℕ → ℕ → List (ℕ × ℕ)
full_ranges zero start end = []
full_ranges (suc fuel) start end =
    let rest = full_ranges fuel (start + max_time_range) end in
    if ltb max_time_range (end - start) then (start, start + max_time_range) ∷ rest else []

-- `subTimeRanges`, after the test for none.
unfoldable pub sub_time_ranges : ℕ → ℕ → List (ℕ × ℕ)
unfolding full_ranges
sub_time_ranges start end = elim (full_ranges (end - start) start end) [
  | [] ↦ (start, end) ∷ []
  | range ∷ ranges ↦ range ∷ ranges
]

-- The defaults, and the options in their place where they are given.
unfoldable pub query_of : {H B D : Type 0} → QueryOptions H → Validated B D → QueryRequestParams H
query_of options v = record {
  include_data = or_else options.include_data true;
  pubsub_topic = or_else options.pubsub_topic v.pubsub_topic;
  content_topics = or_else options.content_topics v.content_topics;
  time_start = options.time_start;
  time_end = options.time_end;
  message_hashes = options.message_hashes;
  pagination_cursor = options.pagination_cursor;
  pagination_forward = or_else options.pagination_forward true;
  pagination_limit = options.pagination_limit;
}

abbrev pub within : {H : Type 0} → QueryRequestParams H → ℕ × ℕ → QueryRequestParams H
within query range = record query { time_start = some range.0; time_end = some range.1 }

unfoldable pub queries_of :
    {H : Type 0} → Option ℕ → Option ℕ → QueryRequestParams H → List (QueryRequestParams H)
unfolding sub_time_ranges
queries_of (some start) (some end) query = map (within query) (sub_time_ranges start end)
queries_of time_start time_end query = query ∷ []

unfoldable pub build_query_params :
    {H B D : Type 0}
    → List (Decoder B D)
    → QueryOptions H
    → QueryError
      ⊎ (List (String × (String → WakuMessage B → Option D)) × List (QueryRequestParams H))
unfolding choose_decoders query_of queries_of
build_query_params decoders options = elim (choose_decoders options decoders) [
  | inl error ↦ inl error
  | inr v ↦
      inr (v.decoders_as_map, queries_of options.time_start options.time_end (query_of options v))
]
