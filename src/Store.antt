-- ===== src/Store.antt =====
-- Queries of a store node: packages/core/src/lib/store, and their construction in
-- packages/sdk/src/store/store.ts (Store.Ranges). The stream to the peer, the protobuf codec and the
-- decoders are parameters: a peer answers a request. `Date`s are their milliseconds since 1970, and the
-- random id of a request is left out. The generated names of the fields are those of the source.
pub mod Paging
pub mod Query
use Prim.Native.String
use Prim.Native.String.{String}
use logos_messaging_js.Prelude.{
  ℕ, zero, suc, ◌+◌, ◌-◌, ◌*◌, ◌/◌, ◌%◌, ◌^◌, Bool, true, false, not, ◌&&◌, ◌||◌, Option, none,
  some, List, [], ◌∷◌, length, map, ltb, leb, ◌==◌, ◌===◌, if◌then◌else◌, is_some, ◌⊎◌, inl, inr,
}
use logos_messaging_js.Prelude.Maps.{lookup}

abbrev pub default_page_size : ℕ
default_page_size = 20

abbrev pub max_page_size : ℕ
max_page_size = 100

abbrev pub max_time_range : ℕ
max_time_range = 24 * 60 * 60 * 1000

-- A hash, `H`, is passed on and never looked at.
pub record QueryRequestParams (H : Type 0) : Type 0 where
  pub include_data : Bool
  pub pubsub_topic : String
  pub content_topics : List String
  pub time_start : Option ℕ
  pub time_end : Option ℕ
  pub message_hashes : Option (List H)
  pub pagination_cursor : Option H
  pub pagination_forward : Bool
  pub pagination_limit : Option ℕ

-- What goes to the peer; times are in nanoseconds.
pub record StoreQueryRequest (H : Type 0) : Type 0 where
  pub include_data : Bool
  pub pubsub_topic : String
  pub content_topics : List String
  pub time_start : Option ℕ
  pub time_end : Option ℕ
  pub message_hashes : List H
  pub pagination_cursor : Option H
  pub pagination_forward : Bool
  pub pagination_limit : Option ℕ

pub record WakuMessage (B : Type 0) : Type 0 where
  pub content_topic : String
  pub body : B

pub record WakuMessageKeyValue (H B : Type 0) : Type 0 where
  pub message_hash : Option H
  pub message : Option (WakuMessage B)
  pub pubsub_topic : Option String

-- What the peer does with a request: there is no stream to it, the stream ends with an `AbortError` or
-- another error, or it answers with a status code and messages.
pub data Reply (H B : Type 0) : Type 0 where
  no_stream aborted failed : Reply H B
  response : Option ℕ → List (WakuMessageKeyValue H B) → Reply H B

pub data StoreError : Type 0 where
  time_range_error decoders_error hash_query_error topics_error stream_error status_error :
      StoreError

-- The bits that a number has above the 53 of a double; 20 is enough for the nanoseconds of a `Date`.
unfoldable pub excess_bits : ℕ → ℕ → ℕ
excess_bits zero n = 0
excess_bits (suc fuel) n =
    let rest = excess_bits fuel (n / 2) in if ltb n (2 ^ 53) then 0 else suc rest

unfoldable pub round_at : ℕ → ℕ → ℕ
round_at e n =
    let q = n / 2 ^ e in
    let r = n % 2 ^ e in
    if ltb (2 * r) (2 ^ e)
    then q * 2 ^ e
    else if 2 * r == 2 ^ e
    then (q + q % 2) * 2 ^ e
    else (q + 1) * 2 ^ e

-- `BigInt(date.getTime() * ONE_MILLION)`: the product is a double, rounded half to even.
unfoldable pub nanoseconds : ℕ → ℕ
unfolding excess_bits round_at
nanoseconds ms = let n = ms * 1000000 in if ltb n (2 ^ 53) then n else round_at (excess_bits 20 n) n

abbrev nanoseconds? : Option ℕ → Option ℕ
nanoseconds? none = none
nanoseconds? (some ms) = some (nanoseconds ms)

-- `limit ? BigInt(limit) : undefined`
abbrev truthy : Option ℕ → Option ℕ
truthy none = none
truthy (some n) = if n == 0 then none else some n

abbrev or_empty {ℓ} : {A : Type ℓ} → Option (List A) → List A
or_empty none = []
or_empty (some xs) = xs

abbrev pub has_some {ℓ} : {A : Type ℓ} → List A → Bool
has_some [] = false
has_some (x ∷ xs) = true

abbrev pub is_hash_query : {H : Type 0} → QueryRequestParams H → Bool
is_hash_query params = has_some (or_empty params.message_hashes)

-- The error of a query whose criteria do not go together.
unfoldable pub criteria_error : {H : Type 0} → QueryRequestParams H → Option StoreError
criteria_error params =
    if is_hash_query params
    then (if has_some params.content_topics
          || (is_some params.time_start || is_some params.time_end)
        then some hash_query_error
        else none)
    else if (not (params.pubsub_topic === "") && not (has_some params.content_topics))
        || ((params.pubsub_topic === "") && has_some params.content_topics)
    then some topics_error
    else none

-- `StoreQueryRequest.create`, when it does not throw.
unfoldable pub create : {H : Type 0} → QueryRequestParams H → Option H → StoreQueryRequest H
unfolding nanoseconds
create params cursor = record {
  include_data = params.include_data;
  pubsub_topic = params.pubsub_topic;
  content_topics = params.content_topics;
  time_start = nanoseconds? params.time_start;
  time_end = nanoseconds? params.time_end;
  message_hashes = or_empty params.message_hashes;
  pagination_cursor = cursor;
  pagination_forward = params.pagination_forward;
  pagination_limit = truthy params.pagination_limit;
}

-- `list.toString()`
unfoldable pub to_text : List String → String
to_text [] = ""
to_text (s ∷ []) = s
to_text (s ∷ t ∷ list) = String.◌++◌ s (String.◌∷◌ "," (to_text (t ∷ list)))

unfoldable pub time_diff_error : Option ℕ → Option ℕ → Bool
time_diff_error (some start) (some end) = ltb max_time_range (end - start)
time_diff_error start end = false

abbrev pub last {ℓ} : {A : Type ℓ} → List A → Option A
last [] = none
last (x ∷ []) = some x
last (x ∷ y ∷ xs) = last (y ∷ xs)

abbrev pub first {ℓ} : {A : Type ℓ} → List A → Option A
first [] = none
first (x ∷ xs) = some x

-- How a generator ends; `unfinished` stands for one that goes on beyond the fuel.
pub data End : Type 0 where
  done unfinished : End
  thrown : StoreError → End

-- What a generator yields, in order, and how it ends.
pub record Yields (A : Type 0) : Type 0 where
  pub pages : List A
  pub end : End

abbrev pub yield : {A : Type 0} → A → Yields A → Yields A
yield page rest = record { pages = page ∷ rest.pages; end = rest.end }

abbrev pub ends : {A : Type 0} → End → Yields A
ends e = record { pages = []; end = e }

-- What the awaited decoders make of one message: `none` where they give `undefined`.
unfoldable pub decode :
    {H B D : Type 0}
    → List (String × (String → WakuMessage B → Option D))
    → WakuMessageKeyValue H B
    → Option D
decode decoders proto_msg = elim proto_msg.message [
  | none ↦ none
  | some message ↦
      if message.content_topic === "" then none else elim (lookup message.content_topic decoders) [
        | none ↦ none
        | some decoder ↦ decoder (text_or_empty proto_msg.pubsub_topic) message
      ]
]
  where
    text_or_empty : Option String → String
    text_or_empty none = ""
    text_or_empty (some s) = s

-- `limit || DEFAULT_PAGE_SIZE`
abbrev page_limit : Option ℕ → ℕ
page_limit none = default_page_size
page_limit (some n) = if n == 0 then default_page_size else n

-- The cursor of the next request.
unfoldable pub next_cursor :
    {H B : Type 0} → QueryRequestParams H → List (WakuMessageKeyValue H B) → Option H
next_cursor params messages =
    elim (if params.pagination_forward then last messages else first messages) [
      | none ↦ none
      | some message ↦ message.message_hash
    ]

-- The end of pagination by the size of a page.
unfoldable pub is_short_page :
    {H B : Type 0} → QueryRequestParams H → List (WakuMessageKeyValue H B) → Bool
is_short_page params messages =
    ltb max_page_size (length messages)
    && ltb (length messages) (page_limit params.pagination_limit)

-- The status codes that are no errors.
unfoldable pub is_success : Option ℕ → Bool
is_success none = false
is_success (some status) = not (status == 0) && ltb status 300

-- The part of a round between the answer and the messages; the flag is `abortSignal.aborted`.
unfoldable pub check_reply :
    {H B : Type 0} → Bool → Reply H B → End ⊎ List (WakuMessageKeyValue H B)
unfolding is_success
check_reply is_aborted no_stream = inl done
check_reply is_aborted aborted = inl done
check_reply is_aborted failed = inl (thrown stream_error)
check_reply is_aborted (response status messages) =
    if not (is_success status)
    then inl (thrown status_error)
    else if not (has_some messages)
    then inl done
    else if is_aborted
    then inl done
    else inr messages

module _ {H B D : Type 0}
    -- `abortSignal.aborted` before the request of a round and after its answer.
    (is_aborted is_aborted_after : ℕ → Bool)
    -- The peer, in each round.
    (peer : ℕ → StoreQueryRequest H → Reply H B)
    (decoders : List (String × (String → WakuMessage B → Option D)))
    (params : QueryRequestParams H) where
  unfoldable pub request_pages : ℕ → ℕ → Option H → Yields (List (Option D))
  unfolding next_cursor is_short_page check_reply create criteria_error decode
  request_pages zero round cursor = ends unfinished
  request_pages (suc fuel) round cursor =
      if is_aborted round then ends done else elim (criteria_error params) [
        | some error ↦ ends (thrown error)
        | none ↦ elim (check_reply (is_aborted_after round) (peer round (create params cursor))) [
          | inl e ↦ ends e
          | inr messages ↦
              yield (map (decode decoders) messages) (elim (is_short_page params messages) [
                | true ↦ ends done
                | false ↦ request_pages fuel (suc round) (next_cursor params messages)
              ])
        ]
      ]

  -- `queryPerPage`, for at most `fuel` rounds.
  unfoldable pub query_per_page : ℕ → Yields (List (Option D))
  unfolding request_pages time_diff_error to_text
  query_per_page fuel =
      if time_diff_error params.time_start params.time_end
      then ends (thrown time_range_error)
      else if not (is_hash_query params)
          && not (to_text params.content_topics === to_text (map (λ d. d.0) decoders))
      then ends (thrown decoders_error)
      else request_pages fuel 0 params.pagination_cursor
