-- ===== src/Sharding/Topics.antt =====
-- packages/utils/src/common/sharding/topics.ts: content topics, pubsub topics and autosharding. `none`
-- is an error. SHA-256 and UTF-8 are parameters; the number that `parseInt` reads is kept exact.
pub mod Grouping
use Prim.Native.Char.{Char, code}
use Prim.Native.String
use Prim.Native.String.{String}
use logos_messaging_js.Prelude.{
  ℕ, zero, suc, ◌+◌, ◌-◌, ◌*◌, ◌%◌, Bool, true, false, not, ◌&&◌, ◌||◌, Option, none, some, List,
  [], ◌∷◌, ◌++◌, length, take_last, ltb, leb, ◌==◌, ◌===◌, if◌then◌else◌,
}
use logos_messaging_js.Prelude.Words.{be_read}
use logos_messaging_js.Prelude.Maps.{lookup, insert}
use logos_messaging_js.Message.Text.{to_string}

abbrev prepend : Char → List String → List String
prepend c [] = []
prepend c (part ∷ parts) = String.◌∷◌ c part ∷ parts

-- `text.split("/")`
unfoldable pub split_slash : String → List String
split_slash String.[] = "" ∷ []
split_slash (String.◌∷◌ c s) =
    let rest = split_slash s in if code c == 47 then "" ∷ rest else prepend c rest

-- The white space that `parseInt` skips.
unfoldable pub is_space : ℕ → Bool
is_space c =
    (leb 9 c && leb c 13)
    || ((c == 32)
        || (c == 160)
        || (c == 0x1680)
        || (leb 0x2000 c && leb c 0x200a)
        || (c == 0x2028)
        || (c == 0x2029)
        || (c == 0x202f)
        || (c == 0x205f)
        || (c == 0x3000)
        || (c == 0xfeff))

-- The value of a digit; anything else is no digit of any radix.
unfoldable pub digit_value : ℕ → ℕ
digit_value c =
    if leb 48 c && leb c 57
    then c - 48
    else if leb 97 c && leb c 102
    then c - 87
    else if leb 65 c && leb c 70
    then c - 55
    else 16

-- The number of the digits at the start, onto the value of those before.
unfoldable pub read_digits : ℕ → ℕ → String → ℕ
unfolding digit_value
read_digits radix value String.[] = value
read_digits radix value (String.◌∷◌ c s) =
    let rest = read_digits radix (value * radix + digit_value (code c)) s in
    if ltb (digit_value (code c)) radix then rest else value

-- At least one digit, or not a number.
unfoldable pub read_number : ℕ → String → Option ℕ
unfolding read_digits
read_number radix String.[] = none
read_number radix (String.◌∷◌ c s) =
    if ltb (digit_value (code c)) radix then some (read_digits radix 0 (String.◌∷◌ c s)) else none

-- A `0x` makes the number hexadecimal.
unfoldable pub read_magnitude : String → Option ℕ
unfolding read_number
read_magnitude (String.◌∷◌ c (String.◌∷◌ d s)) =
    if (code c == 48) && ((code d == 120) || (code d == 88))
    then read_number 16 s
    else read_number 10 (String.◌∷◌ c (String.◌∷◌ d s))
read_magnitude s = read_number 10 s

pub record Parsed : Type 0 where
  pub is_negative : Bool
  pub magnitude : ℕ

abbrev signed : Bool → Option ℕ → Option Parsed
signed is_negative none = none
signed is_negative (some n) = some (record { is_negative = is_negative; magnitude = n })

unfoldable pub read_signed : String → Option Parsed
unfolding read_magnitude
read_signed String.[] = none
read_signed (String.◌∷◌ c s) =
    if code c == 45
    then signed true (read_magnitude s)
    else if code c == 43
    then signed false (read_magnitude s)
    else signed false (read_magnitude (String.◌∷◌ c s))

-- `parseInt(text)`; `none` is `NaN`.
unfoldable pub parse_int : String → Option Parsed
unfolding read_signed is_space
parse_int String.[] = none
parse_int (String.◌∷◌ c s) =
    let rest = parse_int s in if is_space (code c) then rest else read_signed (String.◌∷◌ c s)

unfoldable pub format_pubsub_topic : ℕ → ℕ → String
format_pubsub_topic cluster_id shard =
    String.◌++◌ "/waku/2/rs/"
      (String.◌++◌ (to_string cluster_id) (String.◌∷◌ "/" (to_string shard)))

pub record SingleShardInfo : Type 0 where
  pub cluster_id : Parsed
  pub shard : Parsed

abbrev both : Option Parsed → Option Parsed → Option SingleShardInfo
both none shard = none
both (some cluster_id) none = none
both (some cluster_id) (some shard) = some (record { cluster_id = cluster_id; shard = shard })

abbrev shard_info : List String → Option SingleShardInfo
shard_info (_ ∷ a ∷ b ∷ c ∷ cluster_id ∷ shard ∷ []) =
    if (a === "waku") && ((b === "2") && (c === "rs"))
    then both (parse_int cluster_id) (parse_int shard)
    else none
shard_info parts = none

unfoldable pub pubsub_topic_to_single_shard_info : String → Option SingleShardInfo
unfolding split_slash parse_int
pubsub_topic_to_single_shard_info pubsub_topic = shard_info (split_slash pubsub_topic)

pub record ParsedContentTopic : Type 0 where
  pub generation : Parsed
  pub application : String
  pub version : String
  pub topic_name : String
  pub encoding : String

abbrev zero_generation : Parsed
zero_generation = record { is_negative = false; magnitude = 0 }

-- The generation of six parts; of five parts it is 0.
unfoldable pub generation_of : List String → Option Parsed
unfolding parse_int
generation_of (a ∷ b ∷ c ∷ d ∷ e ∷ []) = some zero_generation
generation_of (_ ∷ generation ∷ c ∷ d ∷ e ∷ f ∷ []) = elim (parse_int generation) [
  | none ↦ none
  | some g ↦ if not g.is_negative && ltb 0 g.magnitude then none else some g
]
generation_of parts = none

unfoldable pub fields_of : Parsed → List String → Option ParsedContentTopic
fields_of generation (application ∷ version ∷ topic_name ∷ encoding ∷ []) =
    if (application === "") || ((version === "") || ((topic_name === "") || (encoding === "")))
    then none
    else some (record {
      generation = generation;
      application = application;
      version = version;
      topic_name = topic_name;
      encoding = encoding;
    })
fields_of generation parts = none

unfoldable pub ensure_valid_content_topic : String → Option ParsedContentTopic
unfolding split_slash generation_of fields_of
ensure_valid_content_topic content_topic = elim (generation_of (split_slash content_topic)) [
  | none ↦ none
  | some generation ↦ fields_of generation (take_last 4 (split_slash content_topic))
]

abbrev pub or_no_topics : Option (List String) → List String
or_no_topics none = []
or_no_topics (some topics) = topics

-- `groupedContentTopics.get(pubsubTopic)`, and no topics where there is none.
abbrev pub topics_at : String → List (String × List String) → List String
topics_at pubsub_topic groups = or_no_topics (lookup pubsub_topic groups)

module _ (sha256 : List ℕ → List ℕ) (utf8_to_bytes : String → List ℕ) where
  -- The last eight bytes of the hash, modulo the number of shards; modulo 0 throws.
  unfoldable pub content_topic_to_shard_index : String → ℕ → Option ℕ
  unfolding ensure_valid_content_topic
  content_topic_to_shard_index content_topic num_shards =
      elim (ensure_valid_content_topic content_topic) [
        | none ↦ none
        | some t ↦
            if num_shards == 0
            then none
            else some (
                be_read 0
                  (take_last 8 (sha256 (utf8_to_bytes t.application ++ utf8_to_bytes t.version)))
                % num_shards)
      ]

  unfoldable pub content_topic_to_pubsub_topic : String → ℕ → ℕ → Option String
  unfolding content_topic_to_shard_index
  content_topic_to_pubsub_topic content_topic cluster_id num_shards =
      if content_topic === ""
      then none
      else elim (content_topic_to_shard_index content_topic num_shards) [
        | none ↦ none
        | some shard ↦ some (
            String.◌++◌ "/waku/2/rs/"
              (String.◌++◌ (to_string cluster_id) (String.◌∷◌ "/" (to_string shard))))
      ]

  -- The loop, onto the groups so far.
  unfoldable pub group_topics :
      List String → ℕ → ℕ → List (String × List String) → Option (List (String × List String))
  unfolding content_topic_to_pubsub_topic
  group_topics [] cluster_id network_shards groups = some groups
  group_topics (topic ∷ topics) cluster_id network_shards groups =
      elim (content_topic_to_pubsub_topic topic cluster_id network_shards) [
        | none ↦ none
        | some p ↦
            group_topics topics cluster_id network_shards
              (insert p (topics_at p groups ++ topic ∷ []) groups)
      ]

  unfoldable pub content_topics_by_pubsub_topic :
      List String → ℕ → ℕ → Option (List (String × List String))
  unfolding group_topics
  content_topics_by_pubsub_topic content_topics cluster_id network_shards =
      group_topics content_topics cluster_id network_shards []
