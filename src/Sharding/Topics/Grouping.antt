-- ===== src/Sharding/Topics/Grouping.antt =====
-- The shard of a content topic, and the groups of content topics.
use Prim.Native.String.{String}
use mathlib.Core.List.{append_assoc, append-nil}
use logos_messaging_js.Prelude.{
  ℕ, ◌%◌, ◌<◌, ◌≡◌, refl, sym, ap, ◌∙◌, Bool, true, false, Option, none, some, List, [], ◌∷◌, ◌++◌,
  all, filter, take_last, ◌==◌, ◌===◌, ===_iff, if◌then◌else◌, is_some, arith, Bool-cases,
  Option-cases, inl, inr,
}
use logos_messaging_js.Prelude.Words.{be_read}
use logos_messaging_js.Prelude.Maps.{lookup, insert, lookup-insert}
use logos_messaging_js.Sharding.Topics.{
  ParsedContentTopic, ensure_valid_content_topic, content_topic_to_shard_index,
  content_topic_to_pubsub_topic, or_no_topics, topics_at, group_topics,
  content_topics_by_pubsub_topic,
}

topics_at-insert :
    (k p : String) (topics : List String) (groups : List (String × List String))
    → topics_at p (insert k topics groups) ≡ (if k === p then topics else topics_at p groups)
topics_at-insert k p topics groups =
    ap or_no_topics (lookup-insert k p topics groups) ∙ either (k === p)
  where
    either :
        (b : Bool)
        → or_no_topics (if b then some topics else lookup p groups)
          ≡ (if b then topics else topics_at p groups)
    either true = refl
    either false = refl

module _ (sha256 : List ℕ → List ℕ) (utf8_to_bytes : String → List ℕ) where
  -- In a cluster with shards, exactly the valid content topics have a shard, and it is one of them.
  pub shard_index_lem :
      (content_topic : String) (num_shards : ℕ)
      → 0 < num_shards
      → (is_some (content_topic_to_shard_index sha256 utf8_to_bytes content_topic num_shards)
          ≡ is_some (ensure_valid_content_topic content_topic))
        × ((i : ℕ)
            → content_topic_to_shard_index sha256 utf8_to_bytes content_topic num_shards ≡ some i
            → i < num_shards)
  unfolding content_topic_to_shard_index
  shard_index_lem content_topic num_shards shards =
      let positive : (num_shards == 0) ≡ false = ground arith in
      elim (Option-cases (ensure_valid_content_topic content_topic)) [
        | inl e ↦ rw (e, content_topic_to_shard_index) (refl, λ i h. absurd (ground arith))
        | inr (t, e) ↦
            rw (e, content_topic_to_shard_index) (rw positive (refl, λ i h. below_lem t i h))
      ]
    where
      below_lem :
          (t : ParsedContentTopic) (i : ℕ)
          → some (
              be_read 0
                (take_last 8 (sha256 (utf8_to_bytes t.application ++ utf8_to_bytes t.version)))
              % num_shards)
            ≡ some i
          → i < num_shards
      below_lem t i h = grind arith

  module _ (cluster_id network_shards : ℕ) where
    abbrev pubsub_of : String → Option String
    pubsub_of t = content_topic_to_pubsub_topic sha256 utf8_to_bytes t cluster_id network_shards

    abbrev is_topic : String → Option String → Bool
    is_topic p none = false
    is_topic p (some q) = q === p

    -- The content topic belongs to the pubsub topic.
    abbrev pub is_at : String → String → Bool
    is_at p t = is_topic p (pubsub_of t)

    group_topics_lem :
        (topics : List String) (groups : List (String × List String))
        → (is_some (group_topics sha256 utf8_to_bytes topics cluster_id network_shards groups)
            ≡ all (λ t. is_some (pubsub_of t)) topics)
          × ((result : List (String × List String))
              → group_topics sha256 utf8_to_bytes topics cluster_id network_shards groups
                ≡ some result
              → (p : String) → topics_at p result ≡ topics_at p groups ++ filter (is_at p) topics)
    unfolding group_topics
    group_topics_lem [] groups = (
      refl,
      λ result h p.
          ap (topics_at p) {x = result} {y = groups} (ground (arith, h))
          ∙ sym (append-nil (topics_at p groups)),
    )
    group_topics_lem (t ∷ topics) groups = elim (Option-cases (pubsub_of t)) [
      | inl e ↦ rw (e, group_topics) (refl, λ result h. absurd (ground arith))
      | inr (q, e) ↦
          let (answered, placed) =
            group_topics_lem topics (insert q (topics_at q groups ++ t ∷ []) groups) in
          rw (e, group_topics)
            (answered, λ result h p. placed result h p ∙ step p q t topics groups)
    ]
      where
        step :
            (p q t : String) (topics : List String) (groups : List (String × List String))
            → topics_at p (insert q (topics_at q groups ++ t ∷ []) groups)
                ++ filter (is_at p) topics
              ≡ topics_at p groups
                ++ (if q === p then t ∷ filter (is_at p) topics else filter (is_at p) topics)
        step p q t topics groups = elim (Bool-cases (q === p)) [
          | inl same ↦
              rw (topics_at-insert q p (topics_at q groups ++ t ∷ []) groups, same)
                (append_assoc (topics_at q groups) (t ∷ []) (filter (is_at p) topics)
                  ∙ ap (λ k. topics_at k groups ++ t ∷ filter (is_at p) topics)
                      ((===_iff q p).0 same))
          | inr other ↦ rw (topics_at-insert q p (topics_at q groups ++ t ∷ []) groups, other) refl
        ]

    -- Grouping content topics succeeds exactly if each of them has a pubsub topic, and then the
    -- group of any pubsub topic is the list of the content topics that belong to it, in their
    -- order, as filtering them gives it.
    pub content_topics_by_pubsub_topic_lem :
        (content_topics : List String)
        → (is_some (
              content_topics_by_pubsub_topic sha256 utf8_to_bytes content_topics cluster_id
                network_shards)
            ≡ all (λ t. is_some (pubsub_of t)) content_topics)
          × ((groups : List (String × List String))
              → content_topics_by_pubsub_topic sha256 utf8_to_bytes content_topics cluster_id
                  network_shards
                ≡ some groups
              → (p : String) → topics_at p groups ≡ filter (is_at p) content_topics)
    unfolding content_topics_by_pubsub_topic lookup
    content_topics_by_pubsub_topic_lem content_topics = group_topics_lem content_topics []
