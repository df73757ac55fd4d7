-- ===== src/Channel/Acks.antt =====
-- `reviewAckStatus`: which of the own messages a received message acknowledges.
pub mod Causal
pub mod Possible
use logos_messaging_js.Prelude.{
  ℕ, ◌+◌, Bool, true, false, not, Option, none, some, List, [], ◌∷◌, ◌++◌, String, map, filter, ltb,
  if◌then◌else◌,
}
use logos_messaging_js.Prelude.Effects.{Outcome, ok, throw, type_error, range_error, Eff}
use logos_messaging_js.Prelude.Maps.{lookup, insert, delete}
use logos_messaging_js.Platform.{Platform}
use logos_messaging_js.Message.{Message, HistoryEntry}
use logos_messaging_js.History.{has_id}
use logos_messaging_js.Bloom
use logos_messaging_js.Bloom.{BloomFilter, default_bloom_filter_options}
use logos_messaging_js.Channel.{
  Channel, Event, out_message_acknowledged, out_message_possibly_acknowledged, emit,
}

-- One entry of the causal history: what it names leaves the outgoing buffer.
unfoldable pub acknowledge : String → Channel → Channel
acknowledge id c = record c {
  outgoing_buffer = filter (λ m. not (has_id id m)) c.outgoing_buffer;
  events =
      c.events ++ map (λ m. out_message_acknowledged id) (filter (has_id id) c.outgoing_buffer);
}

unfoldable pub acknowledge_all : List HistoryEntry → Channel → Channel
unfolding acknowledge
acknowledge_all [] c = c
acknowledge_all (e ∷ es) c = acknowledge_all es (acknowledge e.message_id c)

abbrev pub count_of : Option ℕ → ℕ
count_of none = 0
count_of (some n) = n

-- One possible acknowledgement more, and the one that reaches the threshold.
abbrev pub count_ack : String → ℕ → Channel → Channel
count_ack id count c =
    emit (out_message_possibly_acknowledged id count)
      (record c { possible_acks = insert id count c.possible_acks })

abbrev pub end_ack : String → Channel → Channel
end_ack id c =
    emit (out_message_acknowledged id) (record c { possible_acks = delete id c.possible_acks })

module _ ⦃platform : Platform⦄ where
  -- The pass over the outgoing buffer with the Bloom filter of the message: the result is what
  -- stays in the buffer.
  unfoldable pub review_possible : BloomFilter → List Message → Eff Channel (List Message)
  review_possible f [] c = ok [] c
  review_possible f (m ∷ ms) c =
      let count = count_of (lookup m.message_id c.possible_acks) + 1 in
      elim (Bloom.lookup f m.message_id) [
        | none ↦ throw type_error c
        | some false ↦ elim (review_possible f ms c) [
          | ok kept c' ↦ ok (m ∷ kept) c'
          | throw e c' ↦ throw e c'
        ]
        | some true ↦ elim (ltb count c.possible_acks_threshold) [
          | true ↦ elim (review_possible f ms (count_ack m.message_id count c)) [
            | ok kept c' ↦ ok (m ∷ kept) c'
            | throw e c' ↦ throw e c'
          ]
          | false ↦ review_possible f ms (end_ack m.message_id c)
        ]
      ]

  -- The second half, by the Bloom filter of the message. `fromBytes` throws if it is too short.
  unfoldable pub review_bloom_filter : Option (List ℕ) → Eff Channel (Unit {0})
  unfolding review_possible
  review_bloom_filter none c = ok tt c
  review_bloom_filter (some bytes) c = elim (Bloom.from_bytes bytes default_bloom_filter_options) [
    | none ↦ throw range_error c
    | some f ↦ elim (review_possible f c.outgoing_buffer c) [
      | ok kept c' ↦ ok tt (record c' { outgoing_buffer = kept })
      | throw e c' ↦ throw e c'
    ]
  ]

  unfoldable pub review_ack_status : Message → Eff Channel (Unit {0})
  unfolding acknowledge_all review_bloom_filter
  review_ack_status m c = review_bloom_filter m.bloom_filter (acknowledge_all m.causal_history c)
