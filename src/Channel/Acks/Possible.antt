-- ===== src/Channel/Acks/Possible.antt =====
-- What the Bloom filter of a received message takes out of the outgoing buffer.
use logos_messaging_js.Prelude.{
  ℕ, ◌+◌, ◌<◌, ◌≡◌, refl, Bool, true, false, not, ◌&&◌, Option, none, some, List, [], ◌∷◌, String,
  any, filter, arith, ===_iff, Bool-cases, Option-cases, inl, inr, ltb,
}
use logos_messaging_js.Prelude.Effects.{ok}
use logos_messaging_js.Prelude.Maps.{lookup, insert, delete, lookup-insert, lookup-delete}
use logos_messaging_js.Platform.{Platform, IsBoundedHash}
use logos_messaging_js.Message.{Message}
use logos_messaging_js.History.{has_id}
use logos_messaging_js.History.Order.{Distinct}
use logos_messaging_js.Bloom
use logos_messaging_js.Bloom.{BloomFilter}
use logos_messaging_js.Bloom.Shape.{IsShaped, lookup_total}
use logos_messaging_js.Channel.{Channel}
use logos_messaging_js.Channel.Acks.{count_of, count_ack, end_ack, review_possible}

-- With this filter the message reaches the threshold of possible acknowledgements.
abbrev reaches : ℕ → List (String × ℕ) → Message → Bool
reaches threshold acks m = not (ltb (count_of (lookup m.message_id acks) + 1) threshold)

abbrev holds : Option Bool → Bool
holds none = false
holds (some b) = b

module _ ⦃platform : Platform⦄ where
  abbrev pub is_acknowledged : BloomFilter → ℕ → List (String × ℕ) → Message → Bool
  is_acknowledged f threshold acks m =
      holds (Bloom.lookup f m.message_id) && reaches threshold acks m

  -- The counts of other messages do not matter.
  filter_insert :
      (f : BloomFilter) (n : ℕ) (acks : List (String × ℕ)) (id : String) (count : ℕ)
      (ms : List Message)
      → any (has_id id) ms ≡ false
      → filter (λ x. not (is_acknowledged f n (insert id count acks) x)) ms
        ≡ filter (λ x. not (is_acknowledged f n acks x)) ms
  filter_insert f n acks id count [] other = refl
  filter_insert f n acks id count (m ∷ ms) other = ground (
    arith,
    ===_iff m.message_id id,
    ===_iff id m.message_id,
    lookup-insert id m.message_id count acks,
    filter_insert f n acks id count ms,
  )

  filter_delete :
      (f : BloomFilter) (n : ℕ) (acks : List (String × ℕ)) (id : String) (ms : List Message)
      → any (has_id id) ms ≡ false
      → filter (λ x. not (is_acknowledged f n (delete id acks) x)) ms
        ≡ filter (λ x. not (is_acknowledged f n acks x)) ms
  filter_delete f n acks id [] other = refl
  filter_delete f n acks id (m ∷ ms) other = ground (
    arith,
    ===_iff m.message_id id,
    ===_iff id m.message_id,
    lookup-delete id m.message_id acks,
    filter_delete f n acks id ms,
  )

  -- With a hash below its maximum and a filter of its shape that has bits, the pass over distinct
  -- outgoing messages returns, and keeps, in order, exactly those that the filter lacks or whose
  -- count of possible acknowledgements stays below the threshold.
  pub review_possible_lem :
      IsBoundedHash platform
      → (f : BloomFilter) → IsShaped f
      → 0 < f.total_bits
      → (ms : List Message) (c : Channel) → Distinct ms
      → (c' : Channel) × (review_possible f ms c
          ≡ ok
              (filter (λ m. not (is_acknowledged f c.possible_acks_threshold c.possible_acks m)) ms)
              c')
  unfolding review_possible
  review_possible_lem bounded f shaped pos [] c distinct = (c, refl)
  review_possible_lem bounded f shaped pos (m ∷ ms) c distinct =
      elim (Option-cases (Bloom.lookup f m.message_id)) [
        | inl unknown ↦
            let (b, known) = lookup_total bounded f m.message_id pos shaped in
            absurd (ground (arith, known))
        | inr (false, absent) ↦
            let (c', e) = review_possible_lem bounded f shaped pos ms c distinct.1 in
            (c', rw (absent, review_possible) (rw e refl))
        | inr (true, present) ↦
            elim (Bool-cases (
              ltb (count_of (lookup m.message_id c.possible_acks) + 1) c.possible_acks_threshold)) [
                | inl few ↦
                    let count = count_of (lookup m.message_id c.possible_acks) + 1 in
                    let (c', e) =
                      review_possible_lem bounded f shaped pos ms (count_ack m.message_id count c)
                        distinct.1 in
                    let same =
                      filter_insert f c.possible_acks_threshold c.possible_acks m.message_id
                        (count_of (lookup m.message_id c.possible_acks) + 1) ms distinct.0 in
                    (c', rw (present, review_possible) (rw few (rw e (rw same refl))))
                | inr many ↦
                    let (c', e) =
                      review_possible_lem bounded f shaped pos ms (end_ack m.message_id c)
                        distinct.1 in
                    let same =
                      filter_delete f c.possible_acks_threshold c.possible_acks m.message_id ms
                        distinct.0 in
                    (c', rw (present, review_possible) (rw many (rw e (rw same refl))))
              ]
      ]
