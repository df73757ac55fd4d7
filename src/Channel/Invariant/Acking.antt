-- ===== src/Channel/Invariant/Acking.antt =====
-- Reviewing the acknowledgements keeps the invariant.
use logos_messaging_js.Prelude.{
  ℕ, ◌+◌, ◌≡◌, inl, inr, refl, true, false, Option, none, some, List, [], ◌∷◌, All, Option-cases,
  Bool-cases, ltb,
}
use logos_messaging_js.Prelude.Sorting.{All-filter}
use logos_messaging_js.Prelude.Effects.{Outcome, ok, throw, state_of}
use logos_messaging_js.Prelude.Maps.{lookup}
use logos_messaging_js.Platform.{Platform}
use logos_messaging_js.Message.{Message, HistoryEntry}
use logos_messaging_js.History.{LocalHistory}
use logos_messaging_js.Bloom
use logos_messaging_js.Bloom.{BloomFilter, default_bloom_filter_options}
use logos_messaging_js.Repair.Manager.{RepairManager}
use logos_messaging_js.Channel.{Channel}
use logos_messaging_js.Channel.Acks.{
  acknowledge, acknowledge_all, count_of, review_possible, review_bloom_filter, review_ack_status,
}
use logos_messaging_js.Channel.Invariant.{IsClocked, Holds, IsValid}

module _ ⦃platform : Platform⦄ where
  -- Another outgoing buffer.
  pub outgoing-Holds :
      {h : LocalHistory} {t : ℕ} {out inc : List Message} {f : BloomFilter}
      {r : Option RepairManager} (out' : List Message)
      → All (IsClocked t) out'
      → Holds h t out f inc r
      → Holds h t out' f inc r
  outgoing-Holds out' clocked v = record {
    ordered = v.ordered;
    clocked = v.clocked;
    outgoing_clocked = clocked;
    built = v.built;
    filtered = v.filtered;
    noted = v.noted;
    repair_valid = v.repair_valid;
  }

  acknowledge_all-IsValid :
      (es : List HistoryEntry) (c : Channel) → IsValid c → IsValid (acknowledge_all es c)
  unfolding acknowledge_all
  acknowledge_all-IsValid [] c v = v
  acknowledge_all-IsValid (e ∷ es) c v =
      acknowledge_all-IsValid es (acknowledge e.message_id c)
        (outgoing-Holds _ (All-filter _ _ c.outgoing_buffer v.outgoing_clocked) v)

  -- After the pass: the invariant, the clock as it was, and the messages that stay are not ahead.
  abbrev Leaves : ℕ → Outcome Channel (List Message) → Type 0
  Leaves t (ok kept c) = IsValid c × (c.lamport_timestamp ≡ t) × All (IsClocked t) kept
  Leaves t (throw e c) = IsValid c

  keep-Leaves :
      (t : ℕ) (m : Message) (o : Outcome Channel (List Message))
      → IsClocked t m
      → Leaves t o
      → Leaves t (elim o [ ok kept c' ↦ ok (m ∷ kept) c' | throw e c' ↦ throw e c' ])
  keep-Leaves t m (ok kept c) k l = (l.0, l.1, (k, l.2))
  keep-Leaves t m (throw e c) k l = l

  review_possible-Leaves :
      (f : BloomFilter) (ms : List Message) (t : ℕ) (c : Channel)
      → c.lamport_timestamp ≡ t
      → All (IsClocked t) ms
      → IsValid c
      → Leaves t (review_possible f ms c)
  unfolding review_possible
  review_possible-Leaves f [] t c e k v = (v, e, tt)
  review_possible-Leaves f (m ∷ ms) t c e k v = elim (Option-cases (Bloom.lookup f m.message_id)) [
    | inl unknown ↦ rw (unknown, review_possible) v
    | inr (false, absent) ↦
        rw (absent, review_possible)
          (keep-Leaves t m _ k.0 (review_possible-Leaves f ms t c e k.1 v))
    | inr (true, present) ↦
        elim (Bool-cases
          (ltb (count_of (lookup m.message_id c.possible_acks) + 1) c.possible_acks_threshold)) [
            | inl few ↦
                rw (present, review_possible)
                  (rw few (keep-Leaves t m _ k.0 (review_possible-Leaves f ms t _ e k.1 v)))
            | inr many ↦
                rw (present, review_possible) (rw many (review_possible-Leaves f ms t _ e k.1 v))
          ]
  ]

  review_bloom_filter-IsValid :
      (bytes : Option (List ℕ)) (c : Channel)
      → IsValid c
      → IsValid (state_of (review_bloom_filter bytes c))
  unfolding review_bloom_filter
  review_bloom_filter-IsValid none c v = v
  review_bloom_filter-IsValid (some bytes) c v =
      elim (Option-cases (Bloom.from_bytes bytes default_bloom_filter_options)) [
        | inl short ↦ rw (short, review_bloom_filter) v
        | inr (f, read) ↦
            rw (read, review_bloom_filter)
              (done (review_possible f c.outgoing_buffer c) (
                review_possible-Leaves f c.outgoing_buffer c.lamport_timestamp c refl
                  v.outgoing_clocked v))
      ]
    where
      done :
          (o : Outcome Channel (List Message))
          → Leaves c.lamport_timestamp o
          → IsValid (
              state_of {A = Unit {0}} (elim o [
                | ok kept c' ↦ ok tt (record c' { outgoing_buffer = kept })
                | throw e c' ↦ throw e c'
              ]))
      done (ok kept c') l = outgoing-Holds kept (rw (l.1) l.2) l.0
      done (throw e c') l = l

  -- Reviewing the acknowledgements of a message keeps the invariant, also where it throws.
  pub review_ack_status-IsValid :
      (m : Message) (c : Channel) → IsValid c → IsValid (state_of (review_ack_status m c))
  unfolding review_ack_status
  review_ack_status-IsValid m c v =
      review_bloom_filter-IsValid m.bloom_filter (acknowledge_all m.causal_history c)
        (acknowledge_all-IsValid m.causal_history c v)
