-- ===== src/Channel/Invariant/Filters.antt =====
-- The Bloom filter that goes out with a message, on every run of a channel.
use logos_messaging_js.Prelude.{
  ℕ, ◌<◌, ◌≡◌, refl, true, Option, some, List, [], ◌∷◌, String, any, All, Bool-cases, inl, inr,
  ===_iff, arith,
}
use logos_messaging_js.Platform.{Platform}
use logos_messaging_js.Message.{Message, HistoryEntry}
use logos_messaging_js.History
use logos_messaging_js.History.{Lodash, has_id}
use logos_messaging_js.Bloom
use logos_messaging_js.Bloom.{BloomFilter, default_bloom_filter_options}
use logos_messaging_js.Bloom.Serial.{from_bytes-to_bytes}
use logos_messaging_js.Channel.{Channel, MessageChannelOptions, init}
use logos_messaging_js.Channel.Sending.{new_message}
use logos_messaging_js.Channel.Invariant.{IsSound, InFilter, IsValid}
use logos_messaging_js.Channel.Invariant.Runs.{Run, run-IsValid, init-IsValid}

module _ ⦃platform : Platform⦄ where
  InFilter-any :
      (f : BloomFilter) (id : String) (ms : List Message)
      → All (InFilter f) ms
      → any (has_id id) ms ≡ true
      → Bloom.lookup f id ≡ some true
  InFilter-any f id [] h e = absurd (ground arith)
  InFilter-any f id (m ∷ ms) h e = elim (Bool-cases (has_id id m)) [
    | inl hit ↦ let same = (===_iff m.message_id id).0 hit in rw (← same) h.0
    | inr miss ↦ InFilter-any f id ms h.1 (ground arith)
  ]

module _ ⦃platform : Platform⦄ ⦃lodash : Lodash⦄ (sound : IsSound platform lodash) where
  -- A channel that is valid sends a Bloom filter that its readers can rebuild and in which every
  -- message of its local history is found.
  sent_filter :
      (c : Channel) (message_id : String) (content : Option (List ℕ)) (requests : List HistoryEntry)
      (id : String)
      → IsValid c
      → History.has id c.local_history ≡ true
      → (bytes : List ℕ) × (f : BloomFilter) × ((new_message message_id content requests
            c).bloom_filter
          ≡ some bytes)
        × (Bloom.from_bytes bytes default_bloom_filter_options ≡ some f)
        × (Bloom.lookup f id ≡ some true)
  unfolding new_message History.has
  sent_filter c message_id content requests id v known = (
    Bloom.to_bytes c.filter,
    c.filter,
    refl,
    from_bytes-to_bytes default_bloom_filter_options c.filter v.built,
    InFilter-any c.filter id c.local_history.items v.filtered known,
  )

  -- Under the assumptions on the code outside the repository (IsSound), after any run of a new
  -- channel that has room for repairs, each message put together carries a Bloom filter that a
  -- reader rebuilds and in which it finds every message of the sender's local history.
  pub sent_filter_acknowledges :
      (channel_id sender_id : String) (options : MessageChannelOptions) (max_length now : ℕ)
      (c : Channel) (message_id : String) (content : Option (List ℕ)) (requests : List HistoryEntry)
      (id : String)
      → 0 < options.repair_config.buffer_size
      → Run (init channel_id sender_id options (History.init max_length) now) c
      → History.has id c.local_history ≡ true
      → (bytes : List ℕ) × (f : BloomFilter) × ((new_message message_id content requests
            c).bloom_filter
          ≡ some bytes)
        × (Bloom.from_bytes bytes default_bloom_filter_options ≡ some f)
        × (Bloom.lookup f id ≡ some true)
  sent_filter_acknowledges channel_id sender_id options max_length now c message_id content requests
        id room run known =
      sent_filter c message_id content requests id
        (run-IsValid sound (init channel_id sender_id options (History.init max_length) now) c run
          (init-IsValid channel_id sender_id options max_length now room))
        known
