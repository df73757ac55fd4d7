-- ===== src/Channel/Invariant.antt =====
-- The invariant of a channel, over the parts of its state that it reads.
pub mod Parts
pub mod Acking
pub mod Delivering
pub mod Receiving
pub mod Sweeping
pub mod Sending
pub mod Runs
pub mod Filters
pub mod Queue
use logos_messaging_js.Prelude.{ℕ, ◌≤◌, ◌≡◌, ◌⊎◌, Bool, true, false, Option, none, some, List, All}
use logos_messaging_js.Platform.{Platform, IsCollation, IsBoundedHash}
use logos_messaging_js.Message.{Message, is_content_message}
use logos_messaging_js.History.{LocalHistory, Lodash}
use logos_messaging_js.History.Order.{KeepsFirst, IsValid as IsValidHistory}
use logos_messaging_js.Bloom
use logos_messaging_js.Bloom.{BloomFilter, default_bloom_filter_options}
use logos_messaging_js.Bloom.Serial.{IsBuiltFrom}
use logos_messaging_js.Repair.Manager.{RepairManager}
use logos_messaging_js.Repair.Manager.Validity.{IsValid as IsValidManager}
use logos_messaging_js.Channel.{Channel, timestamp_of}

-- What is assumed of the code outside the repository.
pub record IsSound (platform : Platform) (lodash : Lodash) : Type 0 where
  pub collation : IsCollation platform
  pub uniq : KeepsFirst lodash
  pub bounded : IsBoundedHash platform

abbrev pub IsValidRepair : Option RepairManager → Type 0
IsValidRepair none = Unit {0}
IsValidRepair (some r) = IsValidManager r

abbrev pub IsClocked : ℕ → Message → Type 0
IsClocked t m = timestamp_of m ≤ t

module _ ⦃platform : Platform⦄ where
  abbrev pub InFilter : BloomFilter → Message → Type 0
  InFilter f m = Bloom.lookup f m.message_id ≡ some true

  -- A message that waits is a sync message or in the filter.
  abbrev pub IsNoted : BloomFilter → Message → Type 0
  IsNoted f m = (is_content_message m ≡ false) ⊎ InFilter f m

  pub record Holds (history : LocalHistory) (clock : ℕ) (outgoing : List Message)
      (filter : BloomFilter) (incoming : List Message) (repair : Option RepairManager)
      : Type 0 where
    -- In order, without duplicates, within its length, content messages alone.
    pub ordered : IsValidHistory history
    -- The Lamport clock is not behind any message of the history or of the own ones.
    pub clocked : All (IsClocked clock) history.items
    pub outgoing_clocked : All (IsClocked clock) outgoing
    pub built : IsBuiltFrom default_bloom_filter_options filter
    -- The Bloom filter that goes out with the next message acknowledges the whole history.
    pub filtered : All (InFilter filter) history.items
    pub noted : All (IsNoted filter) incoming
    pub repair_valid : IsValidRepair repair

  abbrev pub IsValid : Channel → Type 0
  IsValid c =
      Holds c.local_history c.lamport_timestamp c.outgoing_buffer c.filter c.incoming_buffer
        c.repair_manager
