-- ===== src/Reliable/SyncStatus.antt =====
-- packages/sdk/src/reliable_channel/sync_status.ts: the sets of received, missing and lost messages,
-- and the status event that one microtask sends for all changes before it. A `Set` is the list of
-- its elements in the order of insertion.
pub mod Tracking
use logos_messaging_js.Prelude.{
  ℕ, Bool, true, false, not, ◌&&◌, ◌||◌, Option, none, some, List, [], ◌∷◌, ◌++◌, String, length,
  any, filter, if◌then◌else◌, ◌===◌, ◌==◌,
}

pub data StatusEvent : Type 0 where
  synced syncing : StatusEvent

pub record StatusDetail : Type 0 where
  pub received : ℕ
  pub missing : ℕ
  pub lost : ℕ

pub record SyncStatus : Type 0 where
  pub received_messages : List String
  pub missing_messages : List String
  pub lost_messages : List String
  -- A microtask that sends the status is queued.
  pub send_scheduled : Bool
  pub cleaned : Bool
  pub sent : List (StatusEvent × StatusDetail)

unfoldable pub init : SyncStatus
init = record {
  received_messages = [];
  missing_messages = [];
  lost_messages = [];
  send_scheduled = false;
  cleaned = false;
  sent = [];
}

-- `set.has(id)`, `set.add(id)` and `set.delete(id)`.
abbrev pub has : String → List String → Bool
has id set = any (λ x. x === id) set

unfoldable pub add : String → List String → List String
add id set = if has id set then set else set ++ id ∷ []

unfoldable pub delete : String → List String → List String
delete id set = filter (λ x. not (x === id)) set

unfoldable pub clean_up : SyncStatus → SyncStatus
clean_up s = record s {
  cleaned = true;
  received_messages = [];
  missing_messages = [];
  lost_messages = [];
}

unfoldable pub schedule_send : SyncStatus → SyncStatus
schedule_send s = record s { send_scheduled = true }

-- The loops of the three notifications.
unfoldable pub receive_all : List String → SyncStatus → SyncStatus
receive_all [] s = s
receive_all (id ∷ ids) s = receive_all ids (record s {
  missing_messages = delete id s.missing_messages;
  lost_messages = delete id s.lost_messages;
  received_messages = add id s.received_messages;
})

unfoldable pub miss_all : List String → SyncStatus → SyncStatus
miss_all [] s = s
miss_all (id ∷ ids) s = miss_all ids (record s {
  missing_messages =
      (if not (has id s.received_messages) && not (has id s.lost_messages)
        then add id s.missing_messages
        else s.missing_messages);
})

unfoldable pub lose_all : List String → SyncStatus → SyncStatus
lose_all [] s = s
lose_all (id ∷ ids) s = lose_all ids (record s {
  missing_messages = delete id s.missing_messages;
  lost_messages = add id s.lost_messages;
})

unfoldable pub on_messages_received : List String → SyncStatus → SyncStatus
unfolding schedule_send
on_messages_received ids s = schedule_send (receive_all ids s)

unfoldable pub on_messages_missing : List String → SyncStatus → SyncStatus
unfolding schedule_send
on_messages_missing ids s = schedule_send (miss_all ids s)

unfoldable pub on_messages_lost : List String → SyncStatus → SyncStatus
unfolding schedule_send
on_messages_lost ids s = schedule_send (lose_all ids s)

unfoldable pub safe_send : SyncStatus → SyncStatus
safe_send s = if s.cleaned then s else record s {
  sent =
      s.sent
      ++ (
        (if length s.missing_messages == 0 then synced else syncing),
        record {
          received = length s.received_messages;
          missing = length s.missing_messages;
          lost = length s.lost_messages;
        },
      )
        ∷ [];
}

-- The queued microtask, if there is one.
unfoldable pub run_microtask : SyncStatus → SyncStatus
unfolding safe_send
run_microtask s = if s.send_scheduled then safe_send (record s { send_scheduled = false }) else s
