-- ===== src/Tests/Statuses.antt =====
-- The sync status with a few messages.
use logos_messaging_js.Prelude.{◌≡◌, false, ◌&&◌, ◌||◌, List, [], ◌∷◌}
use logos_messaging_js.Reliable.SyncStatus.{SyncStatus, init, has}
use logos_messaging_js.Reliable.SyncStatus.Tracking.{
  Change, received, missing, lost, microtask, changes, missing_exclusive,
}

abbrev some_status : SyncStatus
some_status = record init {
  received_messages = "m1" ∷ [];
  missing_messages = "m2" ∷ "m3" ∷ [];
  lost_messages = "m4" ∷ [];
}

-- "m1" is missing, is reported, arrives, and is said to be missing and lost later.
abbrev some_changes : List Change
some_changes =
    missing ("m1" ∷ [])
    ∷ microtask
    ∷ received ("m1" ∷ [])
    ∷ missing ("m1" ∷ [])
    ∷ lost ("m1" ∷ [])
    ∷ []

missing_exclusive_example :
    (has "m1" (changes some_changes init).missing_messages
      && (has "m1" (changes some_changes init).received_messages
          || has "m1" (changes some_changes init).lost_messages))
    ≡ false
missing_exclusive_example = missing_exclusive "m1" some_changes
