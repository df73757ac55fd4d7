-- ===== src/Reliable/SyncStatus/Tracking.antt =====
-- Where a message id is after the notifications.
use logos_messaging_js.Prelude.{
  ◌≡◌, refl, true, false, not, ◌&&◌, ◌||◌, List, [], ◌∷◌, String, arith, ◌===◌, ===_iff, any-append,
  if◌then◌else◌, ◌∙◌, ap, Bool-cases, inl, inr,
}
use logos_messaging_js.Reliable.SyncStatus.{
  SyncStatus, init, has, add, delete, clean_up, schedule_send, receive_all, miss_all, lose_all,
  on_messages_received, on_messages_missing, on_messages_lost, safe_send, run_microtask,
}

has-delete :
    (q id : String) (set : List String) → has q (delete id set) ≡ (has q set && not (id === q))
unfolding delete
has-delete q id [] = refl
has-delete q id (x ∷ set) =
    ground (arith, ===_iff x id, ===_iff x q, ===_iff id q, has-delete q id set)

has_same : (q id : String) (set : List String) → (id === q) ≡ true → has id set ≡ has q set
has_same q id set e = ap (λ x. has x set) ((===_iff id q).0 e)

has-add : (q id : String) (set : List String) → has q (add id set) ≡ (has q set || (id === q))
unfolding add
has-add q id set = elim (Bool-cases (has id set)) [
  | inl old ↦ rw old (ground (arith, old, has_same q id set))
  | inr new ↦ rw new (any-append (λ x. x === q) set (id ∷ []) ∙ ground arith)
]

module _ (q : String) where
  -- After onMessagesReceived each given message counts as received and neither as missing nor as
  -- lost; every other message counts as before.
  pub on_messages_received_lem :
      (ids : List String) (s : SyncStatus)
      → (has q (on_messages_received ids s).received_messages
          ≡ (has q s.received_messages || has q ids))
        × (has q (on_messages_received ids s).missing_messages
            ≡ (has q s.missing_messages && not (has q ids)))
        × (has q (on_messages_received ids s).lost_messages
            ≡ (has q s.lost_messages && not (has q ids)))
  unfolding on_messages_received schedule_send receive_all
  on_messages_received_lem [] s = ground arith
  on_messages_received_lem (id ∷ ids) s =
      let rest = on_messages_received_lem ids (record s {
        missing_messages = delete id s.missing_messages;
        lost_messages = delete id s.lost_messages;
        received_messages = add id s.received_messages;
      }) in
      ground (
        arith,
        rest,
        has-add q id s.received_messages,
        has-delete q id s.missing_messages,
        has-delete q id s.lost_messages,
      )

  -- After onMessagesLost each given message counts as lost and not as missing; whether it counts
  -- as received stays, and every other message counts as before.
  pub on_messages_lost_lem :
      (ids : List String) (s : SyncStatus)
      → (has q (on_messages_lost ids s).received_messages ≡ has q s.received_messages)
        × (has q (on_messages_lost ids s).missing_messages
            ≡ (has q s.missing_messages && not (has q ids)))
        × (has q (on_messages_lost ids s).lost_messages ≡ (has q s.lost_messages || has q ids))
  unfolding on_messages_lost schedule_send lose_all
  on_messages_lost_lem [] s = ground arith
  on_messages_lost_lem (id ∷ ids) s =
      let rest = on_messages_lost_lem ids (record s {
        missing_messages = delete id s.missing_messages;
        lost_messages = add id s.lost_messages;
      }) in
      ground (arith, rest, has-add q id s.lost_messages, has-delete q id s.missing_messages)

  -- After onMessagesMissing each given message that was neither received nor lost counts as
  -- missing; every other message counts as before.
  pub on_messages_missing_lem :
      (ids : List String) (s : SyncStatus)
      → (has q (on_messages_missing ids s).received_messages ≡ has q s.received_messages)
        × (has q (on_messages_missing ids s).missing_messages ≡ (
            has q s.missing_messages
            || (has q ids && not (has q s.received_messages || has q s.lost_messages))))
        × (has q (on_messages_missing ids s).lost_messages ≡ has q s.lost_messages)
  unfolding on_messages_missing schedule_send miss_all
  on_messages_missing_lem [] s = ground arith
  on_messages_missing_lem (id ∷ ids) s =
      let rest = on_messages_missing_lem ids (record s {
        missing_messages =
            (if not (has id s.received_messages) && not (has id s.lost_messages)
              then add id s.missing_messages
              else s.missing_messages);
      }) in
      ground (
        arith,
        rest,
        has-add q id s.missing_messages,
        has_same q id s.received_messages,
        has_same q id s.lost_messages,
      )

-- One notification or event in the life of a status.
pub data Change : Type 0 where
  received missing lost : List String → Change
  microtask cleaned_up : Change

abbrev pub change : Change → SyncStatus → SyncStatus
change (received ids) s = on_messages_received ids s
change (missing ids) s = on_messages_missing ids s
change (lost ids) s = on_messages_lost ids s
change microtask s = run_microtask s
change cleaned_up s = clean_up s

abbrev pub changes : List Change → SyncStatus → SyncStatus
changes [] s = s
changes (c ∷ cs) s = changes cs (change c s)

-- A message that is missing is neither received nor lost.
abbrev pub IsTracked : String → SyncStatus → Type 0
IsTracked q s =
    (has q s.missing_messages && (has q s.received_messages || has q s.lost_messages)) ≡ false

change-IsTracked :
    (q : String) (c : Change) (s : SyncStatus) → IsTracked q s → IsTracked q (change c s)
unfolding run_microtask safe_send clean_up
change-IsTracked q (received ids) s h = ground (arith, h, on_messages_received_lem q ids s)
change-IsTracked q (missing ids) s h = ground (arith, h, on_messages_missing_lem q ids s)
change-IsTracked q (lost ids) s h = ground (arith, h, on_messages_lost_lem q ids s)
change-IsTracked q microtask s h = ground (arith, h)
change-IsTracked q cleaned_up s h = refl

changes-IsTracked :
    (q : String) (cs : List Change) (s : SyncStatus) → IsTracked q s → IsTracked q (changes cs s)
changes-IsTracked q [] s h = h
changes-IsTracked q (c ∷ cs) s h = changes-IsTracked q cs (change c s) (change-IsTracked q c s h)

-- Whatever messages are notified as received, missing or lost and in whichever order, with
-- microtasks and cleanups in between, from a new status on no message counts as missing and as
-- received or lost at once.
pub missing_exclusive :
    (q : String) (cs : List Change)
    → (has q (changes cs init).missing_messages
        && (has q (changes cs init).received_messages || has q (changes cs init).lost_messages))
      ≡ false
unfolding init
missing_exclusive q cs = changes-IsTracked q cs init refl
