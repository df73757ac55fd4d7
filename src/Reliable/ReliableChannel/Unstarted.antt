-- ===== src/Reliable/ReliableChannel/Unstarted.antt =====
-- What `send` leaves behind when the channel is not started or the payload is empty.
use logos_messaging_js.Prelude.{
  ℕ, ◌≡◌, ◌∙◌, ap, refl, Bool, true, false, not, Option, some, List, [], ◌∷◌, ◌++◌, String, length,
  ◌==◌, ◌===◌, ===_iff, if◌then◌else◌, arith, Bool-cases, Option-cases, inl, inr,
}
use logos_messaging_js.Prelude.Effects.{Outcome, ok, throw, state_of, returned}
use logos_messaging_js.Channel.{Channel, Reply}
use logos_messaging_js.Channel.Sending.{get_message_id}
use logos_messaging_js.Channel.Tasks.{push_outgoing_message}
use logos_messaging_js.Platform.{Platform}
use logos_messaging_js.Reliable.RetryManager.{RetryManager, start_retries}
use logos_messaging_js.Reliable.RetryManager.Attempts.{
  IsValid, attempt_of, attempt_of-retry, scheduled,
}
use logos_messaging_js.Reliable.ReliableChannel.{
  ReliableChannel, dispatch, on_retries, sending_message_irrecoverable_error, send,
}
use logos_messaging_js.Reliable.ReliableChannel.Acknowledged.{attempt_in}

-- The end of `send`, over how the push into the queue ended.
abbrev pushed :
    String → ReliableChannel → Outcome Channel (Unit {0}) → Outcome ReliableChannel String
pushed id s o = elim o [
  | ok _ c ↦ ok id (record s { message_channel = c })
  | throw e c ↦ throw e (record s { message_channel = c })
]

retries-pushed :
    (id : String) (s : ReliableChannel) (o : Outcome Channel (Unit {0}))
    → (state_of (pushed id s o)).retry_manager ≡ s.retry_manager
retries-pushed id s (ok a c) = refl
retries-pushed id s (throw e c) = refl

dispatched-pushed :
    (id : String) (s : ReliableChannel) (o : Outcome Channel (Unit {0}))
    → (state_of (pushed id s o)).dispatched ≡ s.dispatched
dispatched-pushed id s (ok a c) = refl
dispatched-pushed id s (throw e c) = refl

returned-pushed :
    (id : String) (s : ReliableChannel) (o : Outcome Channel (Unit {0}))
    → returned (pushed id s o) ≡ returned o
returned-pushed id s (ok a c) = refl
returned-pushed id s (throw e c) = refl

retries-on_retries :
    (f : RetryManager → RetryManager) (s : ReliableChannel) (r : RetryManager)
    → s.retry_manager ≡ some r
    → (on_retries f s).retry_manager ≡ some (f r)
retries-on_retries f s r e = rw e refl

dispatched-on_retries :
    (f : RetryManager → RetryManager) (s : ReliableChannel)
    → (on_retries f s).dispatched ≡ s.dispatched
dispatched-on_retries f s = elim (Option-cases s.retry_manager) [
  | inl e ↦ rw e refl
  | inr (r, e) ↦ rw e refl
]

abbrev told : Bool → String → ReliableChannel → ReliableChannel
told b id s = if b then s else dispatch (sending_message_irrecoverable_error id) s

retries-told :
    (b : Bool) (id : String) (s : ReliableChannel) → (told b id s).retry_manager ≡ s.retry_manager
retries-told true id s = refl
retries-told false id s = refl

dispatched-told :
    (b : Bool) (id : String) (s : ReliableChannel)
    → (told b id s).dispatched
      ≡ (if b then s.dispatched else s.dispatched ++ sending_message_irrecoverable_error id ∷ [])
dispatched-told true id s = refl
dispatched-told false id s = refl

module _ ⦃platform : Platform⦄ where
  returned-push :
      (payload : List ℕ) (reply : Option Reply) (c : Channel)
      → returned (push_outgoing_message payload reply c) ≡ not (length payload == 0)
  unfolding push_outgoing_message
  returned-push payload reply c = elim (Bool-cases (length payload == 0)) [
    | inl e ↦ rw e refl
    | inr e ↦ rw e refl
  ]

  -- If the timers of its retry manager are in order, send schedules the first attempt to retry the
  -- message; it does so on a channel that is not started, where it dispatches an irrecoverable
  -- error, and for an empty payload, and it throws exactly for an empty payload.
  pub send_lem :
      (payload : List ℕ) (reply : Option Reply) (s : ReliableChannel) (r : RetryManager)
      → s.retry_manager ≡ some r
      → IsValid r
      → (attempt_in (get_message_id payload) (state_of (send payload reply s)).retry_manager
          ≡ scheduled r.max_retry_number 0)
        × (returned (send payload reply s) ≡ not (length payload == 0))
        × ((state_of (send payload reply s)).dispatched ≡ (
            if s.started
            then s.dispatched
            else s.dispatched ++ sending_message_irrecoverable_error (get_message_id payload) ∷ []))
  unfolding send start_retries
  send_lem payload reply s r e v =
      let id = get_message_id payload in
      let before = told s.started id s in
      let during = on_retries (start_retries id) before in
      let o = push_outgoing_message payload reply during.message_channel in
      (
        ap (attempt_in id) (
              retries-pushed id during o
              ∙ retries-on_retries (start_retries id) before r (retries-told s.started id s ∙ e))
            ∙ attempt_of-retry id id 0 r v
            ∙ ap (λ b. if b then scheduled r.max_retry_number 0 else attempt_of id r) (same id),
        returned-pushed id during o ∙ returned-push payload reply during.message_channel,
        dispatched-pushed id during o
            ∙ dispatched-on_retries (start_retries id) before
            ∙ dispatched-told s.started id s,
      )
    where
      same : (id : String) → (id === id) ≡ true
      same id = ground (arith, ===_iff id id)
