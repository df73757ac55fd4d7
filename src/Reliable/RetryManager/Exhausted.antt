-- ===== src/Reliable/RetryManager/Exhausted.antt =====
-- A message that nobody acknowledges is retried as often as the manager allows.
use Prim.Native.String.{String}
use logos_messaging_js.Prelude.{
  ℕ, suc, ◌+◌, ◌≤◌, ◌≡◌, refl, ◌∙◌, ap, false, Option, none, some, List, [], ◌∷◌, length, find, ltb,
  ◌==◌, ◌===◌, ===_iff, if◌then◌else◌, arith, All, inl, inr, Bool-cases, Option-cases,
}
use logos_messaging_js.Prelude.Maps.{lookup}
use logos_messaging_js.Reliable.RetryManager.{Timer, RetryManager, Call, init, start_retries, fire}
use logos_messaging_js.Reliable.RetryManager.Attempts.{
  attempt_among, attempt_of, IsValid, attempt_among_missing, retry-IsValid, scheduled,
  attempt_of-retry, max-retry, retried-retry,
}
use logos_messaging_js.Reliable.RetryManager.Firing.{fire-IsValid, fire_lem, max-fire}
use logos_messaging_js.Reliable.RetryManager.Bounded.{
  Action, run, count, count-append, run-IsValid, run-max, init-IsValid,
}

-- The host runs the timer that the map has for the message.
abbrev fire_found : Option ℕ → List Call → RetryManager → RetryManager
fire_found none calls s = s
fire_found (some handle) calls s = fire handle calls s

abbrev pub fire_message : String → List Call → RetryManager → RetryManager
fire_message id calls s = fire_found (lookup id s.timeouts) calls s

-- A round for each list of calls that the retry makes.
abbrev pub rounds : List (List Call) → String → RetryManager → RetryManager
rounds [] id s = s
rounds (calls ∷ rest) id s = rounds rest id (fire_message id calls s)

timer_of :
    (m : List (String × ℕ)) (timers : List Timer) (id : String) (h k : ℕ)
    → ((i j : String) (g : ℕ) → lookup i m ≡ some g → lookup j m ≡ some g → i ≡ j)
    → lookup id m ≡ some h
    → All (λ u. lookup u.id m ≡ some u.handle) timers
    → attempt_among id timers ≡ some k
    → (t : Timer) × (find (λ u. u.handle == h) timers ≡ some t) × (t.id ≡ id)
unfolding attempt_among
timer_of m [] id h k inj at reg e = absurd (ground arith)
timer_of m (u ∷ timers) id h k inj at reg e = elim (Bool-cases (u.handle == h)) [
  | inl q ↦
      let own : lookup u.id m ≡ some h = ground (arith, reg.0, q) in
      (u, rw q refl, inj u.id id h own at)
  | inr q ↦
      let foreign : (u.id === id) ≡ false =
        ground (arith, q, reg.0, at, ===_iff u.id id, ap (λ k. lookup k m) {x = u.id} {y = id}) in
      let (t, found, named) = timer_of m timers id h k inj at reg.1 (ground (arith, foreign)) in
      (t, rw q found, named)
]

attempt_of_missing :
    (id : String) (s : RetryManager)
    → lookup id s.timeouts ≡ none
    → IsValid s
    → attempt_of id s ≡ none
unfolding attempt_of
attempt_of_missing id s m v = attempt_among_missing s.timeouts id s.timers m v.registered

timer_found :
    (id : String) (h k : ℕ) (s : RetryManager)
    → IsValid s
    → lookup id s.timeouts ≡ some h
    → attempt_of id s ≡ some k
    → (t : Timer) × (find (λ u. u.handle == h) s.timers ≡ some t) × (t.id ≡ id)
unfolding attempt_of
timer_found id h k s v m e = timer_of s.timeouts s.timers id h k v.injective m v.registered e

fire_message_lem :
    (id : String) (calls : List Call) (k : ℕ) (s : RetryManager)
    → IsValid s
    → attempt_of id s ≡ some k
    → IsValid (fire_message id calls s)
      × ((fire_message id calls s).max_retry_number ≡ s.max_retry_number)
      × (count id (fire_message id calls s).retried ≡ suc (count id s.retried))
      × (attempt_of id (fire_message id calls s) ≡ scheduled s.max_retry_number (suc k))
fire_message_lem id calls k s v e = elim (Option-cases (lookup id s.timeouts)) [
  | inl m ↦ absurd (ground (arith, e, attempt_of_missing id s m v))
  | inr (h, m) ↦
      let (t, found, named) = timer_found id h k s v m e in
      let (at, lt, logged, after) = fire_lem h calls t s v found in
      let at' : attempt_of id s ≡ some t.attempt_number = rw (← named) at in
      rw m (
        fire-IsValid h calls s v,
        max-fire h calls s,
        rw logged (ground (arith, count-append id t.id s.retried, named, ===_iff t.id id)),
        after id ∙ ground (arith, named, at', e, ===_iff t.id id),
      )
]

rounds_lem :
    (rest : List (List Call)) (k : ℕ) (id : String) (s : RetryManager)
    → IsValid s
    → attempt_of id s ≡ scheduled s.max_retry_number k
    → length rest + k ≤ s.max_retry_number
    → (count id (rounds rest id s).retried ≡ count id s.retried + length rest)
      × (attempt_of id (rounds rest id s) ≡ scheduled s.max_retry_number (k + length rest))
rounds_lem [] k id s v e h = ground (arith, e)
rounds_lem (calls ∷ rest) k id s v e h =
    let (w, same, more, next) = fire_message_lem id calls k s v (e ∙ ground arith) in
    let (counted, last) =
      rounds_lem rest (suc k) id (fire_message id calls s) w (next ∙ ground (arith, same))
        (omega (arith, same)) in
    (omega (arith, counted, more), ground (arith, last, same))

module _ (interval max : ℕ) (manager : RetryManager) (made : init interval max ≡ some manager) where
  -- Whatever was done to a new retry manager before, each time that the timer of a message fires
  -- after startRetries the message is retried once more, up to the number of retries that the
  -- manager allows, and no timer is set for it after the last one. This holds whatever methods of
  -- the manager the retry calls while it runs, also if it stops the retries of its own message.
  pub retries_exhausted :
      (id : String) (before : List Action) (calls : List (List Call))
      → length calls ≤ max
      → (count id (rounds calls id (start_retries id (run before manager))).retried
          ≡ count id (run before manager).retried + length calls)
        × (attempt_of id (rounds calls id (start_retries id (run before manager)))
            ≡ (if ltb (length calls) max then some (length calls) else none))
  unfolding start_retries
  retries_exhausted id before calls h =
      let (v, limit) = init-IsValid interval max manager made in
      let s = run before manager in
      let w = run-IsValid before manager v in
      let kept = max-retry id 0 s ∙ run-max before manager ∙ limit in
      let first : attempt_of id (start_retries id s)
          ≡ scheduled (start_retries id s).max_retry_number 0 =
        attempt_of-retry id id 0 s w ∙ ground (arith, max-retry id 0 s, ===_iff id id) in
      let plain : 0 + length calls ≡ length calls = omega arith in
      let (counted, last) =
        rounds_lem calls 0 id (start_retries id s) (retry-IsValid id 0 s w) first
          (omega (arith, kept)) in
      (
        counted ∙ ap (λ js. count id js + length calls) (retried-retry id 0 s),
        last ∙ rw kept (ap (scheduled max) plain),
      )
