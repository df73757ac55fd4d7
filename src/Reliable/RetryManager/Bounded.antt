-- ===== src/Reliable/RetryManager/Bounded.antt =====
-- How often a message is retried, whatever else happens to the manager.
use Prim.Native.String.{String}
use logos_messaging_js.Prelude.{
  ℕ, suc, ◌+◌, ◌-◌, ◌≤◌, ◌≡◌, refl, ◌∙◌, Bool, false, Option, none, some, List, [], ◌∷◌, ◌++◌, find,
  any, ◌==◌, ◌===◌, ===_iff, if◌then◌else◌, arith, inl, inr, Bool-cases, Option-cases,
}
use logos_messaging_js.Prelude.Maps.{lookup}
use logos_messaging_js.Reliable.RetryManager.{
  Timer, RetryManager, Call, calls_start, calls_stop, calls_stop_all, calls_clear, new, init,
  stop_retries, stop_all_retries, stop, start_retries, perform, perform_all, fire, clear_each,
}
use logos_messaging_js.Reliable.RetryManager.Attempts.{
  attempt_among, attempt_of, IsValid, attempt_of-stop_retries, stop_retries-IsValid,
  max-stop_retries, retried-stop_retries, retry-IsValid, attempt_of-retry, max-retry, retried-retry,
}
use logos_messaging_js.Reliable.RetryManager.Firing.{
  no_timers, perform-IsValid, max-perform, max-perform_all, retried-perform_all, started,
  started-IsValid, called, attempt_of-started, fire-IsValid, max-fire, fire_lem, fire_unset,
}

-- What the channel and the host do with the manager: a method is called, or a timer fires, whose
-- retry makes some calls while it runs.
pub data Action : Type 0 where
  call : Call → Action
  fires : ℕ → List Call → Action

abbrev pub act : Action → RetryManager → RetryManager
act (call c) s = perform c s
act (fires handle calls) s = fire handle calls s

abbrev pub run : List Action → RetryManager → RetryManager
run [] s = s
run (a ∷ actions) s = run actions (act a s)

-- The message is started, by a call from outside or by one that a retry makes.
abbrev starts_call : String → Call → Bool
starts_call id (calls_start j) = j === id
starts_call id c = false

abbrev pub starts : String → Action → Bool
starts id (call c) = starts_call id c
starts id (fires handle calls) = any (starts_call id) calls

-- How often the message was retried.
abbrev pub count : String → List String → ℕ
count id [] = 0
count id (j ∷ js) = if j === id then suc (count id js) else count id js

abbrev left : ℕ → Option ℕ → ℕ
left max none = 0
left max (some n) = max - n

-- The retries of the message that are left.
abbrev budget : String → RetryManager → ℕ
budget id s = left s.max_retry_number (attempt_of id s)

pub count-append :
    (id j : String) (js : List String)
    → count id (js ++ j ∷ []) ≡ count id js + (if j === id then 1 else 0)
count-append id j [] = ground arith
count-append id j (k ∷ js) = ground (arith, count-append id j js)

act-IsValid : (a : Action) (s : RetryManager) → IsValid s → IsValid (act a s)
act-IsValid (call c) s v = perform-IsValid c s v
act-IsValid (fires handle calls) s v = fire-IsValid handle calls s v

pub run-IsValid : (actions : List Action) (s : RetryManager) → IsValid s → IsValid (run actions s)
run-IsValid [] s v = v
run-IsValid (a ∷ actions) s v = run-IsValid actions (act a s) (act-IsValid a s v)

act-max : (a : Action) (s : RetryManager) → (act a s).max_retry_number ≡ s.max_retry_number
act-max (call c) s = max-perform c s
act-max (fires handle calls) s = max-fire handle calls s

pub run-max :
    (actions : List Action) (s : RetryManager)
    → (run actions s).max_retry_number ≡ s.max_retry_number
run-max [] s = refl
run-max (a ∷ actions) s = run-max actions (act a s) ∙ act-max a s

-- A retry is paid from the budget.
abbrev IsPaid : String → RetryManager → RetryManager → Type 0
IsPaid id s s' = count id s'.retried + budget id s' ≤ count id s.retried + budget id s

IsPaid-none :
    (id : String) (s s' : RetryManager)
    → s'.retried ≡ s.retried
    → attempt_of id s' ≡ none
    → IsPaid id s s'
unfolding attempt_of
IsPaid-none id s s' e f = rw (e, f) (omega arith)

IsPaid-same :
    (id : String) (s s' : RetryManager)
    → s'.retried ≡ s.retried
    → s'.max_retry_number ≡ s.max_retry_number
    → attempt_of id s' ≡ attempt_of id s
    → IsPaid id s s'
unfolding attempt_of
IsPaid-same id s s' e g f = rw (e, f, g) (omega arith)

cleared-IsPaid :
    (id : String) (s s' : RetryManager)
    → IsValid s
    → s'.retried ≡ s.retried
    → s'.timers ≡ clear_each s.timeouts s.timers
    → IsPaid id s s'
unfolding attempt_of attempt_among
cleared-IsPaid id s s' v e f = IsPaid-none id s s' e (rw (f, no_timers s v) refl)

perform-IsPaid :
    (id : String) (c : Call) (s : RetryManager)
    → IsValid s
    → starts_call id c ≡ false
    → IsPaid id s (perform c s)
unfolding perform start_retries stop_all_retries stop
perform-IsPaid id (calls_start j) s v n =
    IsPaid-same id s _ (retried-retry j 0 s) (max-retry j 0 s)
      (attempt_of-retry j id 0 s v ∙ rw n refl)
perform-IsPaid id (calls_stop j) s v n = elim (Bool-cases (j === id)) [
  | inl e ↦
      IsPaid-none id s _ (retried-stop_retries j s) (attempt_of-stop_retries j id s v ∙ rw e refl)
  | inr e ↦
      IsPaid-same id s _ (retried-stop_retries j s) (max-stop_retries j s)
        (attempt_of-stop_retries j id s v ∙ rw e refl)
]
perform-IsPaid id calls_stop_all s v n = cleared-IsPaid id s _ v refl refl
perform-IsPaid id calls_clear s v n = cleared-IsPaid id s _ v refl refl

perform_all-IsPaid :
    (id : String) (calls : List Call) (s : RetryManager)
    → IsValid s
    → any (starts_call id) calls ≡ false
    → IsPaid id s (perform_all calls s)
unfolding perform_all
perform_all-IsPaid id [] s v n = omega arith
perform_all-IsPaid id (c ∷ calls) s v n =
    let one = perform-IsPaid id c s v (ground arith) in
    let rest = perform_all-IsPaid id calls (perform c s) (perform-IsValid c s v) (ground arith) in
    omega (arith, one, rest)

-- The calls of another message's retry leave no more retries than there were.
called_budget :
    (id : String) (handle : ℕ) (calls : List Call) (t : Timer) (s : RetryManager)
    → IsValid s
    → find (λ u. u.handle == handle) s.timers ≡ some t
    → any (starts_call id) calls ≡ false
    → (t.id === id) ≡ false
    → left s.max_retry_number (attempt_of id (called t calls s)) ≤ budget id s
called_budget id handle calls t s v e n other =
    let paid = perform_all-IsPaid id calls (started t s) (started-IsValid t s v) n in
    let same = attempt_of-started handle t id s v e in
    ground (
      arith,
      paid,
      same,
      max-perform_all calls (started t s),
      retried-perform_all calls (started t s),
    )

fire-IsPaid :
    (id : String) (handle : ℕ) (calls : List Call) (s : RetryManager)
    → IsValid s
    → any (starts_call id) calls ≡ false
    → IsPaid id s (fire handle calls s)
unfolding attempt_of
fire-IsPaid id handle calls s v n = elim (Option-cases (find (λ t. t.handle == handle) s.timers)) [
  | inl e ↦ rw (fire_unset handle calls s e) (omega arith)
  | inr (t, e) ↦
      let (at, lt, logged, after) = fire_lem handle calls t s v e in
      let own : t.id ≡ id → attempt_of id s ≡ some t.attempt_number = λ p. rw (← p) at in
      let others = called_budget id handle calls t s v e n in
      rw (logged, max-fire handle calls s, after id, count-append id t.id s.retried)
        (ground (arith, lt, own, others, ===_iff t.id id))
]

act-IsPaid :
    (id : String) (a : Action) (s : RetryManager)
    → IsValid s
    → starts id a ≡ false
    → IsPaid id s (act a s)
act-IsPaid id (call c) s v n = perform-IsPaid id c s v n
act-IsPaid id (fires handle calls) s v n = fire-IsPaid id handle calls s v n

run-IsPaid :
    (id : String) (actions : List Action) (s : RetryManager)
    → IsValid s
    → any (starts id) actions ≡ false
    → IsPaid id s (run actions s)
run-IsPaid id [] s v n = omega arith
run-IsPaid id (a ∷ actions) s v n =
    let one = act-IsPaid id a s v (ground arith) in
    let rest = run-IsPaid id actions (act a s) (act-IsValid a s v) (ground arith) in
    omega (arith, one, rest)

pub new-IsValid : (max : ℕ) → IsValid (new max)
unfolding lookup
new-IsValid max = record {
  fresh = λ id h e. absurd (ground arith);
  injective = λ id j h e. absurd (ground arith);
  registered = tt;
  limited = tt;
}

pub init-IsValid :
    (interval max : ℕ) (s : RetryManager)
    → init interval max ≡ some s
    → IsValid s × (s.max_retry_number ≡ max)
unfolding init
init-IsValid interval max s e =
    let made : new max ≡ s = ground (arith, e) in rw (← made) (new-IsValid max, refl)

module _ (interval max : ℕ) (manager : RetryManager) (made : init interval max ≡ some manager) where
  -- Whatever is done to a new retry manager before and after, and whatever methods of the manager
  -- a retry calls while it runs, a message is retried after startRetries at most as often as the
  -- manager allows, until it is started again.
  pub retries_bounded :
      (id : String) (before after : List Action)
      → any (starts id) after ≡ false
      → count id (run after (start_retries id (run before manager))).retried
        ≤ count id (run before manager).retried + max
  unfolding start_retries
  retries_bounded id before after n =
      let (v, limit) = init-IsValid interval max manager made in
      let s = run before manager in
      let w = run-IsValid before manager v in
      let paid = run-IsPaid id after (start_retries id s) (retry-IsValid id 0 s w) n in
      let kept = run-max before manager in
      ground (
        arith,
        paid,
        kept,
        limit,
        max-retry id 0 s,
        retried-retry id 0 s,
        attempt_of-retry id id 0 s w,
        ===_iff id id,
      )

  -- If stopRetries is called for a message while no retry runs, then the message is not retried
  -- any more until it is started again, whatever was done to a new retry manager before and is
  -- done after, and whatever methods of the manager the retries of other messages call while they
  -- run.
  pub retries_stopped :
      (id : String) (before after : List Action)
      → any (starts id) after ≡ false
      → count id (run after (stop_retries id (run before manager))).retried
        ≤ count id (run before manager).retried
  retries_stopped id before after n =
      let (v, limit) = init-IsValid interval max manager made in
      let s = run before manager in
      let w = run-IsValid before manager v in
      let paid = run-IsPaid id after (stop_retries id s) (stop_retries-IsValid id s w) n in
      ground
        (arith, paid, retried-stop_retries id s, attempt_of-stop_retries id id s w, ===_iff id id)
