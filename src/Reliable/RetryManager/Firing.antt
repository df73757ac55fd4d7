-- ===== src/Reliable/RetryManager/Firing.antt =====
-- The timers that fire, and those that are cleared all at once.
use Prim.Native.String.{String}
use logos_messaging_js.Prelude.{
  ℕ, suc, ◌<◌, ◌≡◌, refl, ◌∙◌, ap, Bool, true, false, not, none, some, List, [], ◌∷◌, ◌++◌, find,
  any, ◌==◌, ==_iff, ◌===◌, ===_iff, if◌then◌else◌, arith, All, inl, inr, Bool-cases, Option-cases,
}
use logos_messaging_js.Prelude.Maps.{lookup}
use logos_messaging_js.Reliable.RetryManager.{
  Timer, RetryManager, Call, calls_start, calls_stop, calls_stop_all, calls_clear, clear_timeout,
  clear_each, start_retries, stop_all_retries, stop, perform, perform_all, run_timer, fire,
}
use logos_messaging_js.Reliable.RetryManager.Attempts.{
  attempt_among, attempt_of, IsValid, All-filter, attempt_among-clear, retry-IsValid,
  stop_retries-IsValid, max-stop_retries, retried-stop_retries, scheduled, attempt_of-retry,
  max-retry, retried-retry,
}

All-clear_each :
    (P : Timer → Type 0) (m : List (String × ℕ)) (timers : List Timer)
    → All P timers
    → All P (clear_each m timers)
unfolding clear_each clear_timeout
All-clear_each P [] timers h = h
All-clear_each P ((id, handle) ∷ m) timers h =
    All-clear_each P m _ (All-filter P P _ (λ t p e. p) timers h)

-- The handle belongs to an entry of the map.
abbrev held : ℕ → List (String × ℕ) → Bool
held h m = any (λ e. e.1 == h) m

held-lookup : (m : List (String × ℕ)) (id : String) (h : ℕ) → lookup id m ≡ some h → held h m ≡ true
unfolding lookup
held-lookup [] id h e = absurd (ground arith)
held-lookup ((j, g) ∷ m) id h e = ground (arith, held-lookup m id h)

clear_each_gone :
    (m : List (String × ℕ)) (timers : List Timer)
    → All (λ t. held t.handle m ≡ true) timers
    → clear_each m timers ≡ []
unfolding clear_each clear_timeout
clear_each_gone [] [] h = refl
clear_each_gone [] (t ∷ timers) h = absurd (ground (arith, h.0))
clear_each_gone ((id, g) ∷ m) timers h = clear_each_gone m _ (
    All-filter _ _ (λ t. not (t.handle == g))
      (λ t p q. ground (arith, p, q, ==_iff t.handle g, ==_iff g t.handle)) timers h)

All-map :
    (P Q : Timer → Type 0)
    → ((t : Timer) → P t → Q t)
    → (timers : List Timer) → All P timers
    → All Q timers
All-map P Q f [] h = tt
All-map P Q f (t ∷ timers) h = (f t h.0, All-map P Q f timers h.1)

pub no_timers : (s : RetryManager) → IsValid s → clear_each s.timeouts s.timers ≡ []
no_timers s v =
    clear_each_gone s.timeouts s.timers
      (All-map _ _ (λ t e. held-lookup s.timeouts t.id t.handle e) s.timers v.registered)

stop_all_retries-IsValid : (s : RetryManager) → IsValid s → IsValid (stop_all_retries s)
unfolding stop_all_retries lookup
stop_all_retries-IsValid s v = record {
  fresh = λ id h e. absurd (ground arith);
  injective = λ id j h e. absurd (ground arith);
  registered = rw (no_timers s v) tt;
  limited = rw (no_timers s v) tt;
}

stop-IsValid : (s : RetryManager) → IsValid s → IsValid (stop s)
unfolding stop
stop-IsValid s v = record {
  fresh = v.fresh;
  injective = v.injective;
  registered = rw (no_timers s v) tt;
  limited = rw (no_timers s v) tt;
}

pub perform-IsValid : (c : Call) (s : RetryManager) → IsValid s → IsValid (perform c s)
unfolding perform start_retries
perform-IsValid (calls_start id) s v = retry-IsValid id 0 s v
perform-IsValid (calls_stop id) s v = stop_retries-IsValid id s v
perform-IsValid calls_stop_all s v = stop_all_retries-IsValid s v
perform-IsValid calls_clear s v = stop-IsValid s v

pub max-perform :
    (c : Call) (s : RetryManager) → (perform c s).max_retry_number ≡ s.max_retry_number
unfolding perform start_retries stop_all_retries stop
max-perform (calls_start id) s = max-retry id 0 s
max-perform (calls_stop id) s = max-stop_retries id s
max-perform calls_stop_all s = refl
max-perform calls_clear s = refl

retried-perform : (c : Call) (s : RetryManager) → (perform c s).retried ≡ s.retried
unfolding perform start_retries stop_all_retries stop
retried-perform (calls_start id) s = retried-retry id 0 s
retried-perform (calls_stop id) s = retried-stop_retries id s
retried-perform calls_stop_all s = refl
retried-perform calls_clear s = refl

pub perform_all-IsValid :
    (calls : List Call) (s : RetryManager) → IsValid s → IsValid (perform_all calls s)
unfolding perform_all
perform_all-IsValid [] s v = v
perform_all-IsValid (c ∷ calls) s v =
    perform_all-IsValid calls (perform c s) (perform-IsValid c s v)

pub max-perform_all :
    (calls : List Call) (s : RetryManager)
    → (perform_all calls s).max_retry_number ≡ s.max_retry_number
unfolding perform_all
max-perform_all [] s = refl
max-perform_all (c ∷ calls) s = max-perform_all calls (perform c s) ∙ max-perform c s

pub retried-perform_all :
    (calls : List Call) (s : RetryManager) → (perform_all calls s).retried ≡ s.retried
unfolding perform_all
retried-perform_all [] s = refl
retried-perform_all (c ∷ calls) s = retried-perform_all calls (perform c s) ∙ retried-perform c s

-- A timer that `find` returns is set.
found_holds :
    (P : Timer → Type 0) (p : Timer → Bool) (timers : List Timer) (t : Timer)
    → All P timers
    → find p timers ≡ some t
    → P t
found_holds P p [] t h e = absurd (ground arith)
found_holds P p (u ∷ timers) t h e = elim (Bool-cases (p u)) [
  | inl q ↦ let same : u ≡ t = ground (arith, q) in rw (← same) h.0
  | inr q ↦ found_holds P p timers t h.1 (ground (arith, q))
]

-- The state in which the callback of a timer runs, and the one in which it registers the next attempt.
abbrev pub started : Timer → RetryManager → RetryManager
started t s = record s {
  timers = clear_timeout t.handle s.timers;
  retried = s.retried ++ t.id ∷ [];
}

abbrev pub called : Timer → List Call → RetryManager → RetryManager
called t calls s = perform_all calls (started t s)

pub started-IsValid : (t : Timer) (s : RetryManager) → IsValid s → IsValid (started t s)
unfolding clear_timeout
started-IsValid t s v = record {
  fresh = v.fresh;
  injective = v.injective;
  registered = All-filter _ _ _ (λ u r p. r) s.timers v.registered;
  limited = All-filter _ _ _ (λ u r p. r) s.timers v.limited;
}

called-IsValid :
    (t : Timer) (calls : List Call) (s : RetryManager) → IsValid s → IsValid (called t calls s)
called-IsValid t calls s v = perform_all-IsValid calls (started t s) (started-IsValid t s v)

pub fire-IsValid :
    (handle : ℕ) (calls : List Call) (s : RetryManager) → IsValid s → IsValid (fire handle calls s)
unfolding fire run_timer
fire-IsValid handle calls s v = elim (Option-cases (find (λ t. t.handle == handle) s.timers)) [
  | inl e ↦ rw e v
  | inr (t, e) ↦
      rw e
        (retry-IsValid t.id (suc t.attempt_number) (called t calls s) (called-IsValid t calls s v))
]

pub max-fire :
    (handle : ℕ) (calls : List Call) (s : RetryManager)
    → (fire handle calls s).max_retry_number ≡ s.max_retry_number
unfolding fire run_timer
max-fire handle calls s = elim (Option-cases (find (λ t. t.handle == handle) s.timers)) [
  | inl e ↦ rw e refl
  | inr (t, e) ↦ rw e (
      max-retry t.id (suc t.attempt_number) (called t calls s)
      ∙ max-perform_all calls (started t s))
]

attempt_found :
    (m : List (String × ℕ)) (timers : List Timer) (h : ℕ) (t : Timer)
    → ((id j : String) (k : ℕ) → lookup id m ≡ some k → lookup j m ≡ some k → id ≡ j)
    → All (λ u. lookup u.id m ≡ some u.handle) timers
    → find (λ u. u.handle == h) timers ≡ some t
    → attempt_among t.id timers ≡ some t.attempt_number
unfolding attempt_among
attempt_found m [] h t inj reg e = absurd (ground arith)
attempt_found m (u ∷ timers) h t inj reg e = elim (Bool-cases (u.handle == h)) [
  | inl q ↦ let same : u ≡ t = ground (arith, q) in rw (← same) (ground (arith, ===_iff u.id u.id))
  | inr q ↦
      let found : find (λ u. u.handle == h) timers ≡ some t = ground (arith, q) in
      let at : lookup t.id m ≡ some t.handle =
        found_holds (λ u. lookup u.id m ≡ some u.handle) _ timers t reg.1 found in
      let named : t.handle ≡ h = found_holds_test timers t h found in
      let foreign : (u.id === t.id) ≡ false = ground (
        arith,
        q,
        reg.0,
        at,
        named,
        ===_iff u.id t.id,
        ap (λ k. lookup k m) {x = u.id} {y = t.id},
      ) in
      rw foreign (attempt_found m timers h t inj reg.1 found)
]
  where
    found_holds_test :
        (timers : List Timer) (t : Timer) (h : ℕ)
        → find (λ u. u.handle == h) timers ≡ some t
        → t.handle ≡ h
    found_holds_test [] t h e = absurd (ground arith)
    found_holds_test (u ∷ timers) t h e = elim (Bool-cases (u.handle == h)) [
      | inl q ↦ let same : u ≡ t = ground (arith, q) in rw (← same) ((==_iff u.handle h).0 q)
      | inr q ↦ found_holds_test timers t h (ground (arith, q))
    ]

attempt_of-found :
    (handle : ℕ) (t : Timer) (s : RetryManager)
    → IsValid s
    → find (λ u. u.handle == handle) s.timers ≡ some t
    → attempt_of t.id s ≡ some t.attempt_number
unfolding attempt_of
attempt_of-found handle t s v e =
    attempt_found s.timeouts s.timers handle t v.injective v.registered e

-- What a timer that is set does when it fires: it retries its message, once, and registers the next
-- attempt of this message, if one is left, whatever the retry calls; for other messages the calls
-- decide.
pub fire_lem :
    (handle : ℕ) (calls : List Call) (t : Timer) (s : RetryManager)
    → IsValid s
    → find (λ u. u.handle == handle) s.timers ≡ some t
    → (attempt_of t.id s ≡ some t.attempt_number)
      × (t.attempt_number < s.max_retry_number)
      × ((fire handle calls s).retried ≡ s.retried ++ t.id ∷ [])
      × ((j : String)
          → attempt_of j (fire handle calls s) ≡ (
              if t.id === j
              then scheduled s.max_retry_number (suc t.attempt_number)
              else attempt_of j (called t calls s)))
unfolding fire run_timer
fire_lem handle calls t s v e = (
  attempt_of-found handle t s v e,
  found_holds (λ u. u.attempt_number < s.max_retry_number) _ s.timers t v.limited e,
  rw e (
      retried-retry t.id (suc t.attempt_number) (called t calls s)
      ∙ retried-perform_all calls (started t s)),
  λ j. rw e (
      attempt_of-retry t.id j (suc t.attempt_number) (called t calls s) (called-IsValid t calls s v)
      ∙ ap
          (λ n.
            if t.id === j
            then scheduled n (suc t.attempt_number)
            else attempt_of j (called t calls s))
          (max-perform_all calls (started t s))),
)

-- The callback of a timer starts with no timer of its message, and the others as they are.
pub attempt_of-started :
    (handle : ℕ) (t : Timer) (j : String) (s : RetryManager)
    → IsValid s
    → find (λ u. u.handle == handle) s.timers ≡ some t
    → attempt_of j (started t s) ≡ (if t.id === j then none else attempt_of j s)
unfolding attempt_of
attempt_of-started handle t j s v e =
    let at : lookup t.id s.timeouts ≡ some t.handle =
      found_holds (λ u. lookup u.id s.timeouts ≡ some u.handle) _ s.timers t v.registered e in
    attempt_among-clear s.timeouts t.id j t.handle s.timers at
      (λ k f. v.injective t.id k t.handle at f) v.registered

pub fire_unset :
    (handle : ℕ) (calls : List Call) (s : RetryManager)
    → find (λ u. u.handle == handle) s.timers ≡ none
    → fire handle calls s ≡ s
unfolding fire run_timer
fire_unset handle calls s e = rw e refl
