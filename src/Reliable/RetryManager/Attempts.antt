-- ===== src/Reliable/RetryManager/Attempts.antt =====
-- Which attempt of a message is scheduled, and that each operation changes this for its message
-- alone.
use Prim.Native.String.{String}
use logos_messaging_js.Prelude.{
  ℕ, ◌<◌, ◌≡◌, refl, ◌∙◌, ap, Bool, true, false, not, Option, none, some, List, [], ◌∷◌, filter,
  ltb, ◌==◌, ◌===◌, ===_iff, if◌then◌else◌, arith, All, inl, inr, Bool-cases, Option-cases,
}
use logos_messaging_js.Prelude.Maps.{lookup, insert, delete, lookup-insert, lookup-delete}
use logos_messaging_js.Reliable.RetryManager.{
  Timer, RetryManager, clear_timeout, clear_found, stop_retries, set_timer, retry,
}

-- The attempt for which a timer is set.
unfoldable pub attempt_among : String → List Timer → Option ℕ
attempt_among id [] = none
attempt_among id (t ∷ timers) =
    if t.id === id then some t.attempt_number else attempt_among id timers

unfoldable pub attempt_of : String → RetryManager → Option ℕ
unfolding attempt_among
attempt_of id s = attempt_among id s.timers

-- Each timer that is set is the one that the map has for its message.
pub record IsValid (s : RetryManager) : Type 0 where
  pub fresh : (id : String) (h : ℕ) → lookup id s.timeouts ≡ some h → h < s.next_handle
  pub injective :
      (id j : String) (h : ℕ)
      → lookup id s.timeouts ≡ some h
      → lookup j s.timeouts ≡ some h
      → id ≡ j
  pub registered : All (λ t. lookup t.id s.timeouts ≡ some t.handle) s.timers
  pub limited : All (λ t. t.attempt_number < s.max_retry_number) s.timers

pub All-filter :
    {A : Type 0} (P Q : A → Type 0) (p : A → Bool)
    → ((x : A) → P x → p x ≡ true → Q x)
    → (xs : List A) → All P xs
    → All Q (filter p xs)
All-filter P Q p f [] h = tt
All-filter P Q p f (x ∷ xs) h = elim (Bool-cases (p x)) [
  | inl e ↦ rw e (f x h.0 e, All-filter P Q p f xs h.1)
  | inr e ↦ rw e (All-filter P Q p f xs h.1)
]

-- Among the timers that are registered, those with the handle of a message are those of the message.
pub attempt_among-clear :
    (m : List (String × ℕ)) (id j : String) (h : ℕ) (timers : List Timer)
    → lookup id m ≡ some h
    → ((k : String) → lookup k m ≡ some h → id ≡ k)
    → All (λ t. lookup t.id m ≡ some t.handle) timers
    → attempt_among j (clear_timeout h timers) ≡ (if id === j then none else attempt_among j timers)
unfolding attempt_among clear_timeout
attempt_among-clear m id j h [] e only reg = ground arith
attempt_among-clear m id j h (t ∷ timers) e only reg =
    let rest = attempt_among-clear m id j h timers e only reg.1 in
    elim (Bool-cases (t.handle == h)) [
      | inl same ↦
          let own : id ≡ t.id = only t.id (reg.0 ∙ ground arith) in
          rw same (ground (arith, rest, own, ===_iff id j, ===_iff t.id j))
      | inr other ↦
          let foreign : (id === t.id) ≡ false =
            ground (arith, reg.0, e, ===_iff id t.id, ap (λ k. lookup k m) {x = id} {y = t.id}) in
          rw other (ground (arith, rest, foreign, ===_iff id j, ===_iff t.id j, ===_iff id t.id))
    ]

pub attempt_among_missing :
    (m : List (String × ℕ)) (id : String) (timers : List Timer)
    → lookup id m ≡ none
    → All (λ t. lookup t.id m ≡ some t.handle) timers
    → attempt_among id timers ≡ none
unfolding attempt_among
attempt_among_missing m id [] e reg = refl
attempt_among_missing m id (t ∷ timers) e reg =
    let foreign : (t.id === id) ≡ false =
      ground (arith, reg.0, e, ===_iff t.id id, ap (λ k. lookup k m) {x = t.id} {y = id}) in
    rw foreign (attempt_among_missing m id timers e reg.1)

-- stopRetries leaves no timer of its message, and the others as they are.
pub attempt_of-stop_retries :
    (id j : String) (s : RetryManager)
    → IsValid s
    → attempt_of j (stop_retries id s) ≡ (if id === j then none else attempt_of j s)
unfolding attempt_of stop_retries clear_found
attempt_of-stop_retries id j s v = elim (Option-cases (lookup id s.timeouts)) [
  | inl e ↦ rw e (
      ground (
        arith,
        ===_iff id j,
        attempt_among_missing s.timeouts id s.timers e v.registered,
        ap (λ k. attempt_among k s.timers) {x = id} {y = j},
      ))
  | inr (h, e) ↦ rw e (
      attempt_among-clear s.timeouts id j h s.timers e (λ k f. v.injective id k h e f) v.registered)
]

-- No timer of the message is set.
abbrev Without : String → List Timer → Type 0
Without id timers = All (λ t. (t.id === id) ≡ false) timers

Without-clear :
    (m : List (String × ℕ)) (id : String) (h : ℕ) (timers : List Timer)
    → lookup id m ≡ some h
    → All (λ t. lookup t.id m ≡ some t.handle) timers
    → Without id (clear_timeout h timers)
unfolding clear_timeout
Without-clear m id h timers e reg =
    All-filter _ _ (λ t. not (t.handle == h))
      (λ t r p. ground (arith, r, p, e, ===_iff t.id id, ap (λ k. lookup k m) {x = t.id} {y = id}))
      timers reg

Without-missing :
    (m : List (String × ℕ)) (id : String) (timers : List Timer)
    → lookup id m ≡ none
    → All (λ t. lookup t.id m ≡ some t.handle) timers
    → Without id timers
Without-missing m id [] e reg = tt
Without-missing m id (t ∷ timers) e reg = (
  ground (arith, reg.0, e, ===_iff t.id id, ap (λ k. lookup k m) {x = t.id} {y = id}),
  Without-missing m id timers e reg.1,
)

stop_retries-Without :
    (id : String) (s : RetryManager) → IsValid s → Without id (stop_retries id s).timers
unfolding stop_retries clear_found
stop_retries-Without id s v = elim (Option-cases (lookup id s.timeouts)) [
  | inl e ↦ rw e (Without-missing s.timeouts id s.timers e v.registered)
  | inr (h, e) ↦ rw e (Without-clear s.timeouts id h s.timers e v.registered)
]

registered-delete :
    (m : List (String × ℕ)) (id : String) (timers : List Timer)
    → Without id timers
    → All (λ t. lookup t.id m ≡ some t.handle) timers
    → All (λ t. lookup t.id (delete id m) ≡ some t.handle) timers
registered-delete m id [] w reg = tt
registered-delete m id (t ∷ timers) w reg = (
  ground (arith, lookup-delete id t.id m, w.0, reg.0, ===_iff id t.id, ===_iff t.id id),
  registered-delete m id timers w.1 reg.1,
)

registered-insert :
    (m : List (String × ℕ)) (id : String) (h : ℕ) (timers : List Timer)
    → Without id timers
    → All (λ t. lookup t.id m ≡ some t.handle) timers
    → All (λ t. lookup t.id (insert id h m) ≡ some t.handle) timers
registered-insert m id h [] w reg = tt
registered-insert m id h (t ∷ timers) w reg = (
  ground (arith, lookup-insert id t.id h m, w.0, reg.0, ===_iff id t.id, ===_iff t.id id),
  registered-insert m id h timers w.1 reg.1,
)

pub stop_retries-IsValid :
    (id : String) (s : RetryManager) → IsValid s → IsValid (stop_retries id s)
unfolding stop_retries clear_found clear_timeout
stop_retries-IsValid id s v = elim (Option-cases (lookup id s.timeouts)) [
  | inl e ↦ rw e v
  | inr (h, e) ↦ rw e (record {
    fresh = λ k g f. ground (arith, f, lookup-delete id k s.timeouts, v.fresh k g);
    injective = λ k j g f f'. ground (
      arith,
      f,
      f',
      lookup-delete id k s.timeouts,
      lookup-delete id j s.timeouts,
      v.injective k j g,
    );
    registered =
        registered-delete s.timeouts id _ (Without-clear s.timeouts id h s.timers e v.registered)
          (All-filter _ _ _ (λ t r p. r) s.timers v.registered);
    limited = All-filter _ _ _ (λ t r p. r) s.timers v.limited;
  })
]

set_timer-IsValid :
    (id : String) (n : ℕ) (s : RetryManager)
    → n < s.max_retry_number
    → Without id s.timers
    → IsValid s
    → IsValid (set_timer id n s)
unfolding set_timer
set_timer-IsValid id n s lt w v = record {
  fresh = λ k g f. ground (arith, f, lookup-insert id k s.next_handle s.timeouts, v.fresh k g);
  injective = λ k j g f f'. ground (
    arith,
    f,
    f',
    lookup-insert id k s.next_handle s.timeouts,
    lookup-insert id j s.next_handle s.timeouts,
    v.injective k j g,
    v.fresh k g,
    v.fresh j g,
    ===_iff id k,
    ===_iff id j,
  );
  registered = (
    ground (arith, lookup-insert id id s.next_handle s.timeouts, ===_iff id id),
    registered-insert s.timeouts id s.next_handle s.timers w v.registered,
  );
  limited = (lt, v.limited);
}

pub max-stop_retries :
    (id : String) (s : RetryManager) → (stop_retries id s).max_retry_number ≡ s.max_retry_number
unfolding stop_retries clear_found
max-stop_retries id s = elim (Option-cases (lookup id s.timeouts)) [
  | inl e ↦ rw e refl
  | inr (h, e) ↦ rw e refl
]

pub retry-IsValid : (id : String) (n : ℕ) (s : RetryManager) → IsValid s → IsValid (retry id n s)
unfolding retry
retry-IsValid id n s v = elim (Bool-cases (ltb n s.max_retry_number)) [
  | inl e ↦ rw e (
      set_timer-IsValid id n (stop_retries id s) (ground (arith, max-stop_retries id s))
        (stop_retries-Without id s v) (stop_retries-IsValid id s v))
  | inr e ↦ rw e (stop_retries-IsValid id s v)
]

-- The attempt that is scheduled after an attempt is registered.
abbrev pub scheduled : ℕ → ℕ → Option ℕ
scheduled max n = if ltb n max then some n else none

attempt_of-set_timer :
    (id j : String) (n : ℕ) (s : RetryManager)
    → attempt_of j (set_timer id n s) ≡ (if id === j then some n else attempt_of j s)
unfolding set_timer attempt_of attempt_among
attempt_of-set_timer id j n s = refl

-- retry registers the attempt for its message if there is one left, and changes no other message.
pub attempt_of-retry :
    (id j : String) (n : ℕ) (s : RetryManager)
    → IsValid s
    → attempt_of j (retry id n s)
      ≡ (if id === j then scheduled s.max_retry_number n else attempt_of j s)
unfolding retry
attempt_of-retry id j n s v =
    let stopped = attempt_of-stop_retries id j s v in
    elim (Bool-cases (ltb n s.max_retry_number)) [
      | inl e ↦
          rw (e, attempt_of-set_timer id j n (stop_retries id s), stopped) (two _ _ _ (id === j))
      | inr e ↦ rw (e, stopped) refl
    ]
  where
    two :
        {A : Type 0} (a b c : A) (t : Bool)
        → (if t then a else (if t then b else c)) ≡ (if t then a else c)
    two a b c true = refl
    two a b c false = refl

pub max-retry :
    (id : String) (n : ℕ) (s : RetryManager) → (retry id n s).max_retry_number ≡ s.max_retry_number
unfolding retry set_timer
max-retry id n s = elim (Bool-cases (ltb n s.max_retry_number)) [
  | inl e ↦ rw e (max-stop_retries id s)
  | inr e ↦ rw e (max-stop_retries id s)
]

pub retried-stop_retries :
    (id : String) (s : RetryManager) → (stop_retries id s).retried ≡ s.retried
unfolding stop_retries clear_found
retried-stop_retries id s = elim (Option-cases (lookup id s.timeouts)) [
  | inl e ↦ rw e refl
  | inr (h, e) ↦ rw e refl
]

pub retried-retry : (id : String) (n : ℕ) (s : RetryManager) → (retry id n s).retried ≡ s.retried
unfolding retry set_timer
retried-retry id n s = elim (Bool-cases (ltb n s.max_retry_number)) [
  | inl e ↦ rw e (retried-stop_retries id s)
  | inr e ↦ rw e (retried-stop_retries id s)
]
