-- ===== src/Reliable/RetryManager.antt =====
-- packages/sdk/src/reliable_channel/retry_manager.ts: `RetryManager`, with the timers of the host.
-- A handle that `setTimeout` returns is truthy and was not returned before. The given `retry` runs at
-- once when its timer fires, and may call the methods of the manager while it runs: a list of calls
-- stands for that. It does not throw where it is called, as it does not for content that is not empty.
pub mod Attempts
pub mod Firing
pub mod Bounded
pub mod Exhausted
use Prim.Native.String.{String}
use logos_messaging_js.Prelude.{
  ℕ, suc, ◌+◌, Bool, not, ◌||◌, Option, none, some, List, [], ◌∷◌, ◌++◌, find, filter, ltb, ◌==◌,
  ◌===◌, if◌then◌else◌,
}
use logos_messaging_js.Prelude.Maps.{lookup, insert, delete}

-- A timer of the host that is set: what it was set for, and `attemptNumber`.
pub record Timer : Type 0 where
  pub handle : ℕ
  pub id : String
  pub attempt_number : ℕ

pub record RetryManager : Type 0 where
  pub max_retry_number : ℕ
  pub timeouts : List (String × ℕ)
  pub timers : List Timer
  pub next_handle : ℕ
  pub retried : List String

abbrev pub new : ℕ → RetryManager
new max_retry_number = record {
  max_retry_number = max_retry_number;
  timeouts = [];
  timers = [];
  next_handle = 1;
  retried = [];
}

-- The constructor, which throws for an interval or a number of retries that is not positive.
unfoldable pub init : ℕ → ℕ → Option RetryManager
init retry_interval_ms max_retry_number =
    if (retry_interval_ms == 0) || (max_retry_number == 0)
    then none
    else some (new max_retry_number)

unfoldable pub clear_timeout : ℕ → List Timer → List Timer
clear_timeout handle timers = filter (λ t. not (t.handle == handle)) timers

unfoldable pub clear_found : Option ℕ → String → RetryManager → RetryManager
unfolding clear_timeout
clear_found none id s = s
clear_found (some handle) id s = record s {
  timers = clear_timeout handle s.timers;
  timeouts = delete id s.timeouts;
}

unfoldable pub stop_retries : String → RetryManager → RetryManager
unfolding clear_found
stop_retries id s = clear_found (lookup id s.timeouts) id s

-- `clearTimeout` for each entry.
unfoldable pub clear_each : List (String × ℕ) → List Timer → List Timer
unfolding clear_timeout
clear_each [] timers = timers
clear_each ((id, handle) ∷ entries) timers = clear_each entries (clear_timeout handle timers)

unfoldable pub stop_all_retries : RetryManager → RetryManager
unfolding clear_each
stop_all_retries s = record s { timers = clear_each s.timeouts s.timers; timeouts = [] }

-- `stop` leaves the map as it is.
unfoldable pub stop : RetryManager → RetryManager
unfolding clear_each
stop s = record s { timers = clear_each s.timeouts s.timers }

-- `setTimeout`, and the entry for the new handle.
unfoldable pub set_timer : String → ℕ → RetryManager → RetryManager
set_timer id attempt_number s = record s {
  timers = record { handle = s.next_handle; id = id; attempt_number = attempt_number } ∷ s.timers;
  timeouts = insert id s.next_handle s.timeouts;
  next_handle = suc s.next_handle;
}

unfoldable pub retry : String → ℕ → RetryManager → RetryManager
unfolding stop_retries set_timer
retry id attempt_number s =
    if ltb attempt_number s.max_retry_number
    then set_timer id attempt_number (stop_retries id s)
    else stop_retries id s

unfoldable pub start_retries : String → RetryManager → RetryManager
unfolding retry
start_retries id s = retry id 0 s

-- A call of a method.
pub data Call : Type 0 where
  calls_start calls_stop : String → Call
  calls_stop_all calls_clear : Call

unfoldable pub perform : Call → RetryManager → RetryManager
unfolding start_retries stop_retries stop_all_retries stop
perform (calls_start id) s = start_retries id s
perform (calls_stop id) s = stop_retries id s
perform calls_stop_all s = stop_all_retries s
perform calls_clear s = stop s

unfoldable pub perform_all : List Call → RetryManager → RetryManager
unfolding perform
perform_all [] s = s
perform_all (c ∷ calls) s = perform_all calls (perform c s)

-- The next attempt is registered after the calls that the retry makes.
unfoldable pub run_timer : Option Timer → List Call → RetryManager → RetryManager
unfolding retry clear_timeout perform_all
run_timer none calls s = s
run_timer (some t) calls s = retry t.id (suc t.attempt_number) (
    perform_all calls
      (record s { timers = clear_timeout t.handle s.timers; retried = s.retried ++ t.id ∷ [] }))

-- The host runs the function of a timer that is set, and the timer is no longer set.
unfoldable pub fire : ℕ → List Call → RetryManager → RetryManager
unfolding run_timer
fire handle calls s = run_timer (find (λ t. t.handle == handle) s.timers) calls s
