-- ===== src/LightPush/RetryManager.antt =====
-- packages/sdk/src/light_push/retry_manager.ts: `RetryManager`, as the steps between two waits. A task
-- goes from the queue to a timer of 100 ms, waits for `getPeers`, runs its callback, and comes back to
-- the queue. The answers of the peer manager and of the callbacks are given to the steps.
pub mod Attempts
pub mod Schedule
use logos_messaging_js.Prelude.{
  ℕ, zero, suc, ◌+◌, ◌-◌, Bool, true, false, Option, none, some, List, [], ◌∷◌, ◌++◌, ltb, ◌==◌,
  if◌then◌else◌,
}

abbrev pub max_concurrent_tasks : ℕ
max_concurrent_tasks = 5

-- The errors that make the manager change the peer, and the others.
pub data LightPushError : Type 0 where
  remote_peer_rejected no_response rln_proof_generation no_peer_available other_error :
      LightPushError

unfoldable pub should_peer_be_changed : LightPushError → Bool
should_peer_be_changed other_error = false
should_peer_be_changed failure = true

-- A callback is known by a number. No task has fewer attempts than 0: at 0 it is dropped.
pub record ScheduledTask : Type 0 where
  pub max_attempts : ℕ
  pub callback : ℕ

pub record RetryManager : Type 0 where
  -- `intervalID` is set; the intervals of the host that run.
  pub has_interval : Bool
  pub intervals : ℕ
  pub in_progress : ℕ
  pub queue : List ScheduledTask
  -- Tasks with a timer, tasks that wait for a peer, and tasks whose callback runs with a peer.
  pub timers : List ScheduledTask
  pub choosing : List ScheduledTask
  pub running : List (ScheduledTask × ℕ)
  -- The callbacks that were called and the peers that were renewed, in order.
  pub called : List ℕ
  pub renewed : List ℕ

unfoldable pub init : RetryManager
init = record {
  has_interval = false;
  intervals = 0;
  in_progress = 0;
  queue = [];
  timers = [];
  choosing = [];
  running = [];
  called = [];
  renewed = [];
}

unfoldable pub start : RetryManager → RetryManager
start s = record s { has_interval = true; intervals = suc s.intervals }

unfoldable pub stop : RetryManager → RetryManager
stop s =
    if s.has_interval then record s { has_interval = false; intervals = s.intervals - 1 } else s

unfoldable pub push : ℕ → ℕ → RetryManager → RetryManager
push callback max_attempts s = record s {
  queue = s.queue ++ record { max_attempts = max_attempts; callback = callback } ∷ [];
}

unfoldable pub schedule_task : ScheduledTask → RetryManager → RetryManager
schedule_task task s = record s { timers = s.timers ++ task ∷ [] }

-- The loop over the queue.
unfoldable pub process_tasks : List ScheduledTask → RetryManager → RetryManager
unfolding schedule_task
process_tasks [] s = record s { queue = [] }
process_tasks (task ∷ queue) s =
    let rest = process_tasks queue (schedule_task task s) in
    if ltb s.in_progress max_concurrent_tasks then rest else record s { queue = task ∷ queue }

unfoldable pub process_queue : RetryManager → RetryManager
unfolding process_tasks
process_queue s = process_tasks s.queue s

-- The first timer fires: `taskExecutor` until it waits for a peer.
unfoldable pub begin_task : RetryManager → RetryManager
begin_task s = elim s.timers [
  | [] ↦ s
  | task ∷ timers ↦
      if task.max_attempts == 0
      then record s { timers = timers }
      else record s { timers = timers; choosing = s.choosing ++ task ∷ [] }
]

abbrev pub retried : ScheduledTask → ScheduledTask
retried task = record task { max_attempts = task.max_attempts - 1 }

-- The element at an index, and the others.
abbrev pub pick : {A : Type 0} → ℕ → List A → Option (A × List A)
pick i [] = none
pick zero (x ∷ xs) = some (x, xs)
pick (suc i) (x ∷ xs) = elim (pick i xs) [ none ↦ none | some found ↦ some (found.0, x ∷ found.1) ]

-- `getPeers` answers one of the tasks that wait for it.
unfoldable pub choose_peer : ℕ → Option ℕ → RetryManager → RetryManager
choose_peer i peer s = elim (pick i s.choosing) [
  | none ↦ s
  | some found ↦ elim peer [
    | none ↦ record s { choosing = found.1; queue = s.queue ++ retried found.0 ∷ [] }
    | some id ↦ record s {
      choosing = found.1;
      in_progress = suc s.in_progress;
      running = s.running ++ (found.0, id) ∷ [];
      called = s.called ++ found.0.callback ∷ [];
    }
  ]
]

-- How the race between a callback and its timeout ends; a timeout is an `other_error`.
pub data Result : Type 0 where
  success : Result
  failure : LightPushError → Result

abbrev after_failure : Result → ℕ → List ℕ → List ℕ
after_failure success peer renewed = renewed
after_failure (failure error) peer renewed =
    if should_peer_be_changed error then renewed ++ peer ∷ [] else renewed

-- One of the callbacks ends. The test for 0 attempts that comes next never holds, since the task began.
unfoldable pub finish_task : ℕ → Result → RetryManager → RetryManager
unfolding should_peer_be_changed
finish_task i result s = elim (pick i s.running) [
  | none ↦ s
  | some found ↦ record s {
    running = found.1;
    in_progress = s.in_progress - 1;
    renewed = after_failure result found.0.1 s.renewed;
    queue = (if found.0.0.max_attempts == 0 then s.queue else s.queue ++ retried found.0.0 ∷ []);
  }
]
