-- ===== src/LightPush/RetryManager/Schedule.antt =====
-- What is scheduled at once, and what happens to a task that succeeds.
use mathlib.Core.List.{append_assoc, append-nil}
use logos_messaging_js.Prelude.{
  ℕ, zero, suc, ◌-◌, ◌<◌, ◌≡◌, refl, ap, sym, ◌∙◌, true, false, some, List, [], ◌∷◌, ◌++◌,
  replicate, ltb, ◌==◌, arith,
}
use logos_messaging_js.LightPush.RetryManager.{
  max_concurrent_tasks, ScheduledTask, RetryManager, init, push, schedule_task, process_tasks,
  process_queue, begin_task, choose_peer, success, finish_task,
}
use logos_messaging_js.LightPush.RetryManager.Attempts.{
  Step, processed, begun, chosen, finished, step, run,
}

process_tasks_all :
    (queue : List ScheduledTask) (s : RetryManager)
    → s.in_progress < max_concurrent_tasks
    → process_tasks queue s ≡ record s { queue = []; timers = s.timers ++ queue }
unfolding process_tasks schedule_task
process_tasks_all [] s few =
    ap (λ ts. record s { queue = []; timers = ts }) (sym (append-nil s.timers))
process_tasks_all (task ∷ queue) s few =
    let open_slot : ltb s.in_progress max_concurrent_tasks ≡ true = ground arith in
    rw open_slot (
      process_tasks_all queue (schedule_task task s) few
      ∙ ap (λ ts. record s { queue = []; timers = ts }) (append_assoc s.timers (task ∷ []) queue))

-- If fewer than five callbacks run, processQueue takes every task off the queue and sets a timer
-- for it, however many there are.
pub process_queue_all :
    (s : RetryManager)
    → s.in_progress < max_concurrent_tasks
    → process_queue s ≡ record s { queue = []; timers = s.timers ++ s.queue }
unfolding process_queue
process_queue_all s few = process_tasks_all s.queue s few

-- The queue is processed, and the only task gets a peer and succeeds.
abbrev pub succeeds : ℕ → List Step
succeeds peer = processed ∷ begun ∷ chosen 0 (some peer) ∷ finished 0 success ∷ []

abbrev pub repeat : ℕ → List Step → List Step
repeat zero steps = []
repeat (suc n) steps = steps ++ repeat n steps

abbrev alone : ℕ → ℕ → List ℕ → RetryManager
alone callback n called = record init {
  queue = record { max_attempts = n; callback = callback } ∷ [];
  called = called;
}

one_success :
    (callback peer n : ℕ) (called : List ℕ)
    → run (succeeds peer) (alone callback (suc n) called)
      ≡ alone callback n (called ++ callback ∷ [])
unfolding process_queue process_tasks schedule_task begin_task choose_peer finish_task init
one_success callback peer n called =
    let left : (suc n == 0) ≡ false = ground arith in
    let one_less : suc n - 1 ≡ n = omega arith in rw (left, one_less) (rw left refl)

run-append : (xs ys : List Step) (s : RetryManager) → run (xs ++ ys) s ≡ run ys (run xs s)
run-append [] ys s = refl
run-append (x ∷ xs) ys s = run-append xs ys (step x s)

all_successes :
    (callback peer n : ℕ) (called : List ℕ)
    → (run (repeat n (succeeds peer)) (alone callback n called)).called
      ≡ called ++ replicate n callback
all_successes callback peer zero called = sym (append-nil called)
all_successes callback peer (suc n) called =
    ap (λ s. (run (repeat n (succeeds peer)) s).called) (one_success callback peer n called)
    ∙ all_successes callback peer n (called ++ callback ∷ [])
    ∙ append_assoc called (callback ∷ []) (replicate n callback)

-- A callback that is pushed to a new retry manager of light push and succeeds each time is called
-- again, until its attempts are used up.
pub success_resent :
    (callback peer n : ℕ)
    → (run (repeat n (succeeds peer)) (push callback n init)).called ≡ replicate n callback
unfolding push init
success_resent callback peer n = all_successes callback peer n []
