-- ===== src/Tests/Tasks.antt =====
-- The retry manager of light push with a few tasks.
use logos_messaging_js.Prelude.{◌≤◌, ◌≡◌, none, some, List, [], ◌∷◌, ◌++◌, replicate, arith}
use logos_messaging_js.LightPush.RetryManager.{
  RetryManager, init, process_queue, push, success, failure, no_response,
}
use logos_messaging_js.LightPush.RetryManager.Attempts.{
  Step, pushed, processed, begun, chosen, finished, sum, grant, count, run, calls_bounded,
}
use logos_messaging_js.LightPush.RetryManager.Schedule.{
  succeeds, repeat, process_queue_all, success_resent,
}

-- A task that finds no peer once, fails once and then succeeds.
abbrev some_steps : List Step
some_steps =
    pushed 7 3
    ∷ processed
    ∷ begun
    ∷ chosen 0 none
    ∷ processed
    ∷ begun
    ∷ chosen 0 (some 1)
    ∷ finished 0 (failure no_response)
    ∷ processed
    ∷ begun
    ∷ chosen 0 (some 2)
    ∷ finished 0 success
    ∷ []

calls_bounded_example : count 7 (run some_steps init).called ≤ sum (grant 7) some_steps
calls_bounded_example = calls_bounded 7 some_steps

abbrev busy : RetryManager
busy = push 1 3 (push 2 3 (push 3 3 (push 4 3 (push 5 3 (push 6 3 init)))))

process_queue_all_example :
    process_queue busy ≡ record busy { queue = []; timers = busy.timers ++ busy.queue }
unfolding push init
process_queue_all_example = process_queue_all busy (omega arith)

success_resent_example : (run (repeat 3 (succeeds 1)) (push 7 3 init)).called ≡ replicate 3 7
success_resent_example = success_resent 7 1 3
