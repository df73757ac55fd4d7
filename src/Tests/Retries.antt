-- ===== src/Tests/Retries.antt =====
-- The retry manager of a reliable channel with a few messages.
use logos_messaging_js.Prelude.{
  ◌+◌, ◌≤◌, ◌≡◌, refl, ◌===◌, none, some, List, [], ◌∷◌, length, ltb, arith, if◌then◌else◌,
}
use logos_messaging_js.Reliable.RetryManager.{
  Call, calls_start, calls_stop, calls_stop_all, new, init, start_retries, stop_retries,
}
use logos_messaging_js.Reliable.RetryManager.Attempts.{attempt_of}
use logos_messaging_js.Reliable.RetryManager.Bounded.{
  Action, call, fires, run, count, retries_bounded, retries_stopped,
}
use logos_messaging_js.Reliable.RetryManager.Exhausted.{rounds, retries_exhausted}

made : init 30000 3 ≡ some (new 3)
unfolding init
made = refl

-- "a" and "b" are sent, "a" is retried once.
abbrev some_actions : List Action
some_actions = call (calls_start "a") ∷ call (calls_start "b") ∷ fires 1 [] ∷ []

-- "b" is retried, which stops "a", and once more.
abbrev later_actions : List Action
later_actions = fires 3 (calls_stop "a" ∷ []) ∷ call (calls_stop "a") ∷ fires 4 [] ∷ []

retries_bounded_example :
    count "b" (run later_actions (start_retries "b" (run some_actions (new 3)))).retried
    ≤ count "b" (run some_actions (new 3)).retried + 3
retries_bounded_example = retries_bounded 30000 3 (new 3) made "b" some_actions later_actions refl

-- "b" is retried, which starts "c".
abbrev other_actions : List Action
other_actions = fires 1 [] ∷ fires 2 (calls_start "c" ∷ []) ∷ fires 3 [] ∷ []

retries_stopped_example :
    count "a" (run other_actions (stop_retries "a" (run some_actions (new 3)))).retried
    ≤ count "a" (run some_actions (new 3)).retried
unfolding ◌===◌
retries_stopped_example = retries_stopped 30000 3 (new 3) made "a" some_actions other_actions refl

-- The message is stopped while it is retried.
abbrev stopping_rounds : List (List Call)
stopping_rounds = [] ∷ (calls_stop "a" ∷ []) ∷ (calls_stop_all ∷ []) ∷ []

retries_exhausted_example :
    (count "a" (rounds stopping_rounds "a" (start_retries "a" (run some_actions (new 3)))).retried
      ≡ count "a" (run some_actions (new 3)).retried + length stopping_rounds)
    × (attempt_of "a" (rounds stopping_rounds "a" (start_retries "a" (run some_actions (new 3))))
        ≡ (if ltb (length stopping_rounds) 3 then some (length stopping_rounds) else none))
retries_exhausted_example =
    retries_exhausted 30000 3 (new 3) made "a" some_actions stopping_rounds (omega arith)
