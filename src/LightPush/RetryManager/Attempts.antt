-- ===== src/LightPush/RetryManager/Attempts.antt =====
-- How often a callback is called.
use logos_messaging_js.Prelude.{
  ℕ, zero, suc, ◌+◌, ◌-◌, ◌≤◌, ◌<◌, ◌≡◌, refl, ap, false, Option, none, some, List, [], ◌∷◌, ◌++◌,
  ltb, ◌==◌, if◌then◌else◌, All, arith, Bool-cases, Option-cases, inl, inr,
}
use logos_messaging_js.LightPush.RetryManager.{
  max_concurrent_tasks, ScheduledTask, RetryManager, init, push, start, stop, schedule_task,
  process_tasks, process_queue, begin_task, retried, pick, choose_peer, Result, finish_task,
}

-- What happens to the manager.
pub data Step : Type 0 where
  pushed : ℕ → ℕ → Step
  started stopped processed begun : Step
  chosen : ℕ → Option ℕ → Step
  finished : ℕ → Result → Step

abbrev pub step : Step → RetryManager → RetryManager
step (pushed callback max_attempts) s = push callback max_attempts s
step started s = start s
step stopped s = stop s
step processed s = process_queue s
step begun s = begin_task s
step (chosen i peer) s = choose_peer i peer s
step (finished i result) s = finish_task i result s

abbrev pub run : List Step → RetryManager → RetryManager
run [] s = s
run (st ∷ steps) s = run steps (step st s)

module _ {A : Type 0} (w : A → ℕ) where
  abbrev pub sum : List A → ℕ
  sum [] = 0
  sum (x ∷ xs) = w x + sum xs

  sum-append : (xs ys : List A) → sum (xs ++ ys) ≡ sum xs + sum ys
  sum-append [] ys = omega arith
  sum-append (x ∷ xs) ys = omega (arith, sum-append xs ys)

abbrev over : {A : Type 0} → A → Option (A × List A) → Option (A × List A)
over x none = none
over x (some found) = some (found.0, x ∷ found.1)

-- The element that is picked and the others are the elements.
module _ {A : Type 0} (w : A → ℕ) (P : A → Type 0) where
  over_lem :
      (y : A) (xs : List A) (o : Option (A × List A)) (x : A) (rest : List A)
      → ((z : A) (others : List A)
          → o ≡ some (z, others)
          → (sum w xs ≡ w z + sum w others) × P z × All P others)
      → over y o ≡ some (x, rest)
      → P y
      → (sum w (y ∷ xs) ≡ w x + sum w rest) × P x × All P rest
  over_lem y xs none x rest f e p = absurd (ground arith)
  over_lem y xs (some (z, others)) x rest f e p =
      let (summed, q, k) = f z others refl in
      let same : z ≡ x = ground (arith, e) in
      let same' : y ∷ others ≡ rest = ground (arith, e) in
      rw (← same, ← same') (omega (arith, summed), q, (p, k))

  pick_lem :
      (i : ℕ) (xs : List A) (x : A) (rest : List A)
      → pick i xs ≡ some (x, rest)
      → All P xs
      → (sum w xs ≡ w x + sum w rest) × P x × All P rest
  pick_lem i [] x rest e h = absurd (ground arith)
  pick_lem zero (y ∷ xs) x rest e h =
      let same : y ≡ x = ground (arith, e) in
      let same' : xs ≡ rest = ground (arith, e) in rw (← same, ← same') (refl, h.0, h.1)
  pick_lem (suc i) (y ∷ xs) x rest e h =
      over_lem y xs (pick i xs) x rest (λ z others f. pick_lem i xs z others f h.1) e h.0

All-append : {A : Type 0} (P : A → Type 0) (xs ys : List A) → All P xs → All P ys → All P (xs ++ ys)
All-append P [] ys h k = k
All-append P (x ∷ xs) ys h k = (h.0, All-append P xs ys h.1 k)

-- A task that waits for a peer or runs has an attempt left.
record IsLive (s : RetryManager) : Type 0 where
  waiting : All (λ t. 0 < t.max_attempts) s.choosing
  going : All (λ r. 0 < r.0.max_attempts) s.running

module _ (callback : ℕ) where
  abbrev weight : ScheduledTask → ℕ
  weight t = if t.callback == callback then t.max_attempts else 0

  abbrev pub count : List ℕ → ℕ
  count cs = sum (λ c. if c == callback then 1 else 0) cs

  -- The attempts that a step pushes for the callback.
  abbrev pub grant : Step → ℕ
  grant (pushed c n) = if c == callback then n else 0
  grant st = 0

  -- The calls, and those that are left: a callback that runs has used one attempt.
  abbrev potential : RetryManager → ℕ
  potential s =
      count s.called
      + sum weight s.queue
      + sum weight s.timers
      + sum weight s.choosing
      + sum (λ r. weight r.0 - 1) s.running

  process_tasks_lem :
      (queue : List ScheduledTask) (s : RetryManager)
      → (sum weight (process_tasks queue s).queue + sum weight (process_tasks queue s).timers
          ≡ sum weight queue + sum weight s.timers)
        × ((process_tasks queue s).called ≡ s.called)
        × ((process_tasks queue s).choosing ≡ s.choosing)
        × ((process_tasks queue s).running ≡ s.running)
  unfolding process_tasks schedule_task
  process_tasks_lem [] s = (omega arith, refl, refl, refl)
  process_tasks_lem (task ∷ queue) s =
      let (sums, c, w, r) = process_tasks_lem queue (schedule_task task s) in
      elim (Bool-cases (ltb s.in_progress max_concurrent_tasks)) [
        | inl e ↦ rw e (omega (arith, sums, sum-append weight s.timers (task ∷ [])), c, w, r)
        | inr e ↦ rw e (omega arith, refl, refl, refl)
      ]

  abbrev IsPaid : ℕ → RetryManager → RetryManager → Type 0
  IsPaid granted s s' = IsLive s' × (potential s' ≤ potential s + granted)

  process_queue-IsPaid : (s : RetryManager) → IsLive s → IsPaid 0 s (process_queue s)
  unfolding process_queue
  process_queue-IsPaid s v =
      let (sums, c, w, r) = process_tasks_lem s.queue s in
      (
        record { waiting = rw w v.waiting; going = rw r v.going },
        rw (c, w, r) (omega (arith, sums)),
      )

  begun_lem :
      (timers : List ScheduledTask) (s : RetryManager)
      → s.timers ≡ timers
      → IsLive s
      → IsPaid 0 s (begin_task s)
  unfolding begin_task
  begun_lem [] s e v = rw (e, begin_task) (v, omega (arith, ap (sum weight) e))
  begun_lem (task ∷ timers) s e v =
      let sums = ap (sum weight) e in
      elim (Bool-cases (task.max_attempts == 0)) [
        | inl out ↦
            rw (e, begin_task)
              (rw out (record { waiting = v.waiting; going = v.going }, omega (arith, sums)))
        | inr more ↦
            rw (e, begin_task)
              (rw more (
                record {
                  waiting =
                      All-append (λ t. 0 < t.max_attempts) s.choosing (task ∷ []) v.waiting
                        (ground arith, tt);
                  going = v.going;
                },
                omega (arith, sums, sum-append weight s.choosing (task ∷ [])),
              ))
      ]

  chosen_lem :
      (peer : Option ℕ) (i : ℕ) (task : ScheduledTask) (others : List ScheduledTask)
      (s : RetryManager)
      → pick i s.choosing ≡ some (task, others)
      → IsLive s
      → sum weight s.choosing ≡ weight task + sum weight others
      → 0 < task.max_attempts
      → All (λ t. 0 < t.max_attempts) others
      → IsPaid 0 s (choose_peer i peer s)
  unfolding choose_peer
  chosen_lem none i task others s e v sums p k =
      rw (e, choose_peer)
        (
          record { waiting = k; going = v.going },
          ground (arith, sums, p, sum-append weight s.queue (retried task ∷ [])),
        )
  chosen_lem (some peer) i task others s e v sums p k =
      rw (e, choose_peer)
        (
          record {
            waiting = k;
            going =
                All-append (λ r. 0 < r.0.max_attempts) s.running ((task, peer) ∷ []) v.going
                  (p, tt);
          },
          ground (
            arith,
            sums,
            p,
            sum-append (λ r. weight r.0 - 1) s.running ((task, peer) ∷ []),
            sum-append (λ c. if c == callback then 1 else 0) s.called (task.callback ∷ []),
          ),
        )

  choose_peer-IsPaid :
      (i : ℕ) (peer : Option ℕ) (s : RetryManager) → IsLive s → IsPaid 0 s (choose_peer i peer s)
  unfolding choose_peer
  choose_peer-IsPaid i peer s v = elim (Option-cases (pick i s.choosing)) [
    | inl e ↦ rw (e, choose_peer) (v, omega arith)
    | inr ((task, others), e) ↦
        let (sums, p, k) =
          pick_lem weight (λ t. 0 < t.max_attempts) i s.choosing task others e v.waiting in
        chosen_lem peer i task others s e v sums p k
  ]

  finish_task-IsPaid :
      (i : ℕ) (result : Result) (s : RetryManager) → IsLive s → IsPaid 0 s (finish_task i result s)
  unfolding finish_task
  finish_task-IsPaid i result s v = elim (Option-cases (pick i s.running)) [
    | inl e ↦ rw (e, finish_task) (v, omega arith)
    | inr ((r, others), e) ↦
        let (sums, p, k) =
          pick_lem (λ r. weight r.0 - 1) (λ r. 0 < r.0.max_attempts) i s.running r others e
            v.going in
        let live : (r.0.max_attempts == 0) ≡ false = ground (arith, p) in
        rw (e, finish_task)
          (rw live (
            record { waiting = v.waiting; going = k },
            ground (arith, sums, p, sum-append weight s.queue (retried r.0 ∷ [])),
          ))
  ]

  step-IsPaid : (st : Step) (s : RetryManager) → IsLive s → IsPaid (grant st) s (step st s)
  unfolding push start stop
  step-IsPaid (pushed c n) s v = (
    record { waiting = v.waiting; going = v.going },
    ground (arith, sum-append weight s.queue (record { max_attempts = n; callback = c } ∷ [])),
  )
  step-IsPaid started s v = (record { waiting = v.waiting; going = v.going }, omega arith)
  step-IsPaid stopped s v = elim (Bool-cases s.has_interval) [
    | inl e ↦ rw (e, stop) (record { waiting = v.waiting; going = v.going }, omega arith)
    | inr e ↦ rw (e, stop) (record { waiting = v.waiting; going = v.going }, omega arith)
  ]
  step-IsPaid processed s v = process_queue-IsPaid s v
  step-IsPaid begun s v = begun_lem s.timers s refl v
  step-IsPaid (chosen i peer) s v = choose_peer-IsPaid i peer s v
  step-IsPaid (finished i result) s v = finish_task-IsPaid i result s v

  run-IsPaid :
      (steps : List Step) (s : RetryManager) → IsLive s → IsPaid (sum grant steps) s (run steps s)
  run-IsPaid [] s v = (v, omega arith)
  run-IsPaid (st ∷ steps) s v =
      let (w, one) = step-IsPaid st s v in
      let (u, rest) = run-IsPaid steps (step st s) w in (u, omega (arith, one, rest))

  -- Whatever happens to a new retry manager of light push, and in whichever order, a callback is
  -- called at most as often as the attempts that it was pushed with.
  pub calls_bounded : (steps : List Step) → count (run steps init).called ≤ sum grant steps
  unfolding init
  calls_bounded steps =
      let (v, paid) = run-IsPaid steps init (record { waiting = tt; going = tt }) in
      omega (arith, paid)
