-- ===== src/Channel/Invariant/Queue.antt =====
-- `processTasks` as a whole.
use logos_messaging_js.Prelude.{
  ℕ, zero, suc, ◌≤◌, ◌<◌, ◌≡◌, refl, some, List, [], ◌∷◌, arith, length,
}
use logos_messaging_js.Platform.{Platform}
use logos_messaging_js.History.{Lodash}
use logos_messaging_js.Channel.{Channel, Task}
use logos_messaging_js.Channel.Tasks.{execute_task, process_tasks}
use logos_messaging_js.Channel.Tasks.Termination.{execute_task-After}
use logos_messaging_js.Channel.Invariant.{IsSound, IsValid}
use logos_messaging_js.Channel.Invariant.Runs.{execute_task-IsValid}

module _ ⦃platform : Platform⦄ ⦃lodash : Lodash⦄ (sound : IsSound platform lodash) where
  -- The queue is run to its end.
  abbrev pub Finishes : ℕ → (ℕ → ℕ) → Channel → Type 0
  Finishes fuel clock c =
      (c' : Channel) × (process_tasks fuel clock c ≡ some c')
      × (c'.tasks ≡ [])
      × IsValid c'
      × (c.lamport_timestamp ≤ c'.lamport_timestamp)

  Finishes-next :
      (fuel : ℕ) (clock : ℕ → ℕ) (c : Channel) (ts : List Task)
      → IsValid c
      → c.tasks ≡ ts
      → length ts < suc fuel
      → ((next : Channel)
          → IsValid next
          → length next.tasks < fuel
          → Finishes fuel (λ k. clock (suc k)) next)
      → Finishes (suc fuel) clock c
  unfolding process_tasks
  Finishes-next fuel clock c [] v e enough run = (c, ground (arith, e), e, v, omega arith)
  Finishes-next fuel clock c (t ∷ ts) v e enough run =
      let rest = record c { tasks = ts } in
      let next = execute_task t (clock 0) rest in
      let a = execute_task-After ts c.lamport_timestamp t (clock 0) rest (refl, omega arith) in
      let (c', done, empty, valid, later) =
        run next (execute_task-IsValid sound t (clock 0) rest v)
          (rw (a.0) (omega (arith, enough))) in
      (c', ground (arith, e, done), empty, valid, omega (arith, a.1, later))

  -- Under the assumptions on the code outside the repository (IsSound) and with more fuel than
  -- there are tasks, processTasks returns on a valid channel: whatever the time is at each task
  -- and whatever errors the tasks end with, no task is left, the channel is valid, and its clock
  -- is not set back.
  pub process_tasks_lem :
      (fuel : ℕ) (clock : ℕ → ℕ) (c : Channel)
      → IsValid c
      → length c.tasks < fuel
      → (c' : Channel) × (process_tasks fuel clock c ≡ some c')
        × (c'.tasks ≡ [])
        × IsValid c'
        × (c.lamport_timestamp ≤ c'.lamport_timestamp)
  process_tasks_lem zero clock c v enough = absurd (omega (arith, enough))
  process_tasks_lem (suc fuel) clock c v enough =
      Finishes-next fuel clock c c.tasks v refl enough (process_tasks_lem fuel (λ k. clock (suc k)))
