-- ===== src/Channel/Tasks.antt =====
-- The task queue: the public methods put tasks in, and `processTasks` runs them in order. What the
-- callbacks do to the channel while a task waits is not here: the halves of Sending are for that.
pub mod Frame
pub mod Termination
use logos_messaging_js.Prelude.{
  ℕ, zero, suc, Option, none, some, List, [], ◌∷◌, ◌++◌, length, ◌==◌, if◌then◌else◌,
}
use logos_messaging_js.Prelude.Effects.{ok, throw, library_error, Eff, ◌>>=◌}
use logos_messaging_js.Platform.{Platform}
use logos_messaging_js.Message.{Message}
use logos_messaging_js.History.{Lodash}
use logos_messaging_js.Channel.{
  Channel, Task, send, receive, send_ephemeral, Reply, error_task, emit,
}
use logos_messaging_js.Channel.Receiving
use logos_messaging_js.Channel.Sending

abbrev enqueue : Task → Channel → Channel
enqueue t c = record c { tasks = c.tasks ++ t ∷ [] }

unfoldable pub push_outgoing_message : List ℕ → Option Reply → Eff Channel (Unit {0})
push_outgoing_message payload reply c =
    if length payload == 0 then throw library_error c else ok tt (enqueue (send payload reply) c)

unfoldable pub push_outgoing_ephemeral_message : List ℕ → Option Reply → Channel → Channel
push_outgoing_ephemeral_message payload reply c = enqueue (send_ephemeral payload reply) c

unfoldable pub push_incoming_message : Message → Option (List ℕ) → Channel → Channel
push_incoming_message m hint c = enqueue (receive (record m { retrieval_hint = hint })) c

module _ ⦃platform : Platform⦄ ⦃lodash : Lodash⦄ where
  unfoldable pub run_handler : Task → ℕ → Eff Channel (Unit {0})
  run_handler (send payload reply) now = do
    m ← Sending.begin_send payload now
    Sending.finish_send m reply
  run_handler (receive m) now = Receiving.push_incoming_message m now
  run_handler (send_ephemeral payload reply) now = Sending.send_ephemeral_message payload reply

  -- An error ends the task and is told to the listeners.
  unfoldable pub execute_task : Task → ℕ → Channel → Channel
  execute_task t now c = elim (run_handler t now c) [
    | ok a c' ↦ c'
    | throw e c' ↦ emit error_task c'
  ]

  -- `while (this.tasks.length > 0)`, on fuel; `none` when the fuel runs out. `clock` has the time of
  -- each task, the present one first.
  unfoldable pub process_tasks : ℕ → (ℕ → ℕ) → Channel → Option Channel
  process_tasks zero clock c = none
  process_tasks (suc fuel) clock c = elim c.tasks [
    | [] ↦ some c
    | t ∷ ts ↦
        process_tasks fuel (λ k. clock (suc k)) (execute_task t (clock 0) (record c { tasks = ts }))
  ]
