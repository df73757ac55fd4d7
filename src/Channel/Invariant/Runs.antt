-- ===== src/Channel/Invariant/Runs.antt =====
-- Runs of a channel: tasks and sweeps in any order and at any times, from a new channel.
use logos_messaging_js.Prelude.{
  ℕ, ◌<◌, refl, Bool, true, false, Option, none, some, List, String, arith, if◌then◌else◌,
}
use logos_messaging_js.Prelude.Effects.{Outcome, ok, throw, state_of}
use logos_messaging_js.Platform.{Platform}
use logos_messaging_js.Message.{Message}
use logos_messaging_js.History
use logos_messaging_js.History.{Lodash}
use logos_messaging_js.Repair.Manager
use logos_messaging_js.Repair.Manager.{RepairConfig}
use logos_messaging_js.Repair.Manager.Validity.{init-IsValid as manager_init-IsValid}
use logos_messaging_js.Bloom.{default_bloom_filter_options}
use logos_messaging_js.Bloom.Shape.{init-IsShaped}
use logos_messaging_js.Channel.{
  Channel, MessageChannelOptions, Task, send, receive, send_ephemeral, Reply, rejected, resolved,
  init, emit, error_task, or_default,
}
use logos_messaging_js.Channel.Sending
use logos_messaging_js.Channel.Sending.{begin_sync, finish_sync, send_ephemeral_message}
use logos_messaging_js.Channel.Sweeping.{
  sweep_incoming_buffer, sweep_repair_incoming_buffer, finish_repair_sweep,
}
use logos_messaging_js.Channel.Tasks.{run_handler, execute_task}
use logos_messaging_js.Channel.Invariant.{IsSound, IsValidRepair, IsValid}
use logos_messaging_js.Channel.Invariant.Receiving.{push_incoming_message-IsValid}
use logos_messaging_js.Channel.Invariant.Sweeping.{
  sweep_incoming_buffer-IsValid, sweep_repair_incoming_buffer-IsValid,
}
use logos_messaging_js.Channel.Invariant.Sending.{
  begin_send-Begun, Begun, finish_send-IsValid, begin_sync-IsValid,
}

module _ ⦃platform : Platform⦄ where
  -- A new channel with an empty history and room for repairs satisfies the invariant.
  pub init-IsValid :
      (channel_id sender_id : String) (options : MessageChannelOptions) (max_length now : ℕ)
      → 0 < options.repair_config.buffer_size
      → IsValid (init channel_id sender_id options (History.init max_length) now)
  unfolding init History.init
  init-IsValid channel_id sender_id options max_length now room = record {
    ordered = record { sorted = tt; distinct = tt; bounded = omega arith; content = tt };
    clocked = tt;
    outgoing_clocked = tt;
    built = record {
      bits = refl;
      hashes = refl;
      shaped = init-IsShaped default_bloom_filter_options;
    };
    filtered = tt;
    noted = tt;
    repair_valid = repairs (or_default options.enable_repair true);
  }
    where
      repairs :
          (enabled : Bool)
          → IsValidRepair
              (if enabled then some (Manager.init sender_id options.repair_config) else none)
      repairs true = manager_init-IsValid sender_id options.repair_config room
      repairs false = tt

  finish_sync-IsValid :
      (sent : Option Message) (reply : Option Reply) (c : Channel)
      → IsValid c
      → IsValid (state_of (finish_sync sent reply c))
  unfolding finish_sync
  finish_sync-IsValid none reply c v = v
  finish_sync-IsValid (some m) none c v = v
  finish_sync-IsValid (some m) (some rejected) c v = v
  finish_sync-IsValid (some m) (some (resolved success hint t)) c v = ground arith

  ephemeral-IsValid :
      (payload : List ℕ) (reply : Option Reply) (c : Channel)
      → IsValid c
      → IsValid (state_of (send_ephemeral_message payload reply c))
  unfolding send_ephemeral_message
  ephemeral-IsValid payload none c v = ground arith
  ephemeral-IsValid payload (some rejected) c v = ground arith
  ephemeral-IsValid payload (some (resolved success hint t)) c v = ground arith

module _ ⦃platform : Platform⦄ ⦃lodash : Lodash⦄ (sound : IsSound platform lodash) where
  run_handler-IsValid :
      (t : Task) (now : ℕ) (c : Channel) → IsValid c → IsValid (state_of (run_handler t now c))
  unfolding run_handler
  run_handler-IsValid (send payload reply) now c v =
      go (Sending.begin_send payload now c) (begin_send-Begun payload now c v)
    where
      go :
          (o : Outcome Channel Message)
          → Begun o
          → IsValid (
              state_of {A = Unit {0}}
                (elim o [ ok m c' ↦ Sending.finish_send m reply c' | throw e c' ↦ throw e c' ]))
      go (ok m c') b = finish_send-IsValid sound m reply c' b.1 b.0
      go (throw e c') b = b
  run_handler-IsValid (receive m) now c v = push_incoming_message-IsValid sound m now c v
  run_handler-IsValid (send_ephemeral payload reply) now c v = ephemeral-IsValid payload reply c v

  -- Every task keeps the invariant, also one that ends with an error.
  pub execute_task-IsValid :
      (t : Task) (now : ℕ) (c : Channel) → IsValid c → IsValid (execute_task t now c)
  unfolding execute_task
  execute_task-IsValid t now c v = go (run_handler t now c) (run_handler-IsValid t now c v)
    where
      go :
          (o : Outcome Channel (Unit {0}))
          → IsValid (state_of o)
          → IsValid
              (let x : Channel = elim o [ ok a c' ↦ c' | throw e c' ↦ emit error_task c' ] in x)
      go (ok a c') w = w
      go (throw e c') w = w

module _ ⦃platform : Platform⦄ ⦃lodash : Lodash⦄ where
  -- What can happen to a channel, at any time `now` and with any outcome of the callbacks.
  pub data Step : Channel → Channel → Type 0 where
    task : (t : Task) (now : ℕ) (c : Channel) → Step c (execute_task t now c)
    sweep_incoming : (now : ℕ) (c : Channel) → Step c (state_of (sweep_incoming_buffer now c))
    sweep_repairs : (now : ℕ) (c : Channel) → Step c (sweep_repair_incoming_buffer now c).1
    end_repairs :
        (replies : List (Message × Reply)) (c : Channel) → Step c (finish_repair_sweep replies c)
    start_sync : (random : String) (now : ℕ) (c : Channel) → Step c (begin_sync random now c).1
    end_sync :
        (sent : Option Message) (reply : Option Reply) (c : Channel)
        → Step c (state_of (finish_sync sent reply c))

  pub data Run : Channel → Channel → Type 0 where
    start : (c : Channel) → Run c c
    step : {a b c : Channel} → Run a b → Step b c → Run a c

module _ ⦃platform : Platform⦄ ⦃lodash : Lodash⦄ (sound : IsSound platform lodash) where
  Step-IsValid : (a b : Channel) → Step a b → IsValid a → IsValid b
  unfolding finish_repair_sweep
  Step-IsValid _ _ (task t now c) v = execute_task-IsValid sound t now c v
  Step-IsValid _ _ (sweep_incoming now c) v = sweep_incoming_buffer-IsValid sound now c v
  Step-IsValid _ _ (sweep_repairs now c) v = sweep_repair_incoming_buffer-IsValid now c v
  Step-IsValid _ _ (end_repairs replies c) v = v
  Step-IsValid _ _ (start_sync random now c) v = begin_sync-IsValid random now c v
  Step-IsValid _ _ (end_sync sent reply c) v = finish_sync-IsValid sent reply c v

  -- Under the assumptions on the code outside the repository (IsSound), every run of tasks, sweeps
  -- and synchronisations keeps the invariant of the channel, also where a task ends with an error:
  -- the local history is sorted, without duplicates and within its length, the Lamport clock is
  -- not behind any message of the history or the outgoing buffer, the Bloom filter has the shape
  -- that readers expect and holds the history, each waiting message is a sync message or in the
  -- filter, and the repair buffers are valid.
  pub run-IsValid : (a b : Channel) → Run a b → IsValid a → IsValid b
  run-IsValid _ _ (start c) v = v
  run-IsValid _ _ (step {a} {b} {c} r s) v = Step-IsValid b c s (run-IsValid a b r v)
