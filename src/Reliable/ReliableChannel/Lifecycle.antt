-- ===== src/Reliable/ReliableChannel/Lifecycle.antt =====
-- The sweep loops of a channel that is stopped and started again.
use logos_messaging_js.Prelude.{
  ℕ, suc, ◌≡◌, refl, ap, ◌∙◌, Bool, true, false, ◌&&◌, Option, none, some, List, [], ◌∷◌, ◌==◌,
  if◌then◌else◌, arith, Bool-cases, Option-cases, inl, inr,
}
use logos_messaging_js.Reliable.RetryManager
use logos_messaging_js.Reliable.RetryManager.{RetryManager}
use logos_messaging_js.Reliable.MissingMessageRetriever
use logos_messaging_js.Reliable.MissingMessageRetriever.{MissingMessageRetriever}
use logos_messaging_js.Reliable.ReliableChannel.{
  on_retriever, on_retries, ReliableChannel, Loop, sweep_incoming, sweep_repair, should_use_sds_r,
  has_pending_repair_requests, restart_timer, restart_sync, clear_interval, stop_sync,
  clear_process_tasks, stop_sweep_incoming_buffer_loop, start_sweep_incoming_buffer_loop,
  stop_repair_sweep_loop, start_repair_sweep_loop, start, begin_stop, finish_stop,
}

-- What the loops are made of.
record Loops : Type 0 where
  started : Bool
  uses_sds_r : Bool
  incoming : Option ℕ
  repair : Option ℕ
  intervals : List (ℕ × Loop)
  next_handle : ℕ

abbrev loops : ReliableChannel → Loops
loops s = record {
  started = s.started;
  uses_sds_r = should_use_sds_r s.retrieval_strategy;
  incoming = s.sweep_in_buf_interval;
  repair = s.sweep_repair_interval;
  intervals = s.intervals;
  next_handle = s.next_handle;
}

loops-restart_sync :
    (now multiplier : ℕ) (s : ReliableChannel) → loops (restart_sync now multiplier s) ≡ loops s
unfolding restart_sync restart_timer
loops-restart_sync now multiplier s =
    elim (Bool-cases (
      should_use_sds_r s.retrieval_strategy && has_pending_repair_requests now s.message_channel)) [
        | inl e ↦ rw e refl
        | inr e ↦ rw e refl
      ]

loops-on_retriever :
    (f : MissingMessageRetriever → MissingMessageRetriever) (s : ReliableChannel)
    → loops (on_retriever f s) ≡ loops s
loops-on_retriever f s = elim (Option-cases s.missing_message_retriever) [
  | inl e ↦ rw e refl
  | inr (r, e) ↦ rw e refl
]

loops-on_retries :
    (f : RetryManager → RetryManager) (s : ReliableChannel) → loops (on_retries f s) ≡ loops s
loops-on_retries f s = elim (Option-cases s.retry_manager) [
  | inl e ↦ rw e refl
  | inr (r, e) ↦ rw e refl
]

loops-finish_stop : (s : ReliableChannel) → loops (finish_stop s) ≡ loops s
unfolding finish_stop
loops-finish_stop s =
    loops-on_retries RetryManager.stop_all_retries _
    ∙ loops-on_retriever
        (λ r. MissingMessageRetriever.finish_stop (MissingMessageRetriever.begin_stop r)) s

abbrev stop_incoming : Loops → Loops
stop_incoming v = elim v.incoming [
  | none ↦ v
  | some h ↦ record v { intervals = clear_interval h v.intervals; incoming = none }
]

abbrev start_incoming : Loops → Loops
start_incoming v = record v {
  incoming = some v.next_handle;
  intervals = (v.next_handle, sweep_incoming) ∷ v.intervals;
  next_handle = suc v.next_handle;
}

abbrev stop_repair : Loops → Loops
stop_repair v = elim v.repair [
  | none ↦ v
  | some h ↦ record v { intervals = clear_interval h v.intervals; incoming = none }
]

abbrev start_repair : Loops → Loops
start_repair v = record v {
  repair = some v.next_handle;
  intervals = (v.next_handle, sweep_repair) ∷ v.intervals;
  next_handle = suc v.next_handle;
}

loops-elim :
    (s : ReliableChannel) (f : ℕ → ReliableChannel) (o : Option ℕ)
    → loops (elim o [ none ↦ s | some h ↦ f h ]) ≡ elim o [ none ↦ loops s | some h ↦ loops (f h) ]
loops-elim s f none = refl
loops-elim s f (some h) = refl

loops-stop_incoming :
    (s : ReliableChannel) → loops (stop_sweep_incoming_buffer_loop s) ≡ stop_incoming (loops s)
unfolding stop_sweep_incoming_buffer_loop
loops-stop_incoming s =
    loops-elim s
      (λ h. record s { intervals = clear_interval h s.intervals; sweep_in_buf_interval = none })
      s.sweep_in_buf_interval

loops-stop_repair : (s : ReliableChannel) → loops (stop_repair_sweep_loop s) ≡ stop_repair (loops s)
unfolding stop_repair_sweep_loop
loops-stop_repair s =
    loops-elim s
      (λ h. record s { intervals = clear_interval h s.intervals; sweep_in_buf_interval = none })
      s.sweep_repair_interval

loops-start_incoming :
    (s : ReliableChannel)
    → loops (start_sweep_incoming_buffer_loop s) ≡ start_incoming (stop_incoming (loops s))
unfolding start_sweep_incoming_buffer_loop
loops-start_incoming s = ap start_incoming (loops-stop_incoming s)

loops-start_repair :
    (s : ReliableChannel)
    → should_use_sds_r s.retrieval_strategy ≡ true
    → loops (start_repair_sweep_loop s) ≡ start_repair (stop_repair (loops s))
unfolding start_repair_sweep_loop
loops-start_repair s e = rw e (ap start_repair (loops-stop_repair s))

-- A channel that is not started, with both loops to run and no handle.
pub record IsFresh (s : ReliableChannel) : Type 0 where
  pub started : s.started ≡ false
  pub repairs : should_use_sds_r s.retrieval_strategy ≡ true
  pub no_incoming : s.sweep_in_buf_interval ≡ none
  pub no_repair : s.sweep_repair_interval ≡ none
  pub no_interval : s.intervals ≡ []

if-false : {A : Type 0} (b : Bool) (x y : A) → b ≡ false → (if b then x else y) ≡ y
if-false b x y e = rw e refl

loops-if :
    (b : Bool) (x y : ReliableChannel) (v : Loops)
    → loops x ≡ v
    → loops y ≡ v
    → loops (if b then x else y) ≡ v
loops-if true x y v e f = e
loops-if false x y v e f = f

loops-start :
    (now : ℕ) (s : ReliableChannel)
    → s.started ≡ false
    → should_use_sds_r s.retrieval_strategy ≡ true
    → loops (start now s)
      ≡ start_repair
          (stop_repair (start_incoming (stop_incoming (record (loops s) { started = true }))))
unfolding start
loops-start now s e r =
    let opened = record s { started = true; listens = true } in
    let synced = restart_sync now 100 opened in
    let swept = start_sweep_incoming_buffer_loop synced in
    let first : loops swept ≡ start_incoming (stop_incoming (loops opened)) =
      loops-start_incoming synced
      ∙ ap (λ v. start_incoming (stop_incoming v)) (loops-restart_sync now 100 opened) in
    let still : should_use_sds_r swept.retrieval_strategy ≡ true =
      ap (λ v. v.uses_sds_r) first ∙ kept (loops opened) ∙ r in
    let both : loops (start_repair_sweep_loop swept)
        ≡ start_repair (stop_repair (start_incoming (stop_incoming (loops opened)))) =
      loops-start_repair swept still ∙ ap (λ v. start_repair (stop_repair v)) first in
    ap loops (if-false s.started s _ e)
    ∙ loops-if s.has_store _ _ _
        (loops-on_retriever MissingMessageRetriever.start (start_repair_sweep_loop swept) ∙ both)
        both
  where
    kept : (v : Loops) → (start_incoming (stop_incoming v)).uses_sds_r ≡ v.uses_sds_r
    kept v = elim (Option-cases v.incoming) [ inl e ↦ rw e refl | inr (h, e) ↦ rw e refl ]

loops-begin_stop :
    (s : ReliableChannel)
    → s.started ≡ true
    → loops (begin_stop s) ≡ stop_repair (stop_incoming (record (loops s) { started = false }))
unfolding begin_stop clear_process_tasks stop_sync
loops-begin_stop s e = rw e (
    loops-stop_repair
      (stop_sweep_incoming_buffer_loop (stop_sync (record s { started = false; listens = false })))
    ∙ ap stop_repair
        (loops-stop_incoming (stop_sync (record s { started = false; listens = false }))))

-- The loops of a channel that is started once, and stopped once.
abbrev running : ℕ → Loops
running n = record {
  started = true;
  uses_sds_r = true;
  incoming = some n;
  repair = some (suc n);
  intervals = (suc n, sweep_repair) ∷ (n, sweep_incoming) ∷ [];
  next_handle = suc (suc n);
}

loops_fresh :
    (s : ReliableChannel)
    → IsFresh s
    → loops s ≡ record {
      started = false;
      uses_sds_r = true;
      incoming = none;
      repair = none;
      intervals = [];
      next_handle = s.next_handle;
    }
loops_fresh s f = rw (f.started, f.repairs, f.no_incoming, f.no_repair, f.no_interval) refl

abbrev halted : ℕ → Loops
halted n = record {
  started = false;
  uses_sds_r = true;
  incoming = none;
  repair = some (suc n);
  intervals = [];
  next_handle = suc (suc n);
}

-- What is left after the second round.
abbrev leaking : ℕ → Loops
leaking n = record {
  started = false;
  uses_sds_r = true;
  incoming = none;
  repair = some (suc (suc (suc n)));
  intervals = (suc (suc n), sweep_incoming) ∷ [];
  next_handle = suc (suc (suc (suc n)));
}

loops_first_start :
    (now : ℕ) (s : ReliableChannel) → IsFresh s → loops (start now s) ≡ running s.next_handle
loops_first_start now s f =
    loops-start now s f.started f.repairs
    ∙ ap
        (λ v.
          start_repair (stop_repair (start_incoming (stop_incoming (record v { started = true })))))
        (loops_fresh s f)

same_handle : (n : ℕ) → (n == n) ≡ true
same_handle n = ground arith

other_handle : (n : ℕ) → (suc n == n) ≡ false
other_handle n = ground arith

-- The two intervals of one round are cleared with their handles.
clear_both :
    (n : ℕ)
    → clear_interval (suc n) (clear_interval n ((suc n, sweep_repair) ∷ (n, sweep_incoming) ∷ []))
      ≡ []
clear_both n = rw (same_handle n, other_handle n, same_handle (suc n)) refl

-- With the handle of the last round no interval of this round is cleared.
clear_last :
    (n : ℕ)
    → clear_interval (suc (suc (suc n))) (
        (suc (suc (suc n)), sweep_repair)
        ∷ clear_interval (suc n) ((suc (suc n), sweep_incoming) ∷ []))
      ≡ (suc (suc n), sweep_incoming) ∷ []
clear_last n = rw (other_handle (suc n), same_handle (suc (suc (suc n))), before (suc (suc n))) refl
  where
    before : (k : ℕ) → (k == suc k) ≡ false
    before k = ground arith

halting : (n : ℕ) → stop_repair (stop_incoming (record (running n) { started = false })) ≡ halted n
halting n = ap (λ is. record (halted n) { intervals = is }) (clear_both n)

loops_first_stop :
    (now : ℕ) (s : ReliableChannel)
    → IsFresh s
    → loops (begin_stop (start now s)) ≡ halted s.next_handle
loops_first_stop now s f =
    let e = loops_first_start now s f in
    loops-begin_stop (start now s) (ap (λ v. v.started) e)
    ∙ ap (λ v. stop_repair (stop_incoming (record v { started = false }))) e
    ∙ halting s.next_handle

resuming :
    (n : ℕ)
    → stop_repair (
        stop_incoming
          (record (start_repair
            (stop_repair (start_incoming (stop_incoming (record (halted n) { started = true }))))) {
              started = false;
            }))
      ≡ leaking n
resuming n = ap (λ is. record (leaking n) { intervals = is }) (clear_last n)

loops_second_stop :
    (now later : ℕ) (s : ReliableChannel)
    → IsFresh s
    → loops (begin_stop (start later (finish_stop (begin_stop (start now s)))))
      ≡ leaking s.next_handle
loops_second_stop now later s f =
    let stopped = finish_stop (begin_stop (start now s)) in
    let e = loops-finish_stop (begin_stop (start now s)) ∙ loops_first_stop now s f in
    let again =
      loops-start later stopped (ap (λ v. v.started) e) (ap (λ v. v.uses_sds_r) e)
      ∙ ap
          (λ v.
            start_repair
              (stop_repair (start_incoming (stop_incoming (record v { started = true })))))
          e in
    loops-begin_stop (start later stopped) (ap (λ v. v.started) again)
    ∙ ap (λ v. stop_repair (stop_incoming (record v { started = false }))) again
    ∙ resuming s.next_handle

-- For a channel that repairs with SDS-R, is not started and has neither intervals nor handles of
-- its sweeps, starting and stopping it leaves no interval; starting and stopping it once more
-- leaves the interval that sweeps the incoming buffer running, without a handle.
pub begin_stop-start :
    (now later : ℕ) (s : ReliableChannel)
    → IsFresh s
    → ((begin_stop (start now s)).intervals ≡ [])
      × ((begin_stop (start later (finish_stop (begin_stop (start now s))))).intervals
          ≡ (suc (suc s.next_handle), sweep_incoming) ∷ [])
      × ((begin_stop (start later (finish_stop (begin_stop (start now s))))).sweep_in_buf_interval
          ≡ none)
begin_stop-start now later s f =
    let e = loops_second_stop now later s f in
    (
      ap (λ v. v.intervals) (loops_first_stop now s f),
      ap (λ v. v.intervals) e,
      ap (λ v. v.incoming) e,
    )
