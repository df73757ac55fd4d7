-- ===== src/Reliable/QueryOnConnect.antt =====
-- packages/sdk/src/query_on_connect/query_on_connect.ts: `QueryOnConnect`. The pages that the query
-- generator yields, and how it ends, are given to a query; `now` is what `Date.now()` returns.
pub mod Recent
use logos_messaging_js.Prelude.{
  ℕ, zero, suc, ◌+◌, ◌-◌, ◌*◌, Bool, true, false, not, ◌&&◌, ◌||◌, Option, none, some, List, [],
  ◌∷◌, ◌++◌, any, filter, ltb, ◌==◌, if◌then◌else◌,
}
use logos_messaging_js.Store.{Yields, End, done, unfinished, thrown}

abbrev pub default_force_query_threshold_ms : ℕ
default_force_query_threshold_ms = 5 * 60 * 1000

abbrev pub max_time_range_query_ms : ℕ
max_time_range_query_ms = 30 * 24 * 60 * 60 * 1000

pub data HealthStatus : Type 0 where
  unhealthy minimally_healthy sufficiently_healthy : HealthStatus

pub record QueryOnConnect (M : Type 0) : Type 0 where
  pub last_successful_query : ℕ
  pub last_time_offline : ℕ
  pub force_query_threshold_ms : ℕ
  pub is_started : Bool
  -- `abortController` is set, and the listeners are.
  pub has_controller : Bool
  pub listens : Bool
  pub active_query : Bool
  -- The details of the `messages:retrieved` events.
  pub dispatched : List (List M)

pub record TimeRange : Type 0 where
  pub time_start : ℕ
  pub time_end : ℕ

-- `now` is not before the last query, so that no difference is negative.
unfoldable pub calculate_time_range : ℕ → ℕ → ℕ → TimeRange
calculate_time_range now last_successful_query max_time_range_query_ms =
    let elapsed = now - last_successful_query in
    let time_range =
      if ltb elapsed max_time_range_query_ms then elapsed else max_time_range_query_ms in
    record { time_start = now - time_range; time_end = now }

abbrev defined : {A : Type 0} → List (Option A) → List A
defined [] = []
defined (none ∷ xs) = defined xs
defined (some x ∷ xs) = x ∷ defined xs

abbrev did_throw : End → Bool
did_throw (thrown e) = true
did_throw e = false

module _ {M : Type 0} where
  unfoldable pub init : Option ℕ → QueryOnConnect M
  init force_query_threshold_ms = record {
    last_successful_query = 0;
    last_time_offline = 0;
    force_query_threshold_ms = elim force_query_threshold_ms as (λ _. ℕ) [
      | none ↦ default_force_query_threshold_ms
      | some ms ↦ ms
    ];
    is_started = false;
    has_controller = false;
    listens = false;
    active_query = false;
    dispatched = [];
  }

  unfoldable pub start : QueryOnConnect M → QueryOnConnect M
  start s =
      if s.is_started
      then s
      else record s { is_started = true; has_controller = true; listens = true }

  -- Up to the wait for the active query, and after it.
  unfoldable pub begin_stop : QueryOnConnect M → QueryOnConnect M
  begin_stop s = if s.is_started then record s { is_started = false; has_controller = false } else s

  unfoldable pub finish_stop : QueryOnConnect M → QueryOnConnect M
  finish_stop s = record s { listens = false }

  unfoldable pub should_query : ℕ → QueryOnConnect M → Bool
  should_query now s =
      (s.last_successful_query == 0)
      || (ltb s.last_successful_query s.last_time_offline
          || ltb s.force_query_threshold_ms (now - s.last_successful_query))

  unfoldable pub query_time_range : ℕ → QueryOnConnect M → TimeRange
  unfolding calculate_time_range
  query_time_range now s = calculate_time_range now s.last_successful_query max_time_range_query_ms

  unfoldable pub dispatch_messages : List M → QueryOnConnect M → QueryOnConnect M
  dispatch_messages messages s = record s { dispatched = s.dispatched ++ messages ∷ [] }

  -- The pages, up to the first one with a message that stops the query; whether one does.
  unfoldable pub take_pages :
      (M → Bool) → List (List (Option M)) → QueryOnConnect M → QueryOnConnect M × Bool
  unfolding dispatch_messages
  take_pages stop_if_true [] s = (s, false)
  take_pages stop_if_true (page ∷ pages) s =
      let after = dispatch_messages (defined page) s in
      let rest = take_pages stop_if_true pages after in
      if any stop_if_true (defined page) then (after, true) else rest

  -- Only an error that comes before the stop is seen.
  unfoldable pub query :
      (M → Bool) → Yields (List (Option M)) → ℕ → QueryOnConnect M → QueryOnConnect M
  unfolding take_pages
  query stop_if_true yields now s =
      let (after, stopped) = take_pages stop_if_true yields.pages s in
      if not stopped && did_throw yields.end
      then after
      else record after { last_successful_query = now }

  -- The two halves of `maybeQuery`, the query itself in between.
  unfoldable pub begin_query : ℕ → QueryOnConnect M → QueryOnConnect M × Option TimeRange
  unfolding should_query query_time_range
  begin_query now s =
      if should_query now s
      then (record s { active_query = true }, some (query_time_range now s))
      else (s, none)

  unfoldable pub finish_query :
      (M → Bool) → Yields (List (Option M)) → ℕ → QueryOnConnect M → QueryOnConnect M
  unfolding query
  finish_query stop_if_true yields now s = record (query stop_if_true yields now s) {
    active_query = false;
  }

  unfoldable pub update_last_offline_date : HealthStatus → ℕ → QueryOnConnect M → QueryOnConnect M
  update_last_offline_date unhealthy now s = record s { last_time_offline = now }
  update_last_offline_date status now s = s
