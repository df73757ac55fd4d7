-- ===== src/Reliable/QueryOnConnect/Recent.antt =====
-- The first query of a node that connects, over the queries that the store makes of its range.
use logos_messaging_js.Prelude.{ℕ, ◌+◌, ◌-◌, ◌*◌, ◌≤◌, ◌≡◌, ◌&&◌, ltb, leb, arith}
use logos_messaging_js.Store.{max_time_range}
use logos_messaging_js.Store.Query.{sub_time_ranges}
use logos_messaging_js.Store.Query.Ranges.{asked, sub_time_ranges_lem}
use logos_messaging_js.Reliable.QueryOnConnect.{
  QueryOnConnect, calculate_time_range, max_time_range_query_ms, query_time_range,
}

first_range :
    {M : Type 0} (now : ℕ) (s : QueryOnConnect M)
    → s.last_successful_query + max_time_range_query_ms ≤ now
    → ((query_time_range now s).time_start ≡ now - max_time_range_query_ms)
      × ((query_time_range now s).time_end ≡ now)
unfolding query_time_range calculate_time_range
first_range now s long = ground arith

-- If there was no successful query for thirty days or ever, the queries that the store makes of
-- the range of QueryOnConnect ask for exactly the times of the thirty days before now without the
-- last 24 hours.
pub last_day_missed :
    {M : Type 0} (now : ℕ) (s : QueryOnConnect M)
    → s.last_successful_query + max_time_range_query_ms ≤ now
    → (t : ℕ)
    → asked t
        (sub_time_ranges (query_time_range now s).time_start (query_time_range now s).time_end)
      ≡ (leb (now - max_time_range_query_ms) t && ltb t (now - max_time_range))
last_day_missed now s long t =
    let (start, end) = first_range now s long in
    let (days, asks, short, before, near) =
      sub_time_ranges_lem (now - max_time_range_query_ms) now (omega arith) in
    let same : now - max_time_range_query_ms + days * max_time_range ≡ now - max_time_range =
      omega arith in
    rw (start, end) (rw (← same) (asks t))
