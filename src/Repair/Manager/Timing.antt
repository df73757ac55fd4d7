-- ===== src/Repair/Manager/Timing.antt =====
-- The windows in which repairs are requested and answered, and the response groups.
use Prim.Native.Nat.{max, min}
use native.Mathlib.Nat.{mod-lt}
use logos_messaging_js.Prelude.{
  ℕ, ◌+◌, ◌-◌, ◌*◌, ◌/◌, ◌%◌, ◌≤◌, ◌<◌, ◌≡◌, ◌≢◌, ◌⊎◌, ◌↔◌, true, none, some, String, arith, ===_ne,
}
use logos_messaging_js.Prelude.Effects.{state_of}
use logos_messaging_js.Platform.{Platform}
use logos_messaging_js.Repair.Manager.{
  RepairManager, max_safe_integer, combined_hash, calculate_xor_distance, hash_to_integer,
  calculate_t_req, calculate_t_resp, is_in_response_group, update_response_groups,
}

small_rem : (a b : ℕ) → 0 < b → b ≤ max_safe_integer → a % b % max_safe_integer ≡ a % b
small_rem a b pos small = grind (arith, mod-lt)

module _ ⦃platform : Platform⦄ (m : RepairManager) (id : String) (now : ℕ) where
  -- If t_min is below t_max and t_max is a safe integer, a repair request is due at least t_min
  -- and less than t_max after the current time.
  pub calculate_t_req_window :
      m.config.t_min < m.config.t_max
      → m.config.t_max ≤ max_safe_integer
      → (t : ℕ) × (calculate_t_req m id now ≡ some t)
        × (now + m.config.t_min ≤ t)
        × (t < now + m.config.t_max)
  unfolding calculate_t_req
  calculate_t_req_window window safe =
      let h = combined_hash m.participant_id id in
      let w = m.config.t_max - m.config.t_min in
      (
        now + (h % w % max_safe_integer + m.config.t_min),
        ground arith,
        omega arith,
        omega (arith, small_rem h w (omega arith) (omega arith), mod-lt h {m = w} (omega arith)),
      )

  -- If t_max is positive and a safe integer, a repair answer is due not before the current time
  -- and less than t_max after it.
  pub calculate_t_resp_window :
      (sender : String)
      → 0 < m.config.t_max
      → m.config.t_max ≤ max_safe_integer
      → (t : ℕ) × (calculate_t_resp m sender id now ≡ some t)
        × (now ≤ t)
        × (t < now + m.config.t_max)
  unfolding calculate_t_resp
  calculate_t_resp_window sender pos safe =
      let p = calculate_xor_distance m.participant_id sender * hash_to_integer id in
      let w = m.config.t_max in
      (
        now + p % w % max_safe_integer,
        ground arith,
        omega arith,
        omega (arith, small_rem p w pos safe, mod-lt p {m = w} pos),
      )

  -- The time of a request is undefined (a bigint remainder by 0 throws) exactly if t_min equals
  -- t_max, and the time of an answer exactly if t_max is 0.
  pub calculate_throws_iff :
      (sender : String)
      → ((calculate_t_req m id now ≡ none) ↔ (m.config.t_min ≡ m.config.t_max))
        × ((calculate_t_resp m sender id now ≡ none) ↔ (m.config.t_max ≡ 0))
  unfolding calculate_t_req calculate_t_resp
  calculate_throws_iff sender = ground arith

  -- For a sender whose id is not empty, this participant is in the response group exactly if there
  -- is at most one group or both fall into the same group, and the sender of a message is always
  -- in its own group.
  pub is_in_response_group_iff :
      (sender : String)
      → sender ≢ ""
      → ((is_in_response_group m sender id ≡ true) ↔ (
          (m.config.num_response_groups ≤ 1)
          ⊎ (combined_hash m.participant_id id % m.config.num_response_groups
              ≡ combined_hash sender id % m.config.num_response_groups)))
        × (is_in_response_group (record m { participant_id = sender }) sender id ≡ true)
  unfolding is_in_response_group
  is_in_response_group_iff sender named = ground (arith, ===_ne sender "" named)

-- For any number of participants the number of response groups becomes one for each full 128 of
-- them, counted up to the largest safe integer, and at least one; the outgoing buffer stays as it
-- is.
pub update_response_groups_lem :
    (m : RepairManager) (n : ℕ)
    → let m' = state_of (update_response_groups (some n) m) in
      (1 ≤ m'.config.num_response_groups)
      × (m'.config.num_response_groups ≡ max 1 (min n max_safe_integer / 128))
      × (m'.outgoing_buffer ≡ m.outgoing_buffer)
unfolding update_response_groups
update_response_groups_lem m n = ground arith
