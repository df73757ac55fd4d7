-- ===== src/Store/Query/Ranges.antt =====
-- Which times the queries for a range of time ask for.
use logos_messaging_js.Prelude.{
  ℕ, zero, suc, ◌+◌, ◌-◌, ◌*◌, ◌<◌, ◌≤◌, ◌≡◌, refl, Bool, true, ◌&&◌, List, ◌∷◌, any, All, ltb, leb,
  arith, Bool-cases, inl, inr,
}
use logos_messaging_js.Store.{max_time_range}
use logos_messaging_js.Store.Query.{full_ranges, sub_time_ranges}

-- The time is in one of the ranges; a range has its start and not its end.
abbrev pub asked : ℕ → List (ℕ × ℕ) → Bool
asked t ranges = any (λ r. leb r.0 t && ltb t r.1) ranges

full_ranges_lem :
    (fuel start end : ℕ)
    → end - start ≤ fuel
    → (k : ℕ) × ((t : ℕ)
        → asked t (full_ranges fuel start end)
          ≡ (leb start t && ltb t (start + k * max_time_range)))
      × All (λ r. r.1 - r.0 ≤ max_time_range) (full_ranges fuel start end)
      × (end ≤ start + suc k * max_time_range)
      × (start < end → start + k * max_time_range < end)
unfolding full_ranges
full_ranges_lem zero start end enough = (0, λ t. ground arith, tt, omega arith, λ h. omega arith)
full_ranges_lem (suc fuel) start end enough = elim (Bool-cases (ltb max_time_range (end - start))) [
  | inl more ↦
      let (k, asks, short, near, inside) =
        full_ranges_lem fuel (start + max_time_range) end (ground arith) in
      (
        suc k,
        λ t. rw more (ground (arith, asks t)),
        rw more (omega arith, short),
        omega arith,
        λ h. omega (arith, inside (ground arith)),
      )
  | inr last ↦ (0, λ t. rw last (ground arith), rw last tt, ground arith, λ h. omega arith)
]

split_first :
    (fuel start end : ℕ)
    → max_time_range < end - start
    → end - start ≤ fuel
    → (range : ℕ × ℕ) × (ranges : List (ℕ × ℕ)) × (full_ranges fuel start end ≡ range ∷ ranges)
unfolding full_ranges
split_first zero start end long enough = absurd (omega arith)
split_first (suc fuel) start end long enough =
    let more : ltb max_time_range (end - start) ≡ true = ground arith in
    ((start, start + max_time_range), full_ranges fuel (start + max_time_range) end, rw more refl)

all_full :
    (start end : ℕ)
    → max_time_range < end - start
    → sub_time_ranges start end ≡ full_ranges (end - start) start end
unfolding sub_time_ranges
all_full start end long =
    let (range, ranges, e) = split_first (end - start) start end long (omega arith) in
    rw (e, sub_time_ranges) refl

-- For a range of time longer than a day, the queries together ask for exactly the times of some
-- whole days from its start on, which end before the end of the range, by a day at most; each
-- query is for a day at most, as queryPerPage demands.
pub sub_time_ranges_lem :
    (start end : ℕ)
    → max_time_range < end - start
    → (days : ℕ) × ((t : ℕ)
        → asked t (sub_time_ranges start end)
          ≡ (leb start t && ltb t (start + days * max_time_range)))
      × All (λ r. r.1 - r.0 ≤ max_time_range) (sub_time_ranges start end)
      × (start + days * max_time_range < end)
      × (end ≤ start + suc days * max_time_range)
sub_time_ranges_lem start end long =
    let (k, asks, short, near, inside) = full_ranges_lem (end - start) start end (omega arith) in
    let same = all_full start end long in
    (k, λ t. rw same (asks t), rw same short, inside (omega arith), near)
