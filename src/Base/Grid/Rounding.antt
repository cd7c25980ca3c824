-- ===== src/Base/Grid/Rounding.antt =====
-- Rounding up onto an account's grid gives the least grid point that is not before the instant.
use native.Mathlib.Nat.{
  mod-lt, div-mul-le_self, lt-div-mul-add, div-lt_iff_lt-mul, mul-le-mul_right,
  lt_of_mul-lt-mul_right, le_trans,
}
use session_pro_backend.Prelude.{ℕ, ◌+◌, ◌-◌, ◌*◌, ◌/◌, ◌≤◌, ◌<◌, ◌≡◌, refl, arith}
use session_pro_backend.Base.Units.{DateTime, Duration, second, seconds_from_duration}
use session_pro_backend.Base.Grid.{grid_origin, ceil_units, round_datetime_up_onto_offset_grid}

-- `g` is a point of the grid.
abbrev pub OnGrid : Duration → ℕ → DateTime → Type 0
OnGrid period offset g = (k : ℕ) × (g ≡ grid_origin period offset + k * period)

-- The origin lies less than one period after the epoch.
pub grid_origin-lt : (period offset : ℕ) → second ≤ period → grid_origin period offset < period
unfolding grid_origin seconds_from_duration
grid_origin-lt period offset h = omega (arith, mod-lt offset {m = period / second} (omega arith))

-- The ceiling of a quotient is at most any multiple count that covers the number.
quotient_le : (a k period : ℕ) → 0 < period → a ≤ k * period → (a + (period - 1)) / period ≤ k
quotient_le a k period pos h =
    let bound : (a + (period - 1)) / period < k + 1 = (div-lt_iff_lt-mul pos).1 (omega arith) in
    omega arith

module _ (value origin period : ℕ) (pos : 0 < period) where
  le-ceil_units : value ≤ origin + ceil_units value origin period * period
  unfolding ceil_units
  le-ceil_units =
      ground (arith, lt-div-mul-add {a = value - origin + (period - 1)} {b = period} pos)

  ceil_units-lt :
      origin < period → origin + ceil_units value origin period * period < value + period
  unfolding ceil_units
  ceil_units-lt h = ground (arith, div-mul-le_self (value - origin + (period - 1)) period)

  ceil_units_least : (k : ℕ) → value ≤ origin + k * period → ceil_units value origin period ≤ k
  unfolding ceil_units
  ceil_units_least k h = ground (arith, quotient_le (value - origin) k period pos)

-- For a period of at least one second the result is not before the instant, less than one period
-- after it, and on the grid.
pub round_up_bounds :
    (value period offset : ℕ)
    → second ≤ period
    → (value ≤ round_datetime_up_onto_offset_grid value period offset)
      × (round_datetime_up_onto_offset_grid value period offset < value + period)
      × OnGrid period offset (round_datetime_up_onto_offset_grid value period offset)
unfolding round_datetime_up_onto_offset_grid
round_up_bounds value period offset h =
    let origin : ℕ = grid_origin period offset in
    let pos : 0 < period = omega arith in
    (
      le-ceil_units value origin period pos,
      ceil_units-lt value origin period pos (grid_origin-lt period offset h),
      (ceil_units value origin period, refl),
    )

-- The result is at most any grid point that is not before the instant. The period is at least one
-- second.
pub round_up_least :
    (value period offset g : ℕ)
    → second ≤ period
    → OnGrid period offset g
    → value ≤ g
    → round_datetime_up_onto_offset_grid value period offset ≤ g
unfolding round_datetime_up_onto_offset_grid
round_up_least value period offset g h on le =
    let origin : ℕ = grid_origin period offset in
    let point : g ≡ origin + on.0 * period = on.1 in
    let least : ceil_units value origin period ≤ on.0 =
      ceil_units_least value origin period (omega arith) on.0 (omega (arith, point)) in
    omega (arith, mul-le-mul_right period least, point)

-- A later instant is not rounded to an earlier grid point.
pub round_up_mono :
    (v w period offset : ℕ)
    → second ≤ period
    → v ≤ w
    → round_datetime_up_onto_offset_grid v period offset
      ≤ round_datetime_up_onto_offset_grid w period offset
round_up_mono v w period offset h le =
    let up = round_up_bounds w period offset h in
    round_up_least v period offset (round_datetime_up_onto_offset_grid w period offset) h up.2
      (le_trans le up.0)

-- All instants of the period that ends at a grid point are rounded to that point.
pub round_up_cell :
    (value period offset g : ℕ)
    → second ≤ period
    → OnGrid period offset g
    → value ≤ g
    → g < value + period
    → round_datetime_up_onto_offset_grid value period offset ≡ g
round_up_cell value period offset g h on le lt =
    let up = round_up_bounds value period offset h in
    let r : ℕ = round_datetime_up_onto_offset_grid value period offset in
    let rounded : r ≡ grid_origin period offset + up.2.0 * period = up.2.1 in
    let point : g ≡ grid_origin period offset + on.0 * period = on.1 in
    let same : on.0 < up.2.0 + 1 =
      lt_of_mul-lt-mul_right period (omega (arith, rounded, point, up.0)) in
    let back : on.0 * period ≤ up.2.0 * period = mul-le-mul_right period (omega arith) in
    omega (arith, rounded, point, back, round_up_least value period offset g h on le)
