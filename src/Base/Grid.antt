-- ===== src/Base/Grid.antt =====
-- base.py: `ProofExpiryShape` and `round_datetime_up_onto_offset_grid`, which rounds an instant up
-- onto the grid `{ EPOCH + offset + k * period }` of one account.
pub mod Rounding
use session_pro_backend.Prelude.{ℕ, ◌+◌, ◌-◌, ◌*◌, ◌/◌, ◌%◌, leb, if◌then◌else◌}
use session_pro_backend.Base.Units.{DateTime, Duration, epoch, second, day, seconds_from_duration}

pub record ProofExpiryShape : Type 0 where
  pub clamp : Duration
  pub renewal_lead : Duration
  pub grid : Duration

unfoldable pub offset_range : ProofExpiryShape → ℕ
unfolding seconds_from_duration
offset_range shape = seconds_from_duration shape.grid

unfoldable pub max_proof_lifetime : ProofExpiryShape → Duration
max_proof_lifetime shape = shape.clamp + shape.renewal_lead + shape.grid

abbrev pub proof_expiry_shape : ProofExpiryShape
proof_expiry_shape = record { clamp = 29 * day; renewal_lead = 3660 * second; grid = 1 * day }

-- `offset_seconds` is reduced modulo the period.
unfoldable pub grid_origin : Duration → ℕ → DateTime
unfolding seconds_from_duration
grid_origin period offset_seconds = epoch + offset_seconds % seconds_from_duration period * second

-- `-((-(value - origin)) // period)`. The origin is less than one period after the epoch, so for an
-- instant at or before the origin the quotient rounds up to 0.
unfoldable pub ceil_units : DateTime → DateTime → Duration → ℕ
ceil_units value origin period =
    if leb value origin then 0 else (value - origin + (period - 1)) / period

unfoldable pub round_datetime_up_onto_offset_grid : DateTime → Duration → ℕ → DateTime
unfolding ceil_units
round_datetime_up_onto_offset_grid value period offset_seconds =
    let origin = grid_origin period offset_seconds in
    origin + ceil_units value origin period * period
