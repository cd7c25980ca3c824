-- ===== src/Proof/Expiry.antt =====
-- `_build_proof_clamped_expiry_time` of backend.py: bounds, monotonicity, and what it publishes.
use session_pro_backend.Prelude.{ℕ, ◌+◌, ◌≤◌, ◌<◌, ◌≡◌, some, min, arith, lt→ltb}
use session_pro_backend.Base.Units.{DateTime, second}
use session_pro_backend.Base.Grid.{
  ProofExpiryShape, offset_range, max_proof_lifetime, round_datetime_up_onto_offset_grid,
}
use session_pro_backend.Base.Grid.Rounding.{OnGrid, round_up_bounds, round_up_mono}
use session_pro_backend.Proof.{build_proof_clamped_expiry_time}

-- A proof for an account that is covered until `true_end` expires after the earlier of that end and
-- the rolling clamp by at least the renewal lead and by less than the lead and one grid period. So
-- it reaches less than `max_proof_lifetime` past its request. The stored offset is in its range and
-- the grid is at least a second.
pub clamped_expiry_bounds :
    (shape : ProofExpiryShape) (request_at true_end : DateTime) (offset : ℕ)
    → second ≤ shape.grid
    → offset < offset_range shape
    → (e : DateTime) × (build_proof_clamped_expiry_time shape request_at true_end offset ≡ some e)
      × OnGrid shape.grid offset e
      × (min (request_at + shape.clamp) true_end + shape.renewal_lead ≤ e)
      × (e < min (request_at + shape.clamp) true_end + shape.renewal_lead + shape.grid)
      × (e < request_at + max_proof_lifetime shape)
unfolding build_proof_clamped_expiry_time max_proof_lifetime
clamped_expiry_bounds shape request_at true_end offset h lt =
    let v : ℕ = min (request_at + shape.clamp) true_end + shape.renewal_lead in
    let up = round_up_bounds v shape.grid offset h in
    (
      round_datetime_up_onto_offset_grid v shape.grid offset,
      rw (lt→ltb _ _ lt),
      up.2,
      up.0,
      up.1,
      omega (arith, up.1),
    )

-- With the offset kept, neither a later request nor a longer coverage gives an earlier expiry.
-- The grid is at least a second.
pub clamped_expiry_mono :
    (shape : ProofExpiryShape) (r r' t t' : DateTime) (offset : ℕ) {e e' : DateTime}
    → second ≤ shape.grid
    → r ≤ r'
    → t ≤ t'
    → build_proof_clamped_expiry_time shape r t offset ≡ some e
    → build_proof_clamped_expiry_time shape r' t' offset ≡ some e'
    → e ≤ e'
unfolding build_proof_clamped_expiry_time
clamped_expiry_mono shape r r' t t' offset h hr ht p q = ground (
  arith,
  round_up_mono (min (r + shape.clamp) t + shape.renewal_lead)
      (min (r' + shape.clamp) t' + shape.renewal_lead) shape.grid offset h (omega arith),
)

-- The bound on an expiry that was given.
pub clamped_expiry-lt :
    (shape : ProofExpiryShape) (request_at true_end : DateTime) (offset : ℕ) (e : DateTime)
    → second ≤ shape.grid
    → build_proof_clamped_expiry_time shape request_at true_end offset ≡ some e
    → (min (request_at + shape.clamp) true_end + shape.renewal_lead ≤ e)
      × (e < min (request_at + shape.clamp) true_end + shape.renewal_lead + shape.grid)
unfolding build_proof_clamped_expiry_time
clamped_expiry-lt shape request_at true_end offset e h built =
    let v : ℕ = min (request_at + shape.clamp) true_end + shape.renewal_lead in
    let up = round_up_bounds v shape.grid offset h in ground (arith, up.0, up.1)
