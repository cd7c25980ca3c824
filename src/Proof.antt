-- ===== src/Proof.antt =====
-- backend.py: how far ahead a proof certifies.
pub mod Expiry
use session_pro_backend.Prelude.{ℕ, ◌+◌, Option, none, some, min, ltb, if◌then◌else◌}
use session_pro_backend.Base.Units.{DateTime}
use session_pro_backend.Base.Grid.{
  ProofExpiryShape, offset_range, round_datetime_up_onto_offset_grid,
}

-- `_build_proof_clamped_expiry_time`; `none` is the failed assertion on the stored offset.
unfoldable pub build_proof_clamped_expiry_time :
    ProofExpiryShape → DateTime → DateTime → ℕ → Option DateTime
build_proof_clamped_expiry_time shape request_at proposed_expiry_at proof_expiry_offset =
    let clamped_expiry_at = min (request_at + shape.clamp) proposed_expiry_at in
    if ltb proof_expiry_offset (offset_range shape)
    then some (
        round_datetime_up_onto_offset_grid (clamped_expiry_at + shape.renewal_lead) shape.grid
          proof_expiry_offset)
    else none
