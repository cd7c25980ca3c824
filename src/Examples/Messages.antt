-- ===== src/Examples/Messages.antt =====
-- Signed messages and the expiry grid, on small inputs.
use session_pro_backend.Message.Decimal.{decimal}
use session_pro_backend.Message.{
  Bytes, build_proof_domain, build_proof_message, encode_field, message_loop, signed_message,
}
use session_pro_backend.Base.Units.{
  DateTime, seconds_from_duration, unix_seconds_from_datetime, day, hour, second,
}
use session_pro_backend.Base.Grid.Rounding.{OnGrid}
use session_pro_backend.Prelude.{[], arith, min, refl, some, ℕ, ◌*◌, ◌++◌, ◌+◌, ◌<◌, ◌∷◌, ◌≡◌, ◌≤◌}
use session_pro_backend.Proof.{build_proof_clamped_expiry_time}
use session_pro_backend.Message.Injective.{build_proof_message_inj}
use session_pro_backend.Base.Grid.{
  ceil_units, grid_origin, max_proof_lifetime, offset_range, proof_expiry_shape,
  round_datetime_up_onto_offset_grid,
}
use session_pro_backend.Proof.Expiry.{clamped_expiry_bounds}

abbrev small_key : Bytes
small_key = 1 ∷ 2 ∷ []

abbrev rotating_key : Bytes
rotating_key = 3 ∷ 4 ∷ []

abbrev proof_bytes : Bytes
proof_bytes = build_proof_domain ++ 1 ∷ 2 ∷ 3 ∷ 4 ∷ 53 ∷ []

certified :
    (t : DateTime)
    → unix_seconds_from_datetime t ≡ 5
    → build_proof_message small_key (3 ∷ 4 ∷ []) t ≡ some proof_bytes
unfolding build_proof_message signed_message message_loop encode_field decimal
certified t h = rw h refl

build_proof_message_inj_example :
    (small_key ≡ small_key)
    × (rotating_key ≡ rotating_key)
    × (unix_seconds_from_datetime 5000000 ≡ unix_seconds_from_datetime 5999999)
build_proof_message_inj_example =
    build_proof_message_inj small_key small_key 5000000 5999999 refl (3 ∷ 4 ∷ []) (3 ∷ 4 ∷ []) refl
      (certified 5000000 (unfold unix_seconds_from_datetime in refl))
      (certified 5999999 (unfold unix_seconds_from_datetime in refl))

-- The grid of offset 3600 with a period of a day has the points one hour past midnight.
abbrev one_past : ℕ → DateTime
one_past d = d * day + hour

-- An account that is covered until 10 hours into day 100.
clamped_run :
    build_proof_clamped_expiry_time proof_expiry_shape (100 * day) (100 * day + 10 * hour) 3600
    ≡ some (one_past 101)
unfolding build_proof_clamped_expiry_time round_datetime_up_onto_offset_grid grid_origin ceil_units
    seconds_from_duration offset_range
clamped_run = refl

clamped_expiry_bounds_example :
    let end : DateTime = 100 * day + 10 * hour in
    (e : DateTime) × (build_proof_clamped_expiry_time proof_expiry_shape (100 * day) end 3600
      ≡ some e)
    × OnGrid day 3600 e
    × (min (100 * day + 29 * day) end + 3660 * second ≤ e)
    × (e < min (100 * day + 29 * day) end + 3660 * second + day)
    × (e < 100 * day + max_proof_lifetime proof_expiry_shape)
clamped_expiry_bounds_example =
    clamped_expiry_bounds proof_expiry_shape (100 * day) (100 * day + 10 * hour) 3600 (omega arith)
      (unfold offset_range seconds_from_duration in omega arith)
