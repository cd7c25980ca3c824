-- ===== src/Examples/History.antt =====
-- An account's payments, and what housekeeping deletes.
use session_pro_backend.Entitlement.Laws.{extended, lookup_user_expiry_lem}
use session_pro_backend.Entitlement.Spec.{newest, IsSound, live_total, redeemed_rows, furthest}
use session_pro_backend.Base.Units.{day, hour, default_config, DateTime}
use session_pro_backend.Examples.Accounts.{paid, superseded, voucher, account, generation}
use session_pro_backend.Prelude.{All, List, Option, [], arith, refl, some, ◌*◌, ◌+◌, ◌<◌, ◌∷◌, ◌≡◌}
use session_pro_backend.Db.Tables.{Generation, Payment}
use session_pro_backend.Entitlement.{LookupUserExpiry, anchor_of, lookup_user_expiry}
use session_pro_backend.Proof.{build_proof_clamped_expiry_time}
use session_pro_backend.Housekeeping.Retention.{deleted_proofs_expired}
use session_pro_backend.Base.Grid.{
  grid_origin, offset_range, proof_expiry_shape, round_datetime_up_onto_offset_grid,
}
use session_pro_backend.Entitlement.Row.{winner_coverage}

-- The newest row of the subscription counts, the older one does not, and the credit extends.
abbrev history : List Payment
history = paid ∷ voucher ∷ superseded ∷ []

history-IsSound : All IsSound history
history-IsSound = ((refl, refl), ((refl, refl), ((refl, refl), tt)))

lookup_user_expiry_lem_example :
    (r : LookupUserExpiry) × (e e' : Option DateTime) × (lookup_user_expiry default_config
        (some (120 * day))
        history
      ≡ some r)
    × (r.best_expiry ≡ extended (live_total history) (anchor_of (some (120 * day))) e)
    × (winner_coverage default_config e r.best_grace r.best_auto_renewing
        ≡ furthest default_config (newest [] history))
    × (r.expiry_from_redeemed ≡ extended (live_total history) (anchor_of (some (120 * day))) e')
    × (winner_coverage default_config e' r.grace_from_redeemed r.auto_renewing_from_redeemed
        ≡ furthest default_config (redeemed_rows (newest [] history)))
lookup_user_expiry_lem_example =
    lookup_user_expiry_lem default_config (some (120 * day)) history history-IsSound

-- A revoked generation that no account is on any more, besides the account's own.
abbrev retired : Generation
retired = record generation { id = 4; token = 76; revoked_at = some (60 * day) }

abbrev generations : List Generation
generations = generation ∷ retired ∷ []

last_expiry :
    build_proof_clamped_expiry_time proof_expiry_shape (60 * day) (200 * day) 3600
    ≡ some (90 * day + hour)
unfolding build_proof_clamped_expiry_time offset_range round_datetime_up_onto_offset_grid
    grid_origin
last_expiry = refl

deleted_proofs_expired_example : 90 * day + hour < 100 * day
deleted_proofs_expired_example =
    deleted_proofs_expired (100 * day) (account ∷ []) retired (60 * day) (60 * day) (200 * day) 3600
      (90 * day + hour) refl refl (omega arith) last_expiry
