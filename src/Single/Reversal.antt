-- ===== src/Single/Reversal.antt =====
-- A refund and its reversal.
use session_pro_backend.Prelude.{All, Bool, List, [], arith, none, refl, ℕ, ◌∷◌, ◌≡◌}
use session_pro_backend.Base.Units.{DateTime}
use session_pro_backend.Db.Tables.{Payment}
use session_pro_backend.Revoke.{revoke_payment_rows}
use session_pro_backend.Single.{unrevoke_rows}

-- A payment that is not revoked, with a given renewal flag.
abbrev pub IsLive : Bool → Payment → Type 0
IsLive renewing p = (p.revoked_at ≡ none) × (p.auto_renewing ≡ renewing)

-- Reversing a refund restores the payments as they were before it, so it gives back the paid window
-- and extends nothing. The payments were not revoked, and the reversal states the renewal flag that
-- they had.
pub unrevoke_rows-revoke_payment_rows :
    (ids : List ℕ) (renewing : Bool) (at : DateTime) (ps : List Payment)
    → All (IsLive renewing) ps
    → unrevoke_rows ids renewing (revoke_payment_rows ids at ps) ≡ ps
unfolding unrevoke_rows revoke_payment_rows
unrevoke_rows-revoke_payment_rows ids renewing at [] live = refl
unrevoke_rows-revoke_payment_rows ids renewing at (p ∷ ps) live =
    ground (arith, live.0.0, live.0.1, unrevoke_rows-revoke_payment_rows ids renewing at ps live.1)
