-- ===== src/Examples/Standing.antt =====
-- An account that is told it is active while its proofs of the week are used up.
use session_pro_backend.Base.Errors.{ok, err, Result}
use session_pro_backend.Base.Units.{day}
use session_pro_backend.Examples.Accounts.{backend, after_proof}
use session_pro_backend.Examples.Registration.{left_by}
use session_pro_backend.Status.{active, ProStatus, get_pro_status, never_status}
use session_pro_backend.Prelude.{refl, ◌*◌, ◌≡◌}
use session_pro_backend.Db.Monad.{Db}
use session_pro_backend.Entitlement.{add_credits, lookup_user_expiry, scan_payment, scan_payments}
use session_pro_backend.Db.Account.{allocate_generation}
use session_pro_backend.Coverage.{subscription_coverage_end}

abbrev told : Result (ProStatus × Db) → ProStatus
told (ok r) = r.0
told (err e) = never_status

abbrev pub status_told : ProStatus
status_told = told (get_pro_status backend 9 (100 * day) after_proof)

abbrev pub after_status : Db
after_status = left_by (get_pro_status backend 9 (100 * day) after_proof)

pub told_active : status_told.user_status ≡ active
unfolding get_pro_status lookup_user_expiry scan_payments scan_payment add_credits
    subscription_coverage_end allocate_generation
told_active = refl
