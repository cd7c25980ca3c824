-- ===== src/Examples/Registration.antt =====
-- A renewal that the store tells of, its convergence, proofs that stand, and the pages of an
-- account's payments.
use session_pro_backend.Converge.{converged, Snapshot, google_converge_payment}
use session_pro_backend.Base.Errors.{ok, err, Result}
use session_pro_backend.Base.Units.{day, hour, seconds_from_duration}
use session_pro_backend.Db.Tables.{one_month, Detail}
use session_pro_backend.Examples.Accounts.{backend, tables, after_reconcile, reconciled}
use session_pro_backend.Redeem.Terms.{terms}
use session_pro_backend.Renewal.{
  google_play_store, PaymentProviderTransaction, verify_payment_provider_tx,
}
use session_pro_backend.Register.{
  key_bytes, PaymentColumns, add_unredeemed_payment, auto_redeem_deadline, detail_of,
}
use session_pro_backend.AppStore.Payload.{no_identifiers}
use session_pro_backend.Register.Dedup.{recorded, unique_details}
use session_pro_backend.Register.Auto.{Bound, add_unredeemed_payment-Bound}
use session_pro_backend.Prelude.{refl, [], none, some, true, ◌*◌, ◌≡◌, arith, false, ◌+◌, ◌≤◌}
use session_pro_backend.Db.Monad.{Db}
use session_pro_backend.Entitlement.{
  add_credits, lookup_user_expiry, scan_payment, scan_payments, LookupUserExpiry,
}
use session_pro_backend.Register.Once.{add_unredeemed_payment-unique_details}
use session_pro_backend.Db.Account.{
  allocate_generation, update_user_from_payment_list, lookup_account,
}
use session_pro_backend.Listing.{get_user_payments_count, account_payments}
use session_pro_backend.Listing.Client.{account_pages_all, follow_cursors}
use session_pro_backend.Db.Users.{get_user}
use session_pro_backend.Converge.Again.{google_converge_payment_again}
use session_pro_backend.Revoke.{
  proofs_stand, coverage_of_lookup, coverage_or_epoch, refresh_and_revoke_overreaching,
}
use session_pro_backend.Redeem.{reconcile_pending_payments}
use session_pro_backend.Coverage.{subscription_coverage_end}
use session_pro_backend.Revoke.Overreach.{StaysClose, unrevoked_proofs_stay_close}
use session_pro_backend.Proof.{build_proof_clamped_expiry_time}
use session_pro_backend.Base.Grid.{
  ceil_units, grid_origin, offset_range, proof_expiry_shape, round_datetime_up_onto_offset_grid,
}

-- The tables that a call on the tables of the example leaves.
abbrev pub left_by : {A : Type 0} → Result (A × Db) → Db
left_by (ok r) = r.1
left_by (err e) = tables

abbrev renewal_of_70 : PaymentProviderTransaction
renewal_of_70 = record no_identifiers {
  provider = google_play_store;
  google_payment_token = 70;
  google_order_id = 72;
}

abbrev renewal_columns : PaymentColumns
renewal_columns = record {
  plan = one_month;
  expiry_at = some (160 * day);
  platform_refund_expiry_at = 0;
  purchased_at = 130 * day;
  auto_renewing = true;
  credit_remaining = none;
}

abbrev after_renewal : Db
after_renewal =
    left_by (add_unredeemed_payment backend renewal_of_70 renewal_columns (key_bytes 9) true tables)

renewal_registered :
    add_unredeemed_payment backend renewal_of_70 renewal_columns (key_bytes 9) true tables
    ≡ ok ([], after_renewal)
unfolding add_unredeemed_payment verify_payment_provider_tx get_user auto_redeem_deadline
    lookup_user_expiry scan_payments scan_payment add_credits allocate_generation
renewal_registered = refl

tables_unique : unique_details tables.payments ≡ true
unfolding unique_details
tables_unique = refl

add_unredeemed_payment-unique_details_example : unique_details after_renewal.payments ≡ true
add_unredeemed_payment-unique_details_example =
    add_unredeemed_payment-unique_details backend renewal_of_70 renewal_columns (key_bytes 9) true
      tables after_renewal [] tables_unique renewal_registered

add_unredeemed_payment-Bound_example :
    (detail : Detail) × (detail_of renewal_of_70 (key_bytes 9) ≡ some detail)
    × Bound renewal_of_70
        (130 * day)
        (recorded renewal_columns detail true tables)
        after_renewal.payments
add_unredeemed_payment-Bound_example =
    add_unredeemed_payment-Bound backend renewal_of_70 renewal_columns (key_bytes 9) true tables
      after_renewal (unfold verify_payment_provider_tx in refl) renewal_registered

-- The store extends the first subscription by three days of grace.
abbrev order_71 : PaymentProviderTransaction
order_71 = record renewal_of_70 { google_order_id = 71 }

abbrev in_grace_until_133 : Snapshot
in_grace_until_133 = record {
  expiry_at = 133 * day;
  auto_renewing = true;
  in_grace = true;
  needs_ack = false;
}

abbrev after_converge : Db
after_converge =
    left_by (google_converge_payment backend order_71 in_grace_until_133 (130 * day) tables)

converged_once :
    google_converge_payment backend order_71 in_grace_until_133 (130 * day) tables
    ≡ ok (converged, after_converge)
unfolding google_converge_payment verify_payment_provider_tx reconcile_pending_payments
    lookup_user_expiry scan_payments scan_payment add_credits subscription_coverage_end
    allocate_generation update_user_from_payment_list proofs_stand
converged_once = refl

abbrev after_converge_again : Db
after_converge_again =
    left_by (google_converge_payment backend order_71 in_grace_until_133 (131 * day) after_converge)

converged_twice :
    google_converge_payment backend order_71 in_grace_until_133 (131 * day) after_converge
    ≡ ok (converged, after_converge_again)
unfolding google_converge_payment verify_payment_provider_tx reconcile_pending_payments
    lookup_user_expiry scan_payments scan_payment add_credits subscription_coverage_end
    allocate_generation update_user_from_payment_list proofs_stand
converged_twice = refl

google_converge_payment_again_example :
    terms after_converge_again.payments ≡ terms after_converge.payments
google_converge_payment_again_example =
    google_converge_payment_again backend in_grace_until_133 order_71 (130 * day) (131 * day) tables
      after_converge after_converge_again converged converged converged_once converged_twice

-- The pending purchase raises the coverage, so the proofs stand; one was asked for when the old
-- coverage ended.
abbrev after_refresh : Db
after_refresh = left_by (refresh_and_revoke_overreaching backend 9 (100 * day) tables)

nothing_revoked :
    refresh_and_revoke_overreaching backend 9 (100 * day) tables ≡ ok (false, after_refresh)
unfolding refresh_and_revoke_overreaching reconcile_pending_payments lookup_user_expiry
    scan_payments scan_payment add_credits subscription_coverage_end allocate_generation
    update_user_from_payment_list proofs_stand get_user
nothing_revoked = refl

standing_proof :
    build_proof_clamped_expiry_time proof_expiry_shape (100 * day) (130 * day) 3600
    ≡ some (130 * day + hour)
unfolding build_proof_clamped_expiry_time round_datetime_up_onto_offset_grid grid_origin ceil_units
    seconds_from_duration offset_range
standing_proof = refl

prior_coverage : 130 * day ≤ coverage_or_epoch backend.config (get_user 9 tables)
unfolding get_user subscription_coverage_end
prior_coverage = omega arith

unrevoked_proofs_stay_close_example :
    (l : LookupUserExpiry) × (lookup_account backend 9 after_refresh ≡ ok (l, after_refresh))
    × StaysClose proof_expiry_shape
        (coverage_of_lookup backend.config l)
        0
        (100 * day)
        (130 * day + hour)
unrevoked_proofs_stay_close_example =
    unrevoked_proofs_stay_close backend 9 (100 * day) tables after_refresh (100 * day) (130 * day) 0
      3600 (130 * day + hour) (omega arith) nothing_revoked (omega arith) prior_coverage
      standing_proof

-- One payment a page.
account_pages_all_example :
    follow_cursors backend 9 (λ n. 100 * day) 1 3 none tables
    ≡ ok (account_payments 9 after_reconcile, after_reconcile)
account_pages_all_example =
    account_pages_all backend 9 (λ n. 100 * day) 1 2 1 tables after_reconcile (omega arith)
      reconciled refl (unfold get_user_payments_count in omega arith)
