-- ===== src/Examples/Generations.antt =====
-- Binding one payment, and revoking a generation, on the small database.
use session_pro_backend.Examples.Accounts.{
  account, backend, generation, tables, after_reconcile, naming_scheme,
}
use session_pro_backend.Base.Errors.{revoked_code, ok, err, fail, is_ok}
use session_pro_backend.Renewal.{google_play_store, PaymentProviderTransaction}
use session_pro_backend.Coverage.{subscription_coverage_end}
use session_pro_backend.Issue.{build_current_entitlement_proof}
use session_pro_backend.Entitlement.{lookup_user_expiry, scan_payments, scan_payment, add_credits}
use session_pro_backend.Db.Account.{allocate_generation}
use session_pro_backend.Base.Units.{day}
use session_pro_backend.Prelude.{false, refl, ◌*◌, ◌≡◌}
use session_pro_backend.Db.Users.{get_user}
use session_pro_backend.Single.Once.{redeem_minted_once}
use session_pro_backend.Single.{redeem_minted_payment}
use session_pro_backend.Revoke.{revoke_current}
use session_pro_backend.Revoke.Refused.{revoked_account_is_refused}

-- Binding the unclaimed purchase by its own identifiers.
abbrev purchase : PaymentProviderTransaction
purchase = record {
  provider = google_play_store;
  apple_original_tx_id = 0;
  apple_tx_id = 0;
  apple_web_line_order_tx_id = 0;
  google_payment_token = 80;
  google_order_id = 81;
  stf_order_id = 0;
}

bound_by_order :
    redeem_minted_payment backend 9 purchase (100 * day) tables ≡ ok (tt, after_reconcile)
unfolding redeem_minted_payment lookup_user_expiry scan_payments scan_payment add_credits
    subscription_coverage_end allocate_generation
bound_by_order = refl

redeem_minted_once_example :
    is_ok (redeem_minted_payment backend 12 purchase (101 * day) after_reconcile) ≡ false
redeem_minted_once_example =
    redeem_minted_once backend purchase 9 12 (100 * day) (101 * day) tables after_reconcile
      bound_by_order

revoked_account_is_refused_example :
    build_current_entitlement_proof naming_scheme backend 9 5
      (100 * day)
      3
      (revoke_current 9 (99 * day) tables)
    ≡ err (fail revoked_code)
revoked_account_is_refused_example =
    revoked_account_is_refused naming_scheme backend 9 5 (100 * day) 3 (99 * day) tables account
      generation (unfold get_user in refl)
