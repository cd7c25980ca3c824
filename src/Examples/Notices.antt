-- ===== src/Examples/Notices.antt =====
-- Notifications of the App Store: a purchase, a one-time charge, a refund of nothing, and a
-- catch-up.
use session_pro_backend.AppStore.Catchup.{
  HistoryPage, finished, replay_all, SignedDataVerifier, catchup_on_missed_notifications,
}
use session_pro_backend.Base.Errors.{ok}
use session_pro_backend.Base.Units.{day}
use session_pro_backend.Examples.Accounts.{backend, tables}
use session_pro_backend.Examples.Registration.{left_by}
use session_pro_backend.AppStore.{Handled, DecodedNotification, handle_notification, rolled_back}
use session_pro_backend.AppStore.Payload.{
  subscribed, one_time_charge, refund, auto_renewable_subscription, non_renewing_subscription,
  purchase, pro_sub_1_month, no_payment_revoked, no_active_payment, Transaction,
  payment_tx_from_transaction,
}
use session_pro_backend.AppStore.Purchases.{outcome, purchased}
use session_pro_backend.Prelude.{
  refl, [], ◌∷◌, Option, false, if◌then◌else◌, none, some, true, ℕ, ◌*◌, ◌+◌, ◌==◌, ◌≡◌,
}
use session_pro_backend.Db.Monad.{Db}
use session_pro_backend.Db.Tables.{Payment, Text}
use session_pro_backend.AppStore.Replay.{catchup_is_one_pass}
use session_pro_backend.Renewal.{first_selected, renewal_selects}
use session_pro_backend.AppStore.Delivery.{handled_once, unhandled_leaves_no_trace}
use session_pro_backend.AppStore.Offers.{purchased_renews}
use session_pro_backend.Revoke.{refresh_owners, revoke_payments_by_id}

abbrev bought : Transaction
bought = record {
  expires_date = some 17280000000;
  original_transaction_id = some 50;
  purchase_date = some 8553600000;
  transaction_id = some 50;
  transaction_reason = some purchase;
  product_type = some auto_renewable_subscription;
  product_id = some pro_sub_1_month;
  web_order_line_item_id = some 51;
  app_account_token = some 3;
  revocation_date = none;
}

abbrev bought_notice : DecodedNotification
bought_notice = record {
  notification_uuid = 900;
  notification_type = some subscribed;
  subtype = none;
  signed_date = some 8553600000;
  tx_info = some bought;
  renewal_info = none;
}

abbrev handled_well : Handled
handled_well = record { handled = true; complaints = []; cancel = false }

abbrev after_bought : Db
after_bought = left_by (handle_notification backend bought_notice (5 * day) [] tables)

bought_handled :
    handle_notification backend bought_notice (5 * day) [] tables ≡ ok (handled_well, after_bought)
unfolding handle_notification
bought_handled = refl

handled_once_example :
    handle_notification backend bought_notice (5 * day) [] after_bought
    ≡ ok (handled_well, after_bought)
handled_once_example =
    handled_once backend bought_notice (5 * day) [] tables after_bought handled_well bought_notice
      (5 * day) bought_handled refl refl

-- A refund of a transaction that is not on file is cancelled.
abbrev refund_notice : DecodedNotification
refund_notice = record bought_notice {
  notification_type = some refund;
  tx_info = some (record bought { revocation_date = some 8553600000 });
}

abbrev refund_unmatched : Handled
refund_unmatched = record {
  handled = false;
  complaints = no_payment_revoked ∷ no_active_payment ∷ [];
  cancel = true;
}

refund_unhandled :
    handle_notification backend refund_notice (5 * day) [] tables ≡ ok (refund_unmatched, tables)
unfolding handle_notification revoke_payments_by_id refresh_owners
refund_unhandled = refl

unhandled_leaves_no_trace_example : (false ≡ false) × (tables ≡ rolled_back tables tables)
unhandled_leaves_no_trace_example =
    unhandled_leaves_no_trace backend refund_notice (5 * day) [] tables tables refund_unmatched
      refund_unhandled refl

-- A purchase that does not renew.
abbrev one_time : Transaction
one_time = record bought { product_type = some non_renewing_subscription }

abbrev after_charge : Db
after_charge = left_by (purchased backend one_time_charge (some one_time) tables)

charge_recorded :
    purchased backend one_time_charge (some one_time) tables ≡ ok (outcome [] false, after_charge)
unfolding purchased
charge_recorded = refl

purchased_renews_example :
    (row : Payment) × (first_selected
        (renewal_selects (payment_tx_from_transaction one_time []).1)
        after_charge.payments
      ≡ some row)
    × (row.auto_renewing ≡ true)
purchased_renews_example =
    purchased_renews backend one_time_charge one_time tables after_charge (outcome [] false)
      charge_recorded refl

-- A history of two items, of which the second does not verify.
abbrev reader : SignedDataVerifier
reader = record {
  verify_and_decode_notification = λ text.
      if text == 600
      then some (record {
        notification_uuid = 900;
        notification_type = some subscribed;
        subtype = none;
        signed_date = some 8553600000;
        body_data =
            some (record { signed_transaction_info = some 601; signed_renewal_info = some 602 });
      })
      else none;
  verify_and_decode_signed_transaction = λ text. some bought;
  verify_and_decode_renewal_info =
      λ text. some (record { auto_renew_status = some true; grace_period_expires_after = none });
}

-- Each page has one of the two items.
abbrev two_pages : ℕ → ℕ → Option Text → Option HistoryPage
two_pages start end none =
    some
      (record { notification_history = some 600 ∷ []; has_more = true; pagination_token = some 2 })
two_pages start end (some token) =
    some
      (record { notification_history = some 700 ∷ []; has_more = false; pagination_token = none })

catchup_is_one_pass_example :
    let pass = replay_all backend reader (5 * day) (some 600 ∷ some 700 ∷ []) tables in
    (catchup_on_missed_notifications backend reader (5 * day) two_pages 4 30 (100 * day) tables
      ≡ finished pass.0 pass.1 (record pass.2 { apple_notification_checkpoint_at = 100 * day }))
    × (pass.0 + pass.1 ≡ 2)
catchup_is_one_pass_example =
    catchup_is_one_pass backend reader (5 * day) two_pages 4 30 (100 * day) tables
      (some 600 ∷ some 700 ∷ []) refl
