-- ===== src/Examples/Play.antt =====
-- Google's notifications, reconciles and acknowledgements on the tables of the example.
use session_pro_backend.Base.Errors.{err, ok, Result}
use session_pro_backend.Base.Units.{datetime_from_unix_ms, day}
use session_pro_backend.Converge.{first_matching, is_standing_order}
use session_pro_backend.Converge.Settled.{stated_end}
use session_pro_backend.Db.Tables.{Payment, Text}
use session_pro_backend.Examples.Accounts.{backend, paid, tables}
use session_pro_backend.Examples.Parsing.{play_tables}
use session_pro_backend.GooglePlay.{SinkMessage}
use session_pro_backend.GooglePlay.Reconcile.{reconcile_google_subscription, read_resource}
use session_pro_backend.GooglePlay.Reconcile.Recorded.{has_order}
use session_pro_backend.GooglePlay.Reconcile.Stored.{reconciled_is_recorded, reconciled_is_settled}
use session_pro_backend.GooglePlay.Resource.{
  SubscriptionV2Data, SubscriptionV2DataLineItem, acknowledged, parse_line_item,
  state_in_grace_period,
}
use session_pro_backend.GooglePlay.Resource.Owned.{parse_line_item_lem, Among, OwnedBy}
use session_pro_backend.GooglePlay.Store.{PlayDb}
use session_pro_backend.Message.{Bytes, ascii}
use session_pro_backend.Prelude.{
  List, Option, [], false, none, refl, some, true, ◌*◌, ◌≡◌, ◌∷◌, All, is_none, ℕ,
}
use session_pro_backend.Entitlement.{add_credits, lookup_user_expiry, scan_payment, scan_payments}
use session_pro_backend.Db.Account.{allocate_generation, update_user_from_payment_list}
use session_pro_backend.Revoke.{proofs_stand}
use session_pro_backend.Redeem.{reconcile_pending_payments}
use session_pro_backend.Coverage.{subscription_coverage_end}
use session_pro_backend.Renewal.{verify_payment_provider_tx}

-- A replaced product, the product that the user has, and one that is yet to come.
abbrev item_with : ℕ → Option Text → Bytes → SubscriptionV2DataLineItem
item_with expiry_days order base_plan = record {
  expiry_time = expiry_days * 86400000;
  latest_successful_order_id = order;
  auto_renewing_plan = some true;
  base_plan_id = base_plan;
}

abbrev current_item : SubscriptionV2DataLineItem
current_item = item_with 133 (some 71) (ascii "session-pro-1-month")

-- The subscription of token 70 is in grace, replaces that of token 69 and waits for a change.
abbrev pub resource_70 : SubscriptionV2Data
resource_70 = record {
  line_items =
      item_with 400 none (ascii "session-pro-12-months")
      ∷ item_with 120 (some 60) (ascii "session-pro-1-month")
      ∷ current_item
      ∷ [];
  subscription_state = state_in_grace_period;
  linked_purchase_token = some 69;
  acknowledgement_state = acknowledged;
  obfuscated_external_account_id = none;
  expired_obfuscated_external_account_id = none;
  expired_purchase_token = none;
}

item_chosen : (parse_line_item resource_70).0 ≡ some current_item
unfolding parse_line_item
item_chosen = refl

parse_line_item_lem_example :
    Among current_item resource_70.line_items
    × (is_none current_item.latest_successful_order_id ≡ false)
    × All (OwnedBy current_item.expiry_time) resource_70.line_items
parse_line_item_lem_example = parse_line_item_lem resource_70 current_item item_chosen

abbrev play_left : Result (List SinkMessage × PlayDb) → PlayDb
play_left (ok r) = r.1
play_left (err e) = play_tables

abbrev after_reconcile_70 : PlayDb
after_reconcile_70 =
    play_left (reconcile_google_subscription backend 70 resource_70 (130 * day) play_tables)

reconciled_70 :
    reconcile_google_subscription backend 70 resource_70 (130 * day) play_tables
    ≡ ok ([], after_reconcile_70)
unfolding reconcile_google_subscription verify_payment_provider_tx reconcile_pending_payments
    lookup_user_expiry scan_payments scan_payment add_credits subscription_coverage_end
    allocate_generation update_user_from_payment_list proofs_stand
reconciled_70 = refl

reconciled_is_recorded_example :
    has_order 70 (read_resource 70 resource_70).1.google_order_id after_reconcile_70.db ≡ true
reconciled_is_recorded_example =
    reconciled_is_recorded backend 70 resource_70 (130 * day) play_tables after_reconcile_70
      reconciled_70

standing_70 :
    first_matching
      (is_standing_order 70 (read_resource 70 resource_70).1.google_order_id)
      tables.payments
    ≡ some paid
unfolding read_resource
standing_70 = refl

reconciled_is_settled_example :
    let standing = is_standing_order 70 (read_resource 70 resource_70).1.google_order_id in
    (q : Payment) × (first_matching standing after_reconcile_70.db.payments ≡ some q)
    × (stated_end q ≡ some (datetime_from_unix_ms current_item.expiry_time))
    × (q.auto_renewing ≡ true)
    × (q.needs_ack ≡ false)
reconciled_is_settled_example =
    reconciled_is_settled backend 70 resource_70 (130 * day) play_tables after_reconcile_70
      current_item paid reconciled_70 item_chosen standing_70
