-- ===== src/AppStore.antt =====
-- providers/app_store.py: handling the notifications of the App Store.
pub mod Payload
pub mod Purchases
pub mod Changes
pub mod Rollback
pub mod Delivery
pub mod Offers
pub mod Catchup
pub mod Replay
use session_pro_backend.AppStore.Payload.{
  unhandled_notification, unsupported_extension, unsupported_store, RenewalInfo, Transaction,
  Subtype, Complaint, NotificationType, subscribed, did_renew, one_time_charge,
  did_change_renewal_pref, offer_redeemed, refund, revoke, refund_reversed,
  did_change_renewal_status, did_fail_to_renew, test_notification, expired_notification,
  refund_declined, grace_period_expired, consumption_request, price_increase,
  external_purchase_token, renewal_extended, renewal_extension, other_notification,
}
use session_pro_backend.AppStore.Changes.{
  acknowledged, expired_branch, renewal_failed, renewal_status_changed, refund_reversed_branch,
  refunded, refused,
}
use session_pro_backend.AppStore.Purchases.{
  offer_redeemed_branch, preference_changed, purchased, Outcome, complain, done,
}
use session_pro_backend.Db.Monad.{pure, raise, gets, modify, Tx, Env, ◌>>=◌, ◌>>◌, Db}
use session_pro_backend.Base.Errors.{ok, err, assertion_error}
use session_pro_backend.Prelude.{
  Bool, List, Option, [], false, if◌then◌else◌, leb, none, some, true, ℕ, ◌+◌, ◌==◌, ◌∷◌,
}
use session_pro_backend.Base.Units.{DateTime, Duration, datetime_from_unix_ms}
use session_pro_backend.Db.Tables.{Text}

-- `DecodedNotification`, and of its body what the handler reads. 0 is an empty UUID.
pub record DecodedNotification : Type 0 where
  pub notification_uuid : Text
  pub notification_type : Option NotificationType
  pub subtype : Option Subtype
  pub signed_date : Option ℕ
  pub tx_info : Option Transaction
  pub renewal_info : Option RenewalInfo

-- `apple_notification_uuid_is_in_db`
unfoldable pub uuid_is_in_db : Text → List (Text × DateTime) → Bool
uuid_is_in_db uuid [] = false
uuid_is_in_db uuid (row ∷ rows) = if row.0 == uuid then true else uuid_is_in_db uuid rows

-- `apple_add_notification_uuid`
unfoldable pub apple_add_notification_uuid : Text → DateTime → Tx (Unit {0})
unfolding uuid_is_in_db
apple_add_notification_uuid uuid expires_at = modify (λ db.
    if uuid_is_in_db uuid db.apple_notification_uuid_history then db else record db {
      apple_notification_uuid_history = (uuid, expires_at) ∷ db.apple_notification_uuid_history;
    })

-- `apple_set_notification_checkpoint_at`
unfoldable pub apple_set_notification_checkpoint_at : DateTime → Tx (Unit {0})
apple_set_notification_checkpoint_at at =
    modify (λ db. record db { apple_notification_checkpoint_at = at })

-- `delete_expired_apple_notification_uuids`: how many rows went, and the rows that stay.
unfoldable pub delete_expired_uuids : DateTime → List (Text × DateTime) → ℕ × List (Text × DateTime)
delete_expired_uuids now [] = (0, [])
delete_expired_uuids now (row ∷ rows) =
    let rest = delete_expired_uuids now rows in
    if leb row.1 now then (rest.0 + 1, rest.1) else (rest.0, row ∷ rest.1)

-- What `handle_notification_tx` returns, leaves in the sink, and asks of the transaction.
pub record Handled : Type 0 where
  pub handled : Bool
  pub complaints : List Complaint
  pub cancel : Bool

-- The tables after a rollback: the sequences, the clock and the random source have moved on.
abbrev pub rolled_back : Db → Db → Db
rolled_back db db' = record db {
  next_payment_id = db'.next_payment_id;
  next_user_id = db'.next_user_id;
  next_generation_id = db'.next_generation_id;
  clock_reads = db'.clock_reads;
  draws = db'.draws;
}

module _ (env : Env) where
  -- The chain of branches of `handle_notification_tx`.
  unfoldable pub branch_of : NotificationType → DecodedNotification → Tx Outcome
  unfolding purchased preference_changed offer_redeemed_branch refunded refund_reversed_branch
      renewal_status_changed renewal_failed expired_branch acknowledged refused
  branch_of subscribed n = purchased env subscribed n.tx_info
  branch_of did_renew n = purchased env did_renew n.tx_info
  branch_of one_time_charge n = purchased env one_time_charge n.tx_info
  branch_of did_change_renewal_pref n = preference_changed env n.subtype n.tx_info
  branch_of offer_redeemed n = offer_redeemed_branch env n.subtype n.tx_info
  branch_of refund n = refunded env n.tx_info
  branch_of revoke n = refunded env n.tx_info
  branch_of refund_reversed n = refund_reversed_branch env n.signed_date n.tx_info n.renewal_info
  branch_of did_change_renewal_status n = renewal_status_changed env n.subtype n.tx_info
  branch_of did_fail_to_renew n = renewal_failed env n.subtype n.renewal_info n.tx_info
  branch_of test_notification n = done
  branch_of expired_notification n = expired_branch env n.tx_info
  branch_of refund_declined n = acknowledged n.tx_info
  branch_of grace_period_expired n = acknowledged n.tx_info
  branch_of consumption_request n = acknowledged n.tx_info
  branch_of price_increase n = acknowledged n.tx_info
  branch_of external_purchase_token n = refused unsupported_store n.tx_info
  branch_of renewal_extended n = refused unsupported_extension n.tx_info
  branch_of renewal_extension n = refused unsupported_extension n.tx_info
  branch_of other_notification n = complain (unhandled_notification ∷ [])

  -- Recording a notification as handled: its date is asserted to be set and not zero.
  unfoldable pub record_handled : DecodedNotification → Duration → Bool → Tx Handled
  unfolding apple_add_notification_uuid datetime_from_unix_ms
  record_handled n retry_duration cancel = elim n.signed_date [
    | none ↦ raise assertion_error
    | some date ↦ elim (date == 0) [
      | true ↦ raise assertion_error
      | false ↦ do
        apple_add_notification_uuid n.notification_uuid
            (datetime_from_unix_ms date + retry_duration)
        pure (record { handled = true; complaints = []; cancel = cancel })
    ]
  ]

  -- `handle_notification_tx` of a notification that is not in the history.
  unfoldable pub handle_fresh : DecodedNotification → Duration → Tx Handled
  unfolding branch_of record_handled
  handle_fresh n retry_duration = elim n.notification_type [
    | none ↦ raise assertion_error
    | some kind ↦ do
      o ← branch_of kind n
      elim o.complaints [
        | c ∷ cs ↦ pure (record { handled = false; complaints = c ∷ cs; cancel = o.cancel })
        | [] ↦ record_handled n retry_duration o.cancel
      ]
  ]

  -- `handle_notification_tx`, with the messages that are in the sink already.
  unfoldable pub handle_notification_tx :
      DecodedNotification → Duration → List Complaint → Tx Handled
  unfolding handle_fresh uuid_is_in_db
  handle_notification_tx n retry_duration (c ∷ cs) =
      pure (record { handled = false; complaints = c ∷ cs; cancel = false })
  handle_notification_tx n retry_duration [] = elim (n.notification_uuid == 0) [
    | true ↦ raise assertion_error
    | false ↦ do
      known ← gets (λ db. uuid_is_in_db n.notification_uuid db.apple_notification_uuid_history)
      elim known [
        | true ↦ pure (record { handled = true; complaints = []; cancel = false })
        | false ↦ handle_fresh n retry_duration
      ]
  ]

  -- `handle_notification`: the transaction that a notification has for itself.
  unfoldable pub handle_notification : DecodedNotification → Duration → List Complaint → Tx Handled
  unfolding handle_notification_tx
  handle_notification n retry_duration sink db =
      elim (handle_notification_tx n retry_duration sink db) [
        | err e ↦ err e
        | ok (h, db') ↦ elim h.cancel [ true ↦ ok (h, rolled_back db db') | false ↦ ok (h, db') ]
      ]
