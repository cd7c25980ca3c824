-- ===== src/AppStore/Delivery.antt =====
-- providers/app_store.py: a notification is handled once, or leaves no trace.
use session_pro_backend.AppStore.{
  unhandled_notification, unsupported_extension, unsupported_store, branch_of, DecodedNotification,
  Handled, apple_add_notification_uuid, handle_fresh, record_handled, uuid_is_in_db,
  handle_notification, handle_notification_tx, rolled_back,
}
use session_pro_backend.AppStore.Payload.{
  subscribed, did_renew, one_time_charge, did_change_renewal_pref, offer_redeemed, refund, revoke,
  refund_reversed, did_change_renewal_status, did_fail_to_renew, test_notification,
  expired_notification, refund_declined, grace_period_expired, consumption_request, price_increase,
  external_purchase_token, renewal_extended, renewal_extension, other_notification,
  NotificationType, Complaint,
}
use session_pro_backend.AppStore.Purchases.{Outcome}
use session_pro_backend.AppStore.Rollback.{IsSafe, complain-IsSafe}
use session_pro_backend.AppStore.Rollback.Purchases.{
  purchased-IsSafe, offer_redeemed-IsSafe, preference_changed-IsSafe,
}
use session_pro_backend.AppStore.Rollback.Changes.{
  refused-IsSafe, refunded-IsSafe, expired-IsSafe, acknowledged-IsSafe, refund_reversed-IsSafe,
  renewal_failed-IsSafe, status_changed-IsSafe,
}
use session_pro_backend.Base.Errors.{ok, Result-cases}
use session_pro_backend.Db.Monad.{Db, Env}
use session_pro_backend.Prelude.{
  [], ◌∷◌, ◌≡◌, Bool, Bool-cases, Option-cases, arith, false, inl, inr, is_empty, true, ◌==◌, ◌∙◌,
  ◌⊎◌, List,
}
use session_pro_backend.Base.Units.{Duration}

module _ (env : Env) (n : DecodedNotification) (db db' : Db) (o : Outcome) where
  branch_of-IsSafe :
      (kind : NotificationType) → branch_of env kind n db ≡ ok (o, db') → IsSafe o db db'
  unfolding branch_of
  branch_of-IsSafe subscribed h = purchased-IsSafe env subscribed n.tx_info db db' o h
  branch_of-IsSafe did_renew h = purchased-IsSafe env did_renew n.tx_info db db' o h
  branch_of-IsSafe one_time_charge h = purchased-IsSafe env one_time_charge n.tx_info db db' o h
  branch_of-IsSafe did_change_renewal_pref h =
      preference_changed-IsSafe env n.subtype n.tx_info db db' o h
  branch_of-IsSafe offer_redeemed h = offer_redeemed-IsSafe env n.subtype n.tx_info db db' o h
  branch_of-IsSafe refund h = refunded-IsSafe env db db' o n.tx_info h
  branch_of-IsSafe revoke h = refunded-IsSafe env db db' o n.tx_info h
  branch_of-IsSafe refund_reversed h =
      refund_reversed-IsSafe env db db' o n.signed_date n.tx_info n.renewal_info h
  branch_of-IsSafe did_change_renewal_status h =
      status_changed-IsSafe env db db' o n.subtype n.tx_info h
  branch_of-IsSafe did_fail_to_renew h =
      renewal_failed-IsSafe env db db' o n.subtype n.renewal_info n.tx_info h
  branch_of-IsSafe test_notification h = complain-IsSafe db db' o [] h
  branch_of-IsSafe expired_notification h = expired-IsSafe env db db' o n.tx_info h
  branch_of-IsSafe refund_declined h = acknowledged-IsSafe db db' o n.tx_info h
  branch_of-IsSafe grace_period_expired h = acknowledged-IsSafe db db' o n.tx_info h
  branch_of-IsSafe consumption_request h = acknowledged-IsSafe db db' o n.tx_info h
  branch_of-IsSafe price_increase h = acknowledged-IsSafe db db' o n.tx_info h
  branch_of-IsSafe external_purchase_token h = refused-IsSafe db db' o unsupported_store n.tx_info h
  branch_of-IsSafe renewal_extended h = refused-IsSafe db db' o unsupported_extension n.tx_info h
  branch_of-IsSafe renewal_extension h = refused-IsSafe db db' o unsupported_extension n.tx_info h
  branch_of-IsSafe other_notification h = complain-IsSafe db db' o (unhandled_notification ∷ []) h

abbrev pub is_known : DecodedNotification → Db → Bool
is_known n db = uuid_is_in_db n.notification_uuid db.apple_notification_uuid_history

-- How handling ends: handled and on record, to be committed, or not handled, and rolled back or
-- with nothing changed.
abbrev Ends : DecodedNotification → Handled → Db → Db → Type 0
Ends n h db db' =
    ((h.handled ≡ true)
      × (is_empty h.complaints ≡ true)
      × (h.cancel ≡ false)
      × (is_known n db' ≡ true))
    ⊎ ((h.handled ≡ false) × (is_empty h.complaints ≡ false) × ((h.cancel ≡ true) ⊎ (db' ≡ db)))

record_handled-known :
    (env : Env) (n : DecodedNotification) (retry : Duration) (cancel : Bool) (db db' : Db)
    (h : Handled)
    → record_handled env n retry cancel db ≡ ok (h, db')
    → (h.handled ≡ true)
      × (is_empty h.complaints ≡ true)
      × (h.cancel ≡ cancel)
      × (is_known n db' ≡ true)
unfolding record_handled apple_add_notification_uuid uuid_is_in_db
record_handled-known env n retry cancel db db' h run = elim (Option-cases n.signed_date) [
  | inl undated ↦ ground arith
  | inr (date, dated) ↦ elim (Bool-cases (date == 0)) [
    | inl unset ↦ ground arith
    | inr set ↦ elim (Bool-cases (is_known n db)) [
      | inl known ↦ (ground arith, ground arith, ground arith, ground arith)
      | inr fresh ↦ (ground arith, ground arith, ground arith, ground arith)
    ]
  ]
]

module _ (env : Env) (n : DecodedNotification) (retry : Duration) where
  handle_fresh-Ends :
      (db db' : Db) (h : Handled) → handle_fresh env n retry db ≡ ok (h, db') → Ends n h db db'
  unfolding handle_fresh
  handle_fresh-Ends db db' h run = elim (Option-cases n.notification_type) [
    | inl untyped ↦ ground arith
    | inr (kind, typed) ↦ elim (Result-cases (branch_of env kind n db)) [
      | inl (e, failed) ↦ ground arith
      | inr ((o, db1), ran) ↦ elim (branch_of-IsSafe env n db db1 o kind ran) [
        | inl (quiet, kept) ↦
            let (handled, none_left, same, known) =
              record_handled-known env n retry o.cancel db1 db' h (ground arith) in
            inl (handled, none_left, same ∙ kept, known)
        | inr (reported, inl cancelled) ↦ inr (ground arith, ground arith, inl (ground arith))
        | inr (reported, inr same) ↦ inr (ground arith, ground arith, inr (ground arith))
      ]
    ]
  ]

  handle_tx-Ends :
      (db db' : Db) (h : Handled)
      → handle_notification_tx env n retry [] db ≡ ok (h, db')
      → ((n.notification_uuid == 0) ≡ false) × Ends n h db db'
  unfolding handle_notification_tx
  handle_tx-Ends db db' h run = elim (Bool-cases (n.notification_uuid == 0)) [
    | inl unset ↦ ground arith
    | inr set ↦ elim (Bool-cases (is_known n db)) [
      | inl known ↦ (set, inl (ground arith, ground arith, ground arith, ground arith))
      | inr fresh ↦ (set, handle_fresh-Ends db db' h (ground arith))
    ]
  ]

  -- A notification that is not handled leaves no trace: where the call returns and says so, there
  -- is a message in the sink, and every table is as it was; only the sequences, the clock and the
  -- random source have moved on.
  pub unhandled_leaves_no_trace :
      (sink : List Complaint) (db db' : Db) (h : Handled)
      → handle_notification env n retry sink db ≡ ok (h, db')
      → h.handled ≡ false
      → (is_empty h.complaints ≡ false) × (db' ≡ rolled_back db db')
  unfolding handle_notification handle_notification_tx
  unhandled_leaves_no_trace (c ∷ cs) db db' h run refused_call = (ground arith, ground arith)
  unhandled_leaves_no_trace [] db db' h run refused_call =
      elim (Result-cases (handle_notification_tx env n retry [] db)) [
        | inl (e, failed) ↦ ground arith
        | inr ((h1, db1), ran) ↦
            let (set, ends) = handle_tx-Ends db db1 h1 ran in
            elim (Bool-cases h1.cancel) [
              | inl cancelled ↦ elim ends [
                | inl (handled, none_left, kept, known) ↦ ground arith
                | inr (unhandled, reported, left) ↦ (ground arith, ground arith)
              ]
              | inr kept ↦ elim ends [
                | inl (handled, none_left, kept', known) ↦ ground arith
                | inr (unhandled, reported, inl cancelled) ↦ ground arith
                | inr (unhandled, reported, inr same) ↦ (ground arith, ground arith)
              ]
            ]
      ]

  -- A notification that was handled is handled once: on the tables that it leaves, its redelivery
  -- is acknowledged with no message and changes nothing, whatever else it carries.
  pub handled_once :
      (sink : List Complaint) (db db' : Db) (h : Handled) (n' : DecodedNotification)
      (retry' : Duration)
      → handle_notification env n retry sink db ≡ ok (h, db')
      → h.handled ≡ true
      → n'.notification_uuid ≡ n.notification_uuid
      → handle_notification env n' retry' [] db'
        ≡ ok (record { handled = true; complaints = []; cancel = false }, db')
  unfolding handle_notification handle_notification_tx
  handled_once (c ∷ cs) db db' h n' retry' run handled_call same = ground arith
  handled_once [] db db' h n' retry' run handled_call same =
      elim (Result-cases (handle_notification_tx env n retry [] db)) [
        | inl (e, failed) ↦ ground arith
        | inr ((h1, db1), ran) ↦
            let (set, ends) = handle_tx-Ends db db1 h1 ran in
            elim (Bool-cases h1.cancel) [
              | inl cancelled ↦ elim ends [
                | inl (handled, none_left, kept, known) ↦ ground arith
                | inr (unhandled, reported, left) ↦ ground arith
              ]
              | inr committed ↦ elim ends [
                | inl (handled, none_left, kept, known) ↦ ground arith
                | inr (unhandled, reported, left) ↦ ground arith
              ]
            ]
      ]
