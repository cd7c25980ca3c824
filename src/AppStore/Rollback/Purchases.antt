-- ===== src/AppStore/Rollback/Purchases.antt =====
-- providers/app_store.py: the branches that can register a payment report nothing, cancel, or
-- change nothing.
use session_pro_backend.AppStore.Payload.{
  missing_field, missing_tx_info, unknown_subtype, downgrade, upgrade, auto_renew_enabled,
  auto_renew_disabled, in_grace_period, other_subtype, did_change_renewal_pref, Checked-cases,
  NotificationType, Purchase, Subtype, Transaction, payment_tx_from_transaction,
  pro_plan_from_product_id, purchase_of, report_purchase_fields,
}
use session_pro_backend.AppStore.Rollback.{IsSafe, complain-IsSafe, cancel_if_reported-IsSafe}
use session_pro_backend.AppStore.Purchases.{
  Outcome, purchased, change_preference, if_clean, offer_redeemed_branch, preference_changed,
  preference_complete, purchased_complete, register_renewing, type_complaints, update_renewal,
  upgrade_plan, offer_complete,
}
use session_pro_backend.Base.Errors.{ok}
use session_pro_backend.Prelude.{
  inl, inr, ◌++◌, Bool-cases, List-cases, Option, [], arith, none, some, true, ◌==◌, ◌∷◌, ◌≡◌,
}
use session_pro_backend.Db.Monad.{Db, Env}
use session_pro_backend.Renewal.{PaymentProviderTransaction}
use session_pro_backend.Db.Tables.{ProPlan}

module _ (env : Env) where
  purchased_complete-IsSafe :
      (kind : NotificationType) (tx : Transaction) (p : Purchase) (db db' : Db) (o : Outcome)
      → purchased_complete env kind tx p db ≡ ok (o, db')
      → IsSafe o db db'
  unfolding purchased_complete
  purchased_complete-IsSafe kind tx p db db' o h =
      let identified = payment_tx_from_transaction tx (type_complaints kind p) in
      let plan = pro_plan_from_product_id p.product_id in
      elim (Bool-cases (p.expires_date == 0)) [
        | inl unset ↦ ground arith
        | inr set ↦
            cancel_if_reported-IsSafe db db' o
              (if_clean (identified.0 ++ plan.0) (register_renewing env tx identified.1 p plan.1))
              (ground arith)
      ]

  pub purchased-IsSafe :
      (kind : NotificationType) (info : Option Transaction) (db db' : Db) (o : Outcome)
      → purchased env kind info db ≡ ok (o, db')
      → IsSafe o db db'
  unfolding purchased
  purchased-IsSafe kind none db db' o h = complain-IsSafe db db' o (missing_tx_info ∷ []) h
  purchased-IsSafe kind (some tx) db db' o h = elim (Checked-cases (purchase_of tx)) [
    | inl (field, absent) ↦ complain-IsSafe db db' o (missing_field field ∷ []) (ground arith)
    | inr (p, complete) ↦ purchased_complete-IsSafe kind tx p db db' o (ground arith)
  ]

  change_preference-IsSafe :
      (subtype : Option Subtype) (tx : Transaction) (t : PaymentProviderTransaction) (p : Purchase)
      (plan : ProPlan) (db db' : Db) (o : Outcome)
      → change_preference env subtype tx t p plan db ≡ ok (o, db')
      → IsSafe o db db'
  unfolding change_preference
  change_preference-IsSafe none tx t p plan db db' o h = inl (ground arith, ground arith)
  change_preference-IsSafe (some downgrade) tx t p plan db db' o h =
      cancel_if_reported-IsSafe db db' o (update_renewal env t none true) h
  change_preference-IsSafe (some upgrade) tx t p plan db db' o h =
      elim (Bool-cases (p.expires_date == 0)) [
        | inl unset ↦ ground arith
        | inr set ↦ cancel_if_reported-IsSafe db db' o (upgrade_plan env tx t p plan) (ground arith)
      ]
  change_preference-IsSafe (some auto_renew_disabled) tx t p plan db db' o h =
      complain-IsSafe db db' o (unknown_subtype ∷ []) h
  change_preference-IsSafe (some auto_renew_enabled) tx t p plan db db' o h =
      complain-IsSafe db db' o (unknown_subtype ∷ []) h
  change_preference-IsSafe (some in_grace_period) tx t p plan db db' o h =
      complain-IsSafe db db' o (unknown_subtype ∷ []) h
  change_preference-IsSafe (some other_subtype) tx t p plan db db' o h =
      complain-IsSafe db db' o (unknown_subtype ∷ []) h

  preference_complete-IsSafe :
      (subtype : Option Subtype) (tx : Transaction) (p : Purchase) (db db' : Db) (o : Outcome)
      → preference_complete env subtype tx p db ≡ ok (o, db')
      → IsSafe o db db'
  unfolding preference_complete
  preference_complete-IsSafe subtype tx p db db' o h =
      let plan = pro_plan_from_product_id p.product_id in
      let identified =
        payment_tx_from_transaction tx (type_complaints did_change_renewal_pref p ++ plan.0) in
      elim (List-cases identified.0) [
        | inr (c, cs, reported) ↦ complain-IsSafe db db' o (c ∷ cs) (ground arith)
        | inl clean ↦
            change_preference-IsSafe subtype tx identified.1 p plan.1 db db' o (ground arith)
      ]

  pub preference_changed-IsSafe :
      (subtype : Option Subtype) (info : Option Transaction) (db db' : Db) (o : Outcome)
      → preference_changed env subtype info db ≡ ok (o, db')
      → IsSafe o db db'
  unfolding preference_changed
  preference_changed-IsSafe subtype none db db' o h =
      complain-IsSafe db db' o (missing_tx_info ∷ []) h
  preference_changed-IsSafe subtype (some tx) db db' o h = elim (Checked-cases (purchase_of tx)) [
    | inl (field, absent) ↦ complain-IsSafe db db' o (missing_field field ∷ []) (ground arith)
    | inr (p, complete) ↦ preference_complete-IsSafe subtype tx p db db' o (ground arith)
  ]

  offer_complete-IsSafe :
      (subtype : Option Subtype) (tx : Transaction) (p : Purchase) (db db' : Db) (o : Outcome)
      → offer_complete env subtype tx p db ≡ ok (o, db')
      → IsSafe o db db'
  unfolding offer_complete
  offer_complete-IsSafe subtype tx p db db' o h = ground arith

  pub offer_redeemed-IsSafe :
      (subtype : Option Subtype) (info : Option Transaction) (db db' : Db) (o : Outcome)
      → offer_redeemed_branch env subtype info db ≡ ok (o, db')
      → IsSafe o db db'
  unfolding offer_redeemed_branch
  offer_redeemed-IsSafe subtype none db db' o h = complain-IsSafe db db' o (missing_tx_info ∷ []) h
  offer_redeemed-IsSafe subtype (some tx) db db' o h =
      elim (List-cases (report_purchase_fields tx)) [
        | inr (c, cs, reported) ↦ complain-IsSafe db db' o (c ∷ cs) (ground arith)
        | inl complete ↦ elim (Checked-cases (purchase_of tx)) [
          | inl (field, absent) ↦ ground arith
          | inr (p, present_all) ↦ offer_complete-IsSafe subtype tx p db db' o (ground arith)
        ]
      ]
