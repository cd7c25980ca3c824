-- ===== src/AppStore/Offers.antt =====
-- providers/app_store.py: the renewal flag that a purchase leaves.
use session_pro_backend.AppStore.Payload.{
  Transaction, NotificationType, Purchase, payment_tx_from_transaction, Checked-cases,
  pro_plan_from_product_id, purchase_of,
}
use session_pro_backend.Base.Errors.{ok, Result-cases}
use session_pro_backend.Renewal.{
  PaymentProviderTransaction, RenewalOutcome, first_selected, renewal_selects, set_renewal,
  update_payment_renewal_info, update_selected, write_renewal, verify_payment_provider_tx,
}
use session_pro_backend.Prelude.{
  inl, inr, Bool, List, Option, Option-cases, [], arith, some, ◌==◌, ◌∷◌, ◌≡◌, List-cases, none,
  true, Bool-cases, refl, ◌++◌,
}
use session_pro_backend.Db.Monad.{Db, Env}
use session_pro_backend.Db.Tables.{Detail, Payment, ProPlan}
use session_pro_backend.Base.Units.{Duration}
use session_pro_backend.AppStore.Purchases.{
  renewal_complaints, Outcome, purchased, purchased_complete, register, register_renewing,
  type_complaints,
}
use session_pro_backend.Revoke.{owner_of}
use session_pro_backend.Redeem.Terms.{update_user-payments}
use session_pro_backend.Db.Account.{update_user_from_payment_list}

set_renewal-selected :
    (selects : Detail → Bool) (g : Option Duration) (b : Bool) (ps : List Payment) (p : Payment)
    → first_selected selects (update_selected selects (set_renewal g (some b)) ps) ≡ some p
    → p.auto_renewing ≡ b
unfolding update_selected set_renewal
set_renewal-selected selects g b [] p h = ground arith
set_renewal-selected selects g b (q ∷ ps) p h =
    ground (arith, set_renewal-selected selects g b ps p)

module _ (env : Env) where
  write_renewal-written :
      (t : PaymentProviderTransaction) (g : Option Duration) (b : Bool) (db db' : Db)
      (r : RenewalOutcome)
      → write_renewal env t g (some b) db ≡ ok (r, db')
      → renewal_complaints r ≡ []
      → (p : Payment) × (first_selected (renewal_selects t) db'.payments ≡ some p)
        × (p.auto_renewing ≡ b)
  unfolding write_renewal
  write_renewal-written t g b db db' r h quiet =
      let selects = renewal_selects t in
      let rows = update_selected selects (set_renewal g (some b)) db.payments in
      let written : Db = record db { payments = rows } in
      elim (Option-cases (first_selected selects rows)) [
        | inl absent ↦ ground arith
        | inr (p, matched) ↦
            let flag = set_renewal-selected selects g b db.payments p matched in
            elim (Option-cases (owner_of db.users p)) [
              | inl unowned ↦ (p, ground arith, flag)
              | inr (key, owner) ↦
                  elim (Result-cases (update_user_from_payment_list env key written)) [
                    | inl (e, failed) ↦ ground arith
                    | inr ((u, db1), refreshed) ↦ (
                      p,
                      ground (arith, update_user-payments env key written db1 refreshed),
                      flag,
                    )
                  ]
            ]
      ]

  update_renewal-written :
      (t : PaymentProviderTransaction) (g : Option Duration) (b : Bool) (db db' : Db)
      (r : RenewalOutcome)
      → update_payment_renewal_info env t g (some b) db ≡ ok (r, db')
      → renewal_complaints r ≡ []
      → (p : Payment) × (first_selected (renewal_selects t) db'.payments ≡ some p)
        × (p.auto_renewing ≡ b)
  unfolding update_payment_renewal_info
  update_renewal-written t g b db db' r h quiet = elim (List-cases (verify_payment_provider_tx t)) [
    | inr (m, ms, missing_some) ↦ ground arith
    | inl complete ↦ write_renewal-written t g b db db' r (ground arith) quiet
  ]

  register_renewing-written :
      (tx : Transaction) (t : PaymentProviderTransaction) (p : Purchase) (plan : ProPlan)
      (db db' : Db)
      → register_renewing env tx t p plan db ≡ ok ([], db')
      → (row : Payment) × (first_selected (renewal_selects t) db'.payments ≡ some row)
        × (row.auto_renewing ≡ true)
  unfolding register_renewing
  register_renewing-written tx t p plan db db' h =
      elim (Result-cases (register env tx t p plan db)) [
        | inl (e, failed) ↦ ground arith
        | inr ((c ∷ cs, db1), reported) ↦ ground arith
        | inr (([], db1), registered) ↦
            elim (Result-cases (update_payment_renewal_info env t none (some true) db1)) [
              | inl (e, failed) ↦ ground arith
              | inr ((r, db2), updated) ↦
                  let same : db' ≡ db2 = ground arith in
                  rw same (update_renewal-written t none true db1 db2 r updated (ground arith))
            ]
      ]

  -- Whatever a purchase notification buys, a one-time charge included, the payment of its
  -- identifiers is on file as one that renews, where the notification is handled without a message.
  pub purchased_renews :
      (kind : NotificationType) (tx : Transaction) (db db' : Db) (o : Outcome)
      → purchased env kind (some tx) db ≡ ok (o, db')
      → o.complaints ≡ []
      → (row : Payment) × (first_selected
            (renewal_selects (payment_tx_from_transaction tx []).1)
            db'.payments
          ≡ some row)
        × (row.auto_renewing ≡ true)
  unfolding purchased purchased_complete
  purchased_renews kind tx db db' o h quiet = elim (Checked-cases (purchase_of tx)) [
    | inl (field, absent) ↦ ground arith
    | inr (p, complete) ↦ elim (Bool-cases (p.expires_date == 0)) [
      | inl unset ↦ ground arith
      | inr set ↦ elim (List-cases (type_complaints kind p)) [
        | inr (c, cs, mistyped) ↦ ground arith
        | inl typed ↦
            let t = payment_tx_from_transaction tx [] in
            let plan = pro_plan_from_product_id p.product_id in
            let identified = payment_tx_from_transaction tx (type_complaints kind p) in
            let same : identified ≡ t = rw typed refl in
            elim (List-cases (t.0 ++ plan.0)) [
              | inr (c, cs, reported) ↦ ground (arith, same)
              | inl clean ↦ elim (Result-cases (register_renewing env tx t.1 p plan.1 db)) [
                | inl (e, failed) ↦ ground (arith, same)
                | inr ((c ∷ cs, db1), reported) ↦ ground (arith, same)
                | inr (([], db1), registered) ↦
                    let last : db' ≡ db1 = ground (arith, same) in
                    rw last (register_renewing-written tx t.1 p plan.1 db db1 registered)
              ]
            ]
      ]
    ]
  ]
