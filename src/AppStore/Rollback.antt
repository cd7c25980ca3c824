-- ===== src/AppStore/Rollback.antt =====
-- providers/app_store.py: what each branch of the handler leaves, by the messages it reports.
pub mod Purchases
pub mod Changes
use session_pro_backend.AppStore.Purchases.{
  Outcome, complain, cancel_if_reported, renewal_complaints,
}
use session_pro_backend.Base.Errors.{ok, Result-cases}
use session_pro_backend.Renewal.{
  succeeded, PaymentProviderTransaction, RenewalOutcome, first_selected, renewal_selects,
  set_renewal, update_selected, write_renewal, update_payment_renewal_info,
  verify_payment_provider_tx,
}
use session_pro_backend.Prelude.{
  inl, inr, refl, Bool, List, Option, Option-cases, [], arith, false, is_empty, none, true, ◌∷◌,
  ◌≡◌, ◌⊎◌, Bool-cases, List-cases, some, ◌∙◌,
}
use session_pro_backend.AppStore.Payload.{Complaint, Transaction, payment_tx_from_transaction}
use session_pro_backend.Db.Monad.{Db, Env, Tx}
use session_pro_backend.Db.Tables.{Detail, Payment}
use session_pro_backend.Base.Units.{Duration}
use session_pro_backend.Revoke.{owner_of}
use session_pro_backend.AppStore.Changes.{renewal_flagged, report_renewal}
use session_pro_backend.Db.Account.{update_user_from_payment_list}

-- A branch either reports nothing and lets the transaction stand, or reports something and cancels
-- the transaction or has changed nothing.
abbrev pub IsSafe : Outcome → Db → Db → Type 0
IsSafe o db db' =
    ((is_empty o.complaints ≡ true) × (o.cancel ≡ false))
    ⊎ ((is_empty o.complaints ≡ false) × ((o.cancel ≡ true) ⊎ (db' ≡ db)))

module _ (db db' : Db) (o : Outcome) where
  pub complain-IsSafe : (cs : List Complaint) → complain cs db ≡ ok (o, db') → IsSafe o db db'
  complain-IsSafe [] h = inl (ground arith, ground arith)
  complain-IsSafe (c ∷ cs) h = inr (ground arith, inr (ground arith))

  pub cancel_if_reported-IsSafe :
      (m : Tx (List Complaint)) → cancel_if_reported m db ≡ ok (o, db') → IsSafe o db db'
  cancel_if_reported-IsSafe m h = elim (Result-cases (m db)) [
    | inl (e, failed) ↦ ground arith
    | inr (([], db1), ran) ↦ inl (ground arith, ground arith)
    | inr ((c ∷ cs, db1), ran) ↦ inr (ground arith, inl (ground arith))
  ]

-- Where no payment is selected the update of the rows is none.
update_selected-none :
    (selects : Detail → Bool) (f : Payment → Payment) (ps : List Payment)
    → ((p : Payment) → (f p).detail ≡ p.detail)
    → first_selected selects (update_selected selects f ps) ≡ none
    → update_selected selects f ps ≡ ps
unfolding update_selected
update_selected-none selects f [] keep h = refl
update_selected-none selects f (p ∷ ps) keep h =
    ground (arith, keep p, update_selected-none selects f ps keep)

module _ (env : Env) where
  write_renewal-unchanged :
      (t : PaymentProviderTransaction) (g : Option Duration) (b : Option Bool) (db db' : Db)
      (r : RenewalOutcome)
      → write_renewal env t g b db ≡ ok (r, db')
      → (r ≡ succeeded) ⊎ (db' ≡ db)
  unfolding write_renewal
  write_renewal-unchanged t g b db db' r h =
      let rows = update_selected (renewal_selects t) (set_renewal g b) db.payments in
      elim (Option-cases (first_selected (renewal_selects t) rows)) [
        | inl absent ↦
            let same : rows ≡ db.payments =
              update_selected-none (renewal_selects t) (set_renewal g b) db.payments
                (λ (p : Payment). unfold set_renewal in refl) absent in
            inr (ground (arith, same))
        | inr (p, matched) ↦ elim (Option-cases (owner_of db.users p)) [
          | inl unowned ↦ inl (ground arith)
          | inr (key, owner) ↦
              let written : Db = record db { payments = rows } in
              elim (Result-cases (update_user_from_payment_list env key written)) [
                | inl (e, failed) ↦ ground arith
                | inr ((u, db1), refreshed) ↦ inl (ground arith)
              ]
        ]
      ]

  update_renewal-unchanged :
      (t : PaymentProviderTransaction) (g : Option Duration) (b : Bool) (db db' : Db)
      (r : RenewalOutcome)
      → update_payment_renewal_info env t g (some b) db ≡ ok (r, db')
      → (r ≡ succeeded) ⊎ (db' ≡ db)
  unfolding update_payment_renewal_info
  update_renewal-unchanged t g b db db' r h =
      elim (Bool-cases (is_empty (verify_payment_provider_tx t))) [
        | inr missing_fields' ↦ inr (ground arith)
        | inl complete ↦ write_renewal-unchanged t g (some b) db db' r (ground arith)
      ]

  pub report_renewal-IsSafe :
      (t : PaymentProviderTransaction) (g : Option Duration) (b : Bool) (db db' : Db) (o : Outcome)
      → report_renewal env t g b db ≡ ok (o, db')
      → IsSafe o db db'
  report_renewal-IsSafe t g b db db' o h =
      elim (Result-cases (update_payment_renewal_info env t g (some b) db)) [
        | inl (e, failed) ↦ ground arith
        | inr ((r, db1), updated) ↦ elim (update_renewal-unchanged t g b db db1 r updated) [
          | inl success ↦ inl (ground arith, ground arith)
          | inr same ↦ elim (complain-IsSafe db1 db' o (renewal_complaints r) (ground arith)) [
            | inl quiet ↦ inl quiet
            | inr (reported, inl cancelled) ↦ inr (reported, inl cancelled)
            | inr (reported, inr same') ↦ inr (reported, inr (same' ∙ same))
          ]
        ]
      ]

  pub renewal_flagged-IsSafe :
      (tx : Transaction) (b : Bool) (db db' : Db) (o : Outcome)
      → renewal_flagged env tx b db ≡ ok (o, db')
      → IsSafe o db db'
  unfolding renewal_flagged
  renewal_flagged-IsSafe tx b db db' o h =
      let identified = payment_tx_from_transaction tx [] in
      elim (List-cases identified.0) [
        | inr (c, cs, reported) ↦ complain-IsSafe db db' o (c ∷ cs) (ground arith)
        | inl clean ↦ report_renewal-IsSafe identified.1 none b db db' o (ground arith)
      ]
