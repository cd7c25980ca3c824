-- ===== src/AppStore/Rollback/Changes.antt =====
-- providers/app_store.py: the branches for a payment on file report nothing, cancel, or change
-- nothing.
use session_pro_backend.AppStore.Payload.{
  expires_date_field, unknown_subtype, missing_tx_info, downgrade, upgrade, auto_renew_enabled,
  auto_renew_disabled, in_grace_period, other_subtype, RenewalInfo, Subtype, Transaction, or_empty,
  payment_tx_from_transaction, Complaint, missing_field, missing_grace_end, missing_renewal_info,
}
use session_pro_backend.AppStore.Purchases.{Outcome}
use session_pro_backend.AppStore.Changes.{
  refunded, refund_complete, refund_reversed_branch, renewal_status_changed, report_refund_fields,
  report_reversal_fields, restored_flag, acknowledged, expired_branch, failure_by_subtype,
  grace_granted, refused, renewal_failed,
}
use session_pro_backend.AppStore.Rollback.{
  IsSafe, complain-IsSafe, renewal_flagged-IsSafe, report_renewal-IsSafe,
}
use session_pro_backend.Base.Errors.{ok, Result-cases}
use session_pro_backend.Prelude.{
  inl, inr, List-cases, Option, Option-cases, [], arith, false, none, some, true, ℕ, ◌∷◌, ◌≡◌,
  length, ◌*◌, ◌++◌,
}
use session_pro_backend.Db.Monad.{Db, Env}
use session_pro_backend.Db.Tables.{Text}
use session_pro_backend.Revoke.{add_apple_revocation}
use session_pro_backend.Base.Units.{datetime_from_unix_ms, millisecond}
use session_pro_backend.Single.{reinstate_apple_payment}
use session_pro_backend.Renewal.{PaymentProviderTransaction}

module _ (env : Env) (db db' : Db) (o : Outcome) where
  refund_complete-IsSafe :
      (tx : Transaction) (original : Text) (date : ℕ)
      → refund_complete env tx original date db ≡ ok (o, db')
      → IsSafe o db db'
  unfolding refund_complete
  refund_complete-IsSafe tx original date h =
      let at = datetime_from_unix_ms date in
      elim (List-cases (payment_tx_from_transaction tx []).0) [
        | inr (c, cs, reported) ↦ complain-IsSafe db db' o (c ∷ cs) (ground arith)
        | inl clean ↦ elim (Result-cases (add_apple_revocation env original at db)) [
          | inl (e, failed) ↦ ground arith
          | inr ((true, db1), revoked) ↦ inl (ground arith, ground arith)
          | inr ((false, db1), revoked) ↦ inr (ground arith, inl (ground arith))
        ]
      ]

  pub refunded-IsSafe :
      (info : Option Transaction) → refunded env info db ≡ ok (o, db') → IsSafe o db db'
  unfolding refunded
  refunded-IsSafe none h = complain-IsSafe db db' o (missing_tx_info ∷ []) h
  refunded-IsSafe (some tx) h = elim (Option-cases tx.revocation_date) [
    | inl undated ↦ complain-IsSafe db db' o (report_refund_fields tx) (ground arith)
    | inr (date, dated) ↦ elim (Option-cases tx.original_transaction_id) [
      | inl unnamed ↦ complain-IsSafe db db' o (report_refund_fields tx) (ground arith)
      | inr (original, named) ↦ refund_complete-IsSafe tx original date (ground arith)
    ]
  ]

  pub refund_reversed-IsSafe :
      (signed_date : Option ℕ) (info : Option Transaction) (r : Option RenewalInfo)
      → refund_reversed_branch env signed_date info r db ≡ ok (o, db')
      → IsSafe o db db'
  unfolding refund_reversed_branch
  refund_reversed-IsSafe signed_date none r h = complain-IsSafe db db' o (missing_tx_info ∷ []) h
  refund_reversed-IsSafe none (some tx) r h = elim (List-cases (report_reversal_fields tx)) [
    | inr (c, cs, reported) ↦ complain-IsSafe db db' o (c ∷ cs) (ground arith)
    | inl complete ↦ ground arith
  ]
  refund_reversed-IsSafe (some date) (some tx) r h =
      let orig = or_empty tx.original_transaction_id in
      let id = or_empty tx.transaction_id in
      let at = datetime_from_unix_ms date in
      elim (List-cases (report_reversal_fields tx)) [
        | inr (c, cs, reported) ↦ complain-IsSafe db db' o (c ∷ cs) (ground arith)
        | inl complete ↦
            elim (Result-cases (reinstate_apple_payment env orig id (restored_flag r) at db)) [
              | inl (e, failed) ↦ ground arith
              | inr ((reinstated, db1), restored) ↦ inl (ground arith, ground arith)
            ]
      ]

  pub status_changed-IsSafe :
      (subtype : Option Subtype) (info : Option Transaction)
      → renewal_status_changed env subtype info db ≡ ok (o, db')
      → IsSafe o db db'
  unfolding renewal_status_changed
  status_changed-IsSafe (some auto_renew_enabled) (some tx) h =
      renewal_flagged-IsSafe env tx true db db' o h
  status_changed-IsSafe (some auto_renew_disabled) (some tx) h =
      renewal_flagged-IsSafe env tx false db db' o h
  status_changed-IsSafe (some auto_renew_enabled) none h =
      complain-IsSafe db db' o (missing_tx_info ∷ []) h
  status_changed-IsSafe (some auto_renew_disabled) none h =
      complain-IsSafe db db' o (missing_tx_info ∷ []) h
  status_changed-IsSafe none (some tx) h = complain-IsSafe db db' o (unknown_subtype ∷ []) h
  status_changed-IsSafe (some downgrade) (some tx) h =
      complain-IsSafe db db' o (unknown_subtype ∷ []) h
  status_changed-IsSafe (some upgrade) (some tx) h =
      complain-IsSafe db db' o (unknown_subtype ∷ []) h
  status_changed-IsSafe (some in_grace_period) (some tx) h =
      complain-IsSafe db db' o (unknown_subtype ∷ []) h
  status_changed-IsSafe (some other_subtype) (some tx) h =
      complain-IsSafe db db' o (unknown_subtype ∷ []) h
  status_changed-IsSafe none none h =
      complain-IsSafe db db' o (missing_tx_info ∷ unknown_subtype ∷ []) h
  status_changed-IsSafe (some downgrade) none h =
      complain-IsSafe db db' o (missing_tx_info ∷ unknown_subtype ∷ []) h
  status_changed-IsSafe (some upgrade) none h =
      complain-IsSafe db db' o (missing_tx_info ∷ unknown_subtype ∷ []) h
  status_changed-IsSafe (some in_grace_period) none h =
      complain-IsSafe db db' o (missing_tx_info ∷ unknown_subtype ∷ []) h
  status_changed-IsSafe (some other_subtype) none h =
      complain-IsSafe db db' o (missing_tx_info ∷ unknown_subtype ∷ []) h

  failure-IsSafe :
      (subtype : Option Subtype) (tx : Transaction) (t : PaymentProviderTransaction)
      (r : RenewalInfo)
      → failure_by_subtype env subtype tx t r db ≡ ok (o, db')
      → IsSafe o db db'
  unfolding failure_by_subtype grace_granted
  failure-IsSafe none tx t r h = inl (ground arith, ground arith)
  failure-IsSafe (some in_grace_period) tx t r h =
      elim (Option-cases r.grace_period_expires_after) [
        | inl unset ↦ elim (Option-cases tx.expires_date) [
          | inl undated ↦
              complain-IsSafe db db' o (missing_field expires_date_field ∷ missing_grace_end ∷ [])
                (ground arith)
          | inr (date, dated) ↦ complain-IsSafe db db' o (missing_grace_end ∷ []) (ground arith)
        ]
        | inr (length, set) ↦ elim (Option-cases tx.expires_date) [
          | inl undated ↦
              complain-IsSafe db db' o (missing_field expires_date_field ∷ []) (ground arith)
          | inr (date, dated) ↦
              report_renewal-IsSafe env t (some (length * millisecond)) true db db' o (ground arith)
        ]
      ]
  failure-IsSafe (some downgrade) tx t r h = complain-IsSafe db db' o (unknown_subtype ∷ []) h
  failure-IsSafe (some upgrade) tx t r h = complain-IsSafe db db' o (unknown_subtype ∷ []) h
  failure-IsSafe (some auto_renew_disabled) tx t r h =
      complain-IsSafe db db' o (unknown_subtype ∷ []) h
  failure-IsSafe (some auto_renew_enabled) tx t r h =
      complain-IsSafe db db' o (unknown_subtype ∷ []) h
  failure-IsSafe (some other_subtype) tx t r h = complain-IsSafe db db' o (unknown_subtype ∷ []) h

  pub renewal_failed-IsSafe :
      (subtype : Option Subtype) (r : Option RenewalInfo) (info : Option Transaction)
      → renewal_failed env subtype r info db ≡ ok (o, db')
      → IsSafe o db db'
  unfolding renewal_failed
  renewal_failed-IsSafe subtype none none h =
      complain-IsSafe db db' o (missing_renewal_info ∷ missing_tx_info ∷ []) h
  renewal_failed-IsSafe subtype none (some tx) h =
      complain-IsSafe db db' o (missing_renewal_info ∷ []) h
  renewal_failed-IsSafe subtype (some r) none h = complain-IsSafe db db' o (missing_tx_info ∷ []) h
  renewal_failed-IsSafe subtype (some r) (some tx) h =
      let identified = payment_tx_from_transaction tx [] in
      elim (List-cases identified.0) [
        | inr (c, cs, reported) ↦ complain-IsSafe db db' o (c ∷ cs) (ground arith)
        | inl clean ↦ failure-IsSafe subtype tx identified.1 r (ground arith)
      ]

  pub expired-IsSafe :
      (info : Option Transaction) → expired_branch env info db ≡ ok (o, db') → IsSafe o db db'
  unfolding expired_branch
  expired-IsSafe none h = complain-IsSafe db db' o (missing_tx_info ∷ []) h
  expired-IsSafe (some tx) h = renewal_flagged-IsSafe env tx false db db' o h

module _ (db db' : Db) (o : Outcome) where
  pub acknowledged-IsSafe :
      (info : Option Transaction) → acknowledged info db ≡ ok (o, db') → IsSafe o db db'
  unfolding acknowledged
  acknowledged-IsSafe none h = complain-IsSafe db db' o (missing_tx_info ∷ []) h
  acknowledged-IsSafe (some tx) h = complain-IsSafe db db' o (payment_tx_from_transaction tx []).0 h

  pub refused-IsSafe :
      (c : Complaint) (info : Option Transaction)
      → refused c info db ≡ ok (o, db')
      → IsSafe o db db'
  unfolding refused
  refused-IsSafe c none h = complain-IsSafe db db' o (c ∷ []) h
  refused-IsSafe c (some tx) h =
      complain-IsSafe db db' o ((payment_tx_from_transaction tx []).0 ++ c ∷ []) h
