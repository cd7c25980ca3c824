-- ===== src/AppStore/Changes.antt =====
-- providers/app_store.py: the branches of `handle_notification_tx` for a payment that is on file.
use session_pro_backend.AppStore.Payload.{
  product_type_field, transaction_reason_field, transaction_id_field, original_transaction_id_field,
  expires_date_field, revocation_date_field, auto_renew_enabled, auto_renew_disabled,
  in_grace_period, Complaint, RenewalInfo, Subtype, Transaction, missing_field, missing_grace_end,
  missing_renewal_info, missing_tx_info, no_active_payment, no_payment_revoked, or_empty,
  payment_tx_from_transaction, report_missing, unknown_subtype,
}
use session_pro_backend.AppStore.Purchases.{Outcome, complain, done, outcome, update_renewal}
use session_pro_backend.Db.Monad.{pure, raise, Tx, Env, ◌>>=◌}
use session_pro_backend.Base.Errors.{assertion_error}
use session_pro_backend.Base.Units.{millisecond, Duration, datetime_from_unix_ms}
use session_pro_backend.Prelude.{
  [], ◌∷◌, ◌++◌, Bool, List, Option, false, length, none, some, true, ℕ, ◌*◌,
}
use session_pro_backend.Renewal.{PaymentProviderTransaction, update_payment_renewal_info}
use session_pro_backend.Db.Tables.{Text}
use session_pro_backend.Revoke.{add_apple_revocation}
use session_pro_backend.Single.{reinstate_apple_payment}

unfoldable pub report_refund_fields : Transaction → List Complaint
report_refund_fields tx =
    report_missing tx.revocation_date revocation_date_field
    ++ report_missing tx.original_transaction_id original_transaction_id_field

unfoldable pub report_reversal_fields : Transaction → List Complaint
report_reversal_fields tx =
    report_missing tx.expires_date expires_date_field
    ++ (report_missing tx.original_transaction_id original_transaction_id_field
        ++ (report_missing tx.transaction_id transaction_id_field
            ++ (report_missing tx.transaction_reason transaction_reason_field
                ++ report_missing tx.product_type product_type_field)))

-- The renewal flag that a reversal restores: the store's, or on.
abbrev pub restored_flag : Option RenewalInfo → Bool
restored_flag none = true
restored_flag (some r) = elim r.auto_renew_status [ none ↦ true | some status ↦ status ]

module _ (env : Env) where
  -- REFUND and REVOKE
  unfoldable pub refund_complete : Transaction → Text → ℕ → Tx Outcome
  unfolding payment_tx_from_transaction add_apple_revocation datetime_from_unix_ms
  refund_complete tx original revocation_date = elim (payment_tx_from_transaction tx []).0 [
    | c ∷ cs ↦ complain (c ∷ cs)
    | [] ↦ do
      revoked ← add_apple_revocation env original (datetime_from_unix_ms revocation_date)
      elim revoked [
        | true ↦ done
        | false ↦ pure (outcome (no_payment_revoked ∷ no_active_payment ∷ []) true)
      ]
  ]

  unfoldable pub refunded : Option Transaction → Tx Outcome
  unfolding report_refund_fields refund_complete
  refunded none = complain (missing_tx_info ∷ [])
  refunded (some tx) = elim tx.revocation_date [
    | none ↦ complain (report_refund_fields tx)
    | some date ↦ elim tx.original_transaction_id [
      | none ↦ complain (report_refund_fields tx)
      | some original ↦ refund_complete tx original date
    ]
  ]

  -- REFUND_REVERSED; what `reinstate_apple_payment` reports is not looked at.
  unfoldable pub refund_reversed_branch :
      Option ℕ → Option Transaction → Option RenewalInfo → Tx Outcome
  unfolding report_reversal_fields reinstate_apple_payment datetime_from_unix_ms
  refund_reversed_branch signed_date none renewal_info = complain (missing_tx_info ∷ [])
  refund_reversed_branch signed_date (some tx) renewal_info = elim (report_reversal_fields tx) [
    | c ∷ cs ↦ complain (c ∷ cs)
    | [] ↦ elim signed_date [
      | none ↦ raise assertion_error
      | some date ↦ do
        reinstated ←
            reinstate_apple_payment env (or_empty tx.original_transaction_id)
              (or_empty tx.transaction_id) (restored_flag renewal_info) (datetime_from_unix_ms date)
        done
    ]
  ]

  abbrev pub report_renewal : PaymentProviderTransaction → Option Duration → Bool → Tx Outcome
  report_renewal t grace_period auto_renewing =
      update_renewal env t grace_period auto_renewing >>= complain

  -- The write of the renewal flag for the transaction, where its identifiers are there.
  unfoldable pub renewal_flagged : Transaction → Bool → Tx Outcome
  unfolding payment_tx_from_transaction update_payment_renewal_info
  renewal_flagged tx auto_renewing =
      let identified = payment_tx_from_transaction tx [] in
      elim identified.0 [
        | c ∷ cs ↦ complain (c ∷ cs)
        | [] ↦ report_renewal identified.1 none auto_renewing
      ]

  -- DID_CHANGE_RENEWAL_STATUS, by its subtype
  unfoldable pub renewal_status_changed : Option Subtype → Option Transaction → Tx Outcome
  unfolding renewal_flagged
  renewal_status_changed (some auto_renew_enabled) (some tx) = renewal_flagged tx true
  renewal_status_changed (some auto_renew_disabled) (some tx) = renewal_flagged tx false
  renewal_status_changed (some auto_renew_enabled) none = complain (missing_tx_info ∷ [])
  renewal_status_changed (some auto_renew_disabled) none = complain (missing_tx_info ∷ [])
  renewal_status_changed _ (some tx) = complain (unknown_subtype ∷ [])
  renewal_status_changed _ none = complain (missing_tx_info ∷ unknown_subtype ∷ [])

  -- DID_FAIL_TO_RENEW with the GRACE_PERIOD subtype: the grace is the distance of its end from the
  -- transaction's expiry.
  unfoldable pub grace_granted : Transaction → PaymentProviderTransaction → RenewalInfo → Tx Outcome
  unfolding update_payment_renewal_info
  grace_granted tx t renewal_info = elim tx.expires_date [
    | none ↦ elim renewal_info.grace_period_expires_after [
      | none ↦ complain (missing_field expires_date_field ∷ missing_grace_end ∷ [])
      | some _ ↦ complain (missing_field expires_date_field ∷ [])
    ]
    | some _ ↦ elim renewal_info.grace_period_expires_after [
      | none ↦ complain (missing_grace_end ∷ [])
      | some length ↦ report_renewal t (some (length * millisecond)) true
    ]
  ]

  -- DID_FAIL_TO_RENEW, by its subtype
  unfoldable pub failure_by_subtype :
      Option Subtype → Transaction → PaymentProviderTransaction → RenewalInfo → Tx Outcome
  unfolding grace_granted
  failure_by_subtype none tx t renewal_info = done
  failure_by_subtype (some in_grace_period) tx t renewal_info = grace_granted tx t renewal_info
  failure_by_subtype (some _) tx t renewal_info = complain (unknown_subtype ∷ [])

  unfoldable pub renewal_failed :
      Option Subtype → Option RenewalInfo → Option Transaction → Tx Outcome
  unfolding payment_tx_from_transaction failure_by_subtype
  renewal_failed subtype none none = complain (missing_renewal_info ∷ missing_tx_info ∷ [])
  renewal_failed subtype none (some tx) = complain (missing_renewal_info ∷ [])
  renewal_failed subtype (some r) none = complain (missing_tx_info ∷ [])
  renewal_failed subtype (some r) (some tx) =
      let identified = payment_tx_from_transaction tx [] in
      elim identified.0 [
        | c ∷ cs ↦ complain (c ∷ cs)
        | [] ↦ failure_by_subtype subtype tx identified.1 r
      ]

  -- EXPIRED, and the types of its group that only have their transaction checked.
  unfoldable pub expired_branch : Option Transaction → Tx Outcome
  unfolding renewal_flagged
  expired_branch none = complain (missing_tx_info ∷ [])
  expired_branch (some tx) = renewal_flagged tx false

unfoldable pub acknowledged : Option Transaction → Tx Outcome
unfolding payment_tx_from_transaction
acknowledged none = complain (missing_tx_info ∷ [])
acknowledged (some tx) = complain (payment_tx_from_transaction tx []).0

-- The types that are refused: what is wrong with the transaction is reported first.
unfoldable pub refused : Complaint → Option Transaction → Tx Outcome
unfolding payment_tx_from_transaction
refused c none = complain (c ∷ [])
refused c (some tx) = complain ((payment_tx_from_transaction tx []).0 ++ c ∷ [])
