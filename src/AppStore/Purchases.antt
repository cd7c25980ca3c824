-- ===== src/AppStore/Purchases.antt =====
-- providers/app_store.py: the branches of `handle_notification_tx` that can register a payment.
use session_pro_backend.Register.{account_token, PaymentColumns, add_unredeemed_payment}
use session_pro_backend.AppStore.Payload.{
  one_time_charge, did_change_renewal_pref, auto_renewable_subscription, non_renewing_subscription,
  other_type, renewal, downgrade, upgrade, auto_renew_enabled, auto_renew_disabled, in_grace_period,
  other_subtype, missing, present, purchase, Purchase, Complaint, NotificationType, ProductType,
  Subtype, Transaction, TransactionReason, complain_if, missing_field, missing_identifier,
  missing_tx_info, no_active_payment, no_payment_revoked, no_payment_updated, or_empty,
  payment_tx_from_transaction, pro_plan_from_product_id, purchase_of, report_purchase_fields,
  unknown_subtype, wrong_reason, wrong_type, offer_redeemed,
}
use session_pro_backend.Db.Monad.{pure, raise, Tx, Env, ◌>>=◌}
use session_pro_backend.Base.Errors.{assertion_error}
use session_pro_backend.Renewal.{
  succeeded, no_matching_payment, missing_fields, MissingField, PaymentProviderTransaction,
  RenewalOutcome, update_payment_renewal_info,
}
use session_pro_backend.Prelude.{
  [], ◌∷◌, ◌++◌, Bool, List, Option, false, is_empty, none, not, some, true, ◌==◌, ℕ,
}
use session_pro_backend.Base.Units.{Duration, datetime_from_unix_ms}
use session_pro_backend.Db.Tables.{ProPlan}
use session_pro_backend.Revoke.{add_apple_revocation}

-- What a branch leaves: the messages in the sink, and whether it asked to cancel the transaction.
pub record Outcome : Type 0 where
  pub complaints : List Complaint
  pub cancel : Bool

abbrev pub outcome : List Complaint → Bool → Outcome
outcome complaints cancel = record { complaints = complaints; cancel = cancel }

abbrev pub done : Tx Outcome
done = pure (outcome [] false)

abbrev pub complain : List Complaint → Tx Outcome
complain complaints = pure (outcome complaints false)

-- A branch that sets `cancel` to whether the sink has a message.
abbrev pub cancel_if_reported : Tx (List Complaint) → Tx Outcome
cancel_if_reported m = m >>= λ complaints. pure (outcome complaints (not (is_empty complaints)))

-- `if not err.has(): ...`
abbrev pub if_clean : List Complaint → Tx (List Complaint) → Tx (List Complaint)
if_clean [] m = m
if_clean (c ∷ cs) m = pure (c ∷ cs)

abbrev pub identifiers_missing : List MissingField → List Complaint
identifiers_missing [] = []
identifiers_missing (m ∷ ms) = missing_identifier m ∷ identifiers_missing ms

-- The messages of `update_payment_renewal_info`.
abbrev pub renewal_complaints : RenewalOutcome → List Complaint
renewal_complaints succeeded = []
renewal_complaints no_matching_payment = no_payment_updated ∷ []
renewal_complaints (missing_fields ms) = identifiers_missing ms

abbrev pub is_auto_renewable : ProductType → Bool
is_auto_renewable auto_renewable_subscription = true
is_auto_renewable non_renewing_subscription = false
is_auto_renewable other_type = false

abbrev pub is_non_renewing : ProductType → Bool
is_non_renewing auto_renewable_subscription = false
is_non_renewing non_renewing_subscription = true
is_non_renewing other_type = false

abbrev pub is_purchase : TransactionReason → Bool
is_purchase purchase = true
is_purchase renewal = false

-- The checks of the product type, and for a one-time charge of the reason.
unfoldable pub type_complaints : NotificationType → Purchase → List Complaint
type_complaints one_time_charge p =
    complain_if (not (is_non_renewing p.product_type)) wrong_type
    ++ complain_if (not (is_purchase p.transaction_reason)) wrong_reason
type_complaints _ p = complain_if (not (is_auto_renewable p.product_type)) wrong_type

-- The columns that a purchase registers; the defaults of `add_unredeemed_payment` stand.
unfoldable pub columns_of : Purchase → ProPlan → PaymentColumns
unfolding datetime_from_unix_ms
columns_of p plan = record {
  plan = plan;
  expiry_at = some (datetime_from_unix_ms p.expires_date);
  platform_refund_expiry_at = datetime_from_unix_ms p.expires_date;
  purchased_at = datetime_from_unix_ms p.purchase_date;
  auto_renewing = true;
  credit_remaining = none;
}

-- `get_platform_refund_expiry_at` asserts that the date is not zero.
abbrev pub assert_expires : Purchase → Tx Outcome → Tx Outcome
assert_expires p m = elim (p.expires_date == 0) [ true ↦ raise assertion_error | false ↦ m ]

-- `isinstance(date, str)` of a date, which is a number of milliseconds.
abbrev is_text : ℕ → Bool
is_text _ = false

module _ (env : Env) where
  -- The calls of `add_unredeemed_payment` and `update_payment_renewal_info`, by their messages.
  abbrev pub register :
      Transaction → PaymentProviderTransaction → Purchase → ProPlan → Tx (List Complaint)
  register tx t p plan =
      add_unredeemed_payment env t (columns_of p plan)
        (account_token (or_empty tx.app_account_token)) false
      >>= λ ms. pure (identifiers_missing ms)

  abbrev pub update_renewal :
      PaymentProviderTransaction → Option Duration → Bool → Tx (List Complaint)
  update_renewal t grace_period auto_renewing =
      update_payment_renewal_info env t grace_period (some auto_renewing) >>= λ r.
      pure (renewal_complaints r)

  -- A registration and the write of the renewal flag, unless the sink has a message.
  unfoldable pub register_renewing :
      Transaction → PaymentProviderTransaction → Purchase → ProPlan → Tx (List Complaint)
  unfolding columns_of add_unredeemed_payment update_payment_renewal_info
  register_renewing tx t p plan = do
    registered ← register tx t p plan
    if_clean registered (update_renewal t none true)

  -- SUBSCRIBED, DID_RENEW and ONE_TIME_CHARGE
  unfoldable pub purchased_complete : NotificationType → Transaction → Purchase → Tx Outcome
  unfolding type_complaints payment_tx_from_transaction pro_plan_from_product_id register_renewing
  purchased_complete kind tx p =
      let identified = payment_tx_from_transaction tx (type_complaints kind p) in
      let plan = pro_plan_from_product_id p.product_id in
      assert_expires p (
        cancel_if_reported
          (if_clean (identified.0 ++ plan.0) (register_renewing tx identified.1 p plan.1)))

  unfoldable pub purchased : NotificationType → Option Transaction → Tx Outcome
  unfolding purchase_of purchased_complete
  purchased kind none = complain (missing_tx_info ∷ [])
  purchased kind (some tx) = elim (purchase_of tx) [
    | missing field ↦ complain (missing_field field ∷ [])
    | present p ↦ purchased_complete kind tx p
  ]

  -- The UPGRADE of a plan: the payments of the original transaction end, and the new one is
  -- registered. `add_apple_revocation` and its caller each report where no payment matched.
  unfoldable pub upgrade_plan :
      Transaction → PaymentProviderTransaction → Purchase → ProPlan → Tx (List Complaint)
  unfolding columns_of add_apple_revocation add_unredeemed_payment datetime_from_unix_ms
  upgrade_plan tx t p plan = do
    revoked ←
        add_apple_revocation env p.original_transaction_id (datetime_from_unix_ms p.purchase_date)
    elim revoked [
      | true ↦ register tx t p plan
      | false ↦ pure (no_payment_revoked ∷ no_active_payment ∷ [])
    ]

  -- DID_CHANGE_RENEWAL_PREF, by its subtype
  unfoldable pub change_preference :
      Option Subtype → Transaction → PaymentProviderTransaction → Purchase → ProPlan → Tx Outcome
  unfolding upgrade_plan update_payment_renewal_info
  change_preference none tx t p plan = done
  change_preference (some downgrade) tx t p plan = cancel_if_reported (update_renewal t none true)
  change_preference (some upgrade) tx t p plan =
      assert_expires p (cancel_if_reported (upgrade_plan tx t p plan))
  change_preference (some auto_renew_disabled) tx t p plan = complain (unknown_subtype ∷ [])
  change_preference (some auto_renew_enabled) tx t p plan = complain (unknown_subtype ∷ [])
  change_preference (some in_grace_period) tx t p plan = complain (unknown_subtype ∷ [])
  change_preference (some other_subtype) tx t p plan = complain (unknown_subtype ∷ [])

  unfoldable pub preference_complete : Option Subtype → Transaction → Purchase → Tx Outcome
  unfolding type_complaints payment_tx_from_transaction pro_plan_from_product_id change_preference
  preference_complete subtype tx p =
      let plan = pro_plan_from_product_id p.product_id in
      let identified =
        payment_tx_from_transaction tx (type_complaints did_change_renewal_pref p ++ plan.0) in
      elim identified.0 [
        | c ∷ cs ↦ complain (c ∷ cs)
        | [] ↦ change_preference subtype tx identified.1 p plan.1
      ]

  unfoldable pub preference_changed : Option Subtype → Option Transaction → Tx Outcome
  unfolding purchase_of preference_complete
  preference_changed subtype none = complain (missing_tx_info ∷ [])
  preference_changed subtype (some tx) = elim (purchase_of tx) [
    | missing field ↦ complain (missing_field field ∷ [])
    | present p ↦ preference_complete subtype tx p
  ]

  -- OFFER_REDEEMED, once its assertions hold, by its subtype. Its types are checked as those of a
  -- renewal.
  unfoldable pub offer_by_subtype :
      Option Subtype → Transaction → PaymentProviderTransaction → Purchase → ProPlan → Tx Outcome
  unfolding upgrade_plan update_payment_renewal_info
  offer_by_subtype none tx t p plan =
      assert_expires p (register tx t p plan >>= λ complaints. pure (outcome complaints false))
  offer_by_subtype (some downgrade) tx t p plan = done
  offer_by_subtype (some upgrade) tx t p plan = assert_expires p (
      cancel_if_reported
        (upgrade_plan tx t p plan >>= λ upgraded. if_clean upgraded (update_renewal t none true)))
  offer_by_subtype (some _) tx t p plan = done

  -- The assertion on `expiresDate` asks for a text, which a number is not: what follows it is not
  -- reached.
  unfoldable pub offer_complete : Option Subtype → Transaction → Purchase → Tx Outcome
  unfolding type_complaints payment_tx_from_transaction pro_plan_from_product_id offer_by_subtype
  offer_complete subtype tx p =
      let plan = pro_plan_from_product_id p.product_id in
      let identified =
        payment_tx_from_transaction tx (type_complaints offer_redeemed p ++ plan.0) in
      elim (is_text p.expires_date) [
        | false ↦ raise assertion_error
        | true ↦ elim identified.0 [
          | c ∷ cs ↦ complain (c ∷ cs)
          | [] ↦ offer_by_subtype subtype tx identified.1 p plan.1
        ]
      ]

  -- OFFER_REDEEMED: every missing field is reported.
  unfoldable pub offer_redeemed_branch : Option Subtype → Option Transaction → Tx Outcome
  unfolding report_purchase_fields purchase_of offer_complete
  offer_redeemed_branch subtype none = complain (missing_tx_info ∷ [])
  offer_redeemed_branch subtype (some tx) = elim (report_purchase_fields tx) [
    | c ∷ cs ↦ complain (c ∷ cs)
    | [] ↦ elim (purchase_of tx) [
      | missing field ↦ raise assertion_error
      | present p ↦ offer_complete subtype tx p
    ]
  ]
