-- ===== src/AppStore/Payload.antt =====
-- providers/app_store.py: what a notification of the App Store carries, and what its fields give.
-- The fields are those of Apple's library, as far as the handler reads them. A field that is absent
-- is `none`; dates are milliseconds since the epoch.
use session_pro_backend.Db.Tables.{nil_plan, one_month, three_month, twelve_month, ProPlan, Text}
use session_pro_backend.Renewal.{
  nil_provider, ios_app_store, MissingField, PaymentProviderTransaction,
}
use session_pro_backend.Prelude.{
  List, [], ◌∷◌, ◌++◌, Bool, Option, false, if◌then◌else◌, is_empty, none, some, true, ℕ, ◌==◌, inl,
  inr, refl, ◌≡◌, ◌⊎◌,
}

pub data ProductId : Type 0 where
  pro_sub_1_month pro_sub_3_months pro_sub_12_months : ProductId
  other_product : Text → ProductId

-- `AppleType` and `AppleTransactionReason`
pub data ProductType : Type 0 where
  auto_renewable_subscription non_renewing_subscription other_type : ProductType

pub data TransactionReason : Type 0 where
  purchase renewal : TransactionReason

-- `AppleJWSTransactionDecodedPayload`; the account token in lower case.
pub record Transaction : Type 0 where
  pub expires_date : Option ℕ
  pub original_transaction_id : Option Text
  pub purchase_date : Option ℕ
  pub transaction_id : Option Text
  pub transaction_reason : Option TransactionReason
  pub product_type : Option ProductType
  pub product_id : Option ProductId
  pub web_order_line_item_id : Option Text
  pub app_account_token : Option Text
  pub revocation_date : Option ℕ

-- The renewal payload. The end of the grace is given by how many milliseconds it lies behind the
-- transaction's `expires_date`; a grace that ends before the term is not modelled.
pub record RenewalInfo : Type 0 where
  pub auto_renew_status : Option Bool
  pub grace_period_expires_after : Option ℕ

pub data NotificationType : Type 0 where
  subscribed did_renew one_time_charge did_change_renewal_pref offer_redeemed : NotificationType
  refund revoke refund_reversed did_change_renewal_status did_fail_to_renew : NotificationType
  test_notification expired_notification refund_declined grace_period_expired : NotificationType
  consumption_request price_increase external_purchase_token renewal_extended : NotificationType
  renewal_extension other_notification : NotificationType

pub data Subtype : Type 0 where
  downgrade upgrade auto_renew_disabled auto_renew_enabled in_grace_period : Subtype
  other_subtype : Subtype

pub data TxField : Type 0 where
  expires_date_field original_transaction_id_field purchase_date_field : TxField
  transaction_id_field transaction_reason_field product_type_field product_id_field : TxField
  web_order_line_item_id_field revocation_date_field : TxField

-- The messages that the handler puts into the sink.
pub data Complaint : Type 0 where
  missing_tx_info missing_renewal_info missing_grace_end wrong_type wrong_reason : Complaint
  unknown_product no_transaction_id no_original_transaction_id unknown_subtype : Complaint
  no_payment_updated no_payment_revoked no_active_payment : Complaint
  unsupported_store unsupported_extension unhandled_notification : Complaint
  missing_body_data missing_signed_tx_info missing_signed_renewal_info : Complaint
  unverified_tx_info unverified_renewal_info : Complaint
  missing_field : TxField → Complaint
  missing_identifier : MissingField → Complaint

-- `pro_plan_from_product_id`
unfoldable pub pro_plan_from_product_id : ProductId → List Complaint × ProPlan
pro_plan_from_product_id pro_sub_1_month = ([], one_month)
pro_plan_from_product_id pro_sub_3_months = ([], three_month)
pro_plan_from_product_id pro_sub_12_months = ([], twelve_month)
pro_plan_from_product_id (other_product _) = (unknown_product ∷ [], nil_plan)

-- The text, with `None` as the empty text.
abbrev pub or_empty : Option Text → Text
or_empty none = 0
or_empty (some t) = t

abbrev pub complain_if : Bool → Complaint → List Complaint
complain_if true c = c ∷ []
complain_if false c = []

abbrev pub no_identifiers : PaymentProviderTransaction
no_identifiers = record {
  provider = nil_provider;
  apple_original_tx_id = 0;
  apple_tx_id = 0;
  apple_web_line_order_tx_id = 0;
  google_payment_token = 0;
  google_order_id = 0;
  stf_order_id = 0;
}

-- `payment_tx_from_apple_jws_transaction`: the messages it adds to those in the sink, and the
-- identifiers, which are set only where the sink is then empty.
unfoldable pub identifier_complaints : Transaction → List Complaint
identifier_complaints tx =
    complain_if (or_empty tx.transaction_id == 0) no_transaction_id
    ++ complain_if (or_empty tx.original_transaction_id == 0) no_original_transaction_id

unfoldable pub payment_tx_from_transaction :
    Transaction → List Complaint → List Complaint × PaymentProviderTransaction
unfolding identifier_complaints
payment_tx_from_transaction tx sink =
    let all = sink ++ identifier_complaints tx in
    (
      all,
      if is_empty all
          then record no_identifiers {
            provider = ios_app_store;
            apple_original_tx_id = or_empty tx.original_transaction_id;
            apple_tx_id = or_empty tx.transaction_id;
            apple_web_line_order_tx_id = or_empty tx.web_order_line_item_id;
          }
          else no_identifiers,
    )

-- A transaction with every field that a purchase wants.
pub record Purchase : Type 0 where
  pub expires_date : ℕ
  pub original_transaction_id : Text
  pub purchase_date : ℕ
  pub transaction_reason : TransactionReason
  pub product_type : ProductType
  pub product_id : ProductId

-- `require_field` under `and`: the first field that is missing stops the tests.
pub data Checked (A : Type 0) : Type 0 where
  missing : TxField → Checked A
  present : A → Checked A

pub Checked-cases :
    {A : Type 0} (c : Checked A)
    → ((field : TxField) × (c ≡ missing field)) ⊎ ((a : A) × (c ≡ present a))
Checked-cases (missing field) = inl (field, refl)
Checked-cases (present a) = inr (a, refl)

infixl 5 ◌>>=◌
abbrev ◌>>=◌ : {A B : Type 0} → Checked A → (A → Checked B) → Checked B
missing field >>= f = missing field
present a >>= f = f a

abbrev require_field : {A : Type 0} → Option A → TxField → Checked A
require_field none field = missing field
require_field (some a) field = present a

unfoldable pub purchase_of : Transaction → Checked Purchase
purchase_of tx = do
  expires_date ← require_field tx.expires_date expires_date_field
  original ← require_field tx.original_transaction_id original_transaction_id_field
  purchase_date ← require_field tx.purchase_date purchase_date_field
  id ← require_field tx.transaction_id transaction_id_field
  reason ← require_field tx.transaction_reason transaction_reason_field
  product_type ← require_field tx.product_type product_type_field
  product ← require_field tx.product_id product_id_field
  line ← require_field tx.web_order_line_item_id web_order_line_item_id_field
  present (record {
    expires_date = expires_date;
    original_transaction_id = original;
    purchase_date = purchase_date;
    transaction_reason = reason;
    product_type = product_type;
    product_id = product;
  })

-- `require_field` by itself: every field that is missing is reported.
abbrev pub report_missing : {A : Type 0} → Option A → TxField → List Complaint
report_missing none field = missing_field field ∷ []
report_missing (some _) field = []

unfoldable pub report_purchase_fields : Transaction → List Complaint
report_purchase_fields tx =
    report_missing tx.expires_date expires_date_field
    ++ (report_missing tx.original_transaction_id original_transaction_id_field
        ++ (report_missing tx.purchase_date purchase_date_field
            ++ (report_missing tx.transaction_id transaction_id_field
                ++ (report_missing tx.transaction_reason transaction_reason_field
                    ++ (report_missing tx.product_type product_type_field
                        ++ (report_missing tx.product_id product_id_field
                            ++ report_missing tx.web_order_line_item_id
                                web_order_line_item_id_field))))))
