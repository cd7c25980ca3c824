-- ===== src/GooglePlay.antt =====
-- providers/google_play/notifications.py, types.py and api.py: a notification of Google Play as it
-- is parsed, and what the error sink of its handling is told.
-- A purchase token, an order id and a message id are only compared, so they are numbers.
pub mod Notification
pub mod Store
pub mod Resource
pub mod Reconcile
pub mod Pass
pub mod Replay
pub mod Acks
pub mod Handle
use session_pro_backend.Base.Errors.{Error}
use session_pro_backend.Db.Tables.{Text}
use session_pro_backend.Json.{JsonError}
use session_pro_backend.Json.Integers.{ℤ, pos, negsuc}
use session_pro_backend.Message.{Bytes}
use session_pro_backend.Prelude.{List, Option, [], if◌then◌else◌, none, some, ℕ, ◌==◌, ◌∷◌}
use session_pro_backend.Renewal.{MissingField}

-- `SubscriptionNotificationType`
pub data SubscriptionNotificationType : Type 0 where
  sub_nil sub_recovered sub_renewed sub_canceled sub_purchased : SubscriptionNotificationType
  sub_on_hold sub_in_grace_period sub_restarted : SubscriptionNotificationType
  sub_price_change_confirmed sub_deferred sub_paused : SubscriptionNotificationType
  sub_pause_schedule_changed sub_revoked sub_expired : SubscriptionNotificationType
  sub_price_change_updated sub_pending_purchase_canceled : SubscriptionNotificationType
  sub_price_step_up_consent_updated sub_unknown : SubscriptionNotificationType

-- `_value2member_map_` of an `IntEnum`, given by its members' values.
abbrev pub member_of_value : {E : Type 0} → List (ℕ × E) → ℕ → Option E
member_of_value [] n = none
member_of_value ((value, e) ∷ rest) n = if value == n then some e else member_of_value rest n

abbrev pub subscription_notification_types : List (ℕ × SubscriptionNotificationType)
subscription_notification_types =
    (0, sub_nil)
    ∷ (1, sub_recovered)
    ∷ (2, sub_renewed)
    ∷ (3, sub_canceled)
    ∷ (4, sub_purchased)
    ∷ (5, sub_on_hold)
    ∷ (6, sub_in_grace_period)
    ∷ (7, sub_restarted)
    ∷ (8, sub_price_change_confirmed)
    ∷ (9, sub_deferred)
    ∷ (10, sub_paused)
    ∷ (11, sub_pause_schedule_changed)
    ∷ (12, sub_revoked)
    ∷ (13, sub_expired)
    ∷ (19, sub_price_change_updated)
    ∷ (20, sub_pending_purchase_canceled)
    ∷ (22, sub_price_step_up_consent_updated)
    ∷ []

abbrev pub or_unknown : Option SubscriptionNotificationType → SubscriptionNotificationType
or_unknown none = sub_unknown
or_unknown (some t) = t

-- An integer that no member has is `UNKNOWN`, whose own value is -1.
unfoldable pub subscription_notification_type : ℤ → SubscriptionNotificationType
subscription_notification_type (ℤ.negsuc n) = sub_unknown
subscription_notification_type (pos n) =
    or_unknown (member_of_value subscription_notification_types n)

-- `ProductType`
pub data ProductType : Type 0 where
  nil_product subscription_product one_time_product : ProductType

unfoldable pub product_type_of_value : ℤ → Option ProductType
product_type_of_value (ℤ.negsuc n) = none
product_type_of_value (pos n) =
    member_of_value ((0, nil_product) ∷ (1, subscription_product) ∷ (2, one_time_product) ∷ []) n

-- `RefundType`
pub data RefundType : Type 0 where
  nil_refund full_refund quantity_based_partial_refund : RefundType

unfoldable pub refund_type_of_value : ℤ → Option RefundType
refund_type_of_value (ℤ.negsuc n) = none
refund_type_of_value (pos n) =
    member_of_value ((0, nil_refund) ∷ (1, full_refund) ∷ (2, quantity_based_partial_refund) ∷ []) n

pub record VoidedPurchaseTxFields : Type 0 where
  pub voided_purchase_token : Text
  pub order_id : Text
  pub product_type : ProductType
  pub refund_type : RefundType
  pub event_ts_ms : ℤ

pub data ParsedNotificationPayloadType : Type 0 where
  nil_payload subscription_payload voided_payload : ParsedNotificationPayloadType
  test_payload one_time_product_payload : ParsedNotificationPayloadType

pub record ParsedNotification : Type 0 where
  pub payload_type : ParsedNotificationPayloadType
  pub payload_version : Bytes
  pub sub_type : SubscriptionNotificationType
  pub voided : VoidedPurchaseTxFields
  pub body_version : Bytes
  pub event_time_ms : ℤ
  pub package_name : Bytes
  pub purchase_token : Text

abbrev pub no_voided : VoidedPurchaseTxFields
no_voided = record {
  voided_purchase_token = 0;
  order_id = 0;
  product_type = nil_product;
  refund_type = nil_refund;
  event_ts_ms = pos 0;
}

-- `ParsedNotification()`
abbrev pub no_notification : ParsedNotification
no_notification = record {
  payload_type = nil_payload;
  payload_version = [];
  sub_type = sub_nil;
  voided = no_voided;
  body_version = [];
  event_time_ms = pos 0;
  package_name = [];
  purchase_token = 0;
}

-- A message in an error sink.
pub data SinkMessage : Type 0 where
  json : JsonError → SinkMessage
  other_package no_block several_blocks : SinkMessage
  partial_refund_unsupported refund_not_handled one_time_unsupported : SinkMessage
  product_not_handled voided_failed one_time_product_unsupported : SinkMessage
  nothing_to_revoke : SinkMessage
  handling_raised : Error → SinkMessage
  no_owned_item order_id_missing invalid_base_plan unreadable_resource : SinkMessage
  unattributed not_32_bytes not_hex : SinkMessage
  missing_field : MissingField → SinkMessage
  -- a message of the client library's call
  api_message : ℕ → SinkMessage
  fetch_failed : SinkMessage
  reconcile_raised : Error → SinkMessage
