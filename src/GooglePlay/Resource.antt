-- ===== src/GooglePlay/Resource.antt =====
-- providers/google_play/types.py and api.py: the subscription resource as it was fetched, and what
-- the reconcile reads from it. Of the resource's fields those are modelled that the code reads.
pub mod Owned
use session_pro_backend.Db.Tables.{nil_plan, one_month, three_month, twelve_month, ProPlan, Text}
use session_pro_backend.GooglePlay.{SinkMessage, invalid_base_plan, no_owned_item, order_id_missing}
use session_pro_backend.AppStore.Payload.{no_identifiers}
use session_pro_backend.Message.{Bytes, ascii}
use session_pro_backend.Prelude.{
  Bool, List, Option, [], bytes_eq, if◌then◌else◌, is_empty, is_none, ltb, none, some, ℕ, ◌++◌, ◌∷◌,
}
use session_pro_backend.Queue.{PurchaseToken}
use session_pro_backend.Renewal.{PaymentProviderTransaction, google_play_store}

pub data SubscriptionsV2State : Type 0 where
  state_unspecified state_pending state_active state_paused : SubscriptionsV2State
  state_in_grace_period state_on_hold state_canceled state_expired : SubscriptionsV2State
  state_pending_purchase_canceled : SubscriptionsV2State

pub data SubscriptionsV2AcknowledgementState : Type 0 where
  acknowledgement_unspecified acknowledgement_pending : SubscriptionsV2AcknowledgementState
  acknowledged : SubscriptionsV2AcknowledgementState

-- `expiry_time` is in milliseconds; `auto_renewing_plan` is the plan's `auto_renew_enabled`, where
-- the item has such a plan; the base plan is that of `offer_details`.
pub record SubscriptionV2DataLineItem : Type 0 where
  pub expiry_time : ℕ
  pub latest_successful_order_id : Option Text
  pub auto_renewing_plan : Option Bool
  pub base_plan_id : Bytes

pub record SubscriptionV2Data : Type 0 where
  pub line_items : List SubscriptionV2DataLineItem
  pub subscription_state : SubscriptionsV2State
  pub linked_purchase_token : Option PurchaseToken
  pub acknowledgement_state : SubscriptionsV2AcknowledgementState
  pub obfuscated_external_account_id : Option Bytes
  pub expired_obfuscated_external_account_id : Option Bytes
  pub expired_purchase_token : Option PurchaseToken

abbrev pub owned_items : List SubscriptionV2DataLineItem → List SubscriptionV2DataLineItem
owned_items [] = []
owned_items (item ∷ items) =
    let rest = owned_items items in
    if is_none item.latest_successful_order_id then rest else item ∷ rest

-- Python's `max`: of equal items the first.
unfoldable pub furthest :
    SubscriptionV2DataLineItem → List SubscriptionV2DataLineItem → SubscriptionV2DataLineItem
furthest best [] = best
furthest best (item ∷ items) =
    furthest (if ltb best.expiry_time item.expiry_time then item else best) items

unfoldable pub parse_line_item :
    SubscriptionV2Data → Option SubscriptionV2DataLineItem × List SinkMessage
unfolding furthest
parse_line_item details = elim (owned_items details.line_items) [
  | [] ↦ (none, no_owned_item ∷ [])
  | item ∷ items ↦ (some (furthest item items), [])
]

-- The order id, 0 where there is none. The sink that it is called with may have messages.
unfoldable pub parse_valid_order_id :
    SubscriptionV2Data → List SinkMessage → Text × List SinkMessage
unfolding parse_line_item
parse_valid_order_id details sink =
    let (line_item, messages) = parse_line_item details in
    let sink' = sink ++ messages in
    let missing : Text × List SinkMessage =
      (0, if is_empty sink' then order_id_missing ∷ [] else sink') in
    elim line_item [
      | none ↦ missing
      | some item ↦ elim item.latest_successful_order_id [
        | none ↦ missing
        | some order ↦ (order, sink')
      ]
    ]

unfoldable pub parse_subscription_purchase_tx :
    PurchaseToken
    → SubscriptionV2Data
    → List SinkMessage
    → PaymentProviderTransaction × List SinkMessage
unfolding parse_valid_order_id
parse_subscription_purchase_tx token details sink =
    let (order, sink') = parse_valid_order_id details sink in
    (
      record no_identifiers {
        provider = google_play_store;
        google_payment_token = token;
        google_order_id = order;
      },
      sink',
    )

unfoldable pub pro_plan_from_base_plan_id : Bytes → ProPlan × List SinkMessage
pro_plan_from_base_plan_id id =
    if bytes_eq id (ascii "session-pro-1-month")
    then (one_month, [])
    else if bytes_eq id (ascii "session-pro-3-months")
    then (three_month, [])
    else if bytes_eq id (ascii "session-pro-12-months")
    then (twelve_month, [])
    else (nil_plan, invalid_base_plan ∷ [])

-- The fields of `SubscriptionPlanEventTransaction` that the reconcile reads.
pub record SubscriptionPlanEventTransaction : Type 0 where
  pub pro_plan : ProPlan
  pub plan_expiry_time : ℕ
  pub resource : SubscriptionV2Data

abbrev pub first_expiry : List SubscriptionV2DataLineItem → ℕ
first_expiry [] = 0
first_expiry (item ∷ _) = item.expiry_time

-- The states, tokens and account ids are those of the resource.
unfoldable pub parse_subscription_plan_event_tx :
    SubscriptionV2Data → List SinkMessage → SubscriptionPlanEventTransaction × List SinkMessage
unfolding parse_line_item pro_plan_from_base_plan_id
parse_subscription_plan_event_tx resource sink =
    let (line_item, messages) = parse_line_item resource in
    elim line_item [
      | none ↦ (
        record {
          pro_plan = nil_plan;
          plan_expiry_time = first_expiry resource.line_items;
          resource = resource;
        },
        sink ++ messages,
      )
      | some item ↦
          let (plan, unknown) = pro_plan_from_base_plan_id item.base_plan_id in
          (
            record { pro_plan = plan; plan_expiry_time = item.expiry_time; resource = resource },
            sink ++ messages ++ unknown,
          )
    ]
