-- ===== src/GooglePlay/Reconcile.antt =====
-- providers/google_play/notifications.py: bringing the record of a purchase token in line with the
-- subscription resource.
pub mod Recorded
pub mod Stored
use session_pro_backend.Base.Units.{DateTime, datetime_from_unix_ms, unix_ms_from_datetime}
use session_pro_backend.Base.Errors.{ok}
use session_pro_backend.Base.Hex.{fromhex}
use session_pro_backend.Converge.{
  Snapshot, converged, google_converge_payment, google_owner_of_purchase_token, incomplete, no_row,
}
use session_pro_backend.Db.Monad.{Db, Env}
use session_pro_backend.Db.Tables.{VerifyKey}
use session_pro_backend.GooglePlay.{
  SinkMessage, missing_field, not_32_bytes, not_hex, unattributed, unreadable_resource,
}
use session_pro_backend.GooglePlay.Resource.{
  SubscriptionPlanEventTransaction, SubscriptionV2Data, SubscriptionV2DataLineItem,
  SubscriptionsV2AcknowledgementState, SubscriptionsV2State, acknowledged, parse_line_item,
  parse_subscription_plan_event_tx, parse_subscription_purchase_tx, state_in_grace_period,
}
use session_pro_backend.GooglePlay.Store.{Sunk, done, enqueue, on_tables, ◌▹◌}
use session_pro_backend.Message.{Bytes}
use session_pro_backend.Prelude.{
  Bool, List, Option, [], false, if◌then◌else◌, length, map, none, not, some, true, ℕ, ◌&&◌, ◌*◌,
  ◌++◌, ◌+◌, ◌==◌, ◌∷◌,
}
use session_pro_backend.Queue.{PurchaseToken}
use session_pro_backend.Register.{
  PaymentColumns, PlatformAccountId, add_unredeemed_payment, key_bytes, other_bytes,
}
use session_pro_backend.Renewal.{MissingField, PaymentProviderTransaction}

-- The number that 32 bytes stand for.
abbrev pub big_endian : ℕ → Bytes → VerifyKey
big_endian acc [] = acc
big_endian acc (b ∷ bs) = big_endian (acc * 256 + b) bs

abbrev pub account_of_bytes : Bytes → PlatformAccountId
account_of_bytes bytes = if length bytes == 32 then key_bytes (big_endian 0 bytes) else other_bytes

-- `account_id_hex[2:]` where it starts with `0x`
abbrev pub without_0x : Bytes → Bytes
without_0x (c ∷ d ∷ rest) = if c == 48 && d == 120 then rest else c ∷ d ∷ rest
without_0x hex = hex

unfoldable pub account_of_hex : Bytes → PlatformAccountId × List SinkMessage
unfolding fromhex
account_of_hex hex =
    let digits = without_0x hex in
    let wrong_length = if length digits == 64 then [] else not_32_bytes ∷ [] in
    elim (fromhex none digits) [
      | some bytes ↦ (account_of_bytes bytes, wrong_length)
      | none ↦ (other_bytes, wrong_length ++ not_hex ∷ [])
    ]

abbrev pub owner_of_expired : Option PurchaseToken → Db → Option VerifyKey
owner_of_expired none db = none
owner_of_expired (some token) db = google_owner_of_purchase_token token db

unfoldable pub require_obfuscated_external_account_id :
    SubscriptionV2Data → Db → PlatformAccountId × List SinkMessage
unfolding account_of_hex google_owner_of_purchase_token
require_obfuscated_external_account_id resource db = elim resource.obfuscated_external_account_id [
  | some hex ↦ account_of_hex hex
  | none ↦ elim resource.expired_obfuscated_external_account_id [
    | some hex ↦ account_of_hex hex
    | none ↦ elim (owner_of_expired resource.expired_purchase_token db) [
      | some owner ↦ (key_bytes owner, [])
      | none ↦ (other_bytes, unattributed ∷ [])
    ]
  ]
]

-- `SubscriptionsV2AcknowledgementState.ACKNOWLEDGED` and `SubscriptionsV2State.IN_GRACE_PERIOD`
abbrev pub is_acknowledged : SubscriptionsV2AcknowledgementState → Bool
is_acknowledged acknowledged = true
is_acknowledged _ = false

abbrev pub is_in_grace : SubscriptionsV2State → Bool
is_in_grace state_in_grace_period = true
is_in_grace _ = false

abbrev pub is_auto_renewing : Option Bool → Bool
is_auto_renewing none = false
is_auto_renewing (some enabled) = enabled

-- What the resource states of the payment of its current cycle.
abbrev pub snapshot_of : SubscriptionV2DataLineItem → SubscriptionPlanEventTransaction → Snapshot
snapshot_of item event = record {
  expiry_at = datetime_from_unix_ms event.plan_expiry_time;
  auto_renewing = is_auto_renewing item.auto_renewing_plan;
  in_grace = is_in_grace event.resource.subscription_state;
  needs_ack = not (is_acknowledged event.resource.acknowledgement_state);
}

-- `api.refund_deadline_duration_ms`
abbrev pub refund_deadline_duration_ms : ℕ
refund_deadline_duration_ms = 2 * 86400000

unfoldable pub registered_columns :
    SubscriptionPlanEventTransaction → Snapshot → DateTime → PaymentColumns
unfolding datetime_from_unix_ms unix_ms_from_datetime
registered_columns event snapshot at = record {
  plan = event.pro_plan;
  expiry_at = some snapshot.expiry_at;
  platform_refund_expiry_at =
      datetime_from_unix_ms (unix_ms_from_datetime at + refund_deadline_duration_ms);
  purchased_at = at;
  auto_renewing = snapshot.auto_renewing;
  credit_remaining = none;
}

abbrev pub field_messages : List MissingField → List SinkMessage
field_messages = map missing_field

-- The old token of a replaced subscription is marked as owing a reconcile.
abbrev pub enqueue_linked : Option PurchaseToken → DateTime → Sunk
enqueue_linked none at = done []
enqueue_linked (some token) at = enqueue token at ▹ λ _. done []

module _ (env : Env) (event : SubscriptionPlanEventTransaction) (snapshot : Snapshot) where
  -- The registration of a cycle that has no row, or one that is revoked.
  unfoldable pub register_cycle : PaymentProviderTransaction → DateTime → Sunk
  unfolding add_unredeemed_payment registered_columns require_obfuscated_external_account_id
  register_cycle t at play =
      let (account, messages) = require_obfuscated_external_account_id event.resource play.db in
      elim messages [
        | m ∷ ms ↦ ok (m ∷ ms, play)
        | [] ↦
            (on_tables (
                  add_unredeemed_payment env t (registered_columns event snapshot at) account
                    snapshot.needs_ack)
                ▹ λ missing. done (field_messages missing))
              play
      ]

  -- `google_converge_payment`, and the registration where it found no row.
  unfoldable pub converge_or_register : PaymentProviderTransaction → DateTime → Sunk
  unfolding google_converge_payment register_cycle
  converge_or_register t at = on_tables (google_converge_payment env t snapshot at) ▹ λ outcome.
      elim outcome [
        | converged ↦ done []
        | no_row ↦ register_cycle t at
        | incomplete missing ↦ done (field_messages missing)
      ]

  unfoldable pub write_resource : PaymentProviderTransaction → DateTime → Sunk
  unfolding converge_or_register
  write_resource t at = converge_or_register t at ▹ λ messages. elim messages [
    | m ∷ ms ↦ done (m ∷ ms)
    | [] ↦ enqueue_linked event.resource.linked_purchase_token at
  ]

-- What the reconcile reads of a resource: the line item, the identifiers, the plan event, and the
-- messages.
unfoldable pub read_resource :
    PurchaseToken
    → SubscriptionV2Data
    → Option SubscriptionV2DataLineItem
      × PaymentProviderTransaction
      × SubscriptionPlanEventTransaction
      × List SinkMessage
unfolding parse_line_item parse_subscription_plan_event_tx parse_subscription_purchase_tx
read_resource token resource =
    let (line_item, m1) = parse_line_item resource in
    let (t, m2) = parse_subscription_purchase_tx token resource m1 in
    let (event, m3) = parse_subscription_plan_event_tx resource m2 in (line_item, t, event, m3)

unfoldable pub reconcile_google_subscription :
    Env → PurchaseToken → SubscriptionV2Data → DateTime → Sunk
unfolding read_resource write_resource
reconcile_google_subscription env token resource at =
    let (line_item, t, event, messages) = read_resource token resource in
    elim line_item [
      | none ↦ done (messages ++ unreadable_resource ∷ [])
      | some item ↦ elim messages [
        | m ∷ ms ↦ done ((m ∷ ms) ++ unreadable_resource ∷ [])
        | [] ↦ write_resource env event (snapshot_of item event) t at
      ]
    ]
