-- ===== src/GooglePlay/Handle.antt =====
-- providers/google_play/notifications.py: what a notification does, and its delivery.
-- Where code under `try` raises, the transaction is cancelled, so the tables that it had left by
-- then are those that nobody sees.
pub mod Delivery
pub mod Streamed
use session_pro_backend.Base.Errors.{ok, err}
use session_pro_backend.Base.Units.{DateTime, datetime_from_unix_ms, epoch}
use session_pro_backend.Db.Monad.{Env, read_clock}
use session_pro_backend.Db.Tables.{Text}
use session_pro_backend.GooglePlay.{
  ParsedNotification, SinkMessage, SubscriptionNotificationType, VoidedPurchaseTxFields,
  handling_raised, nothing_to_revoke, nil_payload, subscription_payload, voided_payload,
  test_payload, one_time_product_payload, full_refund, nil_refund, quantity_based_partial_refund,
  nil_product, subscription_product, one_time_product, partial_refund_unsupported,
  refund_not_handled, one_time_unsupported, product_not_handled, voided_failed,
  one_time_product_unsupported, sub_revoked,
}
use session_pro_backend.GooglePlay.Notification.{decode_notification}
use session_pro_backend.GooglePlay.Store.{PlayDb, Sunk, done, enqueue, on_tables, ◌▹◌}
use session_pro_backend.Housekeeping.{
  google_add_notification_id, google_notification_message_id_is_in_db,
  google_set_notification_handled,
}
use session_pro_backend.Json.{JsonValue}
use session_pro_backend.Json.Integers.{ℤ, pos, negsuc}
use session_pro_backend.Message.{Bytes}
use session_pro_backend.Prelude.{
  Bool, List, Option, [], false, if◌then◌else◌, is_empty, ltb, none, not, some, true, ◌++◌, ◌∷◌,
}
use session_pro_backend.Revoke.{add_google_revocation}

-- `datetime_from_unix_ms` of an integer; an instant before the epoch counts as the epoch.
abbrev pub instant_of_ms : ℤ → DateTime
instant_of_ms (pos n) = datetime_from_unix_ms n
instant_of_ms (negsuc n) = epoch

abbrev pub voided_messages : VoidedPurchaseTxFields → List SinkMessage
voided_messages v = elim v.product_type [
  | subscription_product ↦ elim v.refund_type [
    | full_refund ↦ []
    | quantity_based_partial_refund ↦ partial_refund_unsupported ∷ []
    | nil_refund ↦ refund_not_handled ∷ []
  ]
  | one_time_product ↦ one_time_unsupported ∷ []
  | nil_product ↦ product_not_handled ∷ []
]

-- `handle_voided_notification`: it touches no table.
unfoldable pub handle_voided_notification : VoidedPurchaseTxFields → List SinkMessage
handle_voided_notification v = elim (voided_messages v) [
  | [] ↦ []
  | m ∷ ms ↦ (m ∷ ms) ++ voided_failed ∷ []
]

abbrev pub is_sub_revoked : SubscriptionNotificationType → Bool
is_sub_revoked sub_revoked = true
is_sub_revoked _ = false

-- What the handling of a notification answers and leaves, the cancellation of the transaction not
-- yet applied.
pub record Handling : Type 0 where
  pub result : Bool
  pub msg_list : List SinkMessage
  pub cancel : Bool
  pub tables : PlayDb

-- A block under `try`, with the cancellation where the sink has a message.
abbrev pub guarded : Sunk → PlayDb → Handling
guarded m play = elim (m play) [
  | err e ↦ record {
    result = false;
    msg_list = handling_raised e ∷ [];
    cancel = true;
    tables = play;
  }
  | ok (messages, play') ↦ record {
    result = is_empty messages;
    msg_list = messages;
    cancel = not (is_empty messages);
    tables = play';
  }
]

abbrev pub set_handled : Text → PlayDb → PlayDb
set_handled id play = record play {
  google_notification_history =
      (google_set_notification_handled id false play.google_notification_history).1;
}

module _ (env : Env) where
  -- The block under `try` of a subscription's notification.
  unfoldable pub queue_subscription : ParsedNotification → Sunk
  unfolding add_google_revocation datetime_from_unix_ms
  queue_subscription parse =
      let event_at = instant_of_ms parse.event_time_ms in
      on_tables (read_clock env) ▹ λ enqueue_now.
      enqueue parse.purchase_token (if ltb event_at enqueue_now then event_at else enqueue_now)
      ▹ λ _. elim (is_sub_revoked parse.sub_type) [
        | false ↦ done []
        | true ↦ on_tables (add_google_revocation env parse.purchase_token event_at) ▹ λ matched.
            done (if matched then [] else nothing_to_revoke ∷ [])
      ]

  -- The `match` on the payload's type. The branches outside a `try` cannot raise.
  unfoldable pub notification_body : ParsedNotification → Sunk
  unfolding handle_voided_notification queue_subscription
  notification_body parse = elim parse.payload_type [
    | nil_payload ↦ done []
    | subscription_payload ↦ queue_subscription parse
    | voided_payload ↦ done (handle_voided_notification parse.voided)
    | one_time_product_payload ↦ done (one_time_product_unsupported ∷ [])
    | test_payload ↦ done []
  ]

  unfoldable pub handle_parsed_notification : ParsedNotification → PlayDb → Handling
  unfolding notification_body
  handle_parsed_notification parse = guarded (notification_body parse)

  -- The transaction of `_process_notification_message`: whether the message was handled, the
  -- messages in the sink, and the tables, those before it where it was cancelled.
  unfoldable pub process_notification_message :
      Text → ParsedNotification → PlayDb → Bool × List SinkMessage × PlayDb
  unfolding google_notification_message_id_is_in_db google_set_notification_handled
      handle_parsed_notification
  process_notification_message id parse play =
      let (present, known) =
        google_notification_message_id_is_in_db id play.google_notification_history in
      elim present [
        | false ↦ (true, [], play)
        | true ↦ elim known [
          | true ↦ (true, [], set_handled id play)
          | false ↦
              let h = handle_parsed_notification parse play in
              let marked = if h.result then set_handled id h.tables else h.tables in
              (h.result, h.msg_list, if h.cancel then play else marked)
        ]
      ]

-- A streamed message: its id and its payload. `stored_payload` numbers the JSON text that the
-- history keeps of it.
pub record StreamedMessage : Type 0 where
  pub message_id : Text
  pub payload : Bytes

pub data Answer : Type 0 where
  ack nack : Answer

abbrev pub answer_of : Bool → Answer
answer_of true = ack
answer_of false = nack

module _ (env : Env) (package_name : Bytes) (number stored_payload : Bytes → Text)
    (loads : Bytes → Option JsonValue) where
  abbrev pub decoded : Bytes → Option ParsedNotification
  decoded payload = elim (decode_notification package_name number loads payload) [
    | none ↦ none
    | some (parse, messages) ↦ if is_empty messages then some parse else none
  ]

  -- The transaction that puts the message on record before it is processed.
  abbrev pub record_message : StreamedMessage → ParsedNotification → PlayDb → PlayDb
  record_message message parse play = record play {
    google_notification_history =
        google_add_notification_id message.message_id (instant_of_ms parse.event_time_ms)
          (stored_payload message.payload) play.google_notification_history;
  }

  -- `_handle_streamed_message`
  unfoldable pub handle_streamed_message : StreamedMessage → PlayDb → Answer × PlayDb
  unfolding decode_notification google_add_notification_id process_notification_message
  handle_streamed_message message play = elim (decoded message.payload) [
    | none ↦ (nack, play)
    | some parse ↦
        let (handled, _, play') =
          process_notification_message env message.message_id parse
            (record_message message parse play) in
        (answer_of handled, play')
  ]
