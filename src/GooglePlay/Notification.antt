-- ===== src/GooglePlay/Notification.antt =====
-- providers/google_play/notifications.py: `parse_notification` and `decode_notification`.
-- `package_name` is the configured package. `number` gives the number of a text that is only
-- compared from then on, 0 that of the empty one; `loads` is `json.loads`, with `none` where it
-- raises.
use session_pro_backend.GooglePlay.{
  nil_payload, subscription_payload, test_payload, voided_payload, ParsedNotification, SinkMessage,
  json, no_block, no_notification, other_package, product_type_of_value, refund_type_of_value,
  several_blocks, subscription_notification_type,
}
use session_pro_backend.Json.{
  JsonError, JsonObject, JsonValue, object, json_dict_optional_obj, json_dict_require_int,
  json_dict_require_int_coerce_to_enum, json_dict_require_str, json_dict_require_str_coerce_to_int,
}
use session_pro_backend.Message.{Bytes, ascii}
use session_pro_backend.Db.Tables.{Text}
use session_pro_backend.Prelude.{
  List, Option, [], bytes_eq, false, if◌then◌else◌, is_empty, ltb, map, none, not, some, true, ℕ,
  ◌&&◌, ◌++◌, ◌+◌, ◌==◌, ◌∷◌,
}

abbrev pub json_messages : List JsonError → List SinkMessage
json_messages = map json

abbrev pub counted {ℓ} : {A : Type ℓ} → Option A → ℕ
counted none = 0
counted (some _) = 1

-- The four blocks of which a notification has one.
pub record Blocks : Type 0 where
  pub subscription : Option JsonObject
  pub one_time_product : Option JsonObject
  pub voided_purchase : Option JsonObject
  pub test_obj : Option JsonObject

abbrev pub notif_count : Blocks → ℕ
notif_count b =
    counted b.subscription
    + counted b.one_time_product
    + counted b.voided_purchase
    + counted b.test_obj

abbrev pub count_messages : ℕ → List SinkMessage
count_messages n = if n == 0 then no_block ∷ [] else if ltb 1 n then several_blocks ∷ [] else []

module _ (package_name : Bytes) (number : Bytes → Text) where
  -- The part up to `if err.has(): return result`.
  unfoldable pub parse_header : JsonObject → ParsedNotification × Blocks × List SinkMessage
  unfolding json_dict_optional_obj json_dict_require_str json_dict_require_str_coerce_to_int
  parse_header body =
      let (body_version, m1) = json_dict_require_str body (ascii "version") in
      let (stated, m2) = json_dict_require_str body (ascii "packageName") in
      let (event_time_ms, m3) =
        json_dict_require_str_coerce_to_int body (ascii "eventTimeMillis") in
      let foreign = if bytes_eq stated package_name then [] else other_package ∷ [] in
      let (subscription, m4) = json_dict_optional_obj body (ascii "subscriptionNotification") in
      let (one_time, m5) = json_dict_optional_obj body (ascii "oneTimeProductNotification") in
      let (voided, m6) = json_dict_optional_obj body (ascii "voidedPurchaseNotification") in
      let (test_obj, m7) = json_dict_optional_obj body (ascii "testNotification") in
      let blocks : Blocks = record {
        subscription = subscription;
        one_time_product = one_time;
        voided_purchase = voided;
        test_obj = test_obj;
      } in
      (
        record no_notification {
          body_version = body_version;
          package_name = stated;
          event_time_ms = event_time_ms;
        },
        blocks,
        json_messages (m1 ++ m2 ++ m3)
            ++ foreign
            ++ json_messages (m4 ++ m5 ++ m6 ++ m7)
            ++ count_messages (notif_count blocks),
      )

  unfoldable pub parse_subscription :
      JsonObject → ParsedNotification → ParsedNotification × List SinkMessage
  unfolding json_dict_require_int json_dict_require_str subscription_notification_type
  parse_subscription subscription result =
      let (token, m1) = json_dict_require_str subscription (ascii "purchaseToken") in
      let (payload_version, m2) = json_dict_require_str subscription (ascii "version") in
      let (raw_sub_type, m3) = json_dict_require_int subscription (ascii "notificationType") in
      (
        record result {
          purchase_token = number token;
          payload_version = payload_version;
          sub_type = subscription_notification_type raw_sub_type;
          payload_type = subscription_payload;
        },
        json_messages (m1 ++ m2 ++ m3),
      )

  -- `none` is the failed assertion.
  unfoldable pub parse_voided :
      JsonObject → ParsedNotification → Option (ParsedNotification × List SinkMessage)
  unfolding json_dict_require_int_coerce_to_enum json_dict_require_str product_type_of_value
      refund_type_of_value
  parse_voided voided result =
      let (token, m1) = json_dict_require_str voided (ascii "purchaseToken") in
      let (order_id, m2) = json_dict_require_str voided (ascii "orderId") in
      let (product_type, m3) =
        json_dict_require_int_coerce_to_enum voided (ascii "productType") product_type_of_value in
      let (refund_type, m4) =
        json_dict_require_int_coerce_to_enum voided (ascii "refundType") refund_type_of_value in
      elim product_type [
        | none ↦ none
        | some product ↦ elim refund_type [
          | none ↦ none
          | some refund ↦ elim (not (is_empty token) && not (is_empty order_id)) [
            | false ↦ none
            | true ↦ some (
              record result {
                purchase_token = number token;
                voided = record {
                  voided_purchase_token = number token;
                  order_id = number order_id;
                  product_type = product;
                  refund_type = refund;
                  event_ts_ms = result.event_time_ms;
                };
                payload_type = voided_payload;
              },
              json_messages (m1 ++ m2 ++ m3 ++ m4),
            )
          ]
        ]
      ]

  abbrev pub parse_block :
      Blocks → ParsedNotification → Option (ParsedNotification × List SinkMessage)
  parse_block blocks result = elim blocks.subscription [
    | some subscription ↦ some (parse_subscription subscription result)
    | none ↦ elim blocks.voided_purchase [
      | some voided ↦ parse_voided voided result
      | none ↦ elim blocks.one_time_product [
        | some _ ↦ some (record result { payload_type = nil_payload }, [])
        | none ↦ elim blocks.test_obj [
          | some _ ↦ some (record result { payload_type = test_payload }, [])
          | none ↦ some (result, [])
        ]
      ]
    ]
  ]

  unfoldable pub parse_notification : JsonObject → Option (ParsedNotification × List SinkMessage)
  unfolding parse_header parse_subscription parse_voided
  parse_notification body =
      let (result, blocks, messages) = parse_header body in
      elim messages [ [] ↦ parse_block blocks result | m ∷ ms ↦ some (result, m ∷ ms) ]

  -- With `UNSAFE_LOGGING` unset a payload that is no object raises, since its keys cannot be
  -- listed.
  unfoldable pub decode_notification :
      (Bytes → Option JsonValue) → Bytes → Option (ParsedNotification × List SinkMessage)
  unfolding parse_notification
  decode_notification loads payload = elim (loads payload) [
    | some (object body) ↦ parse_notification body
    | _ ↦ none
  ]
