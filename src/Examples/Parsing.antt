-- ===== src/Examples/Parsing.antt =====
-- Google's notifications as JSON, and what is read of a resource.
use session_pro_backend.Json.{JsonObject, field, integral, no_fields, object, string}
use session_pro_backend.Examples.Accounts.{tables}
use session_pro_backend.GooglePlay.{
  ParsedNotification, no_notification, sub_renewed, subscription_payload,
}
use session_pro_backend.GooglePlay.Notification.{Blocks, parse_header}
use session_pro_backend.GooglePlay.Reconcile.{big_endian}
use session_pro_backend.GooglePlay.Store.{PlayDb}
use session_pro_backend.Json.Integers.{pos}
use session_pro_backend.Message.{Bytes, ascii}
use session_pro_backend.Prelude.{[], none, refl, some, ◌≡◌}
use session_pro_backend.Db.Tables.{Text}

-- The number that stands for a text: that of its code points, read in base 256.
abbrev pub text_number : Bytes → Text
text_number = big_endian 0

abbrev pub session_package : Bytes
session_package = ascii "network.loki"

-- The fields that every notification has, before its block.
abbrev pub notification : JsonObject → JsonObject
notification block = field (ascii "version") (string (ascii "1.0")) (
    field (ascii "packageName") (string session_package)
      (field (ascii "eventTimeMillis") (string (ascii "9000000000")) block))

-- Token "F" is number 70.
abbrev pub renewal_body : JsonObject
renewal_body = notification (
    field (ascii "subscriptionNotification")
      (object (
        field (ascii "version") (string (ascii "1.0")) (
          field (ascii "notificationType") (integral (pos 2))
            (field (ascii "purchaseToken") (string (ascii "F")) no_fields))))
      no_fields)

abbrev pub renewal_notice : ParsedNotification
renewal_notice = record no_notification {
  payload_type = subscription_payload;
  payload_version = ascii "1.0";
  sub_type = sub_renewed;
  body_version = ascii "1.0";
  event_time_ms = pos 9000000000;
  package_name = session_package;
  purchase_token = 70;
}

abbrev product_block : JsonObject
product_block = field (ascii "sku") (string (ascii "coins")) no_fields

abbrev product_body : JsonObject
product_body =
    notification (field (ascii "oneTimeProductNotification") (object product_block) no_fields)

abbrev product_header : ParsedNotification
product_header = record no_notification {
  body_version = ascii "1.0";
  event_time_ms = pos 9000000000;
  package_name = session_package;
}

abbrev product_blocks : Blocks
product_blocks = record {
  subscription = none;
  one_time_product = some product_block;
  voided_purchase = none;
  test_obj = none;
}

abbrev pub play_tables : PlayDb
play_tables = record { db = tables; google_reconcile_queue = []; google_notification_history = [] }

product_header_parses :
    parse_header session_package text_number product_body ≡ (product_header, product_blocks, [])
unfolding parse_header
product_header_parses = refl

abbrev count_object : JsonObject
count_object = field (ascii "n") (integral (pos 5)) no_fields
