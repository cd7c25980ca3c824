-- ===== src/AppStore/Catchup.antt =====
-- providers/app_store.py: decoding a notification, and replaying those that the store could not
-- deliver. Apple's library, which verifies and decodes, is a parameter.
use session_pro_backend.Base.Errors.{ok, err}
use session_pro_backend.Base.Units.{day, second, DateTime, Duration, unix_ms_from_datetime}
use session_pro_backend.Prelude.{
  max, ◌++◌, Bool, List, Option, [], false, if◌then◌else◌, none, some, ℕ, ◌*◌, ◌+◌, ◌-◌, ◌==◌, ◌∷◌,
  true, suc, zero,
}
use session_pro_backend.AppStore.Payload.{
  Complaint, NotificationType, RenewalInfo, Subtype, Transaction, missing_body_data,
  missing_signed_renewal_info, missing_signed_tx_info, unverified_renewal_info, unverified_tx_info,
}
use session_pro_backend.Db.Monad.{Db, Env}
use session_pro_backend.AppStore.{DecodedNotification, handle_notification}
use session_pro_backend.Db.Tables.{Text}

-- `AppleData`
pub record BodyData : Type 0 where
  pub signed_transaction_info : Option Text
  pub signed_renewal_info : Option Text

-- `AppleResponseBodyV2DecodedPayload`, as far as the code reads it.
pub record ResponseBody : Type 0 where
  pub notification_uuid : Text
  pub notification_type : Option NotificationType
  pub subtype : Option Subtype
  pub signed_date : Option ℕ
  pub body_data : Option BodyData

-- `AppleSignedDataVerifier`: `none` is an `AppleVerificationException`.
pub record SignedDataVerifier : Type 0 where
  pub verify_and_decode_notification : Text → Option ResponseBody
  pub verify_and_decode_signed_transaction : Text → Option Transaction
  pub verify_and_decode_renewal_info : Text → Option RenewalInfo

-- One signed part of the body: what is reported, and what it decodes to. An empty text is passed
-- over.
abbrev pub decoded_part :
    {A : Type 0}
    → (Text → Option A)
    → Complaint
    → Complaint
    → Option Text
    → List Complaint × List Complaint × Option A
decoded_part decode absent unverified none = (absent ∷ [], [], none)
decoded_part decode absent unverified (some text) =
    if text == 0
    then ([], [], none)
    else elim (decode text) [ none ↦ ([], unverified ∷ [], none) | some a ↦ ([], [], some a) ]

abbrev pub decoded_body :
    ResponseBody → Option Transaction → Option RenewalInfo → DecodedNotification
decoded_body body tx_info renewal_info = record {
  notification_uuid = body.notification_uuid;
  notification_type = body.notification_type;
  subtype = body.subtype;
  signed_date = body.signed_date;
  tx_info = tx_info;
  renewal_info = renewal_info;
}

-- `decoded_notification_from_apple_response_body_v2`, with an empty sink: the messages, in their
-- order, and the notification.
unfoldable pub decoded_notification :
    SignedDataVerifier → ResponseBody → List Complaint × DecodedNotification
decoded_notification v body = elim body.body_data [
  | none ↦ (missing_body_data ∷ [], decoded_body body none none)
  | some d ↦
      let transaction =
        decoded_part v.verify_and_decode_signed_transaction missing_signed_tx_info
          unverified_tx_info d.signed_transaction_info in
      let renewal_part =
        decoded_part v.verify_and_decode_renewal_info missing_signed_renewal_info
          unverified_renewal_info d.signed_renewal_info in
      (
        (transaction.0 ++ renewal_part.0) ++ (transaction.1 ++ renewal_part.1),
        decoded_body body transaction.2 renewal_part.2,
      )
]

abbrev pub notification_history_overlap : Duration
notification_history_overlap = 15 * 60 * second

-- The instant from which the history is asked for: the end of what the store keeps, or a little
-- before the checkpoint.
unfoldable pub history_start : ℕ → DateTime → DateTime → DateTime
history_start max_days checkpoint at =
    max (at - max_days * day) (checkpoint - notification_history_overlap)

-- `AppleNotificationHistoryResponse`
pub record HistoryPage : Type 0 where
  pub notification_history : List (Option Text)
  pub has_more : Bool
  pub pagination_token : Option Text

-- How a catch-up ends: with the numbers of the items handled and failed; with an exception of the
-- request for a page, which nothing catches; or not within so many requests. The tables that it
-- leaves, or has come to.
pub data CatchUp : Type 0 where
  finished : ℕ → ℕ → Db → CatchUp
  fetch_raised unfinished : Db → CatchUp

-- The counts of the pages before.
abbrev pub counted : ℕ → ℕ → CatchUp → CatchUp
counted handled failed (finished h f db) = finished (handled + h) (failed + f) db
counted handled failed (fetch_raised db) = fetch_raised db
counted handled failed (unfinished db) = unfinished db

abbrev pub checkpointed : DateTime → CatchUp → CatchUp
checkpointed at (finished h f db) =
    finished h f (record db { apple_notification_checkpoint_at = at })
checkpointed at (fetch_raised db) = fetch_raised db
checkpointed at (unfinished db) = unfinished db

module _ (env : Env) (v : SignedDataVerifier) (retry : Duration) where
  -- The turn of the catch-up for one item, with its own transaction; a raise is caught, and then
  -- nothing has changed.
  unfoldable pub replay_one : Option Text → Db → Bool × Db
  unfolding decoded_notification handle_notification
  replay_one none db = (false, db)
  replay_one (some signed_payload) db = elim (signed_payload == 0) [
    | true ↦ (false, db)
    | false ↦ elim (v.verify_and_decode_notification signed_payload) [
      | none ↦ (false, db)
      | some body ↦
          let decoded = decoded_notification v body in
          elim decoded.0 [
            | c ∷ cs ↦ (false, db)
            | [] ↦ elim (handle_notification env decoded.1 retry [] db) [
              | ok (h, db') ↦ (h.handled, db')
              | err e ↦ (false, db)
            ]
          ]
    ]
  ]

  -- The loop: how many were handled, how many failed, and the tables.
  unfoldable pub replay_all : List (Option Text) → Db → ℕ × ℕ × Db
  unfolding replay_one
  replay_all [] db = (0, 0, db)
  replay_all (item ∷ items) db =
      let turn = replay_one item db in
      let rest = replay_all items turn.1 in
      if turn.0 then (rest.0 + 1, rest.1, rest.2) else (rest.0, rest.1 + 1, rest.2)

  -- The `while True` over the pages, for at most so many requests. What the store answers to a
  -- page's token is a parameter, `none` where the request raises; the first page has no token.
  unfoldable pub replay_pages : ℕ → (Option Text → Option HistoryPage) → Option Text → Db → CatchUp
  unfolding replay_all
  replay_pages zero fetch token db = unfinished db
  replay_pages (suc requests) fetch token db = elim (fetch token) [
    | none ↦ fetch_raised db
    | some page ↦
        let (handled, failed, db') = replay_all page.notification_history db in
        elim page.has_more [
          | false ↦ finished handled failed db'
          | true ↦ counted handled failed (replay_pages requests fetch page.pagination_token db')
        ]
  ]

  -- `catchup_on_missed_notifications`, at the instant `at`. The store's history from an instant to
  -- another, in milliseconds, is a parameter.
  unfoldable pub catchup_on_missed_notifications :
      (ℕ → ℕ → Option Text → Option HistoryPage) → ℕ → ℕ → DateTime → Db → CatchUp
  unfolding replay_pages history_start unix_ms_from_datetime
  catchup_on_missed_notifications history requests max_days at db =
      let start_at = history_start max_days db.apple_notification_checkpoint_at at in
      checkpointed at (
        replay_pages requests (history (unix_ms_from_datetime start_at) (unix_ms_from_datetime at))
          none db)
