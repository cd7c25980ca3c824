-- ===== src/GooglePlay/Handle/Streamed.antt =====
-- providers/google_play/notifications.py: what the streamed deliveries of a message come to.
use session_pro_backend.GooglePlay.{subscription_payload, ParsedNotification, SinkMessage}
use session_pro_backend.Db.Monad.{Env}
use session_pro_backend.Db.Tables.{Text}
use session_pro_backend.GooglePlay.Handle.{
  StreamedMessage, nack, decoded, handle_streamed_message, Answer, ack, instant_of_ms,
  process_notification_message, record_message,
}
use session_pro_backend.GooglePlay.Handle.Delivery.{
  is_handled, handled_is_marked, unhandled_is_cancelled, mark_handled-twice, queued_by,
}
use session_pro_backend.GooglePlay.Store.{PlayDb}
use session_pro_backend.Housekeeping.{
  GoogleNotification, find_message, google_add_notification_id, mark_handled,
  google_notification_message_id_is_in_db, google_set_notification_handled,
}
use session_pro_backend.Json.{JsonValue}
use session_pro_backend.Message.{Bytes}
use session_pro_backend.Prelude.{
  List, Option, Option-cases, arith, inl, inr, some, ◌≡◌, Bool-cases, ap, false, refl, true, ◌∙◌,
  ◌⊎◌, ◌≤◌,
}
use session_pro_backend.Base.Units.{DateTime}
use session_pro_backend.Housekeeping.Notifications.{
  as_handled, find_message-add, find_message-mark_handled, once_handled,
}
use session_pro_backend.Queue.Table.{map_option}
use session_pro_backend.Queue.{QueueRow, find}

is_handled-add :
    (id payload : Text) (event_at : DateTime) (ns : List GoogleNotification)
    → is_handled id (google_add_notification_id id event_at payload ns) ≡ is_handled id ns
unfolding google_add_notification_id
is_handled-add id payload event_at ns = elim (Option-cases (find_message id ns)) [
  | inl new ↦ ground (arith, new)
  | inr (n, known) ↦ ground (arith, known)
]

module _ (env : Env) (package_name : Bytes) (number stored_payload : Bytes → Text)
    (loads : Bytes → Option JsonValue) (message : StreamedMessage) where
  abbrev deliver : PlayDb → Answer × PlayDb
  deliver = handle_streamed_message env package_name number stored_payload loads message

  abbrev parse_of : Option ParsedNotification
  parse_of = decoded env package_name number stored_payload loads message.payload

  abbrev recorded : ParsedNotification → PlayDb → PlayDb
  recorded = record_message env package_name number stored_payload loads message

  nacked_cases :
      (play play' : PlayDb)
      → deliver play ≡ (nack, play')
      → (play' ≡ play)
        ⊎ ((parse : ParsedNotification) × (messages : List SinkMessage)
            × (process_notification_message env message.message_id parse (recorded parse play)
                ≡ (false, messages, play')))
  unfolding handle_streamed_message
  nacked_cases play play' h = elim (Option-cases parse_of) [
    | inl undecoded ↦ inl (ground arith)
    | inr (parse, parsed) ↦
        let run = process_notification_message env message.message_id parse (recorded parse play) in
        elim (Bool-cases run.0) [
          | inl handled ↦ ground arith
          | inr failed ↦ inr (parse, run.1, ground arith)
        ]
  ]

  acked_cases :
      (play play' : PlayDb)
      → deliver play ≡ (ack, play')
      → (parse : ParsedNotification) × (messages : List SinkMessage) × (parse_of ≡ some parse)
        × (process_notification_message env message.message_id parse (recorded parse play)
            ≡ (true, messages, play'))
  unfolding handle_streamed_message
  acked_cases play play' h = elim (Option-cases parse_of) [
    | inl undecoded ↦ ground arith
    | inr (parse, parsed) ↦
        let run = process_notification_message env message.message_id parse (recorded parse play) in
        elim (Bool-cases run.0) [
          | inl handled ↦ (parse, run.1, parsed, ground arith)
          | inr failed ↦ ground arith
        ]
  ]

  -- A delivery that is answered with a nack leaves the payments and the reconcile queue as they
  -- are, and its message as handled or not as it was.
  pub nacked_changes_nothing :
      (play play' : PlayDb)
      → handle_streamed_message env package_name number stored_payload loads message play
        ≡ (nack, play')
      → (play'.db ≡ play.db)
        × (play'.google_reconcile_queue ≡ play.google_reconcile_queue)
        × (is_handled message.message_id play'.google_notification_history
            ≡ is_handled message.message_id play.google_notification_history)
  nacked_changes_nothing play play' h = elim (nacked_cases play play' h) [
    | inl same ↦ (ap (λ s. s.db) same, ap (λ s. s.google_reconcile_queue) same, rw same refl)
    | inr (parse, messages, run) ↦
        let same =
          unhandled_is_cancelled env message.message_id parse (recorded parse play) play' messages
            run in
        (
          ap (λ s. s.db) same,
          ap (λ s. s.google_reconcile_queue) same,
          rw same (
              is_handled-add message.message_id (stored_payload message.payload)
                (instant_of_ms parse.event_time_ms) play.google_notification_history),
        )
  ]

  known_delivery :
      (parse : ParsedNotification) (play : PlayDb) (n : GoogleNotification)
      → parse_of ≡ some parse
      → find_message message.message_id play.google_notification_history ≡ some n
      → n.handled ≡ true
      → mark_handled message.message_id play.google_notification_history
        ≡ play.google_notification_history
      → deliver play ≡ (ack, play)
  unfolding handle_streamed_message google_add_notification_id process_notification_message
      google_notification_message_id_is_in_db google_set_notification_handled
  known_delivery parse play n parsed found handled marked =
      let history = play.google_notification_history in
      let at = instant_of_ms parse.event_time_ms in
      let (known, same) =
        once_handled message.message_id (stored_payload message.payload) at history n found
          handled in
      let kept : recorded parse play ≡ play =
        ap (λ hs. record play { google_notification_history = hs }) same in
      ground (arith, kept)

  -- On the tables that an acknowledged delivery leaves, the redelivery of the message is
  -- acknowledged and changes nothing.
  pub redelivery_changes_nothing :
      (play play' : PlayDb)
      → handle_streamed_message env package_name number stored_payload loads message play
        ≡ (ack, play')
      → handle_streamed_message env package_name number stored_payload loads message play'
        ≡ (ack, play')
  unfolding handle_streamed_message
  redelivery_changes_nothing play play' h =
      let (parse, messages, parsed, run) = acked_cases play play' h in
      let id = message.message_id in
      let at = instant_of_ms parse.event_time_ms in
      let payload = stored_payload message.payload in
      let history = google_add_notification_id id at payload play.google_notification_history in
      let (n, found) = find_message-add id payload at play.google_notification_history in
      let marked : play'.google_notification_history ≡ mark_handled id history =
        handled_is_marked env id parse (recorded parse play) play' messages n found run in
      let settled : mark_handled id play'.google_notification_history
          ≡ play'.google_notification_history =
        rw marked (mark_handled-twice id history) in
      let seen : find_message id play'.google_notification_history ≡ some (as_handled n) =
        rw marked (find_message-mark_handled id history ∙ ap (map_option as_handled) found) in
      known_delivery parse play' (as_handled n) parsed seen refl settled

  -- Where the delivery of a subscription's notification is acknowledged, and the message was not
  -- on record as handled before, the queue has a row for its purchase token which is due no later
  -- than the clock's instant at the delivery, whatever instant the notification gives.
  pub acked_is_queued :
      (play play' : PlayDb) (parse : ParsedNotification)
      → parse_of ≡ some parse
      → parse.payload_type ≡ subscription_payload
      → is_handled message.message_id play.google_notification_history ≡ false
      → deliver play ≡ (ack, play')
      → (row : QueueRow) × (find parse.purchase_token play'.google_reconcile_queue ≡ some row)
        × (row.eligible_at ≤ env.utc_now play.db.clock_reads)
  unfolding process_notification_message
  acked_is_queued play play' parse parsed about fresh h =
      let (parse', messages, parsed', run) = acked_cases play play' h in
      let same : parse' ≡ parse = ground arith in
      let start = recorded parse play in
      let unseen : is_handled message.message_id start.google_notification_history ≡ false =
        is_handled-add message.message_id (stored_payload message.payload)
          (instant_of_ms parse.event_time_ms) play.google_notification_history
        ∙ fresh in
      let (n, found) =
        find_message-add message.message_id (stored_payload message.payload)
          (instant_of_ms parse.event_time_ms) play.google_notification_history in
      queued_by env message.message_id parse start play' messages n about found (ground arith)
        (ground arith)
