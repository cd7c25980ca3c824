-- ===== src/Examples/Deliveries.antt =====
-- The delivery and the replay of Google's notifications, a pass of reconciles and a sweep of the
-- acknowledgements, on the tables of the example.
use session_pro_backend.Base.Units.{day}
use session_pro_backend.Db.Tables.{Text}
use session_pro_backend.Examples.Accounts.{backend, tables}
use session_pro_backend.Examples.Parsing.{
  play_tables, renewal_body, renewal_notice, session_package, text_number,
}
use session_pro_backend.Examples.Play.{resource_70}
use session_pro_backend.GooglePlay.Acks.{
  sweep_pending_acks, Acknowledgement, ack_raised, google_payment_tokens_needing_ack, reported,
  taken, is_acked, sweep_tokens,
}
use session_pro_backend.GooglePlay.Acks.Cleared.{is_owed, sweep_lem, acked, raise_blocks_sweep}
use session_pro_backend.GooglePlay.Handle.{
  StreamedMessage, ack, decoded, handle_streamed_message, nack,
}
use session_pro_backend.GooglePlay.Handle.Delivery.{is_handled}
use session_pro_backend.GooglePlay.Handle.Streamed.{
  acked_is_queued, nacked_changes_nothing, redelivery_changes_nothing,
}
use session_pro_backend.GooglePlay.Pass.{
  Fetched, answered, drain_due_reconciles, reconcile_batch_limit, reconcile_lease,
}
use session_pro_backend.GooglePlay.Pass.Released.{drain_releases, is_released}
use session_pro_backend.GooglePlay.Replay.{replay_unhandled_backlog, stored_notification}
use session_pro_backend.GooglePlay.Replay.Handled.{replay_is_handled}
use session_pro_backend.GooglePlay.Store.{PlayDb}
use session_pro_backend.Housekeeping.{GoogleNotification}
use session_pro_backend.Json.{JsonValue, field, no_fields, object, string}
use session_pro_backend.Message.{Bytes, ascii}
use session_pro_backend.Prelude.{
  Option, [], bytes_eq, false, if◌then◌else◌, length, none, not, refl, some, true, ◌&&◌, ◌*◌, ◌==◌,
  ◌≡◌, ◌≤◌, ◌∷◌, ◌+◌,
}
use session_pro_backend.Queue.{
  QueueRow, find, new_row, PurchaseToken, google_claim_due_reconciles, is_due, lease_selected,
  selected_tokens,
}
use session_pro_backend.Queue.Table.{IsKeyed}
use session_pro_backend.Queue.Claims.{claims_token}
use session_pro_backend.GooglePlay.Notification.{decode_notification}

-- A reader of JSON that knows one text.
abbrev loads : Bytes → Option JsonValue
loads text = if bytes_eq text (ascii "renewal") then some (object renewal_body) else none

abbrev renewal_message : StreamedMessage
renewal_message = record { message_id = 11; payload = ascii "renewal" }

abbrev garbled_message : StreamedMessage
garbled_message = record { message_id = 12; payload = ascii "?" }

abbrev after_delivery : PlayDb
after_delivery =
    (handle_streamed_message backend session_package text_number text_number loads renewal_message
      play_tables).1

delivered :
    handle_streamed_message backend session_package text_number text_number loads renewal_message
      play_tables
    ≡ (ack, after_delivery)
unfolding handle_streamed_message
delivered = refl

redelivery_changes_nothing_example :
    handle_streamed_message backend session_package text_number text_number loads renewal_message
      after_delivery
    ≡ (ack, after_delivery)
redelivery_changes_nothing_example =
    redelivery_changes_nothing backend session_package text_number text_number loads renewal_message
      play_tables after_delivery delivered

renewal_decodes :
    decoded backend session_package text_number text_number loads renewal_message.payload
    ≡ some renewal_notice
unfolding handle_streamed_message
renewal_decodes = refl

acked_is_queued_example :
    (row : QueueRow) × (find 70 after_delivery.google_reconcile_queue ≡ some row)
    × (row.eligible_at ≤ 100 * day)
acked_is_queued_example =
    acked_is_queued backend session_package text_number text_number loads renewal_message
      play_tables after_delivery renewal_notice renewal_decodes refl refl delivered

garbled_refused :
    handle_streamed_message backend session_package text_number text_number loads garbled_message
      play_tables
    ≡ (nack, play_tables)
unfolding handle_streamed_message
garbled_refused = refl

nacked_changes_nothing_example :
    (play_tables.db ≡ play_tables.db)
    × (play_tables.google_reconcile_queue ≡ play_tables.google_reconcile_queue)
    × (is_handled 12 play_tables.google_notification_history
        ≡ is_handled 12 play_tables.google_notification_history)
nacked_changes_nothing_example =
    nacked_changes_nothing backend session_package text_number text_number loads garbled_message
      play_tables play_tables garbled_refused

-- The renewal waits in the history, with its envelope under number 5.
abbrev waiting : GoogleNotification
waiting = record { message_id = 11; handled = false; payload = some 5; event_at = 90 * day }

abbrev backlog : PlayDb
backlog = record play_tables { google_notification_history = waiting ∷ [] }

abbrev loads_stored : Text → Option JsonValue
loads_stored payload =
    if payload == 5
    then some (object (field (ascii "data") (string (ascii "renewal")) no_fields))
    else none

waiting_decodes :
    stored_notification backend session_package text_number text_number loads loads_stored (some 5)
    ≡ some renewal_notice
unfolding stored_notification decode_notification
waiting_decodes = refl

replay_is_handled_example :
    is_handled 11
      (replay_unhandled_backlog backend session_package text_number text_number loads loads_stored
        backlog).1.google_notification_history
    ≡ true
replay_is_handled_example =
    replay_is_handled backend session_package text_number text_number loads loads_stored backlog 11
      waiting renewal_notice refl refl waiting_decodes refl refl

-- Token 70 and another one are due; the store knows the first only.
abbrev two_due : PlayDb
two_due = record play_tables {
  google_reconcile_queue = new_row 70 (90 * day) ∷ new_row 71 (91 * day) ∷ [];
}

abbrev fetch : PurchaseToken → Fetched
fetch token = if token == 70 then answered (some resource_70) [] else answered none []

two_due-IsKeyed : IsKeyed two_due.google_reconcile_queue
two_due-IsKeyed = (refl, (refl, tt))

both_claimed :
    claims_token 71
      (google_claim_due_reconciles
        (100 * day)
        (100 * day + reconcile_lease)
        reconcile_batch_limit
        two_due.google_reconcile_queue).0
    ≡ true
unfolding google_claim_due_reconciles lease_selected selected_tokens is_due
both_claimed = refl

drain_releases_example :
    is_released 71
      (drain_due_reconciles backend (100 * day) fetch length two_due).1.google_reconcile_queue
    ≡ true
drain_releases_example =
    drain_releases backend (100 * day) fetch length 71 two_due two_due-IsKeyed both_claimed

-- The store takes the acknowledgement of token 80.
abbrev takes_80 : Text → Acknowledgement
takes_80 token = if token == 80 then taken else reported

swept : (sweep_pending_acks takes_80 fetch tables).0 ≡ false
unfolding sweep_pending_acks
swept = refl

sweep_lem_example :
    is_owed 80 (sweep_pending_acks takes_80 fetch tables).1.payments
    ≡ (is_owed 80 tables.payments && not (acked takes_80 fetch 80))
sweep_lem_example = sweep_lem takes_80 fetch tables 80 swept

-- The client library raises for a purchase that is acknowledged already.
needing_80 : google_payment_tokens_needing_ack tables.payments ≡ (80, 99 * day) ∷ []
unfolding google_payment_tokens_needing_ack
needing_80 = refl

raise_blocks_sweep_example :
    ((sweep_pending_acks (λ _. ack_raised) fetch tables).0 ≡ true)
    × (is_owed 80 (sweep_pending_acks (λ _. ack_raised) fetch tables).1.payments
        ≡ is_owed 80 tables.payments)
raise_blocks_sweep_example =
    raise_blocks_sweep (λ _. ack_raised) fetch tables [] [] 80 80 (99 * day) needing_80
      (unfold sweep_tokens in refl) (unfold is_acked in refl) refl
