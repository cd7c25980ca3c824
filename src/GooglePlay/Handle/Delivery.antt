-- ===== src/GooglePlay/Handle/Delivery.antt =====
-- providers/google_play/notifications.py: what the deliveries of a message leave.
use session_pro_backend.Queue.Table.{upserted, find-enqueue}
use session_pro_backend.Base.Errors.{ok, Result-cases}
use session_pro_backend.Db.Monad.{Env, Db}
use session_pro_backend.Db.Tables.{Text}
use session_pro_backend.GooglePlay.{
  ParsedNotification, SinkMessage, ParsedNotificationPayloadType, nil_payload,
  one_time_product_payload, subscription_payload, test_payload, voided_payload,
}
use session_pro_backend.GooglePlay.Handle.{
  guarded, handle_parsed_notification, process_notification_message, notification_body,
  instant_of_ms, is_sub_revoked, queue_subscription,
}
use session_pro_backend.GooglePlay.Store.{PlayDb, Sunk}
use session_pro_backend.Housekeeping.{
  GoogleNotification, find_message, google_notification_message_id_is_in_db, mark_handled,
  google_set_notification_handled,
}
use session_pro_backend.Prelude.{
  Bool, Bool-cases, List, List-cases, Option-cases, [], arith, false, none, some, ◌∷◌, ◌≡◌, inl,
  inr, refl, not, true, if◌then◌else◌, ltb, ◌+◌, ◌≤◌,
}
use session_pro_backend.Base.Units.{DateTime}
use session_pro_backend.Revoke.{add_google_revocation}
use session_pro_backend.Queue.{
  google_enqueue_reconcile, PurchaseToken, Queue, QueueRow, find, requeue,
}

-- A handling that answers false is cancelled, one that answers true is not.
guarded-cancel : (m : Sunk) (play : PlayDb) → (guarded m play).cancel ≡ not (guarded m play).result
guarded-cancel m play = elim (Result-cases (m play)) [
  | inl (e, failed) ↦ ground arith
  | inr ((messages, play'), run) ↦ elim (List-cases messages) [
    | inl no_message ↦ ground arith
    | inr (x, xs, some_message) ↦ ground arith
  ]
]

-- The queue's row of a subscription's token, and the history, after the notification's body.
pub queue_subscription-tables :
    (env : Env) (parse : ParsedNotification) (play play' : PlayDb) (messages : List SinkMessage)
    → queue_subscription env parse play ≡ ok (messages, play')
    → (e : DateTime) × (e ≤ env.utc_now play.db.clock_reads)
      × (play'.google_reconcile_queue
          ≡ google_enqueue_reconcile parse.purchase_token e play.google_reconcile_queue)
      × (play'.google_notification_history ≡ play.google_notification_history)
unfolding queue_subscription
queue_subscription-tables env parse play play' messages h =
    let now = env.utc_now play.db.clock_reads in
    let at = instant_of_ms parse.event_time_ms in
    let e = if ltb at now then at else now in
    let read : Db = record play.db { clock_reads = play.db.clock_reads + 1 } in
    let early : e ≤ now = ground arith in
    elim (Bool-cases (is_sub_revoked parse.sub_type)) [
      | inr other ↦ (e, early, ground arith, ground arith)
      | inl revoking ↦
          elim (Result-cases (add_google_revocation env parse.purchase_token at read)) [
            | inl (failure, failed) ↦ ground arith
            | inr ((matched, db1), ran) ↦ (e, early, ground arith, ground arith)
          ]
    ]

history_kept :
    (env : Env) (parse : ParsedNotification) (play play' : PlayDb) (messages : List SinkMessage)
    → notification_body env parse play ≡ ok (messages, play')
    → play'.google_notification_history ≡ play.google_notification_history
unfolding notification_body
history_kept env parse play play' messages h = kept parse.payload_type refl
  where
    kept :
        (t : ParsedNotificationPayloadType)
        → parse.payload_type ≡ t
        → play'.google_notification_history ≡ play.google_notification_history
    kept subscription_payload same =
        let (e, early, queued, same_history) =
          queue_subscription-tables env parse play play' messages (ground arith) in
        same_history
    kept nil_payload same = ground arith
    kept voided_payload same = ground arith
    kept test_payload same = ground arith
    kept one_time_product_payload same = ground arith

-- A token that was put into the queue has a row, due no later than it was asked for.
pub enqueued_is_due :
    (token : PurchaseToken) (e : DateTime) (q : Queue)
    → (row : QueueRow) × (find token (google_enqueue_reconcile token e q) ≡ some row)
      × (row.eligible_at ≤ e)
unfolding requeue
enqueued_is_due token e q = (
  upserted token e (find token q),
  ground (arith, find-enqueue token token e q),
  elim (Option-cases (find token q)) [ inl new ↦ ground arith | inr (row, there) ↦ ground arith ],
)

pub mark_handled-twice :
    (id : Text) (ns : List GoogleNotification)
    → mark_handled id (mark_handled id ns) ≡ mark_handled id ns
unfolding mark_handled
mark_handled-twice id [] = refl
mark_handled-twice id (n ∷ ns) = ground (arith, mark_handled-twice id ns)

abbrev pub is_handled : Text → List GoogleNotification → Bool
is_handled id history = elim (find_message id history) [ none ↦ false | some n ↦ n.handled ]

module _ (env : Env) (id : Text) (parse : ParsedNotification) where
  -- Where processing does not handle a message, it changes no table.
  pub unhandled_is_cancelled :
      (play play' : PlayDb) (messages : List SinkMessage)
      → process_notification_message env id parse play ≡ (false, messages, play')
      → play' ≡ play
  unfolding process_notification_message handle_parsed_notification
      google_notification_message_id_is_in_db
  unhandled_is_cancelled play play' messages h =
      let body = guarded-cancel (notification_body env parse) play in
      elim (Option-cases (find_message id play.google_notification_history)) [
        | inl absent ↦ ground arith
        | inr (n, found) ↦ elim (Bool-cases n.handled) [
          | inl known ↦ ground arith
          | inr fresh ↦ elim (Bool-cases (guarded (notification_body env parse) play).result) [
            | inl handled ↦ ground arith
            | inr failed ↦ ground arith
          ]
        ]
      ]

  -- What a handled message that was on record leaves: it is marked in the history.
  pub handled_is_marked :
      (play play' : PlayDb) (messages : List SinkMessage) (n : GoogleNotification)
      → find_message id play.google_notification_history ≡ some n
      → process_notification_message env id parse play ≡ (true, messages, play')
      → play'.google_notification_history ≡ mark_handled id play.google_notification_history
  unfolding process_notification_message handle_parsed_notification
      google_notification_message_id_is_in_db google_set_notification_handled
  handled_is_marked play play' messages n found h = elim (Bool-cases n.handled) [
    | inl known ↦ ground arith
    | inr fresh ↦ elim (Result-cases (notification_body env parse play)) [
      | inl (e, failed) ↦ ground arith
      | inr ((said, play1), ran) ↦
          let kept = history_kept env parse play play1 said ran in
          elim (List-cases said) [
            | inl no_message ↦ ground (arith, kept)
            | inr (x, xs, some_message) ↦ ground arith
          ]
    ]
  ]

  -- Where processing handles a subscription's notification that was on record, unhandled, the
  -- queue has a row for its token that is due no later than the clock says.
  pub queued_by :
      (play play' : PlayDb) (messages : List SinkMessage) (n : GoogleNotification)
      → parse.payload_type ≡ subscription_payload
      → find_message id play.google_notification_history ≡ some n
      → n.handled ≡ false
      → process_notification_message env id parse play ≡ (true, messages, play')
      → (row : QueueRow) × (find parse.purchase_token play'.google_reconcile_queue ≡ some row)
        × (row.eligible_at ≤ env.utc_now play.db.clock_reads)
  unfolding process_notification_message handle_parsed_notification notification_body
      google_notification_message_id_is_in_db google_set_notification_handled
  queued_by play play' messages n about found fresh h =
      elim (Result-cases (queue_subscription env parse play)) [
        | inl (e, failed) ↦ ground arith
        | inr ((said, play1), ran) ↦
            let (e, early, queued, kept) =
              queue_subscription-tables env parse play play1 said ran in
            let token = parse.purchase_token in
            let q = play.google_reconcile_queue in
            let (row, there, due) = enqueued_is_due token e q in
            elim (List-cases said) [
              | inl no_message ↦ (row, ground (arith, queued, there), omega (arith, due, early))
              | inr (x, xs, some_message) ↦ ground arith
            ]
      ]
