-- ===== src/GooglePlay/Replay/Handled.antt =====
-- providers/google_play/notifications.py: which messages of the backlog a replay handles.
use session_pro_backend.Db.Monad.{Env}
use session_pro_backend.Db.Tables.{Text}
use session_pro_backend.GooglePlay.{ParsedNotification, SinkMessage, subscription_payload}
use session_pro_backend.GooglePlay.Handle.{
  handle_parsed_notification, is_sub_revoked, notification_body, process_notification_message,
  queue_subscription,
}
use session_pro_backend.GooglePlay.Handle.Delivery.{
  handled_is_marked, is_handled, unhandled_is_cancelled,
}
use session_pro_backend.GooglePlay.Store.{PlayDb}
use session_pro_backend.Housekeeping.{
  GoogleNotification, find_message, google_notification_message_id_is_in_db, mark_handled,
}
use session_pro_backend.Prelude.{
  Bool, Bool-cases, List, Option-cases, [], arith, false, inl, inr, none, refl, some, true, ◌∷◌,
  ◌≡◌, ◌⊎◌, ap, Option, ◌==◌, ◌∙◌,
}
use session_pro_backend.Message.{Bytes}
use session_pro_backend.Json.{JsonValue}
use session_pro_backend.GooglePlay.Replay.{
  google_get_unhandled_notification_iterator, replay_row, replay_rows, replay_unhandled_backlog,
  stored_notification,
}

-- A message is on record.
abbrev is_known : Text → List GoogleNotification → Bool
is_known id history = elim (find_message id history) [ none ↦ false | some _ ↦ true ]

known_mark :
    (id j : Text) (ns : List GoogleNotification) → is_known j (mark_handled id ns) ≡ is_known j ns
unfolding mark_handled
known_mark id j [] = refl
known_mark id j (n ∷ ns) = ground (arith, known_mark id j ns)

handled_mark :
    (id j : Text) (ns : List GoogleNotification)
    → is_handled j ns ≡ true
    → is_handled j (mark_handled id ns) ≡ true
unfolding mark_handled
handled_mark id j [] h = ground arith
handled_mark id j (n ∷ ns) h = ground (arith, handled_mark id j ns)

marked_is_handled :
    (id : Text) (ns : List GoogleNotification)
    → is_known id ns ≡ true
    → is_handled id (mark_handled id ns) ≡ true
unfolding mark_handled
marked_is_handled id [] h = ground arith
marked_is_handled id (n ∷ ns) h = ground (arith, marked_is_handled id ns)

module _ (env : Env) (id : Text) (parse : ParsedNotification) where
  -- Processing a message leaves the history, or marks the message in it.
  process_history :
      (play play' : PlayDb) (messages : List SinkMessage) (handled : Bool)
      → process_notification_message env id parse play ≡ (handled, messages, play')
      → (play'.google_notification_history ≡ play.google_notification_history)
        ⊎ (play'.google_notification_history ≡ mark_handled id play.google_notification_history)
  process_history play play' messages false h = inl (
      ap (λ s. s.google_notification_history)
        (unhandled_is_cancelled env id parse play play' messages h))
  process_history play play' messages true h =
      elim (Option-cases (find_message id play.google_notification_history)) [
        | inr (n, found) ↦ inr (handled_is_marked env id parse play play' messages n found h)
        | inl absent ↦
            unfold process_notification_message google_notification_message_id_is_in_db in
            inl (ground arith)
      ]

  -- A subscription's notification other than a revocation is always handled.
  plain_is_handled :
      (play : PlayDb)
      → parse.payload_type ≡ subscription_payload
      → is_sub_revoked parse.sub_type ≡ false
      → (process_notification_message env id parse play).0 ≡ true
  unfolding process_notification_message handle_parsed_notification notification_body
      queue_subscription google_notification_message_id_is_in_db
  plain_is_handled play about plain =
      elim (Option-cases (find_message id play.google_notification_history)) [
        | inl absent ↦ ground arith
        | inr (n, found) ↦ elim (Bool-cases n.handled) [
          | inl known ↦ ground arith
          | inr fresh ↦ ground arith
        ]
      ]

abbrev Listed : Text → Option Text → List (Text × Option Text) → Type 0
Listed id payload [] = ⊥
Listed id payload (row ∷ rows) = (row ≡ (id, payload)) ⊎ Listed id payload rows

unhandled_is_Listed :
    (id : Text) (n : GoogleNotification) (ns : List GoogleNotification)
    → find_message id ns ≡ some n
    → n.handled ≡ false
    → Listed id n.payload (google_get_unhandled_notification_iterator ns)
unfolding google_get_unhandled_notification_iterator
unhandled_is_Listed id n [] found fresh = ground arith
unhandled_is_Listed id n (m ∷ ns) found fresh = elim (Bool-cases (m.message_id == id)) [
  | inl same ↦
      let one : m ≡ n = ground arith in
      let head : (m.message_id, m.payload) ≡ (id, n.payload) = ground arith in
      rw (ap (λ x. x.handled) one ∙ fresh) (inl head)
  | inr other ↦
      let rest = unhandled_is_Listed id n ns (ground arith) fresh in
      elim (Bool-cases m.handled) [
        | inl handled ↦ rw handled rest
        | inr unhandled ↦ rw unhandled (inr rest)
      ]
]

module _ (env : Env) (package_name : Bytes) (number stored_payload : Bytes → Text)
    (loads : Bytes → Option JsonValue) (loads_stored : Text → Option JsonValue) where
  abbrev notification_of : Option Text → Option ParsedNotification
  notification_of = stored_notification env package_name number stored_payload loads loads_stored

  abbrev after_row : Text × Option Text → PlayDb → PlayDb
  after_row row play =
      (replay_row env package_name number stored_payload loads loads_stored row play).1

  abbrev after_rows : List (Text × Option Text) → PlayDb → PlayDb
  after_rows rows play =
      (replay_rows env package_name number stored_payload loads loads_stored rows play).1

  abbrev after_backlog : PlayDb → PlayDb
  after_backlog play =
      (replay_unhandled_backlog env package_name number stored_payload loads loads_stored play).1

  row_history :
      (row : Text × Option Text) (play : PlayDb)
      → ((after_row row play).google_notification_history ≡ play.google_notification_history)
        ⊎ ((after_row row play).google_notification_history
            ≡ mark_handled row.0 play.google_notification_history)
  unfolding replay_row
  row_history row play = elim (Option-cases (notification_of row.1)) [
    | inl skipped ↦ inl (ground arith)
    | inr (parse, decodes) ↦
        let run = process_notification_message env row.0 parse play in
        elim (process_history env row.0 parse play run.2 run.1 run.0 refl) [
          | inl same ↦ inl (ground (arith, same))
          | inr marked ↦ inr (ground (arith, marked))
        ]
  ]

  row_keeps_known :
      (row : Text × Option Text) (play : PlayDb) (j : Text)
      → is_known j play.google_notification_history ≡ true
      → is_known j (after_row row play).google_notification_history ≡ true
  row_keeps_known row play j h = elim (row_history row play) [
    | inl same ↦ rw same h
    | inr marked ↦ rw marked (known_mark row.0 j play.google_notification_history ∙ h)
  ]

  row_keeps_handled :
      (row : Text × Option Text) (play : PlayDb) (j : Text)
      → is_handled j play.google_notification_history ≡ true
      → is_handled j (after_row row play).google_notification_history ≡ true
  row_keeps_handled row play j h = elim (row_history row play) [
    | inl same ↦ rw same h
    | inr marked ↦ rw marked (handled_mark row.0 j play.google_notification_history h)
  ]

  -- A replay never takes back that a message was handled.
  pub rows_keep_handled :
      (rows : List (Text × Option Text)) (play : PlayDb) (j : Text)
      → is_handled j play.google_notification_history ≡ true
      → is_handled j (after_rows rows play).google_notification_history ≡ true
  unfolding replay_rows
  rows_keep_handled [] play j h = h
  rows_keep_handled (row ∷ rows) play j h =
      rows_keep_handled rows (after_row row play) j (row_keeps_handled row play j h)

  module _ (id : Text) (payload : Option Text) (parse : ParsedNotification)
      (decodes : notification_of payload ≡ some parse)
      (about : parse.payload_type ≡ subscription_payload)
      (plain : is_sub_revoked parse.sub_type ≡ false) where
    row_is_handled :
        (play : PlayDb)
        → is_known id play.google_notification_history ≡ true
        → is_handled id (after_row (id, payload) play).google_notification_history ≡ true
    unfolding replay_row
    row_is_handled play known =
        let run = process_notification_message env id parse play in
        let answer = plain_is_handled env id parse play about plain in
        elim (Option-cases (find_message id play.google_notification_history)) [
          | inl absent ↦ ground arith
          | inr (n, found) ↦
              let marked = handled_is_marked env id parse play run.2 run.1 n found (ground arith) in
              let done = marked_is_handled id play.google_notification_history known in
              let same : after_row (id, payload) play ≡ run.2 = ground (arith, decodes) in
              rw same (rw marked done)
        ]

    backlog_row_handled :
        (rows : List (Text × Option Text)) (play : PlayDb)
        → Listed id payload rows
        → is_known id play.google_notification_history ≡ true
        → is_handled id (after_rows rows play).google_notification_history ≡ true
    unfolding replay_rows
    backlog_row_handled [] play listed known = elim listed [ ]
    backlog_row_handled (row ∷ rows) play (inl here) known =
        rows_keep_handled rows (after_row row play) id (rw here (row_is_handled play known))
    backlog_row_handled (row ∷ rows) play (inr there) known =
        backlog_row_handled rows (after_row row play) there (row_keeps_known row play id known)

  -- A message that is on record as unhandled, and whose payload is that of a subscription's
  -- notification other than a revocation, is handled by a replay of the backlog, whatever the
  -- other messages of the backlog are.
  pub replay_is_handled :
      (play : PlayDb) (id : Text) (n : GoogleNotification) (parse : ParsedNotification)
      → find_message id play.google_notification_history ≡ some n
      → n.handled ≡ false
      → notification_of n.payload ≡ some parse
      → parse.payload_type ≡ subscription_payload
      → is_sub_revoked parse.sub_type ≡ false
      → is_handled id (after_backlog play).google_notification_history ≡ true
  unfolding replay_unhandled_backlog
  replay_is_handled play id n parse found fresh decodes about plain =
      backlog_row_handled id n.payload parse decodes about plain
        (google_get_unhandled_notification_iterator play.google_notification_history) play
        (unhandled_is_Listed id n play.google_notification_history found fresh)
        (ground (arith, found))
