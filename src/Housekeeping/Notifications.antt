-- ===== src/Housekeeping/Notifications.antt =====
-- The history of Google's notifications: a message is handled once.
use session_pro_backend.Base.Units.{DateTime}
use session_pro_backend.Housekeeping.{
  GoogleNotification, google_add_notification_id, google_notification_message_id_is_in_db,
  google_set_notification_handled, find_message, mark_handled,
}
use session_pro_backend.Prelude.{
  List, false, true, ◌≡◌, Option-cases, [], ap, arith, if◌then◌else◌, inl, inr, none, refl, some,
  ◌==◌, ◌∙◌, ◌∷◌,
}
use session_pro_backend.Db.Tables.{Text}
use session_pro_backend.Queue.Table.{map_option}

abbrev pub as_handled : GoogleNotification → GoogleNotification
as_handled n = record n { handled = true; payload = none }

pub find_message-mark_handled :
    (id : Text) (ns : List GoogleNotification)
    → find_message id (mark_handled id ns) ≡ map_option as_handled (find_message id ns)
unfolding mark_handled
find_message-mark_handled id [] = refl
find_message-mark_handled id (n ∷ ns) = ground (arith, find_message-mark_handled id ns)

pub find_message-add :
    (id payload : Text) (event_at : DateTime) (ns : List GoogleNotification)
    → (n : GoogleNotification) × (find_message id
          (google_add_notification_id id event_at payload ns)
        ≡ some n)
unfolding google_add_notification_id
find_message-add id payload event_at ns = elim (Option-cases (find_message id ns)) [
  | inl new ↦ (
    record {
      message_id = id;
      handled = false;
      payload = if payload == 0 then none else some payload;
      event_at = event_at;
    },
    ground (arith, new),
  )
  | inr (n, known) ↦ (n, ground (arith, known))
]

-- What a message that is on record as handled answers.
pub once_handled :
    (id payload : Text) (event_at : DateTime) (ns : List GoogleNotification)
    (n : GoogleNotification)
    → find_message id ns ≡ some n
    → n.handled ≡ true
    → (google_notification_message_id_is_in_db id ns ≡ (true, true))
      × (google_add_notification_id id event_at payload ns ≡ ns)
unfolding google_notification_message_id_is_in_db google_add_notification_id
once_handled id payload event_at ns n found handled = (ground arith, ground arith)

-- A message that was put on record and then marked handled is known as handled, and its redelivery
-- leaves the history as it is.
pub notification_handled_once :
    (id payload payload' : Text) (event_at event_at' : DateTime) (history : List GoogleNotification)
    → let handled =
        (google_set_notification_handled id false
          (google_add_notification_id id event_at payload history)).1 in
      (google_notification_message_id_is_in_db id handled ≡ (true, true))
      × (google_add_notification_id id event_at' payload' handled ≡ handled)
notification_handled_once id payload payload' event_at event_at' history =
    let added = google_add_notification_id id event_at payload history in
    let (n, found) = find_message-add id payload event_at history in
    unfold google_set_notification_handled in
    once_handled id payload' event_at' (mark_handled id added) (as_handled n)
      (find_message-mark_handled id added ∙ ap (map_option as_handled) found) refl
