-- ===== src/Housekeeping.antt =====
-- backend.py: the deletes of maintenance, and the histories of store notifications.
pub mod Retention
pub mod Notifications
use session_pro_backend.Base.Units.{DateTime, revocation_retain_for, google_notification_retain_for}
use session_pro_backend.Db.Tables.{Text, User, Generation}
use session_pro_backend.Db.Monad.{Db}
use session_pro_backend.Prelude.{
  Bool, List, Option, [], false, if◌then◌else◌, is_none, leb, ltb, none, not, some, true, ℕ, ◌&&◌,
  ◌+◌, ◌==◌, ◌∷◌,
}

abbrev pub is_current_of : ℕ → List User → Bool
is_current_of id [] = false
is_current_of id (u ∷ us) = if u.current_generation_id == id then true else is_current_of id us

-- `revoked_at IS NOT NULL AND revoked_at <= now - REVOCATION_RETAIN_FOR`
abbrev pub aged_out : DateTime → Option DateTime → Bool
aged_out now none = false
aged_out now (some t) = leb (t + revocation_retain_for) now

abbrev pub is_expendable : DateTime → List User → Generation → Bool
is_expendable now users g = aged_out now g.revoked_at && not (is_current_of g.id users)

unfoldable pub delete_generations : DateTime → List User → List Generation → ℕ × List Generation
delete_generations now users [] = (0, [])
delete_generations now users (g ∷ gs) =
    let rest = delete_generations now users gs in
    if is_expendable now users g then (rest.0 + 1, rest.1) else (rest.0, g ∷ rest.1)

-- `delete_expired_revocations`: how many rows went, and the tables.
unfoldable pub delete_expired_revocations : DateTime → Db → ℕ × Db
unfolding delete_generations
delete_expired_revocations now db =
    let deleted = delete_generations now db.users db.generations in
    (deleted.0, record db { generations = deleted.1 })

-- `get_revocations_list`: the revoked generations, with a window those that were recorded after its
-- start.
abbrev pub revoked_after : Option DateTime → Option DateTime → Bool
revoked_after window none = false
revoked_after none (some r) = true
revoked_after (some t) (some r) = ltb t r

unfoldable pub get_revocations_list : Option DateTime → List Generation → List Generation
get_revocations_list window [] = []
get_revocations_list window (g ∷ gs) =
    let rest = get_revocations_list window gs in
    if revoked_after window g.revoked_at then g ∷ rest else rest

-- A row of `google_notification_history`.
pub record GoogleNotification : Type 0 where
  pub message_id : Text
  pub handled : Bool
  pub payload : Option Text
  pub event_at : DateTime

abbrev pub find_message : Text → List GoogleNotification → Option GoogleNotification
find_message id [] = none
find_message id (n ∷ ns) = if n.message_id == id then some n else find_message id ns

-- `google_add_notification_id`: a message that is on record stays as it is. 0 is the empty payload.
unfoldable pub google_add_notification_id :
    Text → DateTime → Text → List GoogleNotification → List GoogleNotification
google_add_notification_id id event_at payload history = elim (find_message id history) [
  | some _ ↦ history
  | none ↦
      record {
        message_id = id;
        handled = false;
        payload = if payload == 0 then none else some payload;
        event_at = event_at;
      }
      ∷ history
]

unfoldable pub mark_handled : Text → List GoogleNotification → List GoogleNotification
mark_handled id [] = []
mark_handled id (n ∷ ns) =
    (if n.message_id == id then record n { handled = true; payload = none } else n)
    ∷ mark_handled id ns

unfoldable pub delete_message : Text → List GoogleNotification → List GoogleNotification
delete_message id [] = []
delete_message id (n ∷ ns) =
    let rest = delete_message id ns in if n.message_id == id then rest else n ∷ rest

-- `google_set_notification_handled`: whether a row matched, and the history.
unfoldable pub google_set_notification_handled :
    Text → Bool → List GoogleNotification → Bool × List GoogleNotification
unfolding mark_handled delete_message
google_set_notification_handled id delete history = (
  not (is_none (find_message id history)),
  if delete then delete_message id history else mark_handled id history,
)

-- `GoogleNotificationMessageIDInDB`: whether the message is on record, and handled.
unfoldable pub google_notification_message_id_is_in_db :
    Text → List GoogleNotification → Bool × Bool
google_notification_message_id_is_in_db id history = elim (find_message id history) [
  | none ↦ (false, false)
  | some n ↦ (true, n.handled)
]

-- `delete_expired_google_notifications`: handled rows past the window.
unfoldable pub delete_expired_google_notifications :
    DateTime → List GoogleNotification → List GoogleNotification
delete_expired_google_notifications now [] = []
delete_expired_google_notifications now (n ∷ ns) =
    let rest = delete_expired_google_notifications now ns in
    if leb (n.event_at + google_notification_retain_for) now && n.handled then rest else n ∷ rest
