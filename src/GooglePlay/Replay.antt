-- ===== src/GooglePlay/Replay.antt =====
-- providers/google_play/notifications.py: the replay of the notifications that were put on record
-- and never handled, and backend.py: the query that finds them.
pub mod Handled
use session_pro_backend.Db.Monad.{Env}
use session_pro_backend.Db.Tables.{Text}
use session_pro_backend.GooglePlay.Handle.{decoded, process_notification_message}
use session_pro_backend.GooglePlay.Store.{PlayDb}
use session_pro_backend.Housekeeping.{GoogleNotification}
use session_pro_backend.Json.{JsonValue, get_field, object, string}
use session_pro_backend.Message.{Bytes, ascii}
use session_pro_backend.Prelude.{List, Option, [], if◌then◌else◌, none, some, ℕ, ◌+◌, ◌∷◌}
use session_pro_backend.GooglePlay.{ParsedNotification}

-- `google_get_unhandled_notification_iterator`: the id and the payload of each row.
unfoldable pub google_get_unhandled_notification_iterator :
    List GoogleNotification → List (Text × Option Text)
google_get_unhandled_notification_iterator [] = []
google_get_unhandled_notification_iterator (n ∷ ns) =
    let rest = google_get_unhandled_notification_iterator ns in
    if n.handled then rest else (n.message_id, n.payload) ∷ rest

-- The text under `data` in the envelope that was stored, where it has one.
unfoldable pub envelope_data : Option JsonValue → Option Bytes
unfolding get_field
envelope_data (some (object stored)) = elim (get_field (ascii "data") stored) [
  | some (string text) ↦ some text
  | _ ↦ none
]
envelope_data _ = none

-- `loads_stored` is `json.loads` of a payload that the history keeps, `loads` that of the text in
-- its envelope.
module _ (env : Env) (package_name : Bytes) (number stored_payload : Bytes → Text)
    (loads : Bytes → Option JsonValue) (loads_stored : Text → Option JsonValue) where
  -- The notification that a row holds, where it can be replayed.
  unfoldable pub stored_notification : Option Text → Option ParsedNotification
  unfolding envelope_data
  stored_notification none = none
  stored_notification (some payload) = elim (envelope_data (loads_stored payload)) [
    | none ↦ none
    | some text ↦ decoded env package_name number stored_payload loads text
  ]

  unfoldable pub replay_row : Text × Option Text → PlayDb → ℕ × PlayDb
  unfolding process_notification_message stored_notification
  replay_row (id, payload) play = elim (stored_notification payload) [
    | none ↦ (0, play)
    | some parse ↦
        let (handled, _, play') = process_notification_message env id parse play in
        (if handled then 1 else 0, play')
  ]

  unfoldable pub replay_rows : List (Text × Option Text) → PlayDb → ℕ × PlayDb
  unfolding replay_row
  replay_rows [] play = (0, play)
  replay_rows (row ∷ rows) play =
      let (replayed, play') = replay_row row play in
      let (rest, play'') = replay_rows rows play' in (replayed + rest, play'')

  -- `_replay_unhandled_backlog`: how many were handled, and the tables.
  unfoldable pub replay_unhandled_backlog : PlayDb → ℕ × PlayDb
  unfolding google_get_unhandled_notification_iterator replay_rows
  replay_unhandled_backlog play =
      replay_rows (google_get_unhandled_notification_iterator play.google_notification_history) play
