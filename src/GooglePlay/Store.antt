-- ===== src/GooglePlay/Store.antt =====
-- The tables that Google's notifications and reconciles work on: those of the payments, the
-- reconcile queue, and the history of notifications. A transaction over them returns a value and
-- the tables that it leaves, or an error that rolls everything back.
use session_pro_backend.Base.Errors.{Result, ok, err}
use session_pro_backend.Base.Units.{DateTime}
use session_pro_backend.Db.Monad.{Db, Tx}
use session_pro_backend.GooglePlay.{SinkMessage}
use session_pro_backend.Housekeeping.{GoogleNotification}
use session_pro_backend.Prelude.{List}
use session_pro_backend.Queue.{PurchaseToken, Queue, google_enqueue_reconcile}

pub record PlayDb : Type 0 where
  pub db : Db
  pub google_reconcile_queue : Queue
  pub google_notification_history : List GoogleNotification

abbrev pub PlayTx : Type 0 → Type 0
PlayTx A = PlayDb → Result (A × PlayDb)

-- A transaction whose code reports into an error sink: the messages are what it returns.
abbrev pub Sunk : Type 0
Sunk = PlayTx (List SinkMessage)

abbrev pub done : {A : Type 0} → A → PlayTx A
done a play = ok (a, play)

infixl 5 ◌▹◌
-- One part of a transaction after another.
abbrev pub ◌▹◌ : {A B : Type 0} → PlayTx A → (A → PlayTx B) → PlayTx B
◌▹◌ m f play = elim (m play) [ ok (a, play') ↦ f a play' | err e ↦ err e ]

-- A statement on the payments' tables.
abbrev pub on_tables : {A : Type 0} → Tx A → PlayTx A
on_tables m play = elim (m play.db) [
  | ok (a, db') ↦ ok (a, record play { db = db' })
  | err e ↦ err e
]

abbrev pub enqueue : PurchaseToken → DateTime → PlayTx (Unit {0})
enqueue token eligible_at play = ok (
  tt,
  record play {
    google_reconcile_queue = google_enqueue_reconcile token eligible_at play.google_reconcile_queue;
  },
)
