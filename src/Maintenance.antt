-- ===== src/Maintenance.antt =====
-- maintenance.py: the loop that runs the periodic tasks. An instant is one of the monotonic clock,
-- in milliseconds; a wake is one pass of the loop over the tasks.
pub mod Wakes
use session_pro_backend.Prelude.{
  Bool, List, Option, [], false, leb, none, some, suc, true, zero, ℕ, ◌-◌, ◌∷◌, if◌then◌else◌,
}
use session_pro_backend.Base.Units.{DateTime}
use session_pro_backend.Db.Monad.{Db}
use session_pro_backend.GooglePlay.Store.{PlayDb}
use session_pro_backend.Housekeeping.{
  delete_expired_google_notifications, delete_expired_revocations,
}
use session_pro_backend.AppStore.{delete_expired_uuids}

abbrev pub prune_interval_ms : ℕ
prune_interval_ms = 600000

abbrev pub apple_catchup_interval_ms : ℕ
apple_catchup_interval_ms = 300000

abbrev pub credit_drain_interval_ms : ℕ
credit_drain_interval_ms = 120000

abbrev pub google_reconcile_interval_ms : ℕ
google_reconcile_interval_ms = 60000

-- A task on the state of the program: `run` says whether it raises, and what it leaves either way.
pub record Task (S : Type 0) : Type 0 where
  pub interval_ms : ℕ
  pub run : S → Bool × S
  pub last_run_ms : Option ℕ

module _ {S : Type 0} where
  -- `Task.due`; the monotonic clock never falls behind a task's last run.
  unfoldable pub due : ℕ → Task S → Bool
  due now t = elim t.last_run_ms [ none ↦ true | some last ↦ leb t.interval_ms (now - last) ]

  abbrev pub ran_at : ℕ → Task S → Task S
  ran_at now t = record t { last_run_ms = some now }

  -- The `for` loop of a wake. `tests` is how many more tests of `stop` find it unset; what is left
  -- of it is returned with the tasks and the state.
  unfoldable pub run_tasks : ℕ → List (Task S) → ℕ → S → List (Task S) × ℕ × S
  unfolding due
  run_tasks now [] tests s = ([], tests, s)
  run_tasks now (t ∷ ts) zero s = (t ∷ ts, zero, s)
  run_tasks now (t ∷ ts) (suc tests) s = elim (due now t) [
    | false ↦ let (rest, left, s') = run_tasks now ts tests s in (t ∷ rest, left, s')
    | true ↦
        let (raised, s1) = t.run s in
        let (rest, left, s') = run_tasks now ts tests s1 in (ran_at now t ∷ rest, left, s')
  ]

  -- `loop`, as far as the given readings of the clock.
  unfoldable pub loop : List ℕ → List (Task S) → ℕ → S → List (Task S) × S
  unfolding run_tasks
  loop [] tasks tests s = (tasks, s)
  loop (now ∷ nows) tasks zero s = (tasks, s)
  loop (now ∷ nows) tasks (suc tests) s =
      let (tasks', left, s') = run_tasks now tasks tests s in loop nows tasks' left s'

-- `_prune` at an instant: the three deletes, each left out where its transaction fails.
unfoldable pub prune : Bool → Bool → Bool → DateTime → PlayDb → PlayDb
unfolding delete_expired_google_notifications delete_expired_revocations delete_expired_uuids
prune revocations_fail apple_fails google_fails now play =
    let db = play.db in
    let db1 : Db = if revocations_fail then db else (delete_expired_revocations now db).1 in
    let db2 : Db = record db1 {
      apple_notification_uuid_history =
          if apple_fails
          then db1.apple_notification_uuid_history
          else (delete_expired_uuids now db1.apple_notification_uuid_history).1;
    } in
    record play {
      db = db2;
      google_notification_history =
          if google_fails
          then play.google_notification_history
          else delete_expired_google_notifications now play.google_notification_history;
    }
