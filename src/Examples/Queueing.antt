-- ===== src/Examples/Queueing.antt =====
-- The reconcile queue on a small table.
use session_pro_backend.Queue.Trace.{
  enqueue, claim, failed, Event, arrivals, done_after_arrivals, late_done_deletes, done,
  failed_after_arrivals, due_lease, revision_of, run,
}
use session_pro_backend.Base.Units.{DateTime}
use session_pro_backend.Queue.Table.{IsKeyed, map_option}
use session_pro_backend.Prelude.{
  List, [], arith, false, if◌then◌else◌, none, refl, some, true, ◌+◌, ◌==◌, ◌∷◌, ◌≡◌,
}
use session_pro_backend.Queue.{
  PurchaseToken, Queue, QueueRow, claim_of, google_claim_due_reconciles, google_reconcile_done,
  google_reconcile_failed, lease_selected, selected_tokens, find, is_due,
}
use session_pro_backend.Queue.Claims.{claims_exclusive, claims_token}

abbrev queue_row : PurchaseToken → DateTime → QueueRow
queue_row t e = record {
  payment_token = t;
  eligible_at = e;
  leased_until = none;
  revision = 2;
  attempts = 0;
  last_error = none;
  parked_at = none;
}

abbrev three_rows : Queue
three_rows = queue_row 7 30 ∷ queue_row 8 10 ∷ queue_row 9 20 ∷ []

three_rows-IsKeyed : IsKeyed three_rows
three_rows-IsKeyed = (refl, (refl, (refl, tt)))

-- A notification arrives while a worker holds the row.
abbrev meanwhile : List Event
meanwhile =
    claim 40 90 5 ∷ enqueue 8 50 ∷ enqueue 9 60 ∷ failed (claim_of (queue_row 7 30)) 99 1 true ∷ []

done_after_arrivals_example :
    let finish = google_reconcile_done (claim_of (queue_row 8 10)) (run meanwhile three_rows) in
    (finish.0 ≡ (arrivals 8 meanwhile == 0))
    × (revision_of (find 8 finish.1)
        ≡ (if arrivals 8 meanwhile == 0 then none else some (2 + arrivals 8 meanwhile)))
    × (due_lease (find 8 finish.1) ≡ none)
done_after_arrivals_example =
    done_after_arrivals 8 meanwhile three_rows (queue_row 8 10) three_rows-IsKeyed tt refl

failed_after_arrivals_example :
    let before = find 8 (run meanwhile three_rows) in
    let after =
      find 8 (
        google_reconcile_failed
          (claim_of (queue_row 8 10))
          500
          1
          true
          (run meanwhile three_rows)) in
    (map_option (λ r. r.eligible_at) after ≡ map_option (λ r. r.eligible_at) before)
    × (map_option (λ r. r.parked_at) after ≡ map_option (λ r. r.parked_at) before)
    × (due_lease after ≡ none)
failed_after_arrivals_example =
    failed_after_arrivals 8 meanwhile three_rows (queue_row 8 10) 500 1 true three_rows-IsKeyed tt
      refl (omega arith)

-- The row is at its first revision, and two workers hold it: the lease of the one has run out.
abbrev first_row : QueueRow
first_row = record (queue_row 8 10) { revision = 0 }

abbrev first_rows : Queue
first_rows = queue_row 7 30 ∷ first_row ∷ []

late_done_deletes_example :
    find 8
      (run (done (claim_of first_row) ∷ enqueue 8 95 ∷ done (claim_of first_row) ∷ []) first_rows)
    ≡ none
late_done_deletes_example =
    late_done_deletes 8 (claim_of first_row) (claim_of first_row) first_row 95 first_rows
      (refl, (refl, tt)) refl refl refl refl refl

token_8_claimed : claims_token 8 (google_claim_due_reconciles 40 90 2 three_rows).0 ≡ true
unfolding google_claim_due_reconciles selected_tokens is_due lease_selected
token_8_claimed = refl

claims_exclusive_example :
    claims_token 8
      (google_claim_due_reconciles 60 120 5 (google_claim_due_reconciles 40 90 2 three_rows).1).0
    ≡ false
claims_exclusive_example =
    claims_exclusive 40 90 2 three_rows three_rows-IsKeyed 60 120 5 8 (omega arith) token_8_claimed
