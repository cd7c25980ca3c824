-- ===== src/Queue/Trace.antt =====
-- Interleavings on the reconcile queue: what a worker's completed claim discharges.
use session_pro_backend.Queue.{
  Queue, GoogleReconcileClaim, PurchaseToken, fail_row, google_claim_due_reconciles,
  google_enqueue_reconcile, google_reconcile_done, google_reconcile_failed, google_unpark_reconcile,
  selected_tokens, unpark, QueueRow, find, requeue, claim_of, update_row,
}
use session_pro_backend.Prelude.{
  Bool, List, [], arith, if◌then◌else◌, refl, suc, ℕ, ◌==◌, ◌∷◌, ◌≢◌, some, ◌+◌, ◌≡◌, Option, ap,
  none, ◌∙◌, ◌<◌,
}
use session_pro_backend.Base.Units.{DateTime}
use session_pro_backend.Queue.Table.{
  IsKeyed, done-IsKeyed, enqueue-IsKeyed, lease_selected-IsKeyed, update_row-IsKeyed, find-done,
  find-enqueue, find-lease_selected, find-update_row, after_done, deletes, done-deletes, find-token,
  map_option,
}

-- One transaction on the queue.
pub data Event : Type 0 where
  enqueue : PurchaseToken → DateTime → Event
  claim : DateTime → DateTime → ℕ → Event
  done : GoogleReconcileClaim → Event
  failed : GoogleReconcileClaim → DateTime → ℕ → Bool → Event
  unparked : PurchaseToken → DateTime → Event

abbrev pub step : Event → Queue → Queue
step (enqueue t e) q = google_enqueue_reconcile t e q
step (claim now until limit) q = (google_claim_due_reconciles now until limit q).1
step (done c) q = (google_reconcile_done c q).1
step (failed c retry_at error park) q = google_reconcile_failed c retry_at error park q
step (unparked t e) q = (google_unpark_reconcile t e q).1

abbrev pub run : List Event → Queue → Queue
run [] q = q
run (e ∷ es) q = run es (step e q)

-- How many notifications for the token arrive.
abbrev pub arrivals : PurchaseToken → List Event → ℕ
arrivals t [] = 0
arrivals t (enqueue u e ∷ es) = if u == t then suc (arrivals t es) else arrivals t es
arrivals t (_ ∷ es) = arrivals t es

-- No worker completes a claim on the token.
abbrev pub NoneDone : PurchaseToken → List Event → Type 0
NoneDone t [] = Unit
NoneDone t (done c ∷ es) = (c.payment_token ≢ t) × NoneDone t es
NoneDone t (_ ∷ es) = NoneDone t es

step-IsKeyed : (e : Event) (q : Queue) → IsKeyed q → IsKeyed (step e q)
step-IsKeyed (enqueue t e) q k = enqueue-IsKeyed t e q k
step-IsKeyed (claim now until limit) q k =
    unfold google_claim_due_reconciles in
    lease_selected-IsKeyed (selected_tokens now limit q) until q k
step-IsKeyed (done c) q k = done-IsKeyed c q k
step-IsKeyed (failed c retry_at error park) q k =
    unfold google_reconcile_failed in
    update_row-IsKeyed c.payment_token (fail_row c retry_at error park) q
      (λ r. unfold fail_row in refl) k
step-IsKeyed (unparked t e) q k =
    unfold google_unpark_reconcile in update_row-IsKeyed t (unpark e) q (λ r. ground arith) k

-- The transactions keep one row for each token.
pub run-IsKeyed : (es : List Event) (q : Queue) → IsKeyed q → IsKeyed (run es q)
run-IsKeyed [] q k = k
run-IsKeyed (e ∷ es) q k = run-IsKeyed es (step e q) (step-IsKeyed e q k)

abbrev pub revision_of : Option QueueRow → Option ℕ
revision_of none = none
revision_of (some row) = some row.revision

abbrev pub due_lease : Option QueueRow → Option DateTime
due_lease none = none
due_lease (some row) = row.leased_until

module _ (c : GoogleReconcileClaim) (found : Option QueueRow) (r arrived : ℕ) where
  deletes_at :
      c.revision ≡ r → revision_of found ≡ some (r + arrived) → deletes c found ≡ (arrived == 0)
  deletes_at e h = ground arith

  after_done_at :
      c.revision ≡ r
      → revision_of found ≡ some (r + arrived)
      → (revision_of (after_done c found) ≡ (if arrived == 0 then none else some (r + arrived)))
        × (due_lease (after_done c found) ≡ none)
  after_done_at e h = ground arith

-- What a failed attempt leaves of a row that newer notifications are for.
failed_at :
    (c : GoogleReconcileClaim) (found : Option QueueRow) (r arrived : ℕ) (retry_at : DateTime)
    (error : ℕ) (park : Bool)
    → c.revision ≡ r
    → revision_of found ≡ some (r + arrived)
    → 0 < arrived
    → let after = map_option (fail_row c retry_at error park) found in
      (map_option (λ r. r.eligible_at) after ≡ map_option (λ r. r.eligible_at) found)
      × (map_option (λ r. r.parked_at) after ≡ map_option (λ r. r.parked_at) found)
      × (due_lease after ≡ none)
unfolding fail_row
failed_at c none r arrived retry_at error park e h some_arrived = (refl, refl, refl)
failed_at c (some row) r arrived retry_at error park e h some_arrived =
    (ground arith, ground arith, refl)

module _ (t : PurchaseToken) where
  -- One transaction other than a completed claim keeps the token's row; an arrival raises its
  -- revision by one and nothing else changes it.
  step-revision :
      (e : Event) (q : Queue) (r : ℕ)
      → IsKeyed q
      → NoneDone t (e ∷ [])
      → revision_of (find t q) ≡ some r
      → revision_of (find t (step e q)) ≡ some (r + arrivals t (e ∷ []))
  unfolding requeue google_claim_due_reconciles google_reconcile_failed google_unpark_reconcile
      fail_row
  step-revision (enqueue u e) q r k n h = ground (arith, find-enqueue u t e q)
  step-revision (claim now until limit) q r k n h =
      ground (arith, find-lease_selected (selected_tokens now limit q) until t q)
  step-revision (done c) q r k n h = ground (arith, find-done c t q k, n.0)
  step-revision (failed c retry_at error park) q r k n h =
      ground
        (arith, find-update_row c.payment_token t (fail_row c retry_at error park) q (λ r. refl))
  step-revision (unparked u e) q r k n h =
      ground (arith, find-update_row u t (unpark e) q (λ r. ground arith))

  head-NoneDone :
      (e : Event) (es : List Event) → NoneDone t (e ∷ es) → NoneDone t (e ∷ []) × NoneDone t es
  head-NoneDone (done c) es n = ((n.0, tt), n.1)
  head-NoneDone (enqueue u e) es n = (tt, n)
  head-NoneDone _ es n = (tt, n)

  arrivals-cons :
      (e : Event) (es : List Event) → arrivals t (e ∷ es) ≡ arrivals t (e ∷ []) + arrivals t es
  arrivals-cons (enqueue u e) es = ground arith
  arrivals-cons _ es = omega arith

  run-revision :
      (es : List Event) (q : Queue) (r : ℕ)
      → IsKeyed q
      → NoneDone t es
      → revision_of (find t q) ≡ some r
      → revision_of (find t (run es q)) ≡ some (r + arrivals t es)
  run-revision [] q r k n h = rw h (ap some (omega arith))
  run-revision (e ∷ es) q r k n h =
      let parts = head-NoneDone e es n in
      run-revision es (step e q) (r + arrivals t (e ∷ [])) (step-IsKeyed e q k) parts.1
        (step-revision e q r k parts.0 h)
      ∙ ap some (omega (arith, arrivals-cons e es))

  -- In a table with one row for each token, a worker claims the token's row, other transactions
  -- follow in any order, none of which completes a claim on the token, and then the worker reports
  -- the row done. The row is deleted exactly where no notification for the token arrived in
  -- between; otherwise it stands, with its revision raised by the arrivals and its lease released,
  -- so that no obligation is lost.
  pub done_after_arrivals :
      (es : List Event) (q : Queue) (row : QueueRow)
      → IsKeyed q
      → NoneDone t es
      → find t q ≡ some row
      → let finish = google_reconcile_done (claim_of row) (run es q) in
        (finish.0 ≡ (arrivals t es == 0))
        × (revision_of (find t finish.1)
            ≡ (if arrivals t es == 0 then none else some (row.revision + arrivals t es)))
        × (due_lease (find t finish.1) ≡ none)
  done_after_arrivals es q row k n h =
      let token : row.payment_token ≡ t = find-token t row q h in
      let q' : Queue = run es q in
      let k' : IsKeyed q' = run-IsKeyed es q k in
      let c : GoogleReconcileClaim = claim_of row in
      let held : deletes c (find c.payment_token q') ≡ (arrivals t es == 0) =
        rw token (deletes_at c (find t q') row.revision (arrivals t es) refl later) in
      let left = after_done_at c (find t q') row.revision (arrivals t es) refl later in
      let found : find t (google_reconcile_done c q').1 ≡ after_done c (find t q') =
        find-done c t q' k' ∙ ground arith in
      (done-deletes c q' k' ∙ held, ap revision_of found ∙ left.0, ap due_lease found ∙ left.1)
    where
      later : revision_of (find t (run es q)) ≡ some (row.revision + arrivals t es)
      later = run-revision es q row.revision k n (ap revision_of h)

  -- In a table with one row for each token, a worker's claim carries the first revision of a row,
  -- while another worker that holds the current revision reports the row done, and a notification
  -- for the token arrives then. When the first worker reports its own claim done, it deletes the
  -- row that the notification put in, although nothing was reconciled since: revisions start anew.
  pub late_done_deletes :
      (late other : GoogleReconcileClaim) (row : QueueRow) (arrived_at : DateTime) (q : Queue)
      → IsKeyed q
      → find t q ≡ some row
      → late.payment_token ≡ t
      → late.revision ≡ 0
      → other.payment_token ≡ t
      → other.revision ≡ row.revision
      → find t (run (done other ∷ enqueue t arrived_at ∷ done late ∷ []) q) ≡ none
  late_done_deletes late other row arrived_at q k h late_token first other_token current =
      let done_queue : Queue = step (done other) q in
      let keyed = done-IsKeyed other q k in
      let renewed : Queue = step (enqueue t arrived_at) done_queue in
      let gone : find t done_queue ≡ none = ground (arith, find-done other t q k) in
      let fresh = find-enqueue t t arrived_at done_queue in
      find-done late t renewed (enqueue-IsKeyed t arrived_at done_queue keyed)
      ∙ ground (arith, fresh, gone)

  -- In a table with one row for each token, a worker claims the token's row, other transactions
  -- follow in any order, none of which completes a claim on the token, and then the worker reports
  -- a failure. Where a notification for the token arrived in between, the failure neither delays
  -- nor parks it: its due time and its parking are as they were, and its lease is released.
  pub failed_after_arrivals :
      (es : List Event) (q : Queue) (row : QueueRow) (retry_at : DateTime) (error : ℕ) (park : Bool)
      → IsKeyed q
      → NoneDone t es
      → find t q ≡ some row
      → 0 < arrivals t es
      → let before = find t (run es q) in
        let after =
          find t (google_reconcile_failed (claim_of row) retry_at error park (run es q)) in
        (map_option (λ r. r.eligible_at) after ≡ map_option (λ r. r.eligible_at) before)
        × (map_option (λ r. r.parked_at) after ≡ map_option (λ r. r.parked_at) before)
        × (due_lease after ≡ none)
  unfolding google_reconcile_failed
  failed_after_arrivals es q row retry_at error park k n h some_arrived =
      let token : row.payment_token ≡ t = find-token t row q h in
      let q' : Queue = run es q in
      let later : revision_of (find t q') ≡ some (row.revision + arrivals t es) =
        run-revision es q row.revision k n (ap revision_of h) in
      let failing = fail_row (claim_of row) retry_at error park in
      let found : find t (update_row row.payment_token failing q')
          ≡ map_option failing (find t q') =
        find-update_row row.payment_token t failing q' (λ r. unfold fail_row in refl)
        ∙ ground (arith, token) in
      rw found (
        failed_at (claim_of row) (find t q') row.revision (arrivals t es) retry_at error park refl
          later some_arrived)
