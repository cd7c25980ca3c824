-- ===== src/Queue/Table.antt =====
-- The reconcile queue as a table with one row for each token: what each statement does to the row
-- of any token.
use session_pro_backend.Queue.{
  Queue, PurchaseToken, QueueRow, find, google_enqueue_reconcile, new_row, requeue, update_row,
  GoogleReconcileClaim, contains, delete_current, google_reconcile_done, lease, lease_selected,
  release,
}
use session_pro_backend.Base.Units.{DateTime}
use session_pro_backend.Prelude.{
  Option, [], arith, if◌then◌else◌, none, some, ◌==◌, ◌∷◌, ◌≡◌, Bool, List, false, refl,
}

-- No token has two rows.
abbrev pub IsKeyed : Queue → Type 0
IsKeyed [] = Unit
IsKeyed (row ∷ rows) = (find row.payment_token rows ≡ none) × IsKeyed rows

abbrev pub upserted : PurchaseToken → DateTime → Option QueueRow → QueueRow
upserted token eligible_at none = new_row token eligible_at
upserted token eligible_at (some row) = requeue eligible_at row

pub find-enqueue :
    (t j : PurchaseToken) (e : DateTime) (q : Queue)
    → find j (google_enqueue_reconcile t e q)
      ≡ (if t == j then some (upserted t e (find t q)) else find j q)
unfolding google_enqueue_reconcile requeue
find-enqueue t j e [] = ground arith
find-enqueue t j e (row ∷ rows) = ground (arith, find-enqueue t j e rows)

abbrev pub map_option {ℓ κ} : {A : Type ℓ} {B : Type κ} → (A → B) → Option A → Option B
map_option f none = none
map_option f (some a) = some (f a)

pub find-update_row :
    (t j : PurchaseToken) (f : QueueRow → QueueRow) (q : Queue)
    → ((r : QueueRow) → (f r).payment_token ≡ r.payment_token)
    → find j (update_row t f q) ≡ (if t == j then map_option f (find j q) else find j q)
unfolding update_row
find-update_row t j f [] keep = ground arith
find-update_row t j f (row ∷ rows) keep = ground (arith, keep row, find-update_row t j f rows keep)

-- The row of a token that the claim's conditional DELETE leaves.
abbrev pub undeleted : GoogleReconcileClaim → Option QueueRow → Option QueueRow
undeleted claim none = none
undeleted claim (some row) = if row.revision == claim.revision then none else some row

abbrev pub deletes : GoogleReconcileClaim → Option QueueRow → Bool
deletes claim none = false
deletes claim (some row) = row.revision == claim.revision

pub delete_current-deletes :
    (c : GoogleReconcileClaim) (q : Queue)
    → IsKeyed q
    → (delete_current c q).0 ≡ deletes c (find c.payment_token q)
unfolding delete_current
delete_current-deletes c [] k = refl
delete_current-deletes c (row ∷ rows) k = ground (arith, delete_current-deletes c rows k.1)

pub find-delete_current :
    (c : GoogleReconcileClaim) (j : PurchaseToken) (q : Queue)
    → IsKeyed q
    → find j (delete_current c q).1
      ≡ (if c.payment_token == j then undeleted c (find j q) else find j q)
unfolding delete_current
find-delete_current c j [] k = ground arith
find-delete_current c j (row ∷ rows) k = ground (arith, find-delete_current c j rows k.1)

-- What `google_reconcile_done` makes of the row of the claim's token.
abbrev pub after_done : GoogleReconcileClaim → Option QueueRow → Option QueueRow
after_done claim none = none
after_done claim (some row) = if row.revision == claim.revision then none else some (release row)

pub find-done :
    (c : GoogleReconcileClaim) (j : PurchaseToken) (q : Queue)
    → IsKeyed q
    → find j (google_reconcile_done c q).1
      ≡ (if c.payment_token == j then after_done c (find j q) else find j q)
unfolding google_reconcile_done
find-done c j q k = ground (
  arith,
  find-delete_current c j q k,
  delete_current-deletes c q k,
  find-update_row c.payment_token j release (delete_current c q).1 (λ r. refl),
)

pub done-deletes :
    (c : GoogleReconcileClaim) (q : Queue)
    → IsKeyed q
    → (google_reconcile_done c q).0 ≡ deletes c (find c.payment_token q)
unfolding google_reconcile_done
done-deletes c q k = ground (arith, delete_current-deletes c q k)

pub enqueue-IsKeyed :
    (t : PurchaseToken) (e : DateTime) (q : Queue)
    → IsKeyed q
    → IsKeyed (google_enqueue_reconcile t e q)
unfolding google_enqueue_reconcile requeue
enqueue-IsKeyed t e [] k = (refl, tt)
enqueue-IsKeyed t e (row ∷ rows) k =
    ground (arith, enqueue-IsKeyed t e rows k.1, find-enqueue t row.payment_token e rows)

pub update_row-IsKeyed :
    (t : PurchaseToken) (f : QueueRow → QueueRow) (q : Queue)
    → ((r : QueueRow) → (f r).payment_token ≡ r.payment_token)
    → IsKeyed q
    → IsKeyed (update_row t f q)
unfolding update_row
update_row-IsKeyed t f [] keep k = tt
update_row-IsKeyed t f (row ∷ rows) keep k = ground (
  arith,
  keep row,
  update_row-IsKeyed t f rows keep k.1,
  find-update_row t row.payment_token f rows keep,
)

pub delete_current-IsKeyed :
    (c : GoogleReconcileClaim) (q : Queue) → IsKeyed q → IsKeyed (delete_current c q).1
unfolding delete_current
delete_current-IsKeyed c [] k = tt
delete_current-IsKeyed c (row ∷ rows) k =
    ground
      (arith, delete_current-IsKeyed c rows k.1, find-delete_current c row.payment_token rows k.1)

pub find-lease_selected :
    (s : List PurchaseToken) (u : DateTime) (j : PurchaseToken) (q : Queue)
    → find j (lease_selected s u q).1
      ≡ (if contains j s then map_option (lease u) (find j q) else find j q)
unfolding lease_selected
find-lease_selected s u j [] = ground arith
find-lease_selected s u j (row ∷ rows) = ground (arith, find-lease_selected s u j rows)

pub lease_selected-IsKeyed :
    (s : List PurchaseToken) (u : DateTime) (q : Queue)
    → IsKeyed q
    → IsKeyed (lease_selected s u q).1
unfolding lease_selected
lease_selected-IsKeyed s u [] k = tt
lease_selected-IsKeyed s u (row ∷ rows) k =
    ground
      (arith, lease_selected-IsKeyed s u rows k.1, find-lease_selected s u row.payment_token rows)

pub done-IsKeyed :
    (c : GoogleReconcileClaim) (q : Queue) → IsKeyed q → IsKeyed (google_reconcile_done c q).1
unfolding google_reconcile_done
done-IsKeyed c q k = ground (
  arith,
  delete_current-IsKeyed c q k,
  update_row-IsKeyed c.payment_token release (delete_current c q).1 (λ r. refl)
      (delete_current-IsKeyed c q k),
)

pub find-token :
    (t : PurchaseToken) (row : QueueRow) (q : Queue) → find t q ≡ some row → row.payment_token ≡ t
find-token t row [] h = cc
find-token t row (r ∷ rs) h = ground (arith, find-token t row rs)
