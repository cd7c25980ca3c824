-- ===== src/Queue.antt =====
-- backend.py: the queue of Google purchase tokens that owe a reconcile (`google_reconcile_queue`).
-- The table is a list of rows, one for each token; a purchase token and an error text are only
-- compared or kept, so they are numbers.
pub mod Table
pub mod Claims
pub mod Trace
use session_pro_backend.Base.Units.{DateTime}
use session_pro_backend.Prelude.{
  Bool, List, Option, [], false, if◌then◌else◌, is_none, leb, ltb, min, none, not, some, suc, true,
  zero, ℕ, ◌&&◌, ◌+◌, ◌==◌, ◌∷◌,
}

abbrev pub PurchaseToken : Type 0
PurchaseToken = ℕ

pub record QueueRow : Type 0 where
  pub payment_token : PurchaseToken
  pub eligible_at : DateTime
  pub leased_until : Option DateTime
  pub revision : ℕ
  pub attempts : ℕ
  pub last_error : Option ℕ
  pub parked_at : Option DateTime

abbrev pub Queue : Type 0
Queue = List QueueRow

-- `GoogleReconcileClaim`
pub record GoogleReconcileClaim : Type 0 where
  pub payment_token : PurchaseToken
  pub attempts : ℕ
  pub revision : ℕ

-- The row that a conflicting insert updates: work is pulled earlier, never later.
unfoldable pub requeue : DateTime → QueueRow → QueueRow
requeue eligible_at row = record row {
  eligible_at = min row.eligible_at eligible_at;
  revision = row.revision + 1;
}

abbrev pub new_row : PurchaseToken → DateTime → QueueRow
new_row token eligible_at = record {
  payment_token = token;
  eligible_at = eligible_at;
  leased_until = none;
  revision = 0;
  attempts = 0;
  last_error = none;
  parked_at = none;
}

unfoldable pub google_enqueue_reconcile : PurchaseToken → DateTime → Queue → Queue
google_enqueue_reconcile token eligible_at [] = new_row token eligible_at ∷ []
google_enqueue_reconcile token eligible_at (row ∷ rows) =
    if row.payment_token == token
    then requeue eligible_at row ∷ rows
    else row ∷ google_enqueue_reconcile token eligible_at rows

-- `leased_until IS NULL OR leased_until <= now`
abbrev pub lease_free : DateTime → Option DateTime → Bool
lease_free now none = true
lease_free now (some t) = leb t now

unfoldable pub is_due : DateTime → QueueRow → Bool
is_due now row =
    leb row.eligible_at now && (is_none row.parked_at && lease_free now row.leased_until)

abbrev pub due_rows : DateTime → Queue → List QueueRow
due_rows now [] = []
due_rows now (row ∷ rows) = if is_due now row then row ∷ due_rows now rows else due_rows now rows

abbrev pub insert_by_eligible : QueueRow → List QueueRow → List QueueRow
insert_by_eligible row [] = row ∷ []
insert_by_eligible row (r ∷ rs) =
    if ltb r.eligible_at row.eligible_at then r ∷ insert_by_eligible row rs else row ∷ r ∷ rs

-- `ORDER BY eligible_at`
abbrev pub order_by_eligible : List QueueRow → List QueueRow
order_by_eligible [] = []
order_by_eligible (r ∷ rs) = insert_by_eligible r (order_by_eligible rs)

abbrev pub take_tokens : ℕ → List QueueRow → List PurchaseToken
take_tokens zero rs = []
take_tokens (suc n) [] = []
take_tokens (suc n) (r ∷ rs) = r.payment_token ∷ take_tokens n rs

abbrev pub contains : PurchaseToken → List PurchaseToken → Bool
contains t [] = false
contains t (u ∷ us) = if u == t then true else contains t us

abbrev pub lease : DateTime → QueueRow → QueueRow
lease until row = record row { leased_until = some until }

abbrev pub claim_of : QueueRow → GoogleReconcileClaim
claim_of row = record {
  payment_token = row.payment_token;
  attempts = row.attempts;
  revision = row.revision;
}

-- The UPDATE of the selected tokens, and what it returns.
unfoldable pub lease_selected :
    List PurchaseToken → DateTime → Queue → List GoogleReconcileClaim × Queue
lease_selected selected until [] = ([], [])
lease_selected selected until (row ∷ rows) =
    let rest = lease_selected selected until rows in
    if contains row.payment_token selected
    then (claim_of row ∷ rest.0, lease until row ∷ rest.1)
    else (rest.0, row ∷ rest.1)

unfoldable pub selected_tokens : DateTime → ℕ → Queue → List PurchaseToken
selected_tokens now limit queue = take_tokens limit (order_by_eligible (due_rows now queue))

unfoldable pub google_claim_due_reconciles :
    DateTime → DateTime → ℕ → Queue → List GoogleReconcileClaim × Queue
google_claim_due_reconciles now lease_until limit queue =
    lease_selected (selected_tokens now limit queue) lease_until queue

abbrev pub is_current : GoogleReconcileClaim → QueueRow → Bool
is_current claim row =
    if row.payment_token == claim.payment_token then row.revision == claim.revision else false

-- The conditional DELETE, and whether it took a row.
unfoldable pub delete_current : GoogleReconcileClaim → Queue → Bool × Queue
delete_current claim [] = (false, [])
delete_current claim (row ∷ rows) =
    let rest = delete_current claim rows in
    if is_current claim row then (true, rows) else (rest.0, row ∷ rest.1)

-- An UPDATE of the row of one token.
unfoldable pub update_row : PurchaseToken → (QueueRow → QueueRow) → Queue → Queue
update_row token f [] = []
update_row token f (row ∷ rows) =
    if row.payment_token == token then f row ∷ rows else row ∷ update_row token f rows

abbrev pub release : QueueRow → QueueRow
release row = record row { leased_until = none }

unfoldable pub google_reconcile_done : GoogleReconcileClaim → Queue → Bool × Queue
google_reconcile_done claim queue =
    let (deleted, rest) = delete_current claim queue in
    if deleted then (true, rest) else (false, update_row claim.payment_token release rest)

unfoldable pub fail_row : GoogleReconcileClaim → DateTime → ℕ → Bool → QueueRow → QueueRow
fail_row claim retry_at error park row = record row {
  attempts = row.attempts + 1;
  last_error = some error;
  leased_until = none;
  eligible_at = if row.revision == claim.revision then retry_at else row.eligible_at;
  parked_at = if park && row.revision == claim.revision then some retry_at else row.parked_at;
}

unfoldable pub google_reconcile_failed : GoogleReconcileClaim → DateTime → ℕ → Bool → Queue → Queue
google_reconcile_failed claim retry_at error park queue =
    update_row claim.payment_token (fail_row claim retry_at error park) queue

abbrev pub unpark : DateTime → QueueRow → QueueRow
unpark eligible_at row =
    if is_none row.parked_at
    then row
    else record row { parked_at = none; eligible_at = eligible_at }

abbrev pub find : PurchaseToken → Queue → Option QueueRow
find token [] = none
find token (row ∷ rows) = if row.payment_token == token then some row else find token rows

abbrev pub is_parked : Option QueueRow → Bool
is_parked none = false
is_parked (some row) = not (is_none row.parked_at)

unfoldable pub google_unpark_reconcile : PurchaseToken → DateTime → Queue → Bool × Queue
google_unpark_reconcile token eligible_at queue =
    (is_parked (find token queue), update_row token (unpark eligible_at) queue)
