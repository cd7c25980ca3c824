-- ===== src/Queue/Claims.antt =====
-- Claims of the reconcile queue: only due tokens are leased, at most the limit, and none twice
-- while its lease runs.
use session_pro_backend.Queue.{
  Queue, GoogleReconcileClaim, PurchaseToken, QueueRow, contains, due_rows, find,
  google_claim_due_reconciles, insert_by_eligible, is_due, lease, lease_selected, order_by_eligible,
  selected_tokens, take_tokens,
}
use session_pro_backend.Prelude.{
  Bool, Bool-cases, List, Option, [], arith, false, if◌then◌else◌, is_none, length, none, not, refl,
  some, suc, true, zero, ℕ, ◌<◌, ◌==◌, ◌∙◌, ◌∷◌, ◌≡◌, ◌≤◌, inl, inr,
}
use session_pro_backend.Base.Units.{DateTime}
use session_pro_backend.Queue.Table.{
  IsKeyed, find-lease_selected, map_option, lease_selected-IsKeyed,
}

is_none-insert :
    (j : PurchaseToken) (r : QueueRow) (rs : List QueueRow)
    → is_none (find j (insert_by_eligible r rs))
      ≡ (if r.payment_token == j then false else is_none (find j rs))
is_none-insert j r [] = ground arith
is_none-insert j r (x ∷ rs) = ground (arith, is_none-insert j r rs)

is_none-order :
    (j : PurchaseToken) (rs : List QueueRow)
    → is_none (find j (order_by_eligible rs)) ≡ is_none (find j rs)
is_none-order j [] = refl
is_none-order j (r ∷ rs) =
    ground (arith, is_none-insert j r (order_by_eligible rs), is_none-order j rs)

contains-take :
    (j : PurchaseToken) (n : ℕ) (rs : List QueueRow)
    → contains j (take_tokens n rs) ≡ true
    → is_none (find j rs) ≡ false
contains-take j zero rs h = cc
contains-take j (suc n) [] h = cc
contains-take j (suc n) (r ∷ rs) h = ground (arith, contains-take j n rs)

length-take_tokens : (n : ℕ) (rs : List QueueRow) → length (take_tokens n rs) ≤ n
length-take_tokens zero rs = omega arith
length-take_tokens (suc n) [] = omega arith
length-take_tokens (suc n) (r ∷ rs) = omega (arith, length-take_tokens n rs)

abbrev pub due_option : DateTime → Option QueueRow → Bool
due_option now none = false
due_option now (some row) = is_due now row

absent-due_rows :
    (now : DateTime) (j : PurchaseToken) (q : Queue)
    → find j q ≡ none
    → find j (due_rows now q) ≡ none
absent-due_rows now j [] h = refl
absent-due_rows now j (row ∷ rows) h =
    ground (arith, absent-due_rows now j rows, Bool-cases (is_due now row))

find-due_rows :
    (now : DateTime) (j : PurchaseToken) (q : Queue)
    → IsKeyed q
    → is_none (find j (due_rows now q)) ≡ not (due_option now (find j q))
find-due_rows now j [] k = refl
find-due_rows now j (row ∷ rows) k = ground (
  arith,
  Bool-cases (is_due now row),
  find-due_rows now j rows k.1,
  absent-due_rows now row.payment_token rows k.0,
)

-- A selected token has a row that is due.
pub selected_is_due :
    (now : DateTime) (limit : ℕ) (j : PurchaseToken) (q : Queue)
    → IsKeyed q
    → contains j (selected_tokens now limit q) ≡ true
    → due_option now (find j q) ≡ true
unfolding selected_tokens
selected_is_due now limit j q k h = ground (
  arith,
  contains-take j limit (order_by_eligible (due_rows now q)) h,
  is_none-order j (due_rows now q),
  find-due_rows now j q k,
)

abbrev pub claims_token : PurchaseToken → List GoogleReconcileClaim → Bool
claims_token j [] = false
claims_token j (c ∷ cs) = if c.payment_token == j then true else claims_token j cs

claims-lease_selected :
    (s : List PurchaseToken) (u : DateTime) (j : PurchaseToken) (q : Queue)
    → claims_token j (lease_selected s u q).0 ≡ true
    → contains j s ≡ true
unfolding lease_selected
claims-lease_selected s u j [] h = cc
claims-lease_selected s u j (row ∷ rows) h = ground (arith, claims-lease_selected s u j rows)

module _ (now lease_until : DateTime) (limit : ℕ) (q : Queue) (keyed : IsKeyed q) where
  -- In a table with one row for each token, every token that a claim returns was due, neither
  -- parked nor under a running lease, and its row is leased from then on.
  pub claimed_is_due :
      (j : PurchaseToken)
      → claims_token j (google_claim_due_reconciles now lease_until limit q).0 ≡ true
      → (due_option now (find j q) ≡ true)
        × (find j (google_claim_due_reconciles now lease_until limit q).1
            ≡ map_option (lease lease_until) (find j q))
  unfolding google_claim_due_reconciles
  claimed_is_due j h =
      let selected = selected_tokens now limit q in
      let chosen : contains j selected ≡ true = claims-lease_selected selected lease_until j q h in
      (
        selected_is_due now limit j q keyed chosen,
        find-lease_selected selected lease_until j q ∙ rw chosen,
      )

  -- In a table with one row for each token, a second claim on the queue that the first left, made
  -- before the lease has run out, returns none of the tokens that the first returned, whatever its
  -- limit.
  pub claims_exclusive :
      (later lease_until' : DateTime) (limit' : ℕ) (j : PurchaseToken)
      → later < lease_until
      → claims_token j (google_claim_due_reconciles now lease_until limit q).0 ≡ true
      → claims_token j
          (google_claim_due_reconciles later lease_until' limit'
            (google_claim_due_reconciles now lease_until limit q).1).0
        ≡ false
  unfolding google_claim_due_reconciles is_due
  claims_exclusive later lease_until' limit' j before h =
      let q' : Queue = (google_claim_due_reconciles now lease_until limit q).1 in
      let again = (google_claim_due_reconciles later lease_until' limit' q').0 in
      let keyed' : IsKeyed q' =
        lease_selected-IsKeyed (selected_tokens now limit q) lease_until q keyed in
      let first = claimed_is_due j h in
      elim (Bool-cases (claims_token j again)) [
        | inl twice ↦
            let selected = selected_tokens later limit' q' in
            let later_due : due_option later (find j q') ≡ true =
              selected_is_due later limit' j q' keyed'
                (claims-lease_selected selected lease_until' j q' twice) in
            absurd (lease_runs (find j q) (rw first.1 at later_due) first.0)
        | inr once ↦ once
      ]
    where
      lease_runs :
          (row : Option QueueRow)
          → due_option later (map_option (lease lease_until) row) ≡ true
          → due_option now row ≡ true
          → ⊥
      lease_runs none p d = cc
      lease_runs (some row) p d = ground arith
