-- ===== src/Register/Dedup.antt =====
-- backend.py: a payment is recorded once.
use session_pro_backend.Db.Tables.{google, Detail, Payment, apple, stf}
use session_pro_backend.Base.Errors.{ok}
use session_pro_backend.Prelude.{
  Bool, Bool-cases, List, Option, [], arith, if◌then◌else◌, inl, inr, not, refl, true, ℕ, ◌&&◌, ◌+◌,
  ◌∷◌, ◌≡◌,
}
use session_pro_backend.Base.Units.{DateTime}
use session_pro_backend.Db.Monad.{Db}
use session_pro_backend.Register.{
  PaymentColumns, insert_payment_row, is_recorded, new_payment_row, same_dedup_key,
  satisfies_constraints,
}
use session_pro_backend.Single.{bind_rows}

-- The detail rows of the payments.
unfoldable pub details : List Payment → List Detail
details [] = []
details (p ∷ ps) = p.detail ∷ details ps

-- No two payments agree on their table's UNIQUE columns.
unfoldable pub unique_details : List Payment → Bool
unfolding is_recorded
unique_details [] = true
unique_details (p ∷ ps) = not (is_recorded p.detail ps) && unique_details ps

-- The tables after `_insert_payment_row`.
unfoldable pub recorded : PaymentColumns → Detail → Bool → Db → Db
unfolding is_recorded
recorded c detail needs_ack db = if is_recorded detail db.payments then db else record db {
  payments = new_payment_row db.next_payment_id c detail needs_ack ∷ db.payments;
  next_payment_id = db.next_payment_id + 1;
}

pub insert-recorded :
    (c : PaymentColumns) (detail : Detail) (needs_ack : Bool) (db db' : Db) (inserted : Bool)
    → insert_payment_row c detail needs_ack db ≡ ok (inserted, db')
    → db' ≡ recorded c detail needs_ack db
unfolding insert_payment_row recorded
insert-recorded c detail needs_ack db db' inserted h =
    elim (Bool-cases (is_recorded detail db.payments)) [
      | inl known ↦ ground arith
      | inr fresh ↦ elim (Bool-cases (satisfies_constraints c)) [
        | inl fine ↦ ground arith
        | inr broken ↦ ground arith
      ]
    ]

-- What depends on the details alone.
pub is_recorded-details :
    (d : Detail) (ps qs : List Payment)
    → details ps ≡ details qs
    → is_recorded d ps ≡ is_recorded d qs
unfolding details is_recorded
is_recorded-details d [] [] h = refl
is_recorded-details d [] (q ∷ qs) h = ground arith
is_recorded-details d (p ∷ ps) [] h = ground arith
is_recorded-details d (p ∷ ps) (q ∷ qs) h =
    let heads : p.detail ≡ q.detail = ground arith in
    let tails = is_recorded-details d ps qs (ground arith) in rw heads (rw tails refl)

pub unique_details-details :
    (ps qs : List Payment) → details ps ≡ details qs → unique_details ps ≡ unique_details qs
unfolding details unique_details
unique_details-details [] [] h = refl
unique_details-details [] (q ∷ qs) h = ground arith
unique_details-details (p ∷ ps) [] h = ground arith
unique_details-details (p ∷ ps) (q ∷ qs) h =
    let heads : p.detail ≡ q.detail = ground arith in
    let tails : details ps ≡ details qs = ground arith in
    rw heads
      (rw (is_recorded-details q.detail ps qs tails) (rw (unique_details-details ps qs tails) refl))

pub details-bind :
    (selects : Detail → Bool) (uid : Option ℕ) (at : DateTime) (ps : List Payment)
    → details (bind_rows selects uid at ps).1 ≡ details ps
unfolding details bind_rows
details-bind selects uid at [] = refl
details-bind selects uid at (p ∷ ps) = ground (arith, details-bind selects uid at ps)

-- Recording a payment leaves it recorded, and leaves no duplicate.
pub recorded_lem :
    (c : PaymentColumns) (detail : Detail) (needs_ack : Bool) (db : Db)
    → is_recorded detail (recorded c detail needs_ack db).payments ≡ true
unfolding recorded is_recorded same_dedup_key
recorded_lem c detail needs_ack db = elim (Bool-cases (is_recorded detail db.payments)) [
  | inl known ↦ ground arith
  | inr fresh ↦ elim detail [
    | google _ _ _ ↦ ground arith
    | apple _ _ _ _ ↦ ground arith
    | stf _ ↦ ground arith
  ]
]

pub recorded-unique_details :
    (c : PaymentColumns) (detail : Detail) (needs_ack : Bool) (db : Db)
    → unique_details db.payments ≡ true
    → unique_details (recorded c detail needs_ack db).payments ≡ true
unfolding recorded unique_details
recorded-unique_details c detail needs_ack db h =
    elim (Bool-cases (is_recorded detail db.payments)) [
      | inl known ↦ ground arith
      | inr fresh ↦ ground arith
    ]
