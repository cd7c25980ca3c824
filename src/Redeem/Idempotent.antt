-- ===== src/Redeem/Idempotent.antt =====
-- Reconciling an account's pending payments twice is reconciling them once.
use session_pro_backend.Base.Units.{DateTime}
use session_pro_backend.Base.Errors.{ok, Result-cases}
use session_pro_backend.Db.Tables.{Payment, VerifyKey, Text}
use session_pro_backend.Redeem.{
  claim_rows, link_rows, is_open, link_claimed, apple_account, google_account,
  reconcile_pending_payments, uuid_from_master_pk,
}
use session_pro_backend.Prelude.{
  Bool, List, [], arith, false, if◌then◌else◌, refl, some, true, ℕ, ◌&&◌, ◌∷◌, ◌≡◌, inl, inr,
  Option-cases, Bool-cases, is_empty, ◌++◌,
}
use session_pro_backend.Db.Monad.{Db, Env}
use session_pro_backend.Db.Account.Usable.{ensure-payments}
use session_pro_backend.Db.Account.{ensure_active_generation}
use session_pro_backend.Db.Generations.{
  get_or_create_user_and_generation, create_user_and_generation, insert_generation, has_token,
}
use session_pro_backend.Db.Users.{get_user, new_proof_expiry_offset}

-- No payment that the test accepts is waiting to be claimed.
abbrev pub none_open : (Payment → Bool) → List Payment → Bool
none_open owned [] = true
none_open owned (p ∷ ps) = if owned p && is_open p then false else none_open owned ps

claim_rows-none_open :
    (owned : Payment → Bool) (at : DateTime) (ps : List Payment)
    → none_open owned ps ≡ true
    → claim_rows owned at ps ≡ ([], ps)
unfolding claim_rows
claim_rows-none_open owned at [] h = refl
claim_rows-none_open owned at (p ∷ ps) h = ground (arith, claim_rows-none_open owned at ps)

-- A claim leaves nothing that any test which reads only the detail row would claim with it.
module _ (owned : Payment → Bool)
    (same : (p q : Payment) → p.detail ≡ q.detail → owned p ≡ owned q) where
  none_open-claim :
      (at : DateTime) (ps : List Payment) → none_open owned (claim_rows owned at ps).1 ≡ true
  unfolding claim_rows
  none_open-claim at [] = refl
  none_open-claim at (p ∷ ps) = ground (arith, none_open-claim at ps)

  none_open-claim_other :
      (other : Payment → Bool) (at : DateTime) (ps : List Payment)
      → none_open owned ps ≡ true
      → none_open owned (claim_rows other at ps).1 ≡ true
  unfolding claim_rows
  none_open-claim_other other at [] h = refl
  none_open-claim_other other at (p ∷ ps) h =
      ground
        (arith, none_open-claim_other other at ps, same (record p { redeemed_at = some at }) p refl)

  none_open-link :
      (uid : ℕ) (ids : List ℕ) (ps : List Payment)
      → none_open owned ps ≡ true
      → none_open owned (link_rows uid ids ps) ≡ true
  unfolding link_rows
  none_open-link uid ids [] h = refl
  none_open-link uid ids (p ∷ ps) h =
      ground (arith, none_open-link uid ids ps, same (record p { user_id = some uid }) p refl)

insert_generation-payments :
    (id uid : ℕ) (token : Text) (at : DateTime) (db db' : Db)
    → insert_generation id uid token at db ≡ ok (tt, db')
    → db'.payments ≡ db.payments
unfolding insert_generation
insert_generation-payments id uid token at db db' h =
    elim (Bool-cases (has_token token db.generations)) [
      | inl taken ↦ ground arith
      | inr free ↦ ground arith
    ]

module _ (env : Env) (master_pkey : VerifyKey) where
  created-payments :
      (at : DateTime) (db db' : Db) (account : ℕ × ℕ × Text × Bool)
      → create_user_and_generation env master_pkey at db ≡ ok (account, db')
      → db'.payments ≡ db.payments
  unfolding create_user_and_generation new_proof_expiry_offset
  created-payments at db db' account h = grind (arith, insert_generation-payments)

  pub found_or_created-payments :
      (at : DateTime) (db db' : Db) (account : ℕ × ℕ × Text × Bool)
      → get_or_create_user_and_generation env master_pkey at db ≡ ok (account, db')
      → db'.payments ≡ db.payments
  unfolding get_or_create_user_and_generation
  found_or_created-payments at db db' account h = elim (Option-cases (get_user master_pkey db)) [
    | inl missing ↦ ground (arith, created-payments at db db' account)
    | inr (found, present) ↦ ground arith
  ]

  pub link_claimed-payments :
      (at : DateTime) (ids : List ℕ) (db db' : Db) (n : ℕ)
      → link_claimed env master_pkey at ids db ≡ ok (n, db')
      → (uid : ℕ) × (db'.payments ≡ link_rows uid ids db.payments)
  unfolding link_claimed
  link_claimed-payments at ids db db' n h =
      elim (Result-cases (get_or_create_user_and_generation env master_pkey at db)) [
        | inl (e, failed) ↦ ground arith
        | inr ((account, db1), created) ↦
            let linked : Db = record db1 { payments = link_rows account.0 ids db1.payments } in
            elim (Result-cases (ensure_active_generation env master_pkey at linked)) [
              | inl (e, failed) ↦ ground arith
              | inr ((r, db2), ensured) ↦ (
                account.0,
                ground (
                  arith,
                  ensure-payments env master_pkey at linked db2 r ensured,
                  found_or_created-payments at db db1 account created,
                ),
              )
            ]
      ]

same_google_account :
    (key : VerifyKey) (p q : Payment)
    → p.detail ≡ q.detail
    → google_account key p ≡ google_account key q
same_google_account key p q same = rw same refl

same_apple_account :
    (uuid : Text) (p q : Payment)
    → p.detail ≡ q.detail
    → apple_account uuid p ≡ apple_account uuid q
same_apple_account uuid p q same = rw same refl

-- Both claims leave nothing open that the account owns.
claimed_none_open :
    (key : VerifyKey) (uuid : Text) (at : DateTime) (ps : List Payment)
    → let left = (claim_rows (apple_account uuid) at (claim_rows (google_account key) at ps).1).1 in
      (none_open (google_account key) left ≡ true) × (none_open (apple_account uuid) left ≡ true)
claimed_none_open key uuid at ps = (
  none_open-claim_other (google_account key) (same_google_account key) (apple_account uuid) at
      (claim_rows (google_account key) at ps).1
      (none_open-claim (google_account key) (same_google_account key) at ps),
  none_open-claim (apple_account uuid) (same_apple_account uuid) at
      (claim_rows (google_account key) at ps).1,
)

module _ (env : Env) (key : VerifyKey) where
  reconcile-none_open :
      (at : DateTime) (db db' : Db) (n : ℕ)
      → reconcile_pending_payments env key at db ≡ ok (n, db')
      → (none_open (google_account key) db'.payments ≡ true)
        × (none_open (apple_account (uuid_from_master_pk key)) db'.payments ≡ true)
  unfolding reconcile_pending_payments
  reconcile-none_open at db db' n h =
      let uuid = uuid_from_master_pk key in
      let of_google = claim_rows (google_account key) at db.payments in
      let of_apple = claim_rows (apple_account uuid) at of_google.1 in
      let left = claimed_none_open key uuid at db.payments in
      elim (Bool-cases (is_empty (of_google.0 ++ of_apple.0))) [
        | inl nothing ↦ ground arith
        | inr some_claimed ↦
            let linked =
              link_claimed-payments env key at (of_google.0 ++ of_apple.0)
                (record db { payments = of_apple.1 }) db' n (ground arith) in
            (
              rw linked.1 (
                  none_open-link (google_account key) (same_google_account key) linked.0
                    (of_google.0 ++ of_apple.0) of_apple.1 left.0),
              rw linked.1 (
                  none_open-link (apple_account uuid) (same_apple_account uuid) linked.0
                    (of_google.0 ++ of_apple.0) of_apple.1 left.1),
            )
      ]

  -- Reconciling an account's pending payments binds them all: a second call on the tables that the
  -- first left, at whatever time, finds none and changes nothing.
  pub reconcile_twice :
      (at at' : DateTime) (db db' : Db) (n : ℕ)
      → reconcile_pending_payments env key at db ≡ ok (n, db')
      → reconcile_pending_payments env key at' db' ≡ ok (0, db')
  unfolding reconcile_pending_payments
  reconcile_twice at at' db db' n h =
      let (g, a) = reconcile-none_open at db db' n h in
      rw (claim_rows-none_open (google_account key) at' db'.payments g) (
        rw (claim_rows-none_open (apple_account (uuid_from_master_pk key)) at' db'.payments a) refl)
