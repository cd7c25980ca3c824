-- ===== src/Redeem/Terms.antt =====
-- Claiming pending payments and judging an account's proofs decide who holds a payment, never the
-- terms of one.
use session_pro_backend.Base.Errors.{ok, Result-cases}
use session_pro_backend.Redeem.Idempotent.{link_claimed-payments}
use session_pro_backend.Prelude.{
  inl, inr, Bool, Bool-cases, List, Option-cases, [], arith, is_empty, none, refl, ℕ, ◌++◌, ◌+◌,
  ◌∙◌, ◌∷◌, ◌≡◌,
}
use session_pro_backend.Db.Account.{AllocatedGenId, lookup_account, update_user_from_payment_list}
use session_pro_backend.Base.Units.{DateTime}
use session_pro_backend.Db.Monad.{Db, Env}
use session_pro_backend.Db.Tables.{Payment, VerifyKey}
use session_pro_backend.Redeem.{
  apple_account, claim_rows, google_account, link_rows, reconcile_pending_payments,
  uuid_from_master_pk,
}
use session_pro_backend.Db.Account.Usable.{ensure-payments, lookup-payments}
use session_pro_backend.Db.Users.{find_user, new_proof_expiry_offset, get_user}
use session_pro_backend.Revoke.{
  refresh_and_revoke_overreaching, revoke_current, revoke_proofs_and_allocate, coverage_of_lookup,
  coverage_or_epoch, proofs_stand,
}

-- A payment without what a claim writes.
abbrev pub terms_of : Payment → Payment
terms_of p = record p { redeemed_at = none; user_id = none }

unfoldable pub terms : List Payment → List Payment
terms [] = []
terms (p ∷ ps) = terms_of p ∷ terms ps

terms-claim :
    (owned : Payment → Bool) (at : DateTime) (ps : List Payment)
    → terms (claim_rows owned at ps).1 ≡ terms ps
unfolding terms claim_rows
terms-claim owned at [] = refl
terms-claim owned at (p ∷ ps) = ground (arith, terms-claim owned at ps)

terms-link : (uid : ℕ) (ids : List ℕ) (ps : List Payment) → terms (link_rows uid ids ps) ≡ terms ps
unfolding terms link_rows
terms-link uid ids [] = refl
terms-link uid ids (p ∷ ps) = ground (arith, terms-link uid ids ps)

module _ (env : Env) (key : VerifyKey) where
  pub reconcile-terms :
      (at : DateTime) (db db' : Db) (n : ℕ)
      → reconcile_pending_payments env key at db ≡ ok (n, db')
      → terms db'.payments ≡ terms db.payments
  unfolding reconcile_pending_payments
  reconcile-terms at db db' n h =
      let uuid = uuid_from_master_pk key in
      let of_google = claim_rows (google_account key) at db.payments in
      let of_apple = claim_rows (apple_account uuid) at of_google.1 in
      let claimed =
        terms-claim (apple_account uuid) at of_google.1
        ∙ terms-claim (google_account key) at db.payments in
      elim (Bool-cases (is_empty (of_google.0 ++ of_apple.0))) [
        | inl nothing ↦ ground (arith, claimed)
        | inr some_claimed ↦
            let linked =
              link_claimed-payments env key at (of_google.0 ++ of_apple.0)
                (record db { payments = of_apple.1 }) db' n (ground arith) in
            rw linked.1 (terms-link linked.0 (of_google.0 ++ of_apple.0) of_apple.1 ∙ claimed)
      ]

  pub update_user-payments :
      (db db' : Db)
      → update_user_from_payment_list env key db ≡ ok (tt, db')
      → db'.payments ≡ db.payments
  unfolding update_user_from_payment_list new_proof_expiry_offset
  update_user-payments db db' h = elim (Result-cases (lookup_account env key db)) [
    | inl (e, failed) ↦ ground arith
    | inr ((lookup, db1), looked) ↦
        let same = lookup-payments env key 0 db db1 lookup looked in
        elim (Option-cases lookup.best_expiry) [
          | inl unset ↦ ground (arith, same)
          | inr (e, set) ↦ ground (arith, same)
        ]
  ]

  revoke_current-payments :
      (at : DateTime) (db : Db) → (revoke_current key at db).payments ≡ db.payments
  unfolding revoke_current
  revoke_current-payments at db = elim (Option-cases (find_user key db.users)) [
    | inl missing ↦ ground arith
    | inr (u, found) ↦ ground arith
  ]

  revoke_proofs-payments :
      (at : DateTime) (db db' : Db) (r : AllocatedGenId)
      → revoke_proofs_and_allocate env key at db ≡ ok (r, db')
      → db'.payments ≡ db.payments
  unfolding revoke_proofs_and_allocate
  revoke_proofs-payments at db db' r h =
      let clocked : Db = record db { clock_reads = db.clock_reads + 1 } in
      let now = env.utc_now db.clock_reads in
      ensure-payments env key at (revoke_current key now clocked) db' r h
      ∙ revoke_current-payments now clocked

  -- Judging the account's outstanding proofs leaves the terms of every payment.
  pub refresh_and_revoke-terms :
      (at : DateTime) (db db' : Db) (revoked : Bool)
      → refresh_and_revoke_overreaching env key at db ≡ ok (revoked, db')
      → terms db'.payments ≡ terms db.payments
  unfolding refresh_and_revoke_overreaching
  refresh_and_revoke-terms at db db' revoked h =
      let clocked : Db = record db { clock_reads = db.clock_reads + 1 } in
      let now = env.utc_now db.clock_reads in
      let prior = coverage_or_epoch env.config (get_user key db) in
      elim (Result-cases (reconcile_pending_payments env key now clocked)) [
        | inl (e, failed) ↦ ground arith
        | inr ((n, db1), reconciled) ↦
            let claimed = reconcile-terms now clocked db1 n reconciled in
            elim (Result-cases (update_user_from_payment_list env key db1)) [
              | inl (e, failed) ↦ ground arith
              | inr ((u, db2), refreshed) ↦
                  let kept = update_user-payments db1 db2 refreshed in
                  elim (Result-cases (lookup_account env key db2)) [
                    | inl (e, failed) ↦ ground arith
                    | inr ((surviving, db3), looked) ↦
                        let seen = lookup-payments env key 0 db2 db3 surviving looked in
                        let covered = coverage_of_lookup env.config surviving in
                        elim (Bool-cases (proofs_stand env.shape prior covered at)) [
                          | inl stand ↦ ground (arith, claimed, kept, seen)
                          | inr fall ↦
                              elim (Result-cases (revoke_proofs_and_allocate env key at db3)) [
                                | inl (e, failed) ↦ ground arith
                                | inr ((r, db4), minted) ↦ ground (
                                  arith,
                                  claimed,
                                  kept,
                                  seen,
                                  revoke_proofs-payments at db3 db4 r minted,
                                )
                              ]
                        ]
                  ]
            ]
      ]
