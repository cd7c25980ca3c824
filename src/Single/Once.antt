-- ===== src/Single/Once.antt =====
-- A minted payment is bound once.
use session_pro_backend.Base.Errors.{ok, Result-cases, is_ok}
use session_pro_backend.Prelude.{
  Bool, Bool-cases, List, Option, [], arith, false, inl, inr, refl, some, ℕ, ◌==◌, ◌∷◌, ◌≡◌,
}
use session_pro_backend.Base.Units.{DateTime}
use session_pro_backend.Db.Monad.{Db, Env}
use session_pro_backend.Db.Tables.{Detail, Payment, VerifyKey}
use session_pro_backend.Renewal.{PaymentProviderTransaction, redeem_selects}
use session_pro_backend.Single.{bind_rows, redeem_minted, redeem_minted_payment}
use session_pro_backend.Db.Account.Usable.{ensure-payments}
use session_pro_backend.Db.Account.{ensure_active_generation}
use session_pro_backend.Redeem.Idempotent.{found_or_created-payments}
use session_pro_backend.Db.Generations.{get_or_create_user_and_generation}

-- The rows that are left take no second binding.
bound_rows-again :
    (selects : Detail → Bool) (user_id user_id' : Option ℕ) (at at' : DateTime) (ps : List Payment)
    → (bind_rows selects user_id' at' (bind_rows selects user_id at ps).1).0 ≡ 0
unfolding bind_rows
bound_rows-again selects user_id user_id' at at' [] = refl
bound_rows-again selects user_id user_id' at at' (p ∷ ps) =
    ground (arith, bound_rows-again selects user_id user_id' at at' ps)

module _ (env : Env) (t : PaymentProviderTransaction) where
  -- The payments that a redemption leaves.
  redeem_minted-payments :
      (key : VerifyKey) (at : DateTime) (db db' : Db)
      → redeem_minted env key t at db ≡ ok (tt, db')
      → (uid : ℕ) × (db'.payments ≡ (bind_rows (redeem_selects t) (some uid) at db.payments).1)
  unfolding redeem_minted
  redeem_minted-payments key at db db' h =
      elim (Result-cases (get_or_create_user_and_generation env key at db)) [
        | inl (e, failed) ↦ ground arith
        | inr ((account, db1), created) ↦
            let kept = found_or_created-payments env key at db db1 account created in
            let bound = bind_rows (redeem_selects t) (some account.0) at db1.payments in
            let linked : Db = record db1 { payments = bound.1 } in
            elim (Bool-cases (bound.0 == 1)) [
              | inr other ↦ ground arith
              | inl one ↦ elim (Result-cases (ensure_active_generation env key at linked)) [
                | inl (e, failed) ↦ ground arith
                | inr ((r, db2), ensured) ↦ (
                  account.0,
                  ground (arith, kept, ensure-payments env key at linked db2 r ensured),
                )
              ]
            ]
      ]

  -- Where nothing is open the redemption fails.
  redeem_minted-fails :
      (key : VerifyKey) (at : DateTime) (db : Db)
      → ((uid : ℕ) → (bind_rows (redeem_selects t) (some uid) at db.payments).0 ≡ 0)
      → is_ok (redeem_minted env key t at db) ≡ false
  unfolding redeem_minted
  redeem_minted-fails key at db nothing =
      elim (Result-cases (get_or_create_user_and_generation env key at db)) [
        | inl (e, failed) ↦ ground arith
        | inr ((account, db1), created) ↦
            ground (
              arith,
              nothing account.0,
              found_or_created-payments env key at db db1 account created,
            )
      ]

  -- A minted payment is bound once: on the tables that a successful redemption leaves, another with
  -- the same identifiers fails, whichever account asks and at whatever time.
  pub redeem_minted_once :
      (key key' : VerifyKey) (at at' : DateTime) (db db' : Db)
      → redeem_minted_payment env key t at db ≡ ok (tt, db')
      → is_ok (redeem_minted_payment env key' t at' db') ≡ false
  unfolding redeem_minted_payment
  redeem_minted_once key key' at at' db db' h =
      let (uid, left) = redeem_minted-payments key at db db' (ground arith) in
      let fails = redeem_minted-fails key' at' db' (λ uid'.
        rw left (bound_rows-again (redeem_selects t) (some uid) (some uid') at at' db.payments)) in
      ground (arith, fails)
