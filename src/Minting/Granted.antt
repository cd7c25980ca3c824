-- ===== src/Minting/Granted.antt =====
-- minting.py: a granted payment that is redeemed on the spot is spent.
use session_pro_backend.Base.Errors.{ok, is_ok, Result-cases}
use session_pro_backend.Minting.{
  granted_length, redeem_if_asked, MintedPayment, mint_payment, minted_columns, minted_identifiers,
}
use session_pro_backend.Single.{redeem_minted_payment}
use session_pro_backend.Prelude.{inl, inr, true, false, Option, [], arith, length, ◌∷◌, ◌≡◌}
use session_pro_backend.Base.Units.{DateTime, Duration}
use session_pro_backend.Db.Monad.{Db, Env}
use session_pro_backend.Renewal.{PaymentProvider, PaymentProviderTransaction}
use session_pro_backend.Db.Tables.{ProPlan, VerifyKey}
use session_pro_backend.Register.{add_unredeemed_payment}
use session_pro_backend.Single.Once.{redeem_minted_once}

module _ (env : Env) (key : VerifyKey) where
  redeem_if_asked-spent :
      (t : PaymentProviderTransaction) (plan : ProPlan) (now at : DateTime) (key' : VerifyKey)
      (db db' : Db) (m : MintedPayment)
      → redeem_if_asked env true key t plan now db ≡ ok (m, db')
      → is_ok (redeem_minted_payment env key' m.payment_tx at db') ≡ false
  unfolding redeem_if_asked
  redeem_if_asked-spent t plan now at key' db db' m h =
      elim (Result-cases (redeem_minted_payment env key t now db)) [
        | inl (e, failed) ↦ ground arith
        | inr ((u, db1), redeemed) ↦
            let once = redeem_minted_once env t key key' now at db db1 redeemed in
            let same : db' ≡ db1 = ground arith in
            let made : m.payment_tx ≡ t = ground arith in rw same (rw made once)
      ]

  -- A payment that was granted and redeemed on the spot is spent: on the tables that the grant
  -- leaves, a redemption of its identifiers fails, whichever account asks and at whatever time.
  pub mint_payment-spent :
      (provider : PaymentProvider) (plan : ProPlan) (now at : DateTime) (duration : Option Duration)
      (key' : VerifyKey) (db db' : Db) (m : MintedPayment)
      → mint_payment env key provider plan now duration true db ≡ ok (m, db')
      → is_ok (redeem_minted_payment env key' m.payment_tx at db') ≡ false
  unfolding mint_payment
  mint_payment-spent provider plan now at duration key' db db' m h =
      elim (Result-cases (granted_length env plan duration db)) [
        | inl (e, failed) ↦ ground arith
        | inr ((length, db1), granted) ↦
            elim (Result-cases (minted_identifiers env provider key db1)) [
              | inl (e, failed) ↦ ground arith
              | inr ((made, db2), drawn) ↦
                  elim (Result-cases (
                    add_unredeemed_payment env made.0 (minted_columns plan now length) made.1 false
                      db2)) [
                        | inl (e, failed) ↦ ground arith
                        | inr ((message ∷ others, db3), reported) ↦ ground arith
                        | inr (([], db3), registered) ↦
                            redeem_if_asked-spent made.0 plan now at key' db3 db' m (ground arith)
                      ]
            ]
      ]
