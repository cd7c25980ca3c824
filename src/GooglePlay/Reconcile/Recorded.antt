-- ===== src/GooglePlay/Reconcile/Recorded.antt =====
-- providers/google_play/notifications.py: what a reconcile without a message leaves.
use session_pro_backend.GooglePlay.Reconcile.{
  key_bytes, converge_or_register, register_cycle, registered_columns,
  require_obfuscated_external_account_id, enqueue_linked, write_resource,
}
use session_pro_backend.Renewal.{
  google_play_store, PaymentProviderTransaction, verify_payment_provider_tx,
}
use session_pro_backend.Base.Errors.{ok, Result-cases}
use session_pro_backend.Converge.{
  first_matching, is_standing_order, Convergence, Snapshot, converged, google_converge_payment,
  incomplete, no_row,
}
use session_pro_backend.Db.Monad.{Db, Env}
use session_pro_backend.Db.Tables.{Payment, Text, google, Detail, VerifyKey, apple, stf}
use session_pro_backend.Prelude.{
  Bool, List, [], arith, refl, some, true, ◌∷◌, ◌≡◌, List-cases, inl, inr, ◌⊎◌, is_empty, sym, ◌∙◌,
}
use session_pro_backend.Queue.{PurchaseToken}
use session_pro_backend.Register.{
  is_recorded, same_dedup_key, PlatformAccountId, add_unredeemed_payment, PaymentColumns,
  account_token, detail_of, needs_ack_column, other_bytes,
}
use session_pro_backend.Base.Units.{DateTime}
use session_pro_backend.GooglePlay.Store.{PlayDb}
use session_pro_backend.GooglePlay.Resource.{SubscriptionPlanEventTransaction}
use session_pro_backend.Converge.Again.{
  incomplete_names, converge-cases, google_converge_payment-settled, standing-cases,
}
use session_pro_backend.Register.Dedup.{recorded, is_recorded-details, recorded_lem}
use session_pro_backend.Register.Once.{registered_details}
use session_pro_backend.Register.Auto.{registration-cases}

-- A payment of the purchase token and order is on record.
abbrev pub has_order : PurchaseToken → Text → Db → Bool
has_order token order db = is_recorded (google token order 0) db.payments

standing_is_recorded :
    (token order : Text) (ps : List Payment) (p : Payment)
    → first_matching (is_standing_order token order) ps ≡ some p
    → is_recorded (google token order 0) ps ≡ true
unfolding is_recorded same_dedup_key
standing_is_recorded token order [] p h = ground arith
standing_is_recorded token order (q ∷ ps) p h =
    by_detail q.detail refl (standing_is_recorded token order ps p)
  where
    by_detail :
        (d : Detail)
        → q.detail ≡ d
        → (first_matching (is_standing_order token order) ps ≡ some p
            → is_recorded (google token order 0) ps ≡ true)
        → is_recorded (google token order 0) (q ∷ ps) ≡ true
    by_detail (google token' order' key) same rest = ground (arith, rest)
    by_detail (apple _ _ _ _) same rest = ground (arith, rest)
    by_detail (stf _) same rest = ground (arith, rest)

-- The recorded details of a Google order do not depend on the account.
any_account :
    (token order : Text) (key : VerifyKey) (ps : List Payment)
    → is_recorded (google token order key) ps ≡ is_recorded (google token order 0) ps
unfolding is_recorded same_dedup_key
any_account token order key [] = refl
any_account token order key (q ∷ ps) = by_detail q.detail refl (any_account token order key ps)
  where
    by_detail :
        (d : Detail)
        → q.detail ≡ d
        → is_recorded (google token order key) ps ≡ is_recorded (google token order 0) ps
        → is_recorded (google token order key) (q ∷ ps)
          ≡ is_recorded (google token order 0) (q ∷ ps)
    by_detail (google token' order' key') same rest = ground (arith, rest)
    by_detail (apple _ _ _ _) same rest = ground (arith, rest)
    by_detail (stf _) same rest = ground (arith, rest)

google_detail :
    (t : PaymentProviderTransaction) (account : PlatformAccountId) (detail : Detail)
    → t.provider ≡ google_play_store
    → detail_of t account ≡ some detail
    → (key : VerifyKey) × (detail ≡ google t.google_payment_token t.google_order_id key)
unfolding detail_of
google_detail t (key_bytes key) detail from_google h = (key, ground arith)
google_detail t other_bytes detail from_google h = ground arith
google_detail t (account_token token) detail from_google h = ground arith

module _ (env : Env) (event : SubscriptionPlanEventTransaction) (s : Snapshot) where
  -- A convergence or registration without a message found the payment, or registered it.
  pub converge_or_register-cases :
      (t : PaymentProviderTransaction) (at : DateTime) (play play' : PlayDb)
      → converge_or_register env event s t at play ≡ ok ([], play')
      → (play'.google_reconcile_queue ≡ play.google_reconcile_queue)
        × ((google_converge_payment env t s at play.db ≡ ok (converged, play'.db))
            ⊎ ((db1 : Db) × (account : PlatformAccountId) × (google_converge_payment env t s at
                    play.db
                  ≡ ok (no_row, db1))
                × (add_unredeemed_payment env t
                      (registered_columns event s at)
                      account
                      s.needs_ack
                      db1
                    ≡ ok ([], play'.db))))
  unfolding converge_or_register register_cycle
  converge_or_register-cases t at play play' h =
      elim (Result-cases (google_converge_payment env t s at play.db)) [
        | inl (e, failed) ↦ ground arith
        | inr ((outcome, db1), ran) ↦ by_outcome outcome db1 ran
      ]
    where
      by_outcome :
          (outcome : Convergence) (db1 : Db)
          → google_converge_payment env t s at play.db ≡ ok (outcome, db1)
          → (play'.google_reconcile_queue ≡ play.google_reconcile_queue)
            × ((google_converge_payment env t s at play.db ≡ ok (converged, play'.db))
                ⊎ ((db1 : Db) × (account : PlatformAccountId) × (google_converge_payment env t s at
                        play.db
                      ≡ ok (no_row, db1))
                    × (add_unredeemed_payment env t
                          (registered_columns event s at)
                          account
                          s.needs_ack
                          db1
                        ≡ ok ([], play'.db))))
      by_outcome converged db1 ran = (ground arith, inl (ground arith))
      by_outcome (incomplete missing) db1 ran =
          let named = incomplete_names env s t at play.db db1 missing ran in
          elim (List-cases missing) [
            | inl no_message ↦ ground arith
            | inr (m, ms, some_message) ↦ ground arith
          ]
      by_outcome no_row db1 ran =
          let asked = require_obfuscated_external_account_id event.resource db1 in
          elim (List-cases asked.1) [
            | inr (m, ms, some_message) ↦ ground arith
            | inl identified ↦
                elim (Result-cases (
                  add_unredeemed_payment env t (registered_columns event s at) asked.0 s.needs_ack
                    db1)) [
                      | inl (e, failed) ↦ ground arith
                      | inr ((missing, db2), added) ↦ elim (List-cases missing) [
                        | inl complete ↦ (ground arith, inr (db1, asked.0, ran, ground arith))
                        | inr (m, ms, some_message) ↦ ground arith
                      ]
                    ]
          ]

  registered_order :
      (t : PaymentProviderTransaction) (c : PaymentColumns) (account : PlatformAccountId)
      (needs_ack : Bool) (db db' : Db)
      → t.provider ≡ google_play_store
      → is_empty (verify_payment_provider_tx t) ≡ true
      → add_unredeemed_payment env t c account needs_ack db ≡ ok ([], db')
      → has_order t.google_payment_token t.google_order_id db' ≡ true
  registered_order t c account needs_ack db db' from_google complete h =
      elim (registration-cases env t c account needs_ack db db' [] h) [
        | inl (same, named) ↦ ground arith
        | inr (none_named, done) ↦
            let (detail, given, same) = registered_details env t c account needs_ack db db' done in
            let ack = needs_ack_column t.provider needs_ack in
            let before = recorded c detail ack db in
            let there =
              is_recorded-details detail db'.payments before.payments same
              ∙ recorded_lem c detail ack db in
            let (key, is_google) = google_detail t account detail from_google given in
            let there' : is_recorded (google t.google_payment_token t.google_order_id key)
                  db'.payments
                ≡ true =
              rw is_google at there in
            sym (any_account t.google_payment_token t.google_order_id key db'.payments) ∙ there'
      ]

  -- A cycle that a resource tells of is on record after its convergence or registration.
  pub recorded_cycle :
      (t : PaymentProviderTransaction) (at : DateTime) (play play' : PlayDb)
      → t.provider ≡ google_play_store
      → converge_or_register env event s t at play ≡ ok ([], play')
      → has_order t.google_payment_token t.google_order_id play'.db ≡ true
  recorded_cycle t at play play' from_google h =
      let (queue, outcome) = converge_or_register-cases t at play play' h in
      elim outcome [
        | inl ran ↦
            let (p, standing, end, renewing, owed) =
              google_converge_payment-settled env s t at play.db play'.db ran in
            standing_is_recorded t.google_payment_token t.google_order_id play'.db.payments p
              standing
        | inr (db1, account, ran, added) ↦ elim (converge-cases env s t at play.db db1 no_row ran) [
          | inl (same, named, reported) ↦ ground arith
          | inr (complete, standing) ↦
              registered_order t (registered_columns event s at) account s.needs_ack db1 play'.db
                from_google complete added
        ]
      ]

  pub write_resource-cases :
      (t : PaymentProviderTransaction) (at : DateTime) (play play' : PlayDb)
      → write_resource env event s t at play ≡ ok ([], play')
      → (play1 : PlayDb) × (converge_or_register env event s t at play ≡ ok ([], play1))
        × (enqueue_linked event.resource.linked_purchase_token at play1 ≡ ok ([], play'))
  unfolding write_resource
  write_resource-cases t at play play' h =
      elim (Result-cases (converge_or_register env event s t at play)) [
        | inl (e, failed) ↦ ground arith
        | inr ((messages, play1), ran) ↦ elim (List-cases messages) [
          | inl no_message ↦ (play1, ground arith, ground arith)
          | inr (m, ms, some_message) ↦ ground arith
        ]
      ]

  -- Where a payment of the order stands unrevoked, the convergence finds it.
  pub standing_converges :
      (t : PaymentProviderTransaction) (at : DateTime) (play play' : PlayDb) (p : Payment)
      → first_matching (is_standing_order t.google_payment_token t.google_order_id) play.db.payments
        ≡ some p
      → converge_or_register env event s t at play ≡ ok ([], play')
      → google_converge_payment env t s at play.db ≡ ok (converged, play'.db)
  standing_converges t at play play' p before h =
      let (queue, outcome) = converge_or_register-cases t at play play' h in
      elim outcome [
        | inl ran ↦ ran
        | inr (db1, account, ran, added) ↦ elim (converge-cases env s t at play.db db1 no_row ran) [
          | inl (same, named, reported) ↦ ground arith
          | inr (complete, standing) ↦
              elim (standing-cases env s t.google_payment_token t.google_order_id at play.db db1
                no_row standing) [
                  | inl (same, absent, reported) ↦ ground arith
                  | inr (q, found, settled, there) ↦ ground arith
                ]
        ]
      ]
