-- ===== src/Register/Once.antt =====
-- backend.py: a payment that a store reports again is not recorded again.
use session_pro_backend.Register.Dedup.{
  recorded, unique_details, details, details-bind, is_recorded-details, recorded-unique_details,
  recorded_lem, unique_details-details,
}
use session_pro_backend.Register.Auto.{Bound, registration-cases, record_and_redeem-Bound}
use session_pro_backend.Base.Errors.{ok}
use session_pro_backend.Prelude.{List, inl, inr, Bool, arith, refl, some, true, ◌∙◌, ◌≡◌}
use session_pro_backend.Base.Units.{DateTime}
use session_pro_backend.Db.Monad.{Db, Env}
use session_pro_backend.Db.Tables.{Detail, Payment}
use session_pro_backend.Renewal.{MissingField, PaymentProviderTransaction, redeem_selects}
use session_pro_backend.Register.{
  PaymentColumns, PlatformAccountId, add_unredeemed_payment, detail_of, needs_ack_column,
  record_and_redeem,
}

module _ (env : Env) (t : PaymentProviderTransaction) where
  Bound-details :
      (purchased_at : DateTime) (db : Db) (payments : List Payment)
      → Bound t purchased_at db payments
      → details payments ≡ details db.payments
  Bound-details purchased_at db payments (inl same) = rw same refl
  Bound-details purchased_at db payments (inr (key, user, at, owner, found, timely, bound)) =
      rw bound (details-bind (redeem_selects t) (some user.id) at db.payments)

  pub registered_details :
      (c : PaymentColumns) (account : PlatformAccountId) (needs_ack : Bool) (db db' : Db)
      → record_and_redeem env t c account needs_ack db ≡ ok (tt, db')
      → (detail : Detail) × (detail_of t account ≡ some detail)
        × (details db'.payments
            ≡ details (recorded c detail (needs_ack_column t.provider needs_ack) db).payments)
  registered_details c account needs_ack db db' h =
      let (detail, given, b) = record_and_redeem-Bound env t c account needs_ack db db' h in
      let before = recorded c detail (needs_ack_column t.provider needs_ack) db in
      (detail, given, Bound-details c.purchased_at before db'.payments b)

  -- No two payments agree on their table's UNIQUE columns: where that holds before a registration
  -- that returns, with or without messages, it holds after it.
  pub add_unredeemed_payment-unique_details :
      (c : PaymentColumns) (account : PlatformAccountId) (needs_ack : Bool) (db db' : Db)
      (messages : List MissingField)
      → unique_details db.payments ≡ true
      → add_unredeemed_payment env t c account needs_ack db ≡ ok (messages, db')
      → unique_details db'.payments ≡ true
  add_unredeemed_payment-unique_details c account needs_ack db db' messages unique h =
      elim (registration-cases env t c account needs_ack db db' messages h) [
        | inl (same, missing) ↦ rw same unique
        | inr (none_missing, done) ↦
            let ack = needs_ack_column t.provider needs_ack in
            let (detail, given, same) = registered_details c account needs_ack db db' done in
            unique_details-details db'.payments (recorded c detail ack db).payments same
            ∙ recorded-unique_details c detail ack db unique
      ]

  -- A store may tell of one payment many times: on the tables that a registration leaves, another
  -- of the same identifiers, whatever its other columns, adds no row and keeps every detail row.
  pub add_unredeemed_payment_again :
      (c c' : PaymentColumns) (account : PlatformAccountId) (ack ack' : Bool) (db db' db'' : Db)
      (messages messages' : List MissingField)
      → add_unredeemed_payment env t c account ack db ≡ ok (messages, db')
      → add_unredeemed_payment env t c' account ack' db' ≡ ok (messages', db'')
      → details db''.payments ≡ details db'.payments
  unfolding recorded
  add_unredeemed_payment_again c c' account ack ack' db db' db'' messages messages' h h' =
      elim (registration-cases env t c' account ack' db' db'' messages' h') [
        | inl (same, missing) ↦ rw same refl
        | inr (none_missing', done') ↦
            elim (registration-cases env t c account ack db db' messages h) [
              | inl (same, missing) ↦ ground arith
              | inr (none_missing, done) ↦
                  let (detail, given, same) = registered_details c account ack db db' done in
                  let (detail', given', same') =
                    registered_details c' account ack' db' db'' done' in
                  let one : detail' ≡ detail = ground arith in
                  let ack_column = needs_ack_column t.provider ack in
                  let before = recorded c detail ack_column db in
                  let known =
                    is_recorded-details detail db'.payments before.payments same
                    ∙ recorded_lem c detail ack_column db in
                  ground (arith, known)
            ]
      ]
