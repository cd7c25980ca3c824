-- ===== src/Register/Auto.antt =====
-- backend.py: which account a renewal is bound to.
use session_pro_backend.Register.Dedup.{recorded, insert-recorded}
use session_pro_backend.Renewal.{
  google_play_store, ios_app_store, nil_provider, session_foundation, PaymentProviderTransaction,
  redeem_selects, PaymentProvider, verify_payment_provider_tx, MissingField,
}
use session_pro_backend.Base.Errors.{
  ok, fail, server_error, assertion_error, runtime_error, constraint_violation, Result-cases,
}
use session_pro_backend.Base.Units.{DateTime}
use session_pro_backend.Db.Monad.{Db, Env, Tx}
use session_pro_backend.Prelude.{
  List, arith, inl, inr, some, ◌≡◌, ◌≤◌, ◌⊎◌, refl, Bool, Bool-cases, Option-cases, [], ltb, ◌+◌,
  List-cases, sym, true, false, is_empty,
}
use session_pro_backend.Db.Tables.{Payment, User, VerifyKey, Detail, Generation}
use session_pro_backend.Register.{
  auto_redeem_deadline, previous_owner, swallow_api_error, PaymentColumns, PlatformAccountId,
  add_unredeemed_payment, auto_redeem, detail_of, needs_ack_column, insert_payment_row,
  record_and_redeem,
}
use session_pro_backend.Single.{bind_rows, redeem_payment_for_user, user_id_of}
use session_pro_backend.Db.Users.{find_user, get_user}
use session_pro_backend.Db.Account.Usable.{ensure-payments}
use session_pro_backend.Db.Account.{ensure_active_generation}

-- The payments after the recording: those recorded, or these with the identifier's open rows bound
-- to the account that owns the previous cycle, if the purchase came before its deadline.
abbrev pub Bound : PaymentProviderTransaction → DateTime → Db → List Payment → Type 0
Bound t purchased_at db payments =
    (payments ≡ db.payments)
    ⊎ ((key : VerifyKey) × (user : User) × (at : DateTime) × (previous_owner t db ≡ some key)
        × (find_user key db.users ≡ some user)
        × (purchased_at ≤ auto_redeem_deadline t.provider user)
        × (payments ≡ (bind_rows (redeem_selects t) (some user.id) at db.payments).1))

provider-cases :
    (p : PaymentProvider)
    → ((p ≡ nil_provider) ⊎ (p ≡ session_foundation))
      ⊎ ((p ≡ google_play_store) ⊎ (p ≡ ios_app_store))
provider-cases nil_provider = inl (inl refl)
provider-cases session_foundation = inl (inr refl)
provider-cases google_play_store = inr (inl refl)
provider-cases ios_app_store = inr (inr refl)

swallowed_lem :
    (m : Tx (Unit {0})) (db db' : Db)
    → swallow_api_error m db ≡ ok (tt, db')
    → (db' ≡ db) ⊎ (m db ≡ ok (tt, db'))
unfolding swallow_api_error
swallowed_lem m db db' h = elim (Result-cases (m db)) [
  | inr ((u, db1), done) ↦ inr (ground arith)
  | inl (fail code, failed) ↦ inl (ground arith)
  | inl (server_error, failed) ↦ inl (ground arith)
  | inl (assertion_error, failed) ↦ ground arith
  | inl (runtime_error, failed) ↦ ground arith
  | inl (constraint_violation, failed) ↦ ground arith
]

found_row :
    (key : VerifyKey) (db : Db) (u : User) (g : Generation)
    → get_user key db ≡ some (u, g)
    → find_user key db.users ≡ some u
unfolding get_user
found_row key db u g h = elim (Option-cases (find_user key db.users)) [
  | inl missing ↦ ground arith
  | inr (user, found) ↦ ground arith
]

module _ (env : Env) (t : PaymentProviderTransaction) where
  pub redeem_payment-payments :
      (key : VerifyKey) (at : DateTime) (db db' : Db)
      → redeem_payment_for_user env key t at db ≡ ok (tt, db')
      → (db'.payments ≡ db.payments)
        ⊎ (db'.payments
            ≡ (bind_rows (redeem_selects t) (user_id_of (find_user key db.users)) at db.payments).1)
  unfolding redeem_payment_for_user
  redeem_payment-payments key at db db' h =
      let bound =
        bind_rows (redeem_selects t) (user_id_of (find_user key db.users)) at db.payments in
      let linked : Db = record db { payments = bound.1 } in
      elim (Result-cases (ensure_active_generation env key at linked)) [
        | inl (e, failed) ↦ elim (provider-cases t.provider) [
          | inl skipped ↦ inl (ground arith)
          | inr redeemed ↦ inr (ground arith)
        ]
        | inr ((r, db2), settled) ↦
            let kept = ensure-payments env key at linked db2 r settled in
            elim (provider-cases t.provider) [
              | inl skipped ↦ inl (ground arith)
              | inr redeemed ↦ inr (ground (arith, kept))
            ]
      ]

  auto_redeem-Bound :
      (purchased_at : DateTime) (key : VerifyKey) (db db' : Db)
      → previous_owner t db ≡ some key
      → auto_redeem env t purchased_at key db ≡ ok (tt, db')
      → Bound t purchased_at db db'.payments
  unfolding auto_redeem
  auto_redeem-Bound purchased_at key db db' owner h = elim (Option-cases (get_user key db)) [
    | inl missing ↦ inl (ground arith)
    | inr ((user, g), found) ↦
        elim (Bool-cases (ltb (auto_redeem_deadline t.provider user) purchased_at)) [
          | inl late ↦ inl (ground arith)
          | inr timely ↦
              let clocked : Db = record db { clock_reads = db.clock_reads + 1 } in
              let at = env.utc_now db.clock_reads in
              elim (swallowed_lem (redeem_payment_for_user env key t at) clocked db'
                (ground arith)) [
                  | inl same ↦ inl (ground arith)
                  | inr redeemed ↦ elim (redeem_payment-payments key at clocked db' redeemed) [
                    | inl same ↦ inl (ground arith)
                    | inr bound ↦
                        let row = found_row key db user g found in
                        inr (key, user, at, owner, row, ground arith, ground (arith, row))
                  ]
                ]
        ]
  ]

  pub record_and_redeem-Bound :
      (c : PaymentColumns) (account : PlatformAccountId) (needs_ack : Bool) (db db' : Db)
      → record_and_redeem env t c account needs_ack db ≡ ok (tt, db')
      → (detail : Detail) × (detail_of t account ≡ some detail)
        × Bound t c.purchased_at
            (recorded c detail (needs_ack_column t.provider needs_ack) db)
            db'.payments
  unfolding record_and_redeem
  record_and_redeem-Bound c account needs_ack db db' h = elim (Option-cases (detail_of t account)) [
    | inl untyped ↦ ground arith
    | inr (detail, given) ↦
        let ack = needs_ack_column t.provider needs_ack in
        elim (Result-cases (insert_payment_row c detail ack db)) [
          | inl (e, refused) ↦ ground arith
          | inr ((inserted, db1), written) ↦
              let row = insert-recorded c detail ack db db1 inserted written in
              elim (Option-cases (previous_owner t db1)) [
                | inl unowned ↦ (detail, given, inl (ground (arith, row)))
                | inr (key, owner) ↦ (
                  detail,
                  given,
                  rw (sym row) (auto_redeem-Bound c.purchased_at key db1 db' owner (ground arith)),
                )
              ]
        ]
  ]

  -- A registration that returns either reports what the identifier misses and changes nothing, or
  -- records the payment and reports nothing.
  pub registration-cases :
      (c : PaymentColumns) (account : PlatformAccountId) (needs_ack : Bool) (db db' : Db)
      (messages : List MissingField)
      → add_unredeemed_payment env t c account needs_ack db ≡ ok (messages, db')
      → ((db' ≡ db) × (is_empty (verify_payment_provider_tx t) ≡ false))
        ⊎ ((is_empty (verify_payment_provider_tx t) ≡ true)
            × (record_and_redeem env t c account needs_ack db ≡ ok (tt, db')))
  unfolding add_unredeemed_payment
  registration-cases c account needs_ack db db' messages h =
      elim (List-cases (verify_payment_provider_tx t)) [
        | inr (message, others, missing) ↦ inl (ground arith)
        | inl complete ↦ elim (Result-cases (record_and_redeem env t c account needs_ack db)) [
          | inl (e, failed) ↦ ground arith
          | inr ((u, db1), done) ↦ inr (ground arith, ground arith)
        ]
      ]

  -- What registering a payment does to the payments, where the identifier misses no field: the row
  -- is put in front unless its identifier is recorded, and no other row changes, except that the
  -- rows of the identifier which nobody has claimed and no refund has revoked may be bound to an
  -- account. That account is the one which holds the newest claimed payment of the same
  -- subscription, and the purchase came no later than the deadline of its entitlement.
  pub add_unredeemed_payment-Bound :
      (c : PaymentColumns) (account : PlatformAccountId) (needs_ack : Bool) (db db' : Db)
      → verify_payment_provider_tx t ≡ []
      → add_unredeemed_payment env t c account needs_ack db ≡ ok ([], db')
      → (detail : Detail) × (detail_of t account ≡ some detail)
        × Bound t c.purchased_at
            (recorded c detail (needs_ack_column t.provider needs_ack) db)
            db'.payments
  unfolding add_unredeemed_payment
  add_unredeemed_payment-Bound c account needs_ack db db' complete h =
      elim (Result-cases (record_and_redeem env t c account needs_ack db)) [
        | inl (e, failed) ↦ ground arith
        | inr ((u, db1), done) ↦ record_and_redeem-Bound c account needs_ack db db' (ground arith)
      ]
