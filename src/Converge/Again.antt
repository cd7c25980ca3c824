-- ===== src/Converge/Again.antt =====
-- backend.py: converging a payment twice on what the store says is converging it once.
use session_pro_backend.Converge.{
  no_row, Convergence, Snapshot, converge_rows, converge_standing, first_matching,
  google_converge_payment, is_standing_order, converge_terms, converged, held_expiry, incomplete,
}
use session_pro_backend.Redeem.Terms.{terms, refresh_and_revoke-terms, terms_of}
use session_pro_backend.Base.Errors.{ok, Result-cases}
use session_pro_backend.Prelude.{
  inl, inr, Bool-cases, List, List-cases, Option-cases, [], arith, false, is_empty, none, some,
  true, ◌∷◌, ◌≡◌, ◌⊎◌, refl, Bool, sym, ◌∙◌, ap,
}
use session_pro_backend.Converge.Settled.{
  converge_row, terms-converge, converge_rows-each, converge_rows_twice, stated_end,
}
use session_pro_backend.Base.Units.{DateTime}
use session_pro_backend.Db.Monad.{Db, Env}
use session_pro_backend.Db.Tables.{Payment, Text}
use session_pro_backend.Renewal.{
  PaymentProviderTransaction, verify_payment_provider_tx, MissingField,
}
use session_pro_backend.Revoke.{owner_of, refresh_and_revoke_overreaching}

module _ (token order : Text) (s : Snapshot) where
  converge_row-standing :
      (p : Payment)
      → is_standing_order token order (converge_row token order s p)
        ≡ is_standing_order token order p
  unfolding converge_row converge_terms held_expiry
  converge_row-standing p = elim (Option-cases p.expiry_at) [
    | inl unset ↦ ground arith
    | inr (stored, set) ↦ ground arith
  ]

  converge_row-settled :
      (p : Payment)
      → is_standing_order token order p ≡ true
      → (stated_end (converge_row token order s p) ≡ some s.expiry_at)
        × ((converge_row token order s p).auto_renewing ≡ s.auto_renewing)
        × ((converge_row token order s p).needs_ack ≡ s.needs_ack)
  unfolding converge_row converge_terms held_expiry
  converge_row-settled p standing = elim (Option-cases p.expiry_at) [
    | inl unset ↦ (ground arith, ground arith, ground arith)
    | inr (stored, set) ↦ (ground arith, ground arith, ground arith)
  ]

  first_standing-converge :
      (ps : List Payment) (p : Payment)
      → first_matching (is_standing_order token order) ps ≡ some p
      → first_matching (is_standing_order token order) (converge_rows token order s ps)
        ≡ some (converge_row token order s p)
  first_standing-converge [] p h = ground arith
  first_standing-converge (q ∷ ps) p h =
      rw (converge_rows-each token order s q ps)
        (ground (arith, converge_row-standing q, first_standing-converge ps p))

first_standing-terms :
    (token order : Text) (ps qs : List Payment) (p : Payment)
    → terms ps ≡ terms qs
    → first_matching (is_standing_order token order) ps ≡ some p
    → (q : Payment) × (first_matching (is_standing_order token order) qs ≡ some q)
      × (terms_of q ≡ terms_of p)
unfolding terms
first_standing-terms token order [] [] p same h = ground arith
first_standing-terms token order [] (q ∷ qs) p same h = ground arith
first_standing-terms token order (r ∷ ps) [] p same h = ground arith
first_standing-terms token order (r ∷ ps) (q ∷ qs) p same h =
    let heads : terms_of r ≡ terms_of q = ground arith in
    let tails : terms ps ≡ terms qs = ground arith in
    let details : r.detail ≡ q.detail = ground arith in
    let revocations : r.revoked_at ≡ q.revoked_at = ground arith in
    let alike : is_standing_order token order r ≡ is_standing_order token order q =
      rw details (rw revocations refl) in
    elim (Bool-cases (is_standing_order token order r)) [
      | inl standing ↦ (q, ground arith, ground arith)
      | inr other ↦
          let (q', found, q'_terms) =
            first_standing-terms token order ps qs p tails (ground arith) in
          (q', ground arith, q'_terms)
    ]

like_end : (p q : Payment) → terms_of p ≡ terms_of q → stated_end p ≡ stated_end q
like_end p q like = ap stated_end like

first_matching-accepts :
    (test : Payment → Bool) (ps : List Payment) (p : Payment)
    → first_matching test ps ≡ some p
    → test p ≡ true
first_matching-accepts test [] p h = ground arith
first_matching-accepts test (q ∷ ps) p h = ground (arith, first_matching-accepts test ps p)

module _ (env : Env) (s : Snapshot) where
  pub standing-cases :
      (token order : Text) (at : DateTime) (db db' : Db) (c : Convergence)
      → converge_standing env token order s at db ≡ ok (c, db')
      → ((db' ≡ db)
          × (first_matching (is_standing_order token order) db.payments ≡ none)
          × (c ≡ no_row))
        ⊎ ((p : Payment) × (first_matching (is_standing_order token order) db.payments ≡ some p)
            × (terms db'.payments ≡ converge_rows token order s (terms db.payments))
            × (c ≡ converged))
  unfolding converge_standing
  standing-cases token order at db db' c h =
      elim (Option-cases (first_matching (is_standing_order token order) db.payments)) [
        | inl missing ↦ inl (ground arith)
        | inr (p, standing) ↦
            let written : Db = record db { payments = converge_rows token order s db.payments } in
            elim (Option-cases (owner_of db.users p)) [
              | inl unowned ↦ inr (
                p,
                standing,
                ground (arith, terms-converge token order s db.payments),
                ground arith,
              )
              | inr (key, owner) ↦
                  elim (Result-cases (refresh_and_revoke_overreaching env key at written)) [
                    | inl (e, failed) ↦ ground arith
                    | inr ((revoked, db1), judged) ↦ inr (
                      p,
                      standing,
                      ground (
                        arith,
                        refresh_and_revoke-terms env key at written db1 revoked judged,
                        terms-converge token order s db.payments,
                      ),
                      ground arith,
                    )
                  ]
            ]
      ]

  pub converge-cases :
      (t : PaymentProviderTransaction) (at : DateTime) (db db' : Db) (c : Convergence)
      → google_converge_payment env t s at db ≡ ok (c, db')
      → ((db' ≡ db)
          × (is_empty (verify_payment_provider_tx t) ≡ false)
          × (c ≡ incomplete (verify_payment_provider_tx t)))
        ⊎ ((is_empty (verify_payment_provider_tx t) ≡ true)
            × (converge_standing env t.google_payment_token t.google_order_id s at db
                ≡ ok (c, db')))
  unfolding google_converge_payment
  converge-cases t at db db' c h = elim (List-cases (verify_payment_provider_tx t)) [
    | inr (message, messages, missing) ↦ inl (ground arith, ground arith, ground arith)
    | inl complete ↦ inr (ground arith, ground arith)
  ]

  -- A convergence that reports an incomplete identifier names a field.
  pub incomplete_names :
      (t : PaymentProviderTransaction) (at : DateTime) (db db' : Db) (missing : List MissingField)
      → google_converge_payment env t s at db ≡ ok (incomplete missing, db')
      → is_empty missing ≡ false
  incomplete_names t at db db' missing h =
      elim (converge-cases t at db db' (incomplete missing) h) [
        | inl (same, named, reported) ↦ ground arith
        | inr (complete, run) ↦
            elim (standing-cases t.google_payment_token t.google_order_id at db db'
              (incomplete missing) run) [
                | inl (same, absent, reported) ↦ ground arith
                | inr (p, standing, settled, there) ↦ ground arith
              ]
      ]

  -- Converging a payment again, at whatever time, on the snapshot that it converged on before
  -- changes the terms of no payment: neither an expiry, a grace, a renewal flag, a revocation, a
  -- credit nor an acknowledgement that is owed. What may differ is who claimed a payment, and when.
  pub google_converge_payment_again :
      (t : PaymentProviderTransaction) (at at' : DateTime) (db db' db'' : Db) (c c' : Convergence)
      → google_converge_payment env t s at db ≡ ok (c, db')
      → google_converge_payment env t s at' db' ≡ ok (c', db'')
      → terms db''.payments ≡ terms db'.payments
  google_converge_payment_again t at at' db db' db'' c c' h h' =
      let token = t.google_payment_token in
      let order = t.google_order_id in
      elim (converge-cases t at' db' db'' c' h') [
        | inl (same', missing', reported') ↦ rw same' refl
        | inr (complete', run') ↦ elim (standing-cases token order at' db' db'' c' run') [
          | inl (same', absent', reported') ↦ rw same' refl
          | inr (p', standing', terms', found') ↦ elim (converge-cases t at db db' c h) [
            | inl (same, missing, reported) ↦ ground arith
            | inr (complete, run) ↦ elim (standing-cases token order at db db' c run) [
              | inl (same, absent, reported) ↦ ground arith
              | inr (p, standing, settled, there) ↦
                  rw terms' (rw settled (converge_rows_twice token order s (terms db.payments)))
            ]
          ]
        ]
      ]

  -- Where a convergence reports a row, the payment of that purchase token and order which stands
  -- unrevoked ends, its grace included, where the resource says, with the renewal flag and the owed
  -- acknowledgement that the resource says, whatever the row held before.
  pub google_converge_payment-settled :
      (t : PaymentProviderTransaction) (at : DateTime) (db db' : Db)
      → google_converge_payment env t s at db ≡ ok (converged, db')
      → (p : Payment) × (first_matching
            (is_standing_order t.google_payment_token t.google_order_id)
            db'.payments
          ≡ some p)
        × (stated_end p ≡ some s.expiry_at)
        × (p.auto_renewing ≡ s.auto_renewing)
        × (p.needs_ack ≡ s.needs_ack)
  google_converge_payment-settled t at db db' h =
      let token = t.google_payment_token in
      let order = t.google_order_id in
      elim (converge-cases t at db db' converged h) [
        | inl (same, missing, reported) ↦ ground arith
        | inr (complete, run) ↦ elim (standing-cases token order at db db' converged run) [
          | inl (same, absent, reported) ↦ ground arith
          | inr (p, standing, settled, there) ↦
              let rows = converge_rows token order s db.payments in
              let row = converge_row token order s p in
              let (q, found, like) =
                first_standing-terms token order rows db'.payments row
                  (terms-converge token order s db.payments ∙ sym settled)
                  (first_standing-converge token order s db.payments p standing) in
              let (end, renewing, owed) =
                converge_row-settled token order s p
                  (first_matching-accepts (is_standing_order token order) db.payments p standing) in
              (q, found, like_end q row like ∙ end, ground arith, ground arith)
        ]
      ]
