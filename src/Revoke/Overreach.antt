-- ===== src/Revoke/Overreach.antt =====
-- Proofs that are left standing do not overstate the account.
use session_pro_backend.Base.Errors.{ok, Result-cases}
use session_pro_backend.Base.Units.{Duration, DateTime, second, default_timestamp_tolerance}
use session_pro_backend.Revoke.{
  coverage_of_lookup, coverage_or_epoch, refresh_and_revoke_overreaching, proofs_stand,
  revoke_proofs_and_allocate,
}
use session_pro_backend.Db.Account.{lookup_account, update_user_from_payment_list}
use session_pro_backend.Db.Monad.{Db, Env}
use session_pro_backend.Db.Users.{get_user, account_rows}
use session_pro_backend.Db.Tables.{VerifyKey}
use session_pro_backend.Redeem.{reconcile_pending_payments}
use session_pro_backend.Proof.Expiry.{clamped_expiry-lt}
use session_pro_backend.Prelude.{
  Option, false, inl, min, none, some, true, ℕ, ◌+◌, ◌<◌, ◌≡◌, ◌≤◌, ◌⊎◌, Bool-cases, arith, inr,
  leb, refl, Option-cases, ap, sym, ◌∙◌,
}
use session_pro_backend.Base.Grid.{ProofExpiryShape, max_proof_lifetime}
use session_pro_backend.Proof.{build_proof_clamped_expiry_time}
use session_pro_backend.Entitlement.{LookupUserExpiry, lookup_user_expiry}

-- How far a proof that is left standing can reach, which was requested up to `late` after the
-- timestamp tolerance from `at`: by less than a lead and a grid period past what survives, or as
-- much more as the request was late, or by less than a lead and two grid periods past `at`.
abbrev pub StaysClose : ProofExpiryShape → Option DateTime → Duration → DateTime → DateTime → Type 0
StaysClose shape surviving late at e =
    (e < at + shape.grid + shape.renewal_lead + shape.grid)
    ⊎ ((s : DateTime) × (surviving ≡ some s) × (e < s + late + shape.renewal_lead + shape.grid))

module _ (shape : ProofExpiryShape) (prior_expiry at : DateTime) (surviving : Option DateTime) where
  standing_proofs_stay_close :
      (request_at true_end : DateTime) (late offset : ℕ) (e : DateTime)
      → second ≤ shape.grid
      → proofs_stand shape prior_expiry surviving at ≡ true
      → request_at ≤ at + default_timestamp_tolerance + late
      → true_end ≤ prior_expiry
      → build_proof_clamped_expiry_time shape request_at true_end offset ≡ some e
      → StaysClose shape surviving late at e
  unfolding proofs_stand max_proof_lifetime
  standing_proofs_stay_close request_at true_end late offset e grid stand early covered built =
      close surviving stand
    where
      bounds : e < min (request_at + shape.clamp) true_end + shape.renewal_lead + shape.grid
      bounds = (clamped_expiry-lt shape request_at true_end offset e grid built).1

      close :
          (s : Option DateTime)
          → proofs_stand shape prior_expiry s at ≡ true
          → StaysClose shape s late at e
      close none h = inl (ground (arith, bounds))
      close (some s) h = elim (Bool-cases (leb prior_expiry s)) [
        | inl kept ↦ inr (s, refl, ground (arith, bounds))
        | inr fell ↦ elim (Bool-cases (leb prior_expiry (at + shape.grid))) [
          | inl ending ↦ inl (ground (arith, bounds))
          | inr far ↦ inr (s, refl, ground (arith, bounds))
        ]
      ]

  -- The proofs are revoked only where they can overstate the account: coverage reached more than a
  -- grid period past `at`, and nothing survives, or what survives ends before that coverage did and
  -- before the furthest proof that can have been signed.
  pub revoked_proofs_overreach :
      proofs_stand shape prior_expiry surviving at ≡ false
      → (at + shape.grid < prior_expiry)
        × ((surviving ≡ none)
            ⊎ ((s : DateTime) × (surviving ≡ some s)
                × (s < prior_expiry)
                × (s < at + default_timestamp_tolerance + max_proof_lifetime shape)))
  unfolding proofs_stand
  revoked_proofs_overreach h = elim (Option-cases surviving) [
    | inl nothing ↦ (ground arith, inl nothing)
    | inr (s, survives) ↦ (ground arith, inr (s, survives, ground arith, ground arith))
  ]

lookup_account-keeps :
    (env : Env) (key : VerifyKey) (db db' : Db) (l : LookupUserExpiry)
    → lookup_account env key db ≡ ok (l, db')
    → db' ≡ db
unfolding lookup_account
lookup_account-keeps env key db db' l h =
    let rows = account_rows key db in
    elim (Option-cases (lookup_user_expiry env.config rows.0 rows.1)) [
      | inl absent ↦ ground arith
      | inr (found, looked) ↦ ground arith
    ]

module _ (env : Env) (master_pkey : VerifyKey) (at : DateTime) (db db' : Db) where
  -- What refresh_entitlement_and_revoke_overreaching_proofs has found where it revokes nothing.
  unrevoked_steps :
      refresh_and_revoke_overreaching env master_pkey at db ≡ ok (false, db')
      → (l : LookupUserExpiry) × (lookup_account env master_pkey db' ≡ ok (l, db'))
        × (proofs_stand env.shape
              (coverage_or_epoch env.config (get_user master_pkey db))
              (coverage_of_lookup env.config l)
              at
            ≡ true)
  unfolding refresh_and_revoke_overreaching
  unrevoked_steps h =
      let prior = coverage_or_epoch env.config (get_user master_pkey db) in
      let db1 : Db = record db { clock_reads = db.clock_reads + 1 } in
      elim (Result-cases
        (reconcile_pending_payments env master_pkey (env.utc_now db.clock_reads) db1)) [
          | inl (e, failed) ↦ cc
          | inr ((n, db2), bound) ↦
              elim (Result-cases (update_user_from_payment_list env master_pkey db2)) [
                | inl (e, failed) ↦ cc
                | inr ((_, db3), refreshed) ↦
                    elim (Result-cases (lookup_account env master_pkey db3)) [
                      | inl (e, failed) ↦ cc
                      | inr ((l, db4), looked) ↦
                          let kept = lookup_account-keeps env master_pkey db3 db4 l looked in
                          elim (Bool-cases
                            (proofs_stand env.shape prior (coverage_of_lookup env.config l) at)) [
                              | inl stand ↦
                                  let same : db' ≡ db4 = ground arith in
                                  (
                                    l,
                                    ap (λ (d : Db). lookup_account env master_pkey d) (same ∙ kept)
                                        ∙ looked
                                        ∙ ap (λ (d : Db). ok (l, d)) (sym same),
                                    stand,
                                  )
                              | inr fell ↦
                                  elim (Result-cases
                                    (revoke_proofs_and_allocate env master_pkey at db4)) [
                                      | inl (e, failed) ↦ ground arith
                                      | inr ((g, db5), revoked) ↦ ground arith
                                    ]
                            ]
                    ]
              ]
        ]

  -- Proofs that are left standing stay close to what the account has. Where
  -- refresh_entitlement_and_revoke_overreaching_proofs revokes nothing, every proof that was built
  -- on coverage that ended no later than the account's before, for a request up to `late` after the
  -- timestamp tolerance from `at`, reaches by less than a lead, a grid period and `late` past the
  -- coverage that the account's payments are left with, or by less than a lead and two grid periods
  -- past `at`. The grid of the shape is at least a second. `at` may lie days before the call, and
  -- so may `late` be days.
  pub unrevoked_proofs_stay_close :
      (request_at true_end : DateTime) (late offset : ℕ) (e : DateTime)
      → second ≤ env.shape.grid
      → refresh_and_revoke_overreaching env master_pkey at db ≡ ok (false, db')
      → request_at ≤ at + default_timestamp_tolerance + late
      → true_end ≤ coverage_or_epoch env.config (get_user master_pkey db)
      → build_proof_clamped_expiry_time env.shape request_at true_end offset ≡ some e
      → (l : LookupUserExpiry) × (lookup_account env master_pkey db' ≡ ok (l, db'))
        × StaysClose env.shape (coverage_of_lookup env.config l) late at e
  unrevoked_proofs_stay_close request_at true_end late offset e grid h early covered built =
      let (l, looked, stand) = unrevoked_steps h in
      (
        l,
        looked,
        standing_proofs_stay_close env.shape
            (coverage_or_epoch env.config (get_user master_pkey db)) at
            (coverage_of_lookup env.config l) request_at true_end late offset e grid stand early
            covered built,
      )
