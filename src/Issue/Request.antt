-- ===== src/Issue/Request.antt =====
-- `generate_pro_proof`: what a request that gets a proof has shown.
use session_pro_backend.Base.Errors.{ok, Result-cases}
use session_pro_backend.Message.{Bytes, make_generate_pro_proof_message}
use session_pro_backend.Base.Units.{DateTime, second}
use session_pro_backend.Db.Monad.{Db, Env}
use session_pro_backend.Issue.{
  ProSubscriptionProof, SignatureScheme, build_current_entitlement_proof, generate_pro_proof,
  verify_proof_arguments,
}
use session_pro_backend.Db.Tables.{VerifyKey}
use session_pro_backend.Prelude.{
  false, some, true, ℕ, ◌==◌, ◌≡◌, Bool-cases, Option-cases, arith, ap, inl, inr, sym, ◌∙◌, ◌≤◌,
}
use session_pro_backend.Redeem.{key_bytes, reconcile_pending_payments}
use session_pro_backend.Issue.Sound.{IsHonest, issued_proof-IsHonest}

module _ (scheme : SignatureScheme) (env : Env) where
  open scheme use {SigningKey, is_zero_key, verify_key, sign, verify, verify-sign}

  module _ (key : SigningKey) (master_pkey rotating_pkey : VerifyKey) where
    -- The checks leave the tables as they are, and what passed them.
    checked :
        (message master_sig rotating_sig : Bytes) (db db' : Db)
        → verify_proof_arguments scheme env key master_pkey rotating_pkey message master_sig
            rotating_sig db
          ≡ ok (tt, db')
        → (db' ≡ db)
          × (verify master_pkey message master_sig ≡ true)
          × (verify rotating_pkey message rotating_sig ≡ true)
          × ((verify_key key == master_pkey) ≡ false)
          × ((master_pkey == rotating_pkey) ≡ false)
    unfolding verify_proof_arguments
    checked message master_sig rotating_sig db db' h = grind (arith, Bool-cases)

    request_steps :
        (request_at : DateTime) (master_sig rotating_sig : Bytes) (db db' : Db)
        (proof : ProSubscriptionProof)
        → generate_pro_proof scheme env key master_pkey rotating_pkey request_at master_sig
            rotating_sig db
          ≡ ok (proof, db')
        → (message : Bytes) × (n : ℕ) × (db1 db2 : Db) × (make_generate_pro_proof_message
              (key_bytes master_pkey)
              (key_bytes rotating_pkey)
              request_at
            ≡ some message)
          × (verify_proof_arguments scheme env key master_pkey rotating_pkey message master_sig
                rotating_sig db
              ≡ ok (tt, db1))
          × (reconcile_pending_payments env master_pkey request_at db1 ≡ ok (n, db2))
          × (build_current_entitlement_proof scheme env master_pkey rotating_pkey request_at key db2
              ≡ ok (proof, db'))
    unfolding generate_pro_proof
    request_steps request_at master_sig rotating_sig db db' proof h =
        elim (Option-cases (
          make_generate_pro_proof_message (key_bytes master_pkey) (key_bytes rotating_pkey)
            request_at)) [
              | inl unsigned ↦ ground arith
              | inr (message, signed) ↦
                  elim (Result-cases (
                    verify_proof_arguments scheme env key master_pkey rotating_pkey message
                      master_sig rotating_sig db)) [
                        | inl (e, failed) ↦ ground arith
                        | inr ((_, db1), passed) ↦
                            elim (Result-cases
                              (reconcile_pending_payments env master_pkey request_at db1)) [
                                | inl (e, failed) ↦ ground arith
                                | inr ((n, db2), reconciled) ↦
                                    (message, n, db1, db2, signed, passed, reconciled, ground arith)
                              ]
                      ]
            ]

    -- What a request that gets a proof has shown, and what it gets.
    abbrev pub IsEarned : DateTime → Bytes → Bytes → Db → Db → ProSubscriptionProof → Type 0
    IsEarned request_at master_sig rotating_sig db db' proof =
        (message : Bytes) × (n : ℕ) × (db1 : Db) × (make_generate_pro_proof_message
            (key_bytes master_pkey) (key_bytes rotating_pkey) request_at
          ≡ some message)
        × (verify master_pkey message master_sig ≡ true)
        × (verify rotating_pkey message rotating_sig ≡ true)
        × ((verify_key key == master_pkey) ≡ false)
        × ((master_pkey == rotating_pkey) ≡ false)
        × (reconcile_pending_payments env master_pkey request_at db ≡ ok (n, db1))
        × IsHonest scheme env master_pkey rotating_pkey request_at key db1 db' proof

    -- A proof is earned. Where a request gets one, both keys signed its message, which names both
    -- and the second of the request; the keys differ, and the master key is not the backend's. The
    -- account's pending payments were bound first, and the proof is honest on the tables that this
    -- left. The grid of the shape is at least a second.
    pub generate_pro_proof-IsEarned :
        (request_at : DateTime) (master_sig rotating_sig : Bytes) (db db' : Db)
        (proof : ProSubscriptionProof)
        → second ≤ env.shape.grid
        → generate_pro_proof scheme env key master_pkey rotating_pkey request_at master_sig
            rotating_sig db
          ≡ ok (proof, db')
        → IsEarned request_at master_sig rotating_sig db db' proof
    generate_pro_proof-IsEarned request_at master_sig rotating_sig db db' proof grid h =
        let (message, n, db1, db2, signed, passed, reconciled, built) =
          request_steps request_at master_sig rotating_sig db db' proof h in
        let (kept, by_master, by_rotating, not_backend, differ) =
          checked message master_sig rotating_sig db db1 passed in
        (
          message,
          n,
          db2,
          signed,
          by_master,
          by_rotating,
          not_backend,
          differ,
          ap (reconcile_pending_payments env master_pkey request_at) (sym kept) ∙ reconciled,
          issued_proof-IsHonest scheme env master_pkey rotating_pkey request_at key db2 db' proof
              grid built,
        )
