-- ===== src/Status/Served.antt =====
-- server.py: an account that is told it is active gets its proof.
use session_pro_backend.Base.Errors.{
  assertion_error, ok, err, fail, rate_limited, Result-cases, ErrorCode, Error,
}
use session_pro_backend.Base.Units.{second, DateTime}
use session_pro_backend.Status.{
  active, status_of_account, ProStatus, get_account_latest_payment, get_pro_status, latest_item,
}
use session_pro_backend.Issue.{
  sign_counted_proof, SignatureScheme, build_current_entitlement_proof, build_proof,
  record_proof_issued, count_proof,
}
use session_pro_backend.Prelude.{
  inl, inr, Bool-cases, Option-cases, arith, false, leb, leb→le, ltb, ltb→lt, true, ◌≡◌, ◌≤◌, none,
  Bool, ℕ,
}
use session_pro_backend.Db.Monad.{Db, Env}
use session_pro_backend.Db.Tables.{Text, User, VerifyKey, derive_payment_status}
use session_pro_backend.Db.Users.{account_coverage_end, get_user, by_id, find_by_id, update_where}
use session_pro_backend.Proof.Expiry.{clamped_expiry_bounds}
use session_pro_backend.Db.Generations.{is_generation_revoked}
use session_pro_backend.Base.Grid.{offset_range}
use session_pro_backend.Redeem.{reconcile_pending_payments}
use session_pro_backend.Proof.{build_proof_clamped_expiry_time}

pub status_of_account-active :
    (env : Env) (key : VerifyKey) (u : User) (request_at : DateTime) (db db' : Db) (s : ProStatus)
    → status_of_account env key u request_at db ≡ ok (s, db')
    → s.user_status ≡ active
    → (db' ≡ db)
      × (is_generation_revoked u.current_generation_id db ≡ false)
      × (leb request_at (account_coverage_end env.config u) ≡ true)
unfolding status_of_account
status_of_account-active env key u request_at db db' s h told =
    let gone = is_generation_revoked u.current_generation_id db in
    elim (Result-cases (latest_item (get_account_latest_payment key db) request_at db)) [
      | inl (e, failed) ↦ ground arith
      | inr ((item, db1), named) ↦ elim (Option-cases (get_account_latest_payment key db)) [
        | inl unpaid ↦ elim (Bool-cases gone) [
          | inl lost ↦ ground arith
          | inr live ↦ (ground arith, live, ground arith)
        ]
        | inr (p, newest) ↦ elim (Option-cases (derive_payment_status p request_at)) [
          | inl unclaimed ↦ ground arith
          | inr (status, derived) ↦ elim (Bool-cases gone) [
            | inl lost ↦ ground arith
            | inr live ↦ (ground arith, live, ground arith)
          ]
        ]
      ]
    ]

record_proof_issued-fails :
    (id : ℕ) (issued_at : DateTime) (past_expiry : Bool) (db : Db) (e : Error)
    → record_proof_issued id issued_at past_expiry db ≡ err e
    → e ≡ assertion_error
unfolding record_proof_issued
record_proof_issued-fails id issued_at past_expiry db e h =
    let users = update_where (by_id id) (count_proof issued_at past_expiry) db.users in
    elim (Option-cases (find_by_id id users)) [
      | inl missing ↦ ground arith
      | inr (u, found) ↦ ground arith
    ]

module _ (scheme : SignatureScheme) (env : Env) where
  open scheme use {SigningKey}

  module _ (rotating_pkey : VerifyKey) (request_at : DateTime) (signing_key : SigningKey) where
    sign_counted_proof-refuses :
        (u : User) (token : Text) (e : DateTime) (db : Db) (code : ErrorCode)
        → sign_counted_proof scheme env u token rotating_pkey request_at signing_key e db
          ≡ err (fail code)
        → code ≡ rate_limited
    unfolding sign_counted_proof build_proof
    sign_counted_proof-refuses u token e db code h =
        elim (Result-cases (record_proof_issued u.id request_at (ltb u.expiry_at request_at) db)) [
          | inl (error, failed) ↦
              let asserted =
                record_proof_issued-fails u.id request_at (ltb u.expiry_at request_at) db error
                  failed in
              ground (arith, asserted)
          | inr ((issued, db1), counted) ↦
              elim (Option-cases (build_proof scheme token rotating_pkey e signing_key)) [
                | inl unsigned ↦ ground arith
                | inr (proof, signed) ↦ ground arith
              ]
        ]

    -- An account that get_pro_status reports as active is not refused a proof for want of
    -- entitlement: on the tables that the status request leaves, a proof for the same instant is
    -- refused with no code but that of the rate limit. The grid of the expiry shape is at least a
    -- second.
    pub active_is_served :
        (key : VerifyKey) (db db' : Db) (s : ProStatus) (code : ErrorCode)
        → second ≤ env.shape.grid
        → get_pro_status env key request_at db ≡ ok (s, db')
        → s.user_status ≡ active
        → build_current_entitlement_proof scheme env key rotating_pkey request_at signing_key db'
          ≡ err (fail code)
        → code ≡ rate_limited
    unfolding get_pro_status build_current_entitlement_proof
    active_is_served key db db' s code wide h told refusal =
        elim (Result-cases (reconcile_pending_payments env key request_at db)) [
          | inl (e, failed) ↦ ground arith
          | inr ((n, db1), reconciled) ↦ elim (Option-cases (get_user key db1)) [
            | inl unknown ↦ ground arith
            | inr ((u, g), found) ↦
                let (same, live, covered) =
                  status_of_account-active env key u request_at db1 db' s (ground arith) told in
                let end = account_coverage_end env.config u in
                elim (Bool-cases (ltb u.proof_expiry_offset (offset_range env.shape))) [
                  | inr out ↦
                      let unbuilt : build_proof_clamped_expiry_time env.shape request_at end
                            u.proof_expiry_offset
                          ≡ none =
                        unfold build_proof_clamped_expiry_time in ground (arith, out) in
                      ground (arith, same, live, found, unbuilt)
                  | inl within ↦
                      let (e, built, on_grid, least, most, short) =
                        clamped_expiry_bounds env.shape request_at end u.proof_expiry_offset wide
                          (ltb→lt u.proof_expiry_offset (offset_range env.shape) within) in
                      let later : ltb e request_at ≡ false =
                        ground (arith, leb→le request_at end covered, least) in
                      sign_counted_proof-refuses u g.token e db' code
                        (ground (arith, same, live, found, built, later))
                ]
          ]
        ]
