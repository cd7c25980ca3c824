-- ===== src/Issue/Sound.antt =====
-- What an issued proof says, and when the backend refuses.
use session_pro_backend.Base.Errors.{ok}
use session_pro_backend.Db.Monad.{Db, Env}
use session_pro_backend.Prelude.{
  ◌≡◌, false, ltb, some, Bool-cases, Option-cases, arith, ap, min, true, ◌+◌, ◌<◌, ◌≤◌, ◌⊎◌,
}
use session_pro_backend.Base.Units.{DateTime, second}
use session_pro_backend.Db.Tables.{Generation, User, VerifyKey, Text}
use session_pro_backend.Issue.{
  ProSubscriptionProof, SignatureScheme, build_current_entitlement_proof, sign_counted_proof,
  account_grace_span, build_proof, counted_proofs, record_proof_issued,
}
use session_pro_backend.Proof.{build_proof_clamped_expiry_time}
use session_pro_backend.Db.Users.{get_user, account_coverage_end, find_by_id}
use session_pro_backend.Db.Generations.{is_generation_revoked}
use session_pro_backend.Message.{Bytes, build_proof_message}
use session_pro_backend.Redeem.{key_bytes}
use session_pro_backend.Proof.Expiry.{clamped_expiry-lt}
use session_pro_backend.Coverage.{expiry-le-coverage}

module _ (scheme : SignatureScheme) (env : Env) where
  open scheme use {SigningKey, verify_key, sign, verify, verify-sign}

  module _ (master_pkey rotating_pkey : VerifyKey) (request_at : DateTime) (key : SigningKey) where
    -- The steps of a successful issue.
    issue_steps :
        (db db' : Db) (proof : ProSubscriptionProof)
        → build_current_entitlement_proof scheme env master_pkey rotating_pkey request_at key db
          ≡ ok (proof, db')
        → (u : User) × (g : Generation) × (e : DateTime) × (get_user master_pkey db ≡ some (u, g))
          × (is_generation_revoked u.current_generation_id db ≡ false)
          × (build_proof_clamped_expiry_time env.shape request_at
                (account_coverage_end env.config u)
                u.proof_expiry_offset
              ≡ some e)
          × (ltb e request_at ≡ false)
          × (sign_counted_proof scheme env u g.token rotating_pkey request_at key e db
              ≡ ok (proof, db'))
    unfolding build_current_entitlement_proof
    issue_steps db db' proof h = grind (arith, Option-cases, Bool-cases)

    -- What the signing step adds, and that it stays within the limit.
    sign_steps :
        (db db' : Db) (u : User) (token : Text) (e : DateTime) (proof : ProSubscriptionProof)
        → sign_counted_proof scheme env u token rotating_pkey request_at key e db ≡ ok (proof, db')
        → (m : Bytes) × (build_proof_message (key_bytes token) (key_bytes rotating_pkey) e ≡ some m)
          × (proof ≡ record {
            revocation_tag = token;
            rotating_pkey = rotating_pkey;
            expiry_at = e;
            sig = sign key m;
            account_expiry_at = u.expiry_at;
            account_grace_period = account_grace_span env.config u;
            account_auto_renewing = u.auto_renewing;
          })
    unfolding sign_counted_proof build_proof
    sign_steps db db' u token e proof h = grind arith

    -- The account's row after the issue, and the limit that it meets.
    sign_limit :
        (db db' : Db) (u : User) (token : Text) (e : DateTime) (proof : ProSubscriptionProof)
        → sign_counted_proof scheme env u token rotating_pkey request_at key e db ≡ ok (proof, db')
        → (u' : User) × (find_by_id u.id db'.users ≡ some u')
          × ((env.config.max_proofs_per_window ≡ 0)
              ⊎ (counted_proofs u' ≤ env.config.max_proofs_per_window))
    unfolding sign_counted_proof record_proof_issued
    sign_limit db db' u token e proof h = grind arith

    ends_at :
        (u : User)
        → u.expiry_at + account_grace_span env.config u ≡ account_coverage_end env.config u
    unfolding account_grace_span
    ends_at u =
        omega (arith, expiry-le-coverage env.config u.expiry_at u.grace_period u.auto_renewing)

    -- What an honest proof, issued on `db` and leaving `db'`, is.
    abbrev pub IsHonest : Db → Db → ProSubscriptionProof → Type 0
    IsHonest db db' proof =
        (u u' : User) × (g : Generation) × (m : Bytes) × (get_user master_pkey db ≡ some (u, g))
        × (is_generation_revoked u.current_generation_id db ≡ false)
        × (proof.revocation_tag ≡ g.token)
        × (proof.rotating_pkey ≡ rotating_pkey)
        × (request_at ≤ proof.expiry_at)
        × (proof.expiry_at
            < min (request_at + env.shape.clamp) (account_coverage_end env.config u)
              + env.shape.renewal_lead
              + env.shape.grid)
        × (build_proof_message (key_bytes g.token) (key_bytes rotating_pkey) proof.expiry_at
            ≡ some m)
        × (verify (verify_key key) m proof.sig ≡ true)
        × (proof.account_expiry_at ≡ u.expiry_at)
        × (proof.account_expiry_at + proof.account_grace_period ≡ account_coverage_end env.config u)
        × (find_by_id u.id db'.users ≡ some u')
        × ((env.config.max_proofs_per_window ≡ 0)
            ⊎ (counted_proofs u' ≤ env.config.max_proofs_per_window))

    -- An issued proof is honest. It was requested by an account on record whose current generation
    -- is not revoked and carries that generation's token and the rotating key. It has not expired
    -- at the request, and expires less than the renewal lead and one grid period after the earlier
    -- of the rolling clamp and the end of the account's coverage. Its signature verifies under the
    -- backend's key. The advisory expiry is that of the paid term, and with the advisory grace it
    -- gives the end of coverage. Where a limit is set, the proofs counted against it do not pass
    -- it. The grid of the shape is at least a second.
    pub issued_proof-IsHonest :
        (db db' : Db) (proof : ProSubscriptionProof)
        → second ≤ env.shape.grid
        → build_current_entitlement_proof scheme env master_pkey rotating_pkey request_at key db
          ≡ ok (proof, db')
        → IsHonest db db' proof
    issued_proof-IsHonest db db' proof grid h =
        let (u, g, e, found, live, built, unexpired, signed) = issue_steps db db' proof h in
        let (m, message, same) = sign_steps db db' u g.token e proof signed in
        let (u', row, limit) = sign_limit db db' u g.token e proof signed in
        let coverage : DateTime = account_coverage_end env.config u in
        let expiry : proof.expiry_at ≡ e = ap (λ (p : ProSubscriptionProof). p.expiry_at) same in
        let paid_until : proof.account_expiry_at ≡ u.expiry_at =
          ap (λ (p : ProSubscriptionProof). p.account_expiry_at) same in
        let bounds =
          clamped_expiry-lt env.shape request_at coverage u.proof_expiry_offset e grid built in
        (
          u,
          u',
          g,
          m,
          found,
          live,
          ap (λ (p : ProSubscriptionProof). p.revocation_tag) same,
          ap (λ (p : ProSubscriptionProof). p.rotating_pkey) same,
          rw expiry (ground arith),
          rw expiry bounds.1,
          rw expiry message,
          rw (ap (λ (p : ProSubscriptionProof). p.sig) same) (verify-sign key m),
          paid_until,
          rw (paid_until, ap (λ (p : ProSubscriptionProof). p.account_grace_period) same)
              (ends_at u),
          row,
          limit,
        )
