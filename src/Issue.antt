-- ===== src/Issue.antt =====
-- backend.py: issuing a proof of an account's entitlement.
pub mod Counters
pub mod Sound
pub mod Request
use session_pro_backend.Base.Units.{DateTime, Duration, proof_issue_window, Config}
use session_pro_backend.Base.Errors.{
  fail, assertion_error, server_error, bad_signature, invalid_request, not_subscribed, revoked_code,
  subscription_expired, rate_limited,
}
use session_pro_backend.Message.{Bytes, build_proof_message, make_generate_pro_proof_message}
use session_pro_backend.Proof.{build_proof_clamped_expiry_time}
use session_pro_backend.Db.Tables.{VerifyKey, Text, User}
use session_pro_backend.Db.Users.{get_user, by_id, update_where, account_coverage_end, find_by_id}
use session_pro_backend.Db.Generations.{is_generation_revoked}
use session_pro_backend.Db.Monad.{Env, Tx, gets, pure, raise, require, when, ◌>>=◌, ◌>>◌}
use session_pro_backend.Redeem.{key_bytes, reconcile_pending_payments}
use session_pro_backend.Db.Account.{update_users}
use session_pro_backend.Prelude.{
  Bool, Option, bytes_eq, false, if◌then◌else◌, leb, ltb, none, not, some, true, ℕ, ◌&&◌, ◌+◌, ◌-◌,
  ◌==◌, ◌||◌, ◌≡◌,
}

-- The Ed25519 library: what it verifies, what it signs, and the key that belongs to a signing key.
pub record SignatureScheme : Type 1 where
  pub SigningKey : Type 0
  pub is_zero_key : SigningKey → Bool
  pub verify_key : SigningKey → VerifyKey
  pub sign : SigningKey → Bytes → Bytes
  pub verify : VerifyKey → Bytes → Bytes → Bool
  pub verify-sign : (k : SigningKey) (m : Bytes) → verify (verify_key k) m (sign k m) ≡ true

-- `ProSubscriptionProof`
pub record ProSubscriptionProof : Type 0 where
  pub revocation_tag : Text
  pub rotating_pkey : VerifyKey
  pub expiry_at : DateTime
  pub sig : Bytes
  pub account_expiry_at : DateTime
  pub account_grace_period : Duration
  pub account_auto_renewing : Bool

unfoldable pub account_grace_span : Config → User → Duration
account_grace_span config u = account_coverage_end config u - u.expiry_at

-- `proofs_window_start IS NULL OR now >= proofs_window_start + window`
abbrev pub window_is_over : DateTime → Option DateTime → Bool
window_is_over now none = true
window_is_over now (some start) = leb (start + proof_issue_window) now

abbrev pub as_int : Bool → ℕ
as_int true = 1
as_int false = 0

-- The UPDATE of `_record_proof_issued`.
unfoldable pub count_proof : DateTime → Bool → User → User
count_proof now past_expiry u =
    let over = window_is_over now u.proofs_window_start in
    record u {
      proofs_issued_total = u.proofs_issued_total + 1;
      proofs_issued_window = if over then 1 else u.proofs_issued_window + 1;
      proofs_issued_past_expiry_window =
          if over
          then as_int past_expiry
          else u.proofs_issued_past_expiry_window + as_int past_expiry;
      proofs_window_start = if over then some now else u.proofs_window_start;
    }

-- How many proofs of the window count against the limit.
abbrev pub counted_proofs : User → ℕ
counted_proofs u = u.proofs_issued_window - u.proofs_issued_past_expiry_window

unfoldable pub record_proof_issued : ℕ → DateTime → Bool → Tx ℕ
unfolding count_proof update_where
record_proof_issued user_id issued_at past_expiry = do
  update_users (update_where (by_id user_id) (count_proof issued_at past_expiry))
  row ← gets (λ db. find_by_id user_id db.users)
  u ← require row assertion_error
  pure (counted_proofs u)

module _ (scheme : SignatureScheme) where
  open scheme use {SigningKey, is_zero_key, verify_key, sign, verify}

  -- `build_proof`
  unfoldable pub build_proof :
      Text → VerifyKey → DateTime → SigningKey → Option ProSubscriptionProof
  unfolding build_proof_message key_bytes
  build_proof revocation_tag rotating_pkey expiry_at signing_key =
      elim (build_proof_message (key_bytes revocation_tag) (key_bytes rotating_pkey) expiry_at) [
        | none ↦ none
        | some message ↦ some (record {
          revocation_tag = revocation_tag;
          rotating_pkey = rotating_pkey;
          expiry_at = expiry_at;
          sig = sign signing_key message;
          account_expiry_at = 0;
          account_grace_period = 0;
          account_auto_renewing = false;
        })
      ]

  module _ (env : Env) where
    -- The part of `build_current_entitlement_proof` after the entitlement checks.
    unfoldable pub sign_counted_proof :
        User → Text → VerifyKey → DateTime → SigningKey → DateTime → Tx ProSubscriptionProof
    unfolding record_proof_issued build_proof account_grace_span
    sign_counted_proof u token rotating_pkey request_at signing_key proof_expiry_at = do
      issued_this_window ← record_proof_issued u.id request_at (ltb u.expiry_at request_at)
      when
          (not (env.config.max_proofs_per_window == 0)
            && ltb env.config.max_proofs_per_window issued_this_window)
          (raise (fail rate_limited))
      proof ← require (build_proof token rotating_pkey proof_expiry_at signing_key) assertion_error
      pure (record proof {
        account_expiry_at = u.expiry_at;
        account_grace_period = account_grace_span env.config u;
        account_auto_renewing = u.auto_renewing;
      })

    unfoldable pub build_current_entitlement_proof :
        VerifyKey → VerifyKey → DateTime → SigningKey → Tx ProSubscriptionProof
    build_current_entitlement_proof master_pkey rotating_pkey request_at signing_key = do
      found ← gets (get_user master_pkey)
      account ← require found (fail not_subscribed)
      revoked ← gets (is_generation_revoked account.0.current_generation_id)
      when revoked (raise (fail revoked_code))
      proof_expiry_at ←
          require
            (build_proof_clamped_expiry_time env.shape request_at
              (account_coverage_end env.config account.0) account.0.proof_expiry_offset)
            assertion_error
      when (ltb proof_expiry_at request_at) (raise (fail subscription_expired))
      sign_counted_proof account.0 account.1.token rotating_pkey request_at signing_key
          proof_expiry_at

    -- `internal_verify_add_payment_and_get_proof_common_arguments`
    unfoldable pub verify_proof_arguments :
        SigningKey → VerifyKey → VerifyKey → Bytes → Bytes → Bytes → Tx (Unit {0})
    verify_proof_arguments signing_key master_pkey rotating_pkey message master_sig rotating_sig =
        do
          when (not (verify master_pkey message master_sig)) (raise (fail bad_signature))
          when (not (verify rotating_pkey message rotating_sig)) (raise (fail bad_signature))
          when (is_zero_key signing_key || verify_key signing_key == 0) (raise assertion_error)
          when (verify_key signing_key == master_pkey || verify_key signing_key == rotating_pkey)
              (raise server_error)
          when (master_pkey == rotating_pkey) (raise (fail invalid_request))
          when (master_pkey == 0) (raise (fail invalid_request))
          when (rotating_pkey == 0) (raise (fail invalid_request))
          when (bytes_eq master_sig rotating_sig) (raise (fail invalid_request))

    unfoldable pub generate_pro_proof :
        SigningKey → VerifyKey → VerifyKey → DateTime → Bytes → Bytes → Tx ProSubscriptionProof
    unfolding make_generate_pro_proof_message verify_proof_arguments reconcile_pending_payments
        build_current_entitlement_proof
    generate_pro_proof signing_key master_pkey rotating_pkey request_at master_sig rotating_sig = do
      message ←
          require
            (make_generate_pro_proof_message (key_bytes master_pkey) (key_bytes rotating_pkey)
              request_at)
            assertion_error
      verify_proof_arguments signing_key master_pkey rotating_pkey message master_sig rotating_sig
      reconcile_pending_payments env master_pkey request_at
      build_current_entitlement_proof master_pkey rotating_pkey request_at signing_key
