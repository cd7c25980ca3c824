-- ===== src/Server.antt =====
-- server.py: the routes, from the body of a request to the response.
-- The parser of JSON, and the constructor of a public key from its bytes, are parameters: `none` is
-- where they raise.
pub mod Fields
pub mod Decoding
pub mod Earned
pub mod Revocations
pub mod Signed
pub mod Standing
pub mod Blanks
pub mod Details
pub mod Pages
use session_pro_backend.Server.Fields.{
  is_outside_window, read_proof_request, read_status_request, get_json_from_flask_request, given,
  require_int,
}
use session_pro_backend.Json.Integers.{ℤ, pos, negsuc}
use session_pro_backend.Redeem.{key_bytes}
use session_pro_backend.Base.Errors.{
  err, fail, ok, Error, ErrorCode, assertion_error, bad_signature, runtime_error, server_error,
  stale_request,
}
use session_pro_backend.Prelude.{
  Bool, List, Option, [], if◌then◌else◌, ltb, none, not, some, true, ℕ, ◌+◌, ◌-◌, ◌∷◌,
}
use session_pro_backend.Message.{Bytes, make_get_pro_status_message, ascii}
use session_pro_backend.Base.Units.{
  DateTime, revocation_effective_delay, revocation_poll_interval, revocation_retain_for,
  seconds_from_duration, unix_seconds_from_datetime,
}
use session_pro_backend.Db.Monad.{Db, Env, Tx, gets, raise, require, when, ◌>>◌, ◌>>=◌}
use session_pro_backend.Db.Tables.{Generation, VerifyKey}
use session_pro_backend.Json.{JsonValue}
use session_pro_backend.Status.{ProStatus, check_read_replay_window, get_pro_status}
use session_pro_backend.Issue.{ProSubscriptionProof, SignatureScheme, generate_pro_proof}
use session_pro_backend.Housekeeping.{get_revocations_list}

-- What a client receives: the envelope of `make_success_response`; that of `handle_api_error`, for
-- a `FailError` with its code or a `ServerError`; or the page of an exception that is neither.
pub data Response (A : Type 0) : Type 0 where
  success : A → Response A
  failure : ErrorCode → Response A
  server_fault : Response A
  uncaught : Response A

abbrev pub handle_api_error : {A : Type 0} → Error → Response A
handle_api_error (fail code) = failure code
handle_api_error server_error = server_fault
handle_api_error _ = uncaught

-- What a request is answered, and the tables that it leaves.
unfoldable pub respond : {A : Type 0} → Tx A → Db → Response A × Db
respond m db = elim (m db) [ ok (a, db') ↦ (success a, db') | err e ↦ (handle_api_error e, db) ]

-- An item of the answer to `get_pro_revocations`.
pub record RevocationItem : Type 0 where
  pub revocation_tag : Bytes
  pub effective_ts : ℕ

pub record ProRevocations : Type 0 where
  pub ticket : ℕ
  pub items : List RevocationItem
  pub retry_in : ℕ
  pub retain_for : ℕ

-- A generation that is listed was revoked.
unfoldable pub revocation_items : List Generation → List RevocationItem
unfolding unix_seconds_from_datetime key_bytes
revocation_items [] = []
revocation_items (g ∷ gs) = elim g.revoked_at [
  | none ↦ revocation_items gs
  | some revoked_at ↦
      record {
        revocation_tag = key_bytes g.token;
        effective_ts = unix_seconds_from_datetime (revoked_at + revocation_effective_delay);
      }
      ∷ revocation_items gs
]

-- `ticket < revocation_ticket`
abbrev pub is_behind : ℤ → ℕ → Bool
is_behind (pos ticket) revocation_ticket = ltb ticket revocation_ticket
is_behind (negsuc _) revocation_ticket = true

-- The transaction of `get_pro_revocations`.
unfoldable pub served_revocations : DateTime → ℤ → Db → ProRevocations
unfolding get_revocations_list revocation_items seconds_from_duration
served_revocations now ticket db = record {
  ticket = db.revocation_ticket;
  items =
      if is_behind ticket db.revocation_ticket
      then revocation_items
          (get_revocations_list (some (now - revocation_retain_for)) db.generations)
      else [];
  retry_in = seconds_from_duration revocation_poll_interval;
  retain_for = seconds_from_duration revocation_retain_for;
}

module _ (json_loads : Bytes → Option JsonValue) where
  unfoldable pub get_pro_revocations : DateTime → Bytes → Tx ProRevocations
  unfolding get_json_from_flask_request require_int served_revocations
  get_pro_revocations now body = do
    get_json ← given (get_json_from_flask_request json_loads body)
    ticket ← given (require_int get_json (ascii "ticket"))
    gets (served_revocations now ticket)

  module _ (verify_key_of : Bytes → Option VerifyKey) (env : Env) (scheme : SignatureScheme) where
    open scheme use {SigningKey, verify}

    unfoldable pub post_generate_pro_proof : SigningKey → DateTime → Bytes → Tx ProSubscriptionProof
    unfolding read_proof_request is_outside_window generate_pro_proof
    post_generate_pro_proof signing_key now body = do
      (bytes, request_at) ← given (read_proof_request json_loads body)
      when (is_outside_window now request_at) (raise (fail stale_request))
      master_pkey ← require (verify_key_of bytes.master_pkey) runtime_error
      rotating_pkey ← require (verify_key_of bytes.rotating_pkey) runtime_error
      generate_pro_proof scheme env signing_key master_pkey rotating_pkey request_at
          bytes.master_sig bytes.rotating_sig

    unfoldable pub post_get_pro_status : DateTime → Bytes → Tx ProStatus
    unfolding read_status_request check_read_replay_window get_pro_status
        make_get_pro_status_message
    post_get_pro_status now body = do
      (bytes, request_at) ← given (read_status_request json_loads body)
      check_read_replay_window now request_at
      master_pkey ← require (verify_key_of bytes.master_pkey) runtime_error
      message ←
          require (make_get_pro_status_message (key_bytes master_pkey) request_at) assertion_error
      when (not (verify master_pkey message bytes.master_sig)) (raise (fail bad_signature))
      get_pro_status env master_pkey request_at
