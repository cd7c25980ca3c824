-- ===== src/Server/Details.antt =====
-- server.py: the route get_payment_details, from the body of a request to a page and its cursor.
use session_pro_backend.Base.Errors.{
  bad_signature, assertion_error, runtime_error, invalid_request, ok, err, fail, Result,
}
use session_pro_backend.Message.{
  text, instant, raw, Bytes, get_payment_details_domain, make_get_payment_details_message,
  signed_message,
}
use session_pro_backend.Message.Decimal.{decimal}
use session_pro_backend.Db.Monad.{◌>>=◌, Env, Tx, pure, raise, require, when, ◌>>◌}
use session_pro_backend.Server.Fields.{read_details_request, given}
use session_pro_backend.Json.Integers.{ℤ, pos, negsuc}
use session_pro_backend.Redeem.{key_bytes}
use session_pro_backend.Listing.Cursor.{Aead, decrypt_payment_cursor, encrypt_payment_cursor}
use session_pro_backend.Base.Units.{DateTime}
use session_pro_backend.Json.{JsonValue}
use session_pro_backend.Prelude.{
  List, Option, [], if◌then◌else◌, none, not, some, suc, ℕ, ◌==◌, ◌∷◌,
}
use session_pro_backend.Db.Tables.{Payment, VerifyKey}
use session_pro_backend.Issue.{SignatureScheme}
use session_pro_backend.Status.{check_read_replay_window}
use session_pro_backend.Listing.{get_payment_details}

-- The message for a limit that may be negative; the parameter is the UTF-8 encoding of a text.
unfoldable pub details_message : (Bytes → Bytes) → Bytes → DateTime → ℤ → Bytes → Option Bytes
unfolding make_get_payment_details_message signed_message decimal
details_message utf8 master_pkey request_at (pos limit) before =
    make_get_payment_details_message master_pkey request_at limit (utf8 before)
details_message utf8 master_pkey request_at (negsuc n) before =
    signed_message get_payment_details_domain
      (raw master_pkey ∷ instant request_at ∷ text (45 ∷ decimal (suc n)) ∷ text (utf8 before) ∷ [])

unfoldable pub positive_limit : ℤ → Result ℕ
positive_limit (pos limit) = if limit == 0 then err (fail invalid_request) else ok limit
positive_limit (negsuc n) = err (fail invalid_request)

-- The answer, with the cursor sealed.
pub record DetailsAnswer : Type 0 where
  pub payments_total : ℕ
  pub items : List Payment
  pub next_cursor : Option Bytes

module _ (cipher : Aead) (cursor_key : Bytes) (master_pkey : VerifyKey) where
  unfoldable pub opened_cursor : Bytes → Result (Option ℕ)
  unfolding decrypt_payment_cursor
  opened_cursor [] = ok none
  opened_cursor (c ∷ cs) = elim (decrypt_payment_cursor cipher cursor_key master_pkey (c ∷ cs)) [
    | none ↦ err (fail invalid_request)
    | some id ↦ ok (some id)
  ]

  unfoldable pub sealed_cursor : Bytes → Option ℕ → Option Bytes
  unfolding encrypt_payment_cursor
  sealed_cursor nonce none = none
  sealed_cursor nonce (some id) =
      some (encrypt_payment_cursor cipher cursor_key master_pkey nonce id)

  -- The part behind the check of the signature; the nonce is the one that a sealed cursor draws.
  unfoldable pub page_answer : Env → Bytes → DateTime → ℤ → Bytes → Tx DetailsAnswer
  unfolding positive_limit get_payment_details
  page_answer env nonce request_at limit before = do
    page_limit ← given (positive_limit limit)
    before_id ← given (opened_cursor before)
    details ← get_payment_details env master_pkey request_at page_limit before_id
    pure (record {
      payments_total = details.payments_total;
      items = details.items;
      next_cursor = sealed_cursor nonce details.next_cursor;
    })

module _ (json_loads : Bytes → Option JsonValue) (verify_key_of : Bytes → Option VerifyKey)
    (utf8 : Bytes → Bytes) (env : Env) (scheme : SignatureScheme) (cipher : Aead)
    (cursor_key : Bytes) where
  open scheme use {verify}

  unfoldable pub post_get_payment_details : DateTime → Bytes → Bytes → Tx DetailsAnswer
  unfolding read_details_request check_read_replay_window details_message page_answer
  post_get_payment_details now nonce body = do
    (bytes, request_at, limit, before) ← given (read_details_request json_loads body)
    check_read_replay_window now request_at
    master_pkey ← require (verify_key_of bytes.master_pkey) runtime_error
    message ←
        require (details_message utf8 (key_bytes master_pkey) request_at limit before)
          assertion_error
    when (not (verify master_pkey message bytes.master_sig)) (raise (fail bad_signature))
    page_answer cipher cursor_key master_pkey env nonce request_at limit before
