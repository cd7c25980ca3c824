-- ===== src/Base/Errors.antt =====
-- base.py: the error codes of a response, and how a transaction can end.
use session_pro_backend.Prelude.{Bool, false, true, inl, inr, refl, ◌≡◌, ◌⊎◌}

pub data ErrorCode : Type 0 where
  invalid_request bad_signature stale_request subscription_expired : ErrorCode
  not_subscribed revoked_code rate_limited internal_error : ErrorCode

-- What stops a transaction: a `FailError` or a `ServerError` with its code, a failed assertion, a
-- `RuntimeError`, or a constraint of the database. The transaction is then rolled back.
pub data Error : Type 0 where
  fail : ErrorCode → Error
  server_error : Error
  assertion_error : Error
  runtime_error : Error
  constraint_violation : Error

pub data Result {ℓ} (A : Type ℓ) : Type ℓ where
  ok : A → Result A
  err : Error → Result A

abbrev pub is_ok {ℓ} : {A : Type ℓ} → Result A → Bool
is_ok (ok _) = true
is_ok (err _) = false

pub Result-cases {ℓ} :
    {A : Type ℓ} (r : Result A) → ((e : Error) × (r ≡ err e)) ⊎ ((a : A) × (r ≡ ok a))
Result-cases (ok a) = inr (a, refl)
Result-cases (err e) = inl (e, refl)
