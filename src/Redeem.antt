-- ===== src/Redeem.antt =====
-- backend.py and providers/app_store.py: binding registered payments to the account that owns them.
pub mod Idempotent
pub mod Terms
use session_pro_backend.Base.Errors.{ok}
use session_pro_backend.Base.Units.{DateTime}
use session_pro_backend.Message.{Bytes}
use session_pro_backend.Db.Tables.{google, apple, stf, VerifyKey, Text, Payment}
use session_pro_backend.Db.Account.{ensure_active_generation}
use session_pro_backend.Db.Generations.{get_or_create_user_and_generation}
use session_pro_backend.Db.Monad.{Env, Tx, modify, pure, ◌>>=◌, ◌>>◌}
use session_pro_backend.Prelude.{
  Bool, List, [], false, if◌then◌else◌, is_empty, is_none, length, member, some, suc, zero, ℕ, ◌%◌,
  ◌&&◌, ◌*◌, ◌++◌, ◌+◌, ◌/◌, ◌==◌, ◌∷◌,
}

-- The bytes of a number, most significant first.
unfoldable pub big_endian : ℕ → ℕ → Bytes
big_endian zero n = []
big_endian (suc width) n = big_endian width (n / 256) ++ (n % 256) ∷ []

-- A 32-byte key as bytes.
unfoldable pub key_bytes : VerifyKey → Bytes
unfolding big_endian
key_bytes key = big_endian 32 key

-- The first 16 bytes of the key, with the version in byte 6 and the variant in byte 8.
unfoldable pub uuid_bytes : ℕ → Bytes → Bytes
uuid_bytes position [] = []
uuid_bytes position (b ∷ bs) =
    if position == 16
    then []
    else (if position == 6 then 64 + b % 16 else if position == 8 then 128 + b % 64 else b)
      ∷ uuid_bytes (position + 1) bs

abbrev pub number_of : ℕ → Bytes → ℕ
number_of acc [] = acc
number_of acc (b ∷ bs) = number_of (acc * 256 + b) bs

-- `uuid_from_master_pk`: the UUID as the number that its 16 bytes write.
unfoldable pub uuid_from_master_pk : VerifyKey → Text
unfolding key_bytes uuid_bytes
uuid_from_master_pk key = number_of 0 (uuid_bytes 0 (key_bytes key))

-- The rows that one `claim` of `reconcile_pending_payments` redeems: those of an account identifier
-- in one detail table that are neither redeemed nor revoked.
abbrev pub is_open : Payment → Bool
is_open p = is_none p.redeemed_at && is_none p.revoked_at

abbrev pub google_account : VerifyKey → Payment → Bool
google_account key p = elim p.detail [
  | google _ _ account ↦ account == key
  | apple _ _ _ _ ↦ false
  | stf _ ↦ false
]

abbrev pub apple_account : Text → Payment → Bool
apple_account uuid p = elim p.detail [
  | google _ _ _ ↦ false
  | apple _ _ _ account ↦ account == uuid
  | stf _ ↦ false
]

-- `UPDATE payments SET redeemed_at ... RETURNING id`: the ids, and the rows.
unfoldable pub claim_rows : (Payment → Bool) → DateTime → List Payment → List ℕ × List Payment
claim_rows owned redeemed_at [] = ([], [])
claim_rows owned redeemed_at (p ∷ ps) =
    let rest = claim_rows owned redeemed_at ps in
    if owned p && is_open p
    then (p.id ∷ rest.0, record p { redeemed_at = some redeemed_at } ∷ rest.1)
    else (rest.0, p ∷ rest.1)

abbrev pub claim : (Payment → Bool) → DateTime → Tx (List ℕ)
claim owned redeemed_at db =
    let claimed = claim_rows owned redeemed_at db.payments in
    ok (claimed.0, record db { payments = claimed.1 })

-- `UPDATE payments SET user_id ... WHERE id = ANY(...)`
unfoldable pub link_rows : ℕ → List ℕ → List Payment → List Payment
link_rows user_id ids [] = []
link_rows user_id ids (p ∷ ps) =
    (if member p.id ids then record p { user_id = some user_id } else p) ∷ link_rows user_id ids ps

abbrev pub update_payments : (List Payment → List Payment) → Tx (Unit {0})
update_payments f = modify (λ db. record db { payments = f db.payments })

module _ (env : Env) where
  -- The part of `reconcile_pending_payments` after the claims.
  unfoldable pub link_claimed : VerifyKey → DateTime → List ℕ → Tx ℕ
  unfolding get_or_create_user_and_generation ensure_active_generation link_rows
  link_claimed master_pkey redeemed_at claimed = do
    user ← get_or_create_user_and_generation env master_pkey redeemed_at
    update_payments (link_rows user.0 claimed)
    ensure_active_generation env master_pkey redeemed_at
    pure (length claimed)

  -- `reconcile_pending_payments`
  unfoldable pub reconcile_pending_payments : VerifyKey → DateTime → Tx ℕ
  unfolding claim_rows link_claimed
  reconcile_pending_payments master_pkey redeemed_at = do
    of_google ← claim (google_account master_pkey) redeemed_at
    of_apple ← claim (apple_account (uuid_from_master_pk master_pkey)) redeemed_at
    let claimed = of_google ++ of_apple
    if is_empty claimed then pure 0 else link_claimed master_pkey redeemed_at claimed
