-- ===== src/Revoke.antt =====
-- backend.py: revoking payments, and revoking the proofs that then claim more than the account has.
pub mod Overreach
pub mod Refused
pub mod Served
use session_pro_backend.Base.Units.{DateTime, default_timestamp_tolerance, Config, epoch}
use session_pro_backend.Db.Tables.{google, apple, stf, VerifyKey, Text, Payment, User, Generation}
use session_pro_backend.Db.Users.{find_user, get_user, find_by_id, account_coverage_end}
use session_pro_backend.Db.Account.{
  AllocatedGenId, ensure_active_generation, lookup_account, update_user_from_payment_list,
}
use session_pro_backend.Db.Monad.{Env, Db, Tx, gets, modify, pure, read_clock, ◌>>=◌, ◌>>◌}
use session_pro_backend.Redeem.{reconcile_pending_payments, update_payments}
use session_pro_backend.Prelude.{
  Bool, List, Option, [], false, if◌then◌else◌, is_empty, is_none, leb, member, none, not, some,
  true, ℕ, ◌&&◌, ◌+◌, ◌==◌, ◌∷◌,
}
use session_pro_backend.Entitlement.{LookupUserExpiry}
use session_pro_backend.Base.Grid.{ProofExpiryShape, max_proof_lifetime}
use session_pro_backend.Coverage.{subscription_coverage_end}

-- The UPDATE that revokes one generation, unless it is revoked, and the trigger that then advances
-- the revocation ticket: the rows, and how many were revoked.
unfoldable pub revoke_rows : ℕ → DateTime → List Generation → List Generation × ℕ
revoke_rows id recorded_at [] = ([], 0)
revoke_rows id recorded_at (g ∷ gs) =
    let rest = revoke_rows id recorded_at gs in
    if g.id == id && is_none g.revoked_at
    then (record g { revoked_at = some recorded_at } ∷ rest.0, rest.1 + 1)
    else (g ∷ rest.0, rest.1)

abbrev pub revoke_generation : ℕ → DateTime → Db → Db
revoke_generation id recorded_at db =
    let revoked = revoke_rows id recorded_at db.generations in
    record db { generations = revoked.0; revocation_ticket = db.revocation_ticket + revoked.1 }

unfoldable pub revoke_current : VerifyKey → DateTime → Db → Db
unfolding revoke_rows
revoke_current master_pkey recorded_at db = elim (find_user master_pkey db.users) [
  | none ↦ db
  | some u ↦ revoke_generation u.current_generation_id recorded_at db
]

-- Whether outstanding proofs may stand, in the order of the tests: coverage did not fall, the
-- account was ending within a grid period of `at`, or what survives covers all that can have been
-- signed.
unfoldable pub proofs_stand : ProofExpiryShape → DateTime → Option DateTime → DateTime → Bool
unfolding max_proof_lifetime
proofs_stand shape prior_expiry none at = leb prior_expiry (at + shape.grid)
proofs_stand shape prior_expiry (some surviving) at =
    if leb prior_expiry surviving
    then true
    else if leb prior_expiry (at + shape.grid)
    then true
    else leb (at + default_timestamp_tolerance + max_proof_lifetime shape) surviving

-- The coverage of an absent account is that of an empty row, the epoch.
abbrev pub coverage_or_epoch : Config → Option (User × Generation) → DateTime
coverage_or_epoch config none = epoch
coverage_or_epoch config (some (u, g)) = account_coverage_end config u

abbrev pub coverage_of_lookup : Config → LookupUserExpiry → Option DateTime
coverage_of_lookup config l = elim l.best_expiry [
  | none ↦ none
  | some e ↦ some (subscription_coverage_end config e l.best_grace l.best_auto_renewing)
]

-- A row that a revocation selects: the payment's id and its owner.
abbrev pub owner_of : List User → Payment → Option VerifyKey
owner_of users p = elim p.user_id [
  | none ↦ none
  | some uid ↦ elim (find_by_id uid users) [ none ↦ none | some u ↦ some u.master_pkey ]
]

abbrev pub select_rows : (Payment → Bool) → List User → List Payment → List (ℕ × Option VerifyKey)
select_rows test users [] = []
select_rows test users (p ∷ ps) =
    let rest = select_rows test users ps in if test p then (p.id, owner_of users p) ∷ rest else rest

abbrev pub row_ids : List (ℕ × Option VerifyKey) → List ℕ
row_ids [] = []
row_ids ((id, _) ∷ rows) = id ∷ row_ids rows

-- The keys of the rows' owners, each once.
abbrev pub owner_keys : List VerifyKey → List (ℕ × Option VerifyKey) → List VerifyKey
owner_keys seen [] = []
owner_keys seen ((_, none) ∷ rows) = owner_keys seen rows
owner_keys seen ((_, some key) ∷ rows) =
    if member key seen then owner_keys seen rows else key ∷ owner_keys (key ∷ seen) rows

-- `UPDATE payments SET revoked_at ..., auto_renewing = FALSE WHERE id ... AND revoked_at IS NULL`
unfoldable pub revoke_payment_rows : List ℕ → DateTime → List Payment → List Payment
revoke_payment_rows ids revoke_at [] = []
revoke_payment_rows ids revoke_at (p ∷ ps) =
    (if member p.id ids && is_none p.revoked_at
      then record p { revoked_at = some revoke_at; auto_renewing = false }
      else p)
    ∷ revoke_payment_rows ids revoke_at ps

abbrev pub of_apple_transaction : Text → Payment → Bool
of_apple_transaction orig p = elim p.detail [
  | google _ _ _ ↦ false
  | apple original_tx_id _ _ _ ↦ original_tx_id == orig
  | stf _ ↦ false
]

abbrev pub of_google_token : Text → Payment → Bool
of_google_token token p = elim p.detail [
  | google payment_token _ _ ↦ payment_token == token
  | apple _ _ _ _ ↦ false
  | stf _ ↦ false
]

module _ (env : Env) where
  -- `revoke_master_pkey_proofs_and_allocate_new_gen_id`
  unfoldable pub revoke_proofs_and_allocate : VerifyKey → DateTime → Tx AllocatedGenId
  revoke_proofs_and_allocate master_pkey created_at = do
    recorded_at ← read_clock env
    modify (revoke_current master_pkey recorded_at)
    ensure_active_generation env master_pkey created_at

  -- `refresh_entitlement_and_revoke_overreaching_proofs`
  unfoldable pub refresh_and_revoke_overreaching : VerifyKey → DateTime → Tx Bool
  refresh_and_revoke_overreaching master_pkey at = do
    account ← gets (get_user master_pkey)
    let prior_expiry = coverage_or_epoch env.config account
    redeemed_at ← read_clock env
    reconcile_pending_payments env master_pkey redeemed_at
    update_user_from_payment_list env master_pkey
    surviving ← lookup_account env master_pkey
    if proofs_stand env.shape prior_expiry (coverage_of_lookup env.config surviving) at
        then pure false
        else (revoke_proofs_and_allocate master_pkey at >> pure true)

  unfoldable pub refresh_owners : List VerifyKey → DateTime → Tx (Unit {0})
  refresh_owners [] revoke_at = pure tt
  refresh_owners (key ∷ keys) revoke_at =
      refresh_and_revoke_overreaching key revoke_at >>= λ _. refresh_owners keys revoke_at

  -- `revoke_payments_by_id_internal`
  unfoldable pub revoke_payments_by_id : List (ℕ × Option VerifyKey) → DateTime → Tx Bool
  revoke_payments_by_id rows revoke_at = do
    update_payments (revoke_payment_rows (row_ids rows) revoke_at)
    refresh_owners (owner_keys [] rows) revoke_at
    pure (not (is_empty rows))

  -- `add_apple_revocation` and `add_google_revocation`. Where the result is false a message that no
  -- payment matched goes into the error sink.
  unfoldable pub add_apple_revocation : Text → DateTime → Tx Bool
  add_apple_revocation apple_original_tx_id revoke_at = do
    rows ← gets (λ db. select_rows (of_apple_transaction apple_original_tx_id) db.users db.payments)
    revoke_payments_by_id rows revoke_at

  unfoldable pub add_google_revocation : Text → DateTime → Tx Bool
  add_google_revocation google_payment_token revoke_at = do
    rows ← gets (λ db. select_rows (of_google_token google_payment_token) db.users db.payments)
    revoke_payments_by_id rows revoke_at
