-- ===== src/Db/Account.antt =====
-- backend.py: refreshing what the account's row says of its entitlement, and settling which
-- generation the account is on.
pub mod Usable
use session_pro_backend.Base.Units.{DateTime, Duration}
use session_pro_backend.Base.Errors.{assertion_error, constraint_violation}
use session_pro_backend.Entitlement.{LookupUserExpiry, lookup_user_expiry, live_credit}
use session_pro_backend.Db.Tables.{VerifyKey, Text, Payment, User, Generation}
use session_pro_backend.Db.Users.{
  account_rows, get_user, new_proof_expiry_offset, offset_redrawn_if_expiry_extends, payments_of,
  by_id, by_key, update_where,
}
use session_pro_backend.Db.Generations.{is_generation_revoked, mint_generation}
use session_pro_backend.Db.Monad.{Env, Tx, gets, modify, pure, read_clock, require, ◌>>=◌, ◌>>◌}
use session_pro_backend.Prelude.{
  Bool, List, Option, [], false, if◌then◌else◌, is_none, ltb, none, some, true, ℕ, ◌&&◌, ◌∷◌,
}

-- `AllocatedGenID`
pub record AllocatedGenId : Type 0 where
  pub found : Bool
  pub expiry_at : Option DateTime
  pub grace_period : Option Duration
  pub generation_id : ℕ
  pub token : Text

abbrev pub nothing_allocated : AllocatedGenId
nothing_allocated = record {
  found = false;
  expiry_at = none;
  grace_period = none;
  generation_id = 0;
  token = 0;
}

-- A live credit: not revoked, and with length left.
abbrev pub is_live_credit : Payment → Bool
is_live_credit p = is_none p.revoked_at && ltb 0 (live_credit p)

abbrev pub has_live_credit : List Payment → Bool
has_live_credit [] = false
has_live_credit (p ∷ ps) = if is_live_credit p then true else has_live_credit ps

-- The checkpoint that a claimed credit starts; a checkpoint that is set stays.
unfoldable pub start_checkpoint : DateTime → List Payment → User → User
start_checkpoint at payments u =
    if is_none u.credits_checkpoint_at && has_live_credit (payments_of u.id payments)
    then record u { credits_checkpoint_at = some at }
    else u

unfoldable pub refresh_user : LookupUserExpiry → DateTime → ℕ → User → User
unfolding offset_redrawn_if_expiry_extends
refresh_user lookup expiry_at drawn u = record u {
  expiry_at = expiry_at;
  grace_period = lookup.best_grace;
  auto_renewing = lookup.best_auto_renewing;
  proof_expiry_offset = offset_redrawn_if_expiry_extends lookup.best_expiry drawn u;
}

-- The UPDATE of `_ensure_active_generation`: a minted generation always takes the fresh offset, and
-- restarts the window of the proof counters.
unfoldable pub allocate_user : Bool → ℕ → LookupUserExpiry → DateTime → ℕ → User → User
unfolding refresh_user
allocate_user minted gen_id lookup expiry_at drawn u =
    let refreshed = refresh_user lookup expiry_at drawn u in
    if minted
    then record refreshed {
      current_generation_id = gen_id;
      proof_expiry_offset = drawn;
      proofs_issued_window = 0;
      proofs_issued_past_expiry_window = 0;
      proofs_window_start = none;
    }
    else record refreshed { current_generation_id = gen_id }

abbrev pub update_users : (List User → List User) → Tx (Unit {0})
update_users f = modify (λ db. record db { users = f db.users })

module _ (env : Env) where
  -- `_lookup_user_expiry` on the account's rows.
  unfoldable pub lookup_account : VerifyKey → Tx LookupUserExpiry
  unfolding account_rows
  lookup_account master_pkey = do
    rows ← gets (account_rows master_pkey)
    require (lookup_user_expiry env.config rows.0 rows.1) assertion_error

  -- With no payment to compute from, the account's coverage ends at the recompute's own instant.
  abbrev pub expiry_or_now : Option DateTime → Tx DateTime
  expiry_or_now none = read_clock env
  expiry_or_now (some e) = pure e

  -- `_update_user_expiry_grace_and_renew_flag_from_payment_list`
  unfoldable pub update_user_from_payment_list : VerifyKey → Tx (Unit {0})
  unfolding lookup_account new_proof_expiry_offset update_where refresh_user
  update_user_from_payment_list master_pkey = do
    lookup ← lookup_account master_pkey
    expiry_at ← expiry_or_now lookup.best_expiry
    drawn ← new_proof_expiry_offset env
    update_users (update_where (by_key master_pkey) (refresh_user lookup expiry_at drawn))

  -- The generation that the account is on from now: a fresh one where the current one is revoked.
  unfoldable pub settle_generation : Bool → User → Generation → DateTime → Tx (ℕ × Text)
  unfolding mint_generation
  settle_generation minted u g issued_at =
      if minted then mint_generation env u.id issued_at else pure (u.current_generation_id, g.token)

  -- The part of `_ensure_active_generation` after the test for a usable payment.
  unfoldable pub allocate_generation : VerifyKey → DateTime → LookupUserExpiry → Tx AllocatedGenId
  unfolding settle_generation get_user is_generation_revoked new_proof_expiry_offset update_where
      allocate_user
  allocate_generation master_pkey issued_at lookup = do
    found ← gets (get_user master_pkey)
    account ← require found assertion_error
    minted ← gets (is_generation_revoked account.0.current_generation_id)
    settled ← settle_generation minted account.0 account.1 issued_at
    drawn ← new_proof_expiry_offset env
    expiry_at ← require lookup.best_expiry constraint_violation
    update_users
        (update_where (by_id account.0.id) (allocate_user minted settled.0 lookup expiry_at drawn))
    pure (record {
      found = true;
      expiry_at = lookup.expiry_from_redeemed;
      grace_period = lookup.best_grace;
      generation_id = settled.0;
      token = settled.1;
    })

  -- `_ensure_active_generation`
  unfoldable pub ensure_active_generation : VerifyKey → DateTime → Tx AllocatedGenId
  unfolding lookup_account update_where start_checkpoint
  ensure_active_generation master_pkey issued_at = do
    modify (λ db. record db {
      users = update_where (by_key master_pkey) (start_checkpoint issued_at db.payments) db.users;
    })
    lookup ← lookup_account master_pkey
    if is_none lookup.expiry_from_redeemed
        then pure nothing_allocated
        else allocate_generation master_pkey issued_at lookup
