-- ===== src/Single.antt =====
-- backend.py: the operations on one payment that its store's identifiers name: binding it to an
-- account, and reversing its refund.
pub mod Once
pub mod Reversal
use session_pro_backend.Db.Monad.{pure, raise, Env, Tx, gets, when, ◌>>=◌, ◌>>◌}
use session_pro_backend.Redeem.{is_open, update_payments}
use session_pro_backend.Base.Errors.{ok, assertion_error, server_error}
use session_pro_backend.Db.Tables.{google, apple, stf, Detail, Payment, Text, User, VerifyKey}
use session_pro_backend.Renewal.{
  nil_provider, google_play_store, ios_app_store, session_foundation, redeem_selects,
  PaymentProviderTransaction,
}
use session_pro_backend.Prelude.{
  Bool, List, Option, [], false, if◌then◌else◌, is_empty, ltb, member, none, not, some, ℕ, ◌&&◌,
  ◌+◌, ◌==◌, ◌∷◌,
}
use session_pro_backend.Base.Units.{Config, DateTime}
use session_pro_backend.Entitlement.{LookupUserExpiry}
use session_pro_backend.Db.Account.{
  ensure_active_generation, lookup_account, update_user_from_payment_list,
}
use session_pro_backend.Db.Users.{find_user}
use session_pro_backend.Db.Generations.{get_or_create_user_and_generation}
use session_pro_backend.Revoke.{owner_keys, select_rows, row_ids}
use session_pro_backend.Coverage.{subscription_coverage_end}

-- `UPDATE payments SET redeemed_at ..., user_id ... RETURNING id`: how many rows, and the rows.
unfoldable pub bind_rows : (Detail → Bool) → Option ℕ → DateTime → List Payment → ℕ × List Payment
bind_rows selects user_id redeemed_at [] = (0, [])
bind_rows selects user_id redeemed_at (p ∷ ps) =
    let rest = bind_rows selects user_id redeemed_at ps in
    if selects p.detail && is_open p
    then (rest.0 + 1, record p { redeemed_at = some redeemed_at; user_id = user_id } ∷ rest.1)
    else (rest.0, p ∷ rest.1)

abbrev pub bind : (Detail → Bool) → Option ℕ → DateTime → Tx ℕ
bind selects user_id redeemed_at db =
    let bound = bind_rows selects user_id redeemed_at db.payments in
    ok (bound.0, record db { payments = bound.1 })

-- The UPDATE that clears a refund of one Apple transaction.
abbrev pub of_apple_pair : Text → Text → Payment → Bool
of_apple_pair orig tx p = elim p.detail [
  | google _ _ _ ↦ false
  | apple original_tx_id tx_id _ _ ↦ original_tx_id == orig && tx_id == tx
  | stf _ ↦ false
]

unfoldable pub unrevoke_rows : List ℕ → Bool → List Payment → List Payment
unrevoke_rows ids auto_renewing [] = []
unrevoke_rows ids auto_renewing (p ∷ ps) =
    (if member p.id ids then record p { revoked_at = none; auto_renewing = auto_renewing } else p)
    ∷ unrevoke_rows ids auto_renewing ps

-- Where the coverage of the redeemed payments ends.
abbrev pub redeemed_coverage : Config → LookupUserExpiry → Option DateTime
redeemed_coverage config l = elim l.expiry_from_redeemed [
  | none ↦ none
  | some e ↦
      some (subscription_coverage_end config e l.grace_from_redeemed l.auto_renewing_from_redeemed)
]

-- `restored_coverage_end is not None and restored_coverage_end > reinstated_at`
abbrev pub is_live_after : DateTime → Option DateTime → Bool
is_live_after t none = false
is_live_after t (some end) = ltb t end

abbrev pub user_id_of : Option User → Option ℕ
user_id_of none = none
user_id_of (some u) = some u.id

module _ (env : Env) where
  -- `_redeem_payment_for_user`
  unfoldable pub redeem_payment_for_user :
      VerifyKey → PaymentProviderTransaction → DateTime → Tx (Unit {0})
  unfolding redeem_selects bind_rows ensure_active_generation
  redeem_payment_for_user master_pkey t redeemed_at = elim t.provider [
    | nil_provider ↦ pure tt
    | session_foundation ↦ pure tt
    | google_play_store ↦ redeem_one
    | ios_app_store ↦ redeem_one
  ]
    where
      redeem_one : Tx (Unit {0})
      redeem_one = do
        user_id ← gets (λ db. user_id_of (find_user master_pkey db.users))
        bound ← bind (redeem_selects t) user_id redeemed_at
        if bound == 0
            then pure tt
            else (ensure_active_generation env master_pkey redeemed_at >> pure tt)

  -- The part of `redeem_minted_payment` after the choice of the detail table.
  unfoldable pub redeem_minted : VerifyKey → PaymentProviderTransaction → DateTime → Tx (Unit {0})
  unfolding redeem_selects bind_rows get_or_create_user_and_generation ensure_active_generation
  redeem_minted master_pkey t redeemed_at = do
    user ← get_or_create_user_and_generation env master_pkey redeemed_at
    bound ← bind (redeem_selects t) (some user.0) redeemed_at
    when (not (bound == 1)) (raise assertion_error)
    ensure_active_generation env master_pkey redeemed_at
    pure tt

  -- `redeem_minted_payment`
  unfoldable pub redeem_minted_payment :
      VerifyKey → PaymentProviderTransaction → DateTime → Tx (Unit {0})
  unfolding redeem_minted
  redeem_minted_payment master_pkey t redeemed_at = elim t.provider [
    | nil_provider ↦ raise server_error
    | google_play_store ↦ redeem_minted master_pkey t redeemed_at
    | ios_app_store ↦ redeem_minted master_pkey t redeemed_at
    | session_foundation ↦ redeem_minted master_pkey t redeemed_at
  ]

  -- The turn of the last loop of `reinstate_apple_payment` for one owner.
  unfoldable pub restore_owner : VerifyKey → DateTime → Tx (Unit {0})
  unfolding lookup_account ensure_active_generation update_user_from_payment_list
  restore_owner key reinstated_at = do
    lookup ← lookup_account env key
    if is_live_after reinstated_at (redeemed_coverage env.config lookup)
        then (ensure_active_generation env key reinstated_at >> pure tt)
        else update_user_from_payment_list env key

  unfoldable pub restore_owners : List VerifyKey → DateTime → Tx (Unit {0})
  unfolding restore_owner
  restore_owners [] reinstated_at = pure tt
  restore_owners (key ∷ keys) reinstated_at =
      restore_owner key reinstated_at >> restore_owners keys reinstated_at

  -- `reinstate_apple_payment`
  unfoldable pub reinstate_apple_payment : Text → Text → Bool → DateTime → Tx Bool
  unfolding unrevoke_rows restore_owners
  reinstate_apple_payment apple_original_tx_id apple_tx_id auto_renewing reinstated_at = do
    rows ←
        gets
          (λ db. select_rows (of_apple_pair apple_original_tx_id apple_tx_id) db.users db.payments)
    update_payments (unrevoke_rows (row_ids rows) auto_renewing)
    restore_owners (owner_keys [] rows) reinstated_at
    pure (not (is_empty rows))
