-- ===== src/Converge.antt =====
-- backend.py: bringing a Google payment in line with what the store's subscription resource says.
pub mod Settled
pub mod Again
use session_pro_backend.Base.Errors.{assertion_error}
use session_pro_backend.Db.Tables.{google, apple, stf, Payment, Text, VerifyKey}
use session_pro_backend.Db.Monad.{pure, raise, gets, Tx, Env, ◌>>=◌, ◌>>◌, Db}
use session_pro_backend.Renewal.{
  nil_provider, google_play_store, ios_app_store, session_foundation, MissingField,
  PaymentProviderTransaction, verify_payment_provider_tx,
}
use session_pro_backend.Prelude.{
  Bool, List, Option, [], false, if◌then◌else◌, is_none, ltb, none, some, ◌&&◌, ◌-◌, ◌==◌, ◌∷◌,
}
use session_pro_backend.Base.Units.{DateTime}
use session_pro_backend.Register.{newest_owner}
use session_pro_backend.Revoke.{of_google_token, owner_of, refresh_and_revoke_overreaching}
use session_pro_backend.Redeem.{update_payments}

-- `google_converge_payment`'s arguments that the resource states.
pub record Snapshot : Type 0 where
  pub expiry_at : DateTime
  pub auto_renewing : Bool
  pub in_grace : Bool
  pub needs_ack : Bool

-- `gd.payment_token = ... AND gd.order_id = ...`
abbrev pub of_google_order : Text → Text → Payment → Bool
of_google_order token order p = elim p.detail [
  | google payment_token order_id _ ↦ payment_token == token && order_id == order
  | apple _ _ _ _ ↦ false
  | stf _ ↦ false
]

-- The expiry that stays on file while the store extends it for a grace.
unfoldable pub held_expiry : Snapshot → Option DateTime → Option DateTime
held_expiry s none = none
held_expiry s (some stored) = if s.in_grace && ltb stored s.expiry_at then some stored else none

-- The row that the UPDATE of `payments` writes.
unfoldable pub converge_terms : Snapshot → Payment → Payment
unfolding held_expiry
converge_terms s p = elim (held_expiry s p.expiry_at) [
  | some stored ↦ record p {
    expiry_at = some stored;
    auto_renewing = s.auto_renewing;
    grace_period = some (s.expiry_at - stored);
  }
  | none ↦ record p {
    expiry_at = some s.expiry_at;
    auto_renewing = s.auto_renewing;
    grace_period = none;
  }
]

unfoldable pub update_matching :
    (Payment → Bool) → (Payment → Payment) → List Payment → List Payment
update_matching test f [] = []
update_matching test f (p ∷ ps) = (if test p then f p else p) ∷ update_matching test f ps

abbrev pub first_matching : (Payment → Bool) → List Payment → Option Payment
first_matching test [] = none
first_matching test (p ∷ ps) = if test p then some p else first_matching test ps

-- `... AND p.revoked_at IS NULL`
abbrev pub is_standing_order : Text → Text → Payment → Bool
is_standing_order token order p = of_google_order token order p && is_none p.revoked_at

abbrev pub set_needs_ack : Bool → Payment → Payment
set_needs_ack needs_ack p = record p { needs_ack = needs_ack }

-- Both UPDATEs.
unfoldable pub converge_rows : Text → Text → Snapshot → List Payment → List Payment
unfolding converge_terms update_matching
converge_rows token order s payments =
    update_matching (of_google_order token order) (set_needs_ack s.needs_ack)
      (update_matching (is_standing_order token order) (converge_terms s) payments)

-- `google_clear_needs_ack`
unfoldable pub google_clear_needs_ack : Text → Tx (Unit {0})
unfolding update_matching
google_clear_needs_ack token =
    update_payments (update_matching (of_google_token token) (set_needs_ack false))

-- `google_owner_of_purchase_token`
unfoldable pub google_owner_of_purchase_token : Text → Db → Option VerifyKey
unfolding newest_owner
google_owner_of_purchase_token token db = newest_owner (of_google_token token) db.users db.payments

-- What the call reports: whether a row was there to converge, or what the identifier misses.
pub data Convergence : Type 0 where
  converged no_row : Convergence
  incomplete : List MissingField → Convergence

module _ (env : Env) where
  abbrev pub judge_owner : Option VerifyKey → DateTime → Tx (Unit {0})
  judge_owner none at = pure tt
  judge_owner (some key) at = refresh_and_revoke_overreaching env key at >>= λ _. pure tt

  -- The part of `google_converge_payment` after the checks of the identifier.
  unfoldable pub converge_standing : Text → Text → Snapshot → DateTime → Tx Convergence
  unfolding converge_rows refresh_and_revoke_overreaching
  converge_standing token order s at = do
    before ← gets (λ db. first_matching (is_standing_order token order) db.payments)
    elim before [
      | none ↦ pure no_row
      | some p ↦ do
        owner ← gets (λ db. owner_of db.users p)
        update_payments (converge_rows token order s)
        judge_owner owner at
        pure converged
    ]

  -- `google_converge_payment`, called with an empty error sink.
  unfoldable pub google_converge_payment :
      PaymentProviderTransaction → Snapshot → DateTime → Tx Convergence
  unfolding converge_standing
  google_converge_payment t s at = elim (verify_payment_provider_tx t) [
    | message ∷ messages ↦ pure (incomplete (message ∷ messages))
    | [] ↦ elim t.provider [
      | google_play_store ↦ converge_standing t.google_payment_token t.google_order_id s at
      | nil_provider ↦ raise assertion_error
      | ios_app_store ↦ raise assertion_error
      | session_foundation ↦ raise assertion_error
    ]
  ]
