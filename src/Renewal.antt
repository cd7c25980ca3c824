-- ===== src/Renewal.antt =====
-- backend.py: payment identifiers that a store's notification carries, what each selects, and the
-- update of a payment's renewal information.
use session_pro_backend.Base.Units.{Duration}
use session_pro_backend.Db.Tables.{Detail, google, apple, stf, VerifyKey, Text, Payment}
use session_pro_backend.Db.Account.{update_user_from_payment_list}
use session_pro_backend.Db.Monad.{Env, Tx, gets, pure, ◌>>=◌, ◌>>◌}
use session_pro_backend.Redeem.{update_payments}
use session_pro_backend.Revoke.{owner_of}
use session_pro_backend.Prelude.{
  Bool, List, Option, [], false, if◌then◌else◌, is_empty, is_none, none, not, some, ◌&&◌, ◌==◌, ◌∷◌,
}

pub data PaymentProvider : Type 0 where
  nil_provider google_play_store ios_app_store session_foundation : PaymentProvider

-- `PaymentProviderTransaction`; 0 is the empty text.
pub record PaymentProviderTransaction : Type 0 where
  pub provider : PaymentProvider
  pub apple_original_tx_id : Text
  pub apple_tx_id : Text
  pub apple_web_line_order_tx_id : Text
  pub google_payment_token : Text
  pub google_order_id : Text
  pub stf_order_id : Text

-- The messages that `verify_payment_provider_tx` puts into the sink, by the field that is not set.
pub data MissingField : Type 0 where
  no_google_order_id no_google_payment_token no_apple_tx_id : MissingField
  no_apple_original_tx_id no_stf_order_id no_provider : MissingField

abbrev pub unless_set : Text → MissingField → List MissingField → List MissingField
unless_set t message rest = if t == 0 then message ∷ rest else rest

-- `verify_payment_provider_tx`
unfoldable pub verify_payment_provider_tx : PaymentProviderTransaction → List MissingField
verify_payment_provider_tx t = elim t.provider [
  | nil_provider ↦ no_provider ∷ []
  | google_play_store ↦
      unless_set t.google_order_id no_google_order_id
        (unless_set t.google_payment_token no_google_payment_token [])
  | ios_app_store ↦
      unless_set t.apple_tx_id no_apple_tx_id
        (unless_set t.apple_original_tx_id no_apple_original_tx_id [])
  | session_foundation ↦ unless_set t.stf_order_id no_stf_order_id []
]

-- The detail row that `update_payment_renewal_info` selects.
unfoldable pub renewal_selects : PaymentProviderTransaction → Detail → Bool
renewal_selects t (google token order _) = elim t.provider [
  | google_play_store ↦ token == t.google_payment_token && order == t.google_order_id
  | _ ↦ false
]
renewal_selects t (apple orig tx line _) = elim t.provider [
  | ios_app_store ↦
      orig == t.apple_original_tx_id
      && (tx == t.apple_tx_id && line == t.apple_web_line_order_tx_id)
  | _ ↦ false
]
renewal_selects t (stf order) = elim t.provider [
  | session_foundation ↦ order == t.stf_order_id
  | _ ↦ false
]

-- The detail row of the payment that a redemption of one payment selects.
unfoldable pub redeem_selects : PaymentProviderTransaction → Detail → Bool
redeem_selects t (google token order _) = elim t.provider [
  | google_play_store ↦ token == t.google_payment_token && order == t.google_order_id
  | _ ↦ false
]
redeem_selects t (apple orig tx line _) = elim t.provider [
  | ios_app_store ↦ tx == t.apple_tx_id
  | _ ↦ false
]
redeem_selects t (stf order) = elim t.provider [
  | session_foundation ↦ order == t.stf_order_id
  | _ ↦ false
]

-- The fields that are not opted out of.
unfoldable pub set_renewal : Option Duration → Option Bool → Payment → Payment
set_renewal grace_period auto_renewing p = record p {
  auto_renewing = elim auto_renewing [ none ↦ p.auto_renewing | some b ↦ b ];
  grace_period = elim grace_period [ none ↦ p.grace_period | some g ↦ some g ];
}

unfoldable pub update_selected : (Detail → Bool) → (Payment → Payment) → List Payment → List Payment
update_selected selects f [] = []
update_selected selects f (p ∷ ps) =
    (if selects p.detail then f p else p) ∷ update_selected selects f ps

abbrev pub first_selected : (Detail → Bool) → List Payment → Option Payment
first_selected selects [] = none
first_selected selects (p ∷ ps) = if selects p.detail then some p else first_selected selects ps

-- What the call reports: success, messages about missing fields, or that no payment matched.
pub data RenewalOutcome : Type 0 where
  succeeded no_matching_payment : RenewalOutcome
  missing_fields : List MissingField → RenewalOutcome

module _ (env : Env) where
  abbrev pub refresh_owner : Option VerifyKey → Tx (Unit {0})
  refresh_owner none = pure tt
  refresh_owner (some key) = update_user_from_payment_list env key

  -- The write, and the refresh of the owner's row.
  unfoldable pub write_renewal :
      PaymentProviderTransaction → Option Duration → Option Bool → Tx RenewalOutcome
  unfolding update_selected set_renewal renewal_selects update_user_from_payment_list
  write_renewal t grace_period auto_renewing = do
    update_payments (update_selected (renewal_selects t) (set_renewal grace_period auto_renewing))
    row ← gets (λ db. first_selected (renewal_selects t) db.payments)
    owner ← gets (λ db. elim row [ none ↦ none | some p ↦ owner_of db.users p ])
    refresh_owner owner
    pure (if is_none row then no_matching_payment else succeeded)

  -- `update_payment_renewal_info`, called with an empty error sink.
  unfoldable pub update_payment_renewal_info :
      PaymentProviderTransaction → Option Duration → Option Bool → Tx RenewalOutcome
  unfolding verify_payment_provider_tx write_renewal
  update_payment_renewal_info t grace_period auto_renewing =
      if not (is_empty (verify_payment_provider_tx t))
      then pure (missing_fields (verify_payment_provider_tx t))
      else if is_none grace_period && is_none auto_renewing
      then pure succeeded
      else write_renewal t grace_period auto_renewing
