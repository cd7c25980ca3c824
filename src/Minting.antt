-- ===== src/Minting.antt =====
-- minting.py: payments that no store has witnessed, which an operator grants to an account. A text
-- that is made from a random number is that number, shifted so that it is not the empty text.
pub mod Granted
use session_pro_backend.Base.Errors.{fail, server_error, invalid_request}
use session_pro_backend.Base.Units.{day, epoch, DateTime, Duration}
use session_pro_backend.Db.Tables.{
  nil_plan, one_month, three_month, twelve_month, Generation, ProPlan, Text, User, VerifyKey,
}
use session_pro_backend.Db.Monad.{pure, raise, gets, Tx, Env, ◌>>=◌, draw_random}
use session_pro_backend.Renewal.{
  nil_provider, google_play_store, ios_app_store, session_foundation, PaymentProvider,
  PaymentProviderTransaction,
}
use session_pro_backend.Register.{
  key_bytes, other_bytes, account_token, PaymentColumns, PlatformAccountId, add_unredeemed_payment,
}
use session_pro_backend.AppStore.Payload.{no_identifiers}
use session_pro_backend.Single.{redeem_minted_payment}
use session_pro_backend.Prelude.{
  Bool, Option, [], false, length, none, some, true, ◌*◌, ◌+◌, ◌==◌, ◌∷◌,
}
use session_pro_backend.Db.Users.{get_user}
use session_pro_backend.Redeem.{uuid_from_master_pk}

-- `PLAN_DEFAULT_DURATION`; the nil plan has no entry.
unfoldable pub plan_default_duration : ProPlan → Option Duration
plan_default_duration nil_plan = none
plan_default_duration one_month = some (30 * day)
plan_default_duration three_month = some (90 * day)
plan_default_duration twelve_month = some (365 * day)

-- `encode_payment_id`: Google's two identifiers around the delimiter, or the one text.
pub data PaymentId : Type 0 where
  token_and_order : Text → Text → PaymentId
  plain_id : Text → PaymentId

unfoldable pub encode_payment_id : PaymentProviderTransaction → PaymentId
encode_payment_id t = elim t.provider [
  | nil_provider ↦ plain_id 0
  | google_play_store ↦ token_and_order t.google_payment_token t.google_order_id
  | ios_app_store ↦ plain_id t.apple_tx_id
  | session_foundation ↦ plain_id t.stf_order_id
]

-- `MintedPayment`
pub record MintedPayment : Type 0 where
  pub payment_tx : PaymentProviderTransaction
  pub payment_id : PaymentId
  pub plan : ProPlan
  pub account_expiry_at : Option DateTime
  pub redeemed : Bool

-- A credit of the given length, bought now.
abbrev pub minted_columns : ProPlan → DateTime → Duration → PaymentColumns
minted_columns plan now length = record {
  plan = plan;
  expiry_at = none;
  platform_refund_expiry_at = epoch;
  purchased_at = now;
  auto_renewing = false;
  credit_remaining = some length;
}

abbrev pub expiry_of_account : Option (User × Generation) → DateTime
expiry_of_account none = epoch
expiry_of_account (some account) = account.0.expiry_at

module _ (env : Env) where
  abbrev pub draw_text : Tx Text
  draw_text = do n ← draw_random env; pure (n + 1)

  -- The identifiers that `mint_payment` makes up, and the account identifier that a redeem derives
  -- from the key.
  unfoldable pub minted_identifiers :
      PaymentProvider → VerifyKey → Tx (PaymentProviderTransaction × PlatformAccountId)
  unfolding uuid_from_master_pk
  minted_identifiers nil_provider key = raise (fail invalid_request)
  minted_identifiers google_play_store key = do
    token ← draw_text
    order ← draw_text
    pure (
      record no_identifiers {
        provider = google_play_store;
        google_payment_token = token;
        google_order_id = order;
      },
      key_bytes key,
    )
  minted_identifiers ios_app_store key = do
    tx_id ← draw_text
    line ← draw_text
    pure (
      record no_identifiers {
        provider = ios_app_store;
        apple_original_tx_id = tx_id;
        apple_tx_id = tx_id;
        apple_web_line_order_tx_id = line;
      },
      account_token (uuid_from_master_pk key),
    )
  minted_identifiers session_foundation key = do
    order ← draw_text
    pure
        (record no_identifiers { provider = session_foundation; stf_order_id = order }, other_bytes)

  -- The length that is granted: the operator's, or the plan's.
  unfoldable pub granted_length : ProPlan → Option Duration → Tx Duration
  unfolding plan_default_duration
  granted_length plan (some duration) = elim (duration == 0) [
    | true ↦ raise (fail invalid_request)
    | false ↦ elim (plan_default_duration plan) [
      | none ↦ raise (fail invalid_request)
      | some _ ↦ pure duration
    ]
  ]
  granted_length plan none = elim (plan_default_duration plan) [
    | none ↦ raise (fail invalid_request)
    | some length ↦ pure length
  ]

  abbrev pub minted : PaymentProviderTransaction → ProPlan → Option DateTime → Bool → MintedPayment
  minted t plan account_expiry_at redeemed = record {
    payment_tx = t;
    payment_id = encode_payment_id t;
    plan = plan;
    account_expiry_at = account_expiry_at;
    redeemed = redeemed;
  }

  -- The end of `mint_payment`: the redemption, where it is asked for.
  unfoldable pub redeem_if_asked :
      Bool → VerifyKey → PaymentProviderTransaction → ProPlan → DateTime → Tx MintedPayment
  unfolding redeem_minted_payment encode_payment_id get_user
  redeem_if_asked false key t plan now = pure (minted t plan none false)
  redeem_if_asked true key t plan now = do
    bound ← redeem_minted_payment env key t now
    account ← gets (get_user key)
    pure (minted t plan (some (expiry_of_account account)) true)

  -- `mint_payment`
  unfoldable pub mint_payment :
      VerifyKey → PaymentProvider → ProPlan → DateTime → Option Duration → Bool → Tx MintedPayment
  unfolding granted_length minted_identifiers add_unredeemed_payment redeem_if_asked
  mint_payment key provider plan now duration redeem = do
    length ← granted_length plan duration
    made ← minted_identifiers provider key
    messages ← add_unredeemed_payment env made.0 (minted_columns plan now length) made.1 false
    elim messages [
      | message ∷ others ↦ raise server_error
      | [] ↦ redeem_if_asked redeem key made.0 plan now
    ]
