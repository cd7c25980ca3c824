-- ===== src/Db/Tables.antt =====
-- base.py and backend.py: the enums and rows of the payments, users and generations tables.
-- A text or a key that the code only compares or passes on is a number: a purchase token, an order
-- id, a transaction id, a 32-byte key. 0 stands for the empty text, the zero key, and an account
-- identifier that the store did not give; no request is served for the zero key. Each
-- payment has the row of exactly one detail table, which also fixes its `payment_provider`.
use session_pro_backend.Base.Units.{DateTime, Duration}
use session_pro_backend.Prelude.{
  Bool, Option, false, if◌then◌else◌, is_none, leb, none, not, some, ℕ,
}

abbrev pub Text : Type 0
Text = ℕ

abbrev pub VerifyKey : Type 0
VerifyKey = ℕ

-- `ProPlan`
pub data ProPlan : Type 0 where
  nil_plan one_month three_month twelve_month : ProPlan

-- The provider's detail row.
pub data Detail : Type 0 where
  -- payment_token, order_id, obfuscated_account_id
  google : Text → Text → VerifyKey → Detail
  -- original_tx_id, tx_id, web_line_order_tx_id, app_account_token
  apple : Text → Text → Text → Text → Detail
  -- order_id
  stf : Text → Detail

-- A row of `payments` with its detail row. `needs_ack` is a column of Google's detail row, and
-- false in the rows of the other stores.
pub record Payment : Type 0 where
  pub id : ℕ
  pub user_id : Option ℕ
  pub plan : ProPlan
  pub detail : Detail
  pub needs_ack : Bool
  pub auto_renewing : Bool
  pub purchased_at : DateTime
  pub redeemed_at : Option DateTime
  pub expiry_at : Option DateTime
  pub grace_period : Option Duration
  pub platform_refund_expiry_at : DateTime
  pub revoked_at : Option DateTime
  pub credit_remaining : Option Duration

-- A row of `users`.
pub record User : Type 0 where
  pub id : ℕ
  pub master_pkey : VerifyKey
  pub current_generation_id : ℕ
  pub expiry_at : DateTime
  pub grace_period : Option Duration
  pub auto_renewing : Bool
  pub proof_expiry_offset : ℕ
  pub credits_checkpoint_at : Option DateTime
  pub proofs_issued_total : ℕ
  pub proofs_issued_window : ℕ
  pub proofs_issued_past_expiry_window : ℕ
  pub proofs_window_start : Option DateTime

-- A row of `generations`.
pub record Generation : Type 0 where
  pub id : ℕ
  pub user_id : ℕ
  pub token : Text
  pub issued_at : DateTime
  pub revoked_at : Option DateTime

pub data PaymentStatus : Type 0 where
  redeemed expired revoked : PaymentStatus

-- `expiry_at is not None and now >= expiry_at`
abbrev pub reached : Option DateTime → DateTime → Bool
reached none now = false
reached (some t) now = leb t now

-- `derive_payment_status`; `none` is the failed assertion on an unclaimed payment.
unfoldable pub derive_payment_status : Payment → DateTime → Option PaymentStatus
derive_payment_status payment now =
    if not (is_none payment.revoked_at)
    then some revoked
    else if is_none payment.redeemed_at
    then none
    else if reached payment.expiry_at now
    then some expired
    else some redeemed
