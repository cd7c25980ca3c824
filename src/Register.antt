-- ===== src/Register.antt =====
-- backend.py: recording a payment that a store reports, and binding it to the account that owns the
-- previous cycle of its subscription.
pub mod Dedup
pub mod Auto
pub mod Once
use session_pro_backend.Base.Units.{day, DateTime, Duration}
use session_pro_backend.Base.Errors.{
  ok, err, fail, server_error, assertion_error, runtime_error, constraint_violation,
}
use session_pro_backend.Db.Tables.{
  google, apple, stf, nil_plan, one_month, three_month, twelve_month, Detail, Payment, ProPlan,
  Text, User, VerifyKey,
}
use session_pro_backend.Db.Monad.{◌>>◌, pure, gets, Tx, Env, ◌>>=◌, Db, read_clock, require}
use session_pro_backend.Renewal.{
  nil_provider, google_play_store, ios_app_store, session_foundation, MissingField, PaymentProvider,
  PaymentProviderTransaction, verify_payment_provider_tx,
}
use session_pro_backend.Prelude.{
  Bool, List, Option, [], false, if◌then◌else◌, is_none, ltb, none, not, some, true, ℕ, ◌&&◌, ◌*◌,
  ◌+◌, ◌==◌, ◌∷◌,
}
use session_pro_backend.Db.Users.{get_user}
use session_pro_backend.Revoke.{of_apple_transaction, of_google_token, owner_of}
use session_pro_backend.Single.{redeem_payment_for_user}

-- The columns of `payments` that a registration gives.
pub record PaymentColumns : Type 0 where
  pub plan : ProPlan
  pub expiry_at : Option DateTime
  pub platform_refund_expiry_at : DateTime
  pub purchased_at : DateTime
  pub auto_renewing : Bool
  pub credit_remaining : Option Duration

-- `platform_obfuscated_account_id`: 32 bytes from Google, bytes of another length, or the text of
-- an App Store account token in lower case.
pub data PlatformAccountId : Type 0 where
  key_bytes : VerifyKey → PlatformAccountId
  other_bytes : PlatformAccountId
  account_token : Text → PlatformAccountId

-- Whether two detail rows agree on the columns of their table's UNIQUE constraint.
unfoldable pub same_dedup_key : Detail → Detail → Bool
same_dedup_key (google token order _) (google token' order' _) = token == token' && order == order'
same_dedup_key (apple orig tx line _) (apple orig' tx' line' _) =
    orig == orig' && (tx == tx' && line == line')
same_dedup_key (stf order) (stf order') = order == order'
same_dedup_key _ _ = false

-- `EXISTS (SELECT 1 FROM {detail_table} WHERE {dedup_where})`
unfoldable pub is_recorded : Detail → List Payment → Bool
unfolding same_dedup_key
is_recorded detail [] = false
is_recorded detail (p ∷ ps) = if same_dedup_key p.detail detail then true else is_recorded detail ps

-- A plan that `pro_plans` has, and an end, as the constraints of `payments` want.
abbrev pub is_known_plan : ProPlan → Bool
is_known_plan nil_plan = false
is_known_plan one_month = true
is_known_plan three_month = true
is_known_plan twelve_month = true

abbrev pub satisfies_constraints : PaymentColumns → Bool
satisfies_constraints c =
    is_known_plan c.plan && not (is_none c.expiry_at && is_none c.credit_remaining)

abbrev pub new_payment_row : ℕ → PaymentColumns → Detail → Bool → Payment
new_payment_row id c detail needs_ack = record {
  id = id;
  user_id = none;
  plan = c.plan;
  detail = detail;
  needs_ack = needs_ack;
  auto_renewing = c.auto_renewing;
  purchased_at = c.purchased_at;
  redeemed_at = none;
  expiry_at = c.expiry_at;
  grace_period = none;
  platform_refund_expiry_at = c.platform_refund_expiry_at;
  revoked_at = none;
  credit_remaining = c.credit_remaining;
}

-- `_insert_payment_row`: whether a row was inserted.
unfoldable pub insert_payment_row : PaymentColumns → Detail → Bool → Tx Bool
unfolding is_recorded
insert_payment_row c detail needs_ack db = elim (is_recorded detail db.payments) [
  | true ↦ ok (false, db)
  | false ↦ elim (satisfies_constraints c) [
    | true ↦ ok (
      true,
      record db {
        payments = new_payment_row db.next_payment_id c detail needs_ack ∷ db.payments;
        next_payment_id = db.next_payment_id + 1;
      },
    )
    | false ↦ err constraint_violation
  ]
]

-- The detail row of a payment identifier, with the assertions on the account identifier.
unfoldable pub detail_of : PaymentProviderTransaction → PlatformAccountId → Option Detail
detail_of t account = elim t.provider [
  | nil_provider ↦ none
  | google_play_store ↦ elim account [
    | key_bytes key ↦ some (google t.google_payment_token t.google_order_id key)
    | other_bytes ↦ none
    | account_token _ ↦ none
  ]
  | ios_app_store ↦ elim account [
    | key_bytes _ ↦ none
    | other_bytes ↦ none
    | account_token token ↦
        some (apple t.apple_original_tx_id t.apple_tx_id t.apple_web_line_order_tx_id token)
  ]
  | session_foundation ↦ some (stf t.stf_order_id)
]

-- Google's detail table alone has the column.
abbrev pub needs_ack_column : PaymentProvider → Bool → Bool
needs_ack_column nil_provider needs_ack = false
needs_ack_column google_play_store needs_ack = needs_ack
needs_ack_column ios_app_store needs_ack = false
needs_ack_column session_foundation needs_ack = false

-- The owner of the newest claimed payment that a test selects.
unfoldable pub newest_owner : (Payment → Bool) → List User → List Payment → Option VerifyKey
newest_owner test users [] = none
newest_owner test users (p ∷ ps) = elim (test p) [
  | true ↦ elim (owner_of users p) [ none ↦ newest_owner test users ps | some key ↦ some key ]
  | false ↦ newest_owner test users ps
]

-- The account that holds the previous cycle: by the purchase token, or by the original transaction.
unfoldable pub previous_owner : PaymentProviderTransaction → Db → Option VerifyKey
unfolding newest_owner
previous_owner t db = elim t.provider [
  | nil_provider ↦ none
  | google_play_store ↦ newest_owner (of_google_token t.google_payment_token) db.users db.payments
  | ios_app_store ↦ newest_owner (of_apple_transaction t.apple_original_tx_id) db.users db.payments
  | session_foundation ↦ none
]

abbrev pub account_hold : Duration
account_hold = 60 * day

abbrev pub or_zero : Option Duration → Duration
or_zero none = 0
or_zero (some d) = d

-- `auto_redeem_deadline_at`
unfoldable pub auto_redeem_deadline : PaymentProvider → User → DateTime
auto_redeem_deadline google_play_store u =
    if u.auto_renewing then u.expiry_at + account_hold else u.expiry_at
auto_redeem_deadline ios_app_store u =
    if u.auto_renewing then u.expiry_at + or_zero u.grace_period else u.expiry_at
auto_redeem_deadline nil_provider u = u.expiry_at
auto_redeem_deadline session_foundation u = u.expiry_at

-- A block under a savepoint whose `ApiError` is swallowed: the tables are then those before it.
unfoldable pub swallow_api_error : Tx (Unit {0}) → Tx (Unit {0})
swallow_api_error m db = elim (m db) [
  | ok r ↦ ok r
  | err e ↦ elim e [
    | fail _ ↦ ok (tt, db)
    | server_error ↦ ok (tt, db)
    | assertion_error ↦ err assertion_error
    | runtime_error ↦ err runtime_error
    | constraint_violation ↦ err constraint_violation
  ]
]

module _ (env : Env) where
  -- The part of `add_unredeemed_payment` after the lookup of the previous owner.
  unfoldable pub auto_redeem : PaymentProviderTransaction → DateTime → VerifyKey → Tx (Unit {0})
  unfolding swallow_api_error redeem_payment_for_user
  auto_redeem t purchased_at master_pkey = do
    account ← gets (get_user master_pkey)
    elim account [
      | none ↦ pure tt
      | some (user, _) ↦ elim (ltb (auto_redeem_deadline t.provider user) purchased_at) [
        | true ↦ pure tt
        | false ↦ do
          redeemed_at ← read_clock env
          swallow_api_error (redeem_payment_for_user env master_pkey t redeemed_at)
      ]
    ]

  -- The part of `add_unredeemed_payment` after the check of the identifiers.
  unfoldable pub record_and_redeem :
      PaymentProviderTransaction → PaymentColumns → PlatformAccountId → Bool → Tx (Unit {0})
  unfolding insert_payment_row detail_of previous_owner auto_redeem
  record_and_redeem t columns account needs_ack = do
    detail ← require (detail_of t account) assertion_error
    insert_payment_row columns detail (needs_ack_column t.provider needs_ack)
    owner ← gets (previous_owner t)
    elim owner [ none ↦ pure tt | some key ↦ auto_redeem t columns.purchased_at key ]

  -- `add_unredeemed_payment`: the messages that it puts into the sink.
  unfoldable pub add_unredeemed_payment :
      PaymentProviderTransaction
      → PaymentColumns
      → PlatformAccountId
      → Bool
      → Tx (List MissingField)
  unfolding record_and_redeem
  add_unredeemed_payment t columns account needs_ack = elim (verify_payment_provider_tx t) [
    | message ∷ messages ↦ pure (message ∷ messages)
    | [] ↦ (record_and_redeem t columns account needs_ack >> pure [])
  ]
