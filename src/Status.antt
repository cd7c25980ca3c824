-- ===== src/Status.antt =====
-- server.py and backend.py: what an account is told of its status.
pub mod Served
use session_pro_backend.Base.Errors.{fail, stale_request, assertion_error}
use session_pro_backend.Base.Units.{
  default_timestamp_tolerance, Config, DateTime, seconds_from_duration, unix_seconds_from_datetime,
}
use session_pro_backend.Db.Monad.{pure, raise, gets, Tx, Env, ◌>>=◌, require, Db}
use session_pro_backend.Listing.{account_payments}
use session_pro_backend.Issue.{account_grace_span}
use session_pro_backend.Prelude.{
  Bool, List, Option, [], false, if◌then◌else◌, is_none, leb, none, some, true, ℕ, ◌+◌, ◌-◌, ◌∷◌,
}
use session_pro_backend.Db.Tables.{Payment, PaymentStatus, User, VerifyKey, derive_payment_status}
use session_pro_backend.Db.Users.{account_coverage_end, get_user}
use session_pro_backend.Db.Generations.{is_generation_revoked}
use session_pro_backend.Redeem.{reconcile_pending_payments}

pub data UserProStatus : Type 0 where
  never active lapsed : UserProStatus

-- `_check_read_replay_window`
unfoldable pub check_read_replay_window : DateTime → DateTime → Tx (Unit {0})
check_read_replay_window now request_at =
    elim (leb default_timestamp_tolerance ((now - request_at) + (request_at - now))) [
      | true ↦ raise (fail stale_request)
      | false ↦ pure tt
    ]

-- `ORDER BY (p.revoked_at IS NULL) DESC, p.purchased_at DESC, p.id DESC`, for a row above another.
abbrev pub comes_first : Payment → Payment → Bool
comes_first p q =
    if is_none p.revoked_at
    then (if is_none q.revoked_at then leb q.purchased_at p.purchased_at else true)
    else if is_none q.revoked_at
    then false
    else leb q.purchased_at p.purchased_at

unfoldable pub first_of : List Payment → Option Payment
first_of [] = none
first_of (p ∷ ps) = elim (first_of ps) [
  | none ↦ some p
  | some q ↦ some (if comes_first p q then p else q)
]

-- `get_account_latest_payment`
unfoldable pub get_account_latest_payment : VerifyKey → Db → Option Payment
unfolding first_of
get_account_latest_payment key db = first_of (account_payments key db)

-- The response of `get_pro_status`, with the latest payment and its status.
pub record ProStatus : Type 0 where
  pub user_status : UserProStatus
  pub auto_renewing : Bool
  pub expiry_ts : ℕ
  pub grace_period_duration : ℕ
  pub latest_payment : Option (PaymentStatus × Payment)

abbrev pub status_at : Config → User → Bool → DateTime → UserProStatus
status_at config u is_revoked request_at =
    if is_revoked
    then lapsed
    else if leb request_at (account_coverage_end config u)
    then active
    else lapsed

-- `_payment_item_wire` fails where the status of a payment cannot be derived.
abbrev pub latest_item : Option Payment → DateTime → Tx (Option (PaymentStatus × Payment))
latest_item none request_at = pure none
latest_item (some p) request_at =
    require (derive_payment_status p request_at) assertion_error >>= λ status.
    pure (some (status, p))

unfoldable pub status_of_account : Env → VerifyKey → User → DateTime → Tx ProStatus
unfolding get_account_latest_payment derive_payment_status is_generation_revoked account_grace_span
    unix_seconds_from_datetime seconds_from_duration
status_of_account env key u request_at = do
  is_revoked ← gets (is_generation_revoked u.current_generation_id)
  newest ← gets (get_account_latest_payment key)
  item ← latest_item newest request_at
  pure (record {
    user_status = status_at env.config u is_revoked request_at;
    auto_renewing = u.auto_renewing;
    expiry_ts = unix_seconds_from_datetime u.expiry_at;
    grace_period_duration = seconds_from_duration (account_grace_span env.config u);
    latest_payment = item;
  })

abbrev pub never_status : ProStatus
never_status = record {
  user_status = never;
  auto_renewing = false;
  expiry_ts = 0;
  grace_period_duration = 0;
  latest_payment = none;
}

-- `get_pro_status`, after the checks of the request.
unfoldable pub get_pro_status : Env → VerifyKey → DateTime → Tx ProStatus
unfolding reconcile_pending_payments get_user status_of_account
get_pro_status env key request_at = do
  bound ← reconcile_pending_payments env key request_at
  found ← gets (get_user key)
  elim found [ none ↦ pure never_status | some (u, _) ↦ status_of_account env key u request_at ]
