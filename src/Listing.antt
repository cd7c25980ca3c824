-- ===== src/Listing.antt =====
-- backend.py and server.py: the pages of an account's payments.
pub mod Pages
pub mod Client
pub mod Cursor
use session_pro_backend.Base.Errors.{fail, invalid_request}
use session_pro_backend.Db.Monad.{pure, raise, gets, Tx, Env, ◌>>=◌, Db}
use session_pro_backend.Prelude.{
  min, length, zero, suc, Bool, List, Option, [], false, if◌then◌else◌, ltb, none, some, true, ℕ,
  ◌==◌, ◌∷◌,
}
use session_pro_backend.Base.Units.{DateTime}
use session_pro_backend.Db.Tables.{Payment, VerifyKey}
use session_pro_backend.Db.Users.{find_user, payments_of}
use session_pro_backend.Redeem.{reconcile_pending_payments}

-- The rows of an account, newest first.
abbrev pub account_payments : VerifyKey → Db → List Payment
account_payments key db = elim (find_user key db.users) [
  | none ↦ []
  | some u ↦ payments_of u.id db.payments
]

-- `AND p.id < ...`
abbrev pub is_before : Option ℕ → Payment → Bool
is_before none p = true
is_before (some id) p = ltb p.id id

unfoldable pub rows_before : Option ℕ → List Payment → List Payment
rows_before before_id [] = []
rows_before before_id (p ∷ ps) =
    if is_before before_id p then p ∷ rows_before before_id ps else rows_before before_id ps

-- `LIMIT`
unfoldable pub take : ℕ → List Payment → List Payment
take zero ps = []
take (suc n) [] = []
take (suc n) (p ∷ ps) = p ∷ take n ps

unfoldable pub page_of : ℕ → Option ℕ → List Payment → List Payment
unfolding take rows_before
page_of limit before_id rows = take limit (rows_before before_id rows)

-- `get_user_payments_page` and `get_user_payments_count`
unfoldable pub get_user_payments_page : VerifyKey → ℕ → Option ℕ → Db → List Payment
unfolding page_of
get_user_payments_page key limit before_id db = page_of limit before_id (account_payments key db)

unfoldable pub get_user_payments_count : VerifyKey → Db → ℕ
get_user_payments_count key db = length (account_payments key db)

unfoldable pub last_id : ℕ → List Payment → ℕ
last_id id [] = id
last_id id (p ∷ ps) = last_id p.id ps

-- The id that a full page's cursor seals.
unfoldable pub next_cursor : ℕ → List Payment → Option ℕ
unfolding last_id
next_cursor limit [] = none
next_cursor limit (p ∷ ps) = if length (p ∷ ps) == limit then some (last_id p.id ps) else none

abbrev pub max_payment_details_page : ℕ
max_payment_details_page = 100

pub record PaymentDetails : Type 0 where
  pub payments_total : ℕ
  pub items : List Payment
  pub next_cursor : Option ℕ

-- `get_payment_details`, after the checks of the request and with the cursor decoded.
unfoldable pub get_payment_details : Env → VerifyKey → DateTime → ℕ → Option ℕ → Tx PaymentDetails
unfolding reconcile_pending_payments get_user_payments_page get_user_payments_count next_cursor
get_payment_details env key request_at limit before_id = elim (limit == 0) [
  | true ↦ raise (fail invalid_request)
  | false ↦ do
    let clamped = min limit max_payment_details_page
    bound ← reconcile_pending_payments env key request_at
    page ← gets (get_user_payments_page key clamped before_id)
    total ← gets (get_user_payments_count key)
    pure (record { payments_total = total; items = page; next_cursor = next_cursor clamped page })
]
