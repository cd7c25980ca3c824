-- ===== src/Drain.antt =====
-- backend.py: `drain_due_credits`, which charges uncovered time against the credits of every
-- account whose checkpoint is old.
pub mod Instant
use session_pro_backend.Base.Units.{DateTime, Duration, Config}
use session_pro_backend.Credits.{CreditToDrain, CreditDrainResult, drain_credits}
use session_pro_backend.Db.Tables.{VerifyKey, Payment, User}
use session_pro_backend.Db.Users.{payments_of, by_id, update_where}
use session_pro_backend.Db.Account.{
  is_live_credit, has_live_credit, update_users, update_user_from_payment_list,
}
use session_pro_backend.Redeem.{update_payments}
use session_pro_backend.Db.Monad.{Env, Tx, gets, modify, pure, ◌>>=◌, ◌>>◌}
use session_pro_backend.Prelude.{
  Bool, List, Option, [], false, if◌then◌else◌, is_none, ltb, none, not, some, ℕ, ◌&&◌, ◌+◌, ◌-◌,
  ◌==◌, ◌||◌, ◌∷◌,
}
use session_pro_backend.Entitlement.{live_credit}
use session_pro_backend.Coverage.{subscription_coverage_end}

-- A selected account: its id, key and checkpoint.
pub record DueAccount : Type 0 where
  pub user_id : ℕ
  pub master_pkey : VerifyKey
  pub checkpoint : DateTime

-- `credits_checkpoint_at < now - stale_after`
abbrev pub due_accounts : DateTime → Duration → List User → List DueAccount
due_accounts now stale_after [] = []
due_accounts now stale_after (u ∷ us) =
    let rest = due_accounts now stale_after us in
    elim u.credits_checkpoint_at [
      | none ↦ rest
      | some c ↦
          if ltb (c + stale_after) now
          then record { user_id = u.id; master_pkey = u.master_pkey; checkpoint = c } ∷ rest
          else rest
    ]

abbrev pub insert_by_checkpoint : DueAccount → List DueAccount → List DueAccount
insert_by_checkpoint a [] = a ∷ []
insert_by_checkpoint a (b ∷ bs) =
    if ltb b.checkpoint a.checkpoint then b ∷ insert_by_checkpoint a bs else a ∷ b ∷ bs

-- `ORDER BY credits_checkpoint_at`
abbrev pub order_by_checkpoint : List DueAccount → List DueAccount
order_by_checkpoint [] = []
order_by_checkpoint (a ∷ bs) = insert_by_checkpoint a (order_by_checkpoint bs)

-- Whether one payment is a subscription that covers the account now. A row that is no credit states
-- an expiry, by the table's constraint.
abbrev pub covers_now : Config → DateTime → Payment → Bool
covers_now config now p =
    is_none p.revoked_at
    && (is_none p.credit_remaining && elim p.expiry_at [
      | none ↦ false
      | some e ↦ ltb now (subscription_coverage_end config e p.grace_period p.auto_renewing)
    ])

abbrev pub any_covers : Config → DateTime → List Payment → Bool
any_covers config now [] = false
any_covers config now (p ∷ ps) = covers_now config now p || any_covers config now ps

-- `ORDER BY purchased_at, id`
abbrev pub is_before : Payment → Payment → Bool
is_before p q =
    ltb p.purchased_at q.purchased_at || p.purchased_at == q.purchased_at && ltb p.id q.id

abbrev pub insert_by_purchase : Payment → List Payment → List Payment
insert_by_purchase p [] = p ∷ []
insert_by_purchase p (q ∷ qs) = if is_before q p then q ∷ insert_by_purchase p qs else p ∷ q ∷ qs

abbrev pub live_rows : List Payment → List Payment
live_rows [] = []
live_rows (p ∷ ps) = if is_live_credit p then insert_by_purchase p (live_rows ps) else live_rows ps

abbrev pub to_drain : List Payment → List CreditToDrain
to_drain [] = []
to_drain (p ∷ ps) = record { payment_id = p.id; remaining = live_credit p } ∷ to_drain ps

abbrev pub remaining_before : List CreditToDrain → ℕ → Duration
remaining_before [] id = 0
remaining_before (c ∷ cs) id = if c.payment_id == id then c.remaining else remaining_before cs id

-- The UPDATE of one charged credit: what is left of it, and the instant where it ran out.
unfoldable pub charge_row : ℕ → Duration → Option DateTime → List Payment → List Payment
charge_row id left emptied_at [] = []
charge_row id left emptied_at (p ∷ ps) =
    (if p.id == id
      then record p {
        credit_remaining = some left;
        expiry_at = if is_none emptied_at then p.expiry_at else emptied_at;
      }
      else p)
    ∷ charge_row id left emptied_at ps

-- The walk over the charges, in consumption order.
unfoldable pub charge_rows :
    DateTime → Duration → List CreditToDrain → List (ℕ × Duration) → List Payment → List Payment
unfolding charge_row
charge_rows checkpoint spent_so_far live [] payments = payments
charge_rows checkpoint spent_so_far live ((id, left) ∷ updated) payments =
    let spent = spent_so_far + (remaining_before live id - left) in
    let emptied_at = if left == 0 then some (checkpoint + spent) else none in
    charge_rows checkpoint spent live updated (charge_row id left emptied_at payments)

-- Where the credits ran out the checkpoint is the instant where they did.
unfoldable pub next_checkpoint : DateTime → DateTime → CreditDrainResult → DateTime
next_checkpoint now checkpoint drained =
    if drained.exhausted then checkpoint + drained.spent else now

abbrev pub set_checkpoint : Option DateTime → User → User
set_checkpoint at u = record u { credits_checkpoint_at = at }

-- The last UPDATE: an account without a live credit is not visited again.
abbrev pub clear_checkpoint : List Payment → ℕ → User → Bool
clear_checkpoint payments uid u = by_id uid u && not (has_live_credit (payments_of uid payments))

module _ (env : Env) (now : DateTime) where
  -- The turn of the loop for one account.
  unfoldable pub drain_account : DueAccount → Tx (Unit {0})
  unfolding charge_rows next_checkpoint update_user_from_payment_list update_where
  drain_account a = do
    rows ← gets (λ db. payments_of a.user_id db.payments)
    let budget = if any_covers env.config now rows then 0 else now - a.checkpoint
    let live = to_drain (live_rows rows)
    let drained = drain_credits live budget
    update_payments (charge_rows a.checkpoint 0 live drained.updated)
    update_users (
        update_where (by_id a.user_id)
          (set_checkpoint (some (next_checkpoint now a.checkpoint drained))))
    update_user_from_payment_list env a.master_pkey
    modify (λ db. record db {
      users = update_where (clear_checkpoint db.payments a.user_id) (set_checkpoint none) db.users;
    })

  unfoldable pub drain_accounts : List DueAccount → Tx ℕ
  unfolding drain_account
  drain_accounts [] = pure 0
  drain_accounts (a ∷ due) =
      drain_account a >>= λ _. drain_accounts due >>= λ visited. pure (visited + 1)

  -- `drain_due_credits`
  unfoldable pub drain_due_credits : Duration → Tx ℕ
  unfolding drain_accounts
  drain_due_credits stale_after = do
    due ← gets (λ db. order_by_checkpoint (due_accounts now stale_after db.users))
    drain_accounts due
