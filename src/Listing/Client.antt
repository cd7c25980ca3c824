-- ===== src/Listing/Client.antt =====
-- server.py: a client that follows the cursors of get_payment_details.
use session_pro_backend.Db.Monad.{Env, Tx, pure, ◌>>=◌, Db}
use session_pro_backend.Base.Errors.{ok}
use session_pro_backend.Base.Units.{DateTime}
use session_pro_backend.Listing.{
  get_payment_details, max_payment_details_page, next_cursor, page_of, account_payments,
  get_user_payments_count, get_user_payments_page,
}
use session_pro_backend.Redeem.{reconcile_pending_payments}
use session_pro_backend.Redeem.Idempotent.{reconcile_twice}
use session_pro_backend.Prelude.{
  refl, suc, zero, List, Option, [], arith, some, true, ℕ, ◌++◌, ◌<◌, ◌≡◌, Bool-cases, inl, inr,
  none, ◌==◌, ◌≤◌, ap, ◌∙◌, Option-cases, min,
}
use session_pro_backend.Db.Tables.{Payment, VerifyKey}
use session_pro_backend.Listing.Pages.{
  collect_pages, collect_pages_all, is_descending, is_descending-account,
}

module _ (env : Env) (key : VerifyKey) (at : ℕ → DateTime) (asked : ℕ) where
  -- A client that sends `get_payment_details` the cursor that it was answered, at most so many
  -- times, and collects the items. The requests may come at different instants.
  unfoldable pub follow_cursors : ℕ → Option ℕ → Tx (List Payment)
  unfolding get_payment_details
  follow_cursors zero before = pure []
  follow_cursors (suc requests) before = do
    details ← get_payment_details env key (at requests) asked before
    elim details.next_cursor [
      | none ↦ pure details.items
      | some cursor ↦ follow_cursors requests (some cursor) >>= λ rest. pure (details.items ++ rest)
    ]

  abbrev clamped : ℕ
  clamped = min asked max_payment_details_page

  -- A request for a page, where reconciling leaves `db'`.
  page_served :
      (when_asked : DateTime) (before : Option ℕ) (db db' : Db) (n : ℕ)
      → 0 < asked
      → reconcile_pending_payments env key when_asked db ≡ ok (n, db')
      → get_payment_details env key when_asked asked before db
        ≡ ok (
          record {
            payments_total = get_user_payments_count key db';
            items = page_of clamped before (account_payments key db');
            next_cursor = next_cursor clamped (page_of clamped before (account_payments key db'));
          },
          db',
        )
  unfolding get_payment_details get_user_payments_page get_user_payments_count
  page_served when_asked before db db' n positive bound = elim (Bool-cases (asked == 0)) [
    | inl none_asked ↦ ground arith
    | inr some_asked ↦ ground (arith, bound)
  ]

  -- One request on tables whose reconciliation leaves `db'`, where the rest collects the rest.
  follow-step :
      (requests : ℕ) (before : Option ℕ) (db db' : Db) (n : ℕ)
      → 0 < asked
      → reconcile_pending_payments env key (at requests) db ≡ ok (n, db')
      → ((cursor : ℕ)
          → follow_cursors requests (some cursor) db'
            ≡ ok (collect_pages requests clamped (some cursor) (account_payments key db'), db'))
      → follow_cursors (suc requests) before db
        ≡ ok (collect_pages (suc requests) clamped before (account_payments key db'), db')
  unfolding follow_cursors collect_pages
  follow-step requests before db db' n positive bound rest =
      let rows = account_payments key db' in
      let served = page_served (at requests) before db db' n positive bound in
      elim (Option-cases (next_cursor clamped (page_of clamped before rows))) [
        | inl last ↦ ground (arith, served, last)
        | inr (cursor, more) ↦ ground (arith, served, more, rest cursor)
      ]

  follow-collect :
      (requests : ℕ) (before : Option ℕ) (db' : Db)
      → 0 < asked
      → ((t : DateTime) → reconcile_pending_payments env key t db' ≡ ok (0, db'))
      → follow_cursors requests before db'
        ≡ ok (collect_pages requests clamped before (account_payments key db'), db')
  follow-collect zero before db' positive settled =
      unfold follow_cursors in unfold collect_pages in refl
  follow-collect (suc requests) before db' positive settled =
      follow-step requests before db' db' 0 positive (settled (at requests))
        (λ cursor. follow-collect requests (some cursor) db' positive settled)

  -- A client that follows the cursors of get_payment_details collects every payment of the account
  -- once, newest first, whatever positive page size it asks for, and needs at most one request more
  -- than the total. The first request binds what is pending; what the client collects are the
  -- account's payments on the tables `db'` that this leaves, on which the ids of the payments fall
  -- from the newest row on, and the other requests leave these as they are. No other transaction
  -- comes in between.
  pub account_pages_all :
      (requests n : ℕ) (db db' : Db)
      → 0 < asked
      → reconcile_pending_payments env key (at requests) db ≡ ok (n, db')
      → is_descending db'.payments ≡ true
      → get_user_payments_count key db' ≤ requests
      → follow_cursors (suc requests) none db ≡ ok (account_payments key db', db')
  unfolding get_user_payments_count
  account_pages_all requests n db db' positive bound falls enough =
      follow-step requests none db db' n positive bound (λ cursor.
        follow-collect requests (some cursor) db' positive
          (λ t. reconcile_twice env key (at requests) t db db' n bound))
      ∙ ap (λ (ps : List Payment). ok (ps, db'))
          (collect_pages_all (suc requests) clamped (account_payments key db')
            (is_descending-account key db' falls) (ground arith) (omega (arith, enough)))
