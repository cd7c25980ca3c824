-- ===== src/GooglePlay/Acks/Cleared.antt =====
-- providers/google_play/notifications.py: what a sweep of the acknowledgements leaves owed.
use session_pro_backend.Base.Units.{DateTime}
use session_pro_backend.Converge.{google_clear_needs_ack, set_needs_ack, update_matching}
use session_pro_backend.Db.Monad.{Db}
use session_pro_backend.Db.Tables.{Detail, Payment, Text, apple, google, stf}
use session_pro_backend.GooglePlay.Acks.{
  google_payment_tokens_needing_ack, group_token, is_acked, sweep_pending_acks, sweep_tokens,
  Acknowledgement, clear_flag,
}
use session_pro_backend.Prelude.{
  Bool, Bool-cases, List, [], arith, false, if◌then◌else◌, inl, inr, not, refl, ◌&&◌, ◌==◌, ◌||◌,
  ◌∷◌, ◌≡◌, ap, Option-cases, none, some, true, sym, ◌∙◌, ◌++◌,
}
use session_pro_backend.Revoke.{of_google_token}
use session_pro_backend.GooglePlay.Pass.{Fetched}

-- Some payment of the token is owed an acknowledgement.
abbrev pub is_owed : Text → List Payment → Bool
is_owed token [] = false
is_owed token (p ∷ ps) = of_google_token token p && p.needs_ack || is_owed token ps

abbrev pub is_listed : Text → List (Text × DateTime) → Bool
is_listed token [] = false
is_listed token ((t, at) ∷ rest) = t == token || is_listed token rest

listed_group :
    (token j : Text) (at : DateTime) (rows : List (Text × DateTime))
    → is_listed j (group_token token at rows) ≡ (token == j || is_listed j rows)
unfolding group_token
listed_group token j at [] = refl
listed_group token j at ((t, first) ∷ rest) = ground (arith, listed_group token j at rest)

listed_is_owed :
    (j : Text) (ps : List Payment)
    → is_listed j (google_payment_tokens_needing_ack ps) ≡ is_owed j ps
unfolding google_payment_tokens_needing_ack
listed_is_owed j [] = refl
listed_is_owed j (p ∷ ps) = by_detail p.detail refl (listed_is_owed j ps)
  where
    by_detail :
        (d : Detail)
        → p.detail ≡ d
        → is_listed j (google_payment_tokens_needing_ack ps) ≡ is_owed j ps
        → is_listed j (google_payment_tokens_needing_ack (p ∷ ps)) ≡ is_owed j (p ∷ ps)
    by_detail (google token order key) same rest =
        ground
          (arith, listed_group token j p.purchased_at (google_payment_tokens_needing_ack ps), rest)
    by_detail (apple _ _ _ _) same rest = ground (arith, rest)
    by_detail (stf _) same rest = ground (arith, rest)

owed_clear :
    (token j : Text) (ps : List Payment)
    → is_owed j (update_matching (of_google_token token) (set_needs_ack false) ps)
      ≡ (if token == j then false else is_owed j ps)
unfolding update_matching
owed_clear token j [] = ground arith
owed_clear token j (p ∷ ps) = by_detail p.detail refl (owed_clear token j ps)
  where
    by_detail :
        (d : Detail)
        → p.detail ≡ d
        → is_owed j (update_matching (of_google_token token) (set_needs_ack false) ps)
          ≡ (if token == j then false else is_owed j ps)
        → is_owed j (update_matching (of_google_token token) (set_needs_ack false) (p ∷ ps))
          ≡ (if token == j then false else is_owed j (p ∷ ps))
    by_detail (google token' order key) same rest = ground (arith, rest)
    by_detail (apple _ _ _ _) same rest = ground (arith, rest)
    by_detail (stf _) same rest = ground (arith, rest)

module _ (acknowledge : Text → Acknowledgement) (fetch : Text → Fetched) where
  -- The token is known to be acknowledged.
  abbrev pub acked : Text → Bool
  acked token = elim (is_acked acknowledge fetch token) [ none ↦ false | some a ↦ a ]

  owed_token :
      (token j : Text) (db : Db) (a : Bool)
      → is_owed j (if a then clear_flag acknowledge fetch token db else db).payments
        ≡ (if token == j && a then false else is_owed j db.payments)
  unfolding google_clear_needs_ack
  owed_token token j db true = ground (arith, owed_clear token j db.payments)
  owed_token token j db false = ground arith

  owed_tokens :
      (j : Text) (rows : List (Text × DateTime)) (db : Db)
      → (sweep_tokens acknowledge fetch rows db).0 ≡ false
      → is_owed j (sweep_tokens acknowledge fetch rows db).1.payments
        ≡ (if is_listed j rows && acked j then false else is_owed j db.payments)
  unfolding sweep_tokens
  owed_tokens j [] db calm = ground arith
  owed_tokens j ((token, at) ∷ rest) db calm =
      elim (Option-cases (is_acked acknowledge fetch token)) [
        | inl raises ↦ ground arith
        | inr (a, known) ↦
            let swept : Db = if a then clear_flag acknowledge fetch token db else db in
            let step : sweep_tokens acknowledge fetch ((token, at) ∷ rest) db
                ≡ sweep_tokens acknowledge fetch rest swept =
              ground (arith, known) in
            let after = owed_tokens j rest swept (ap (λ r. r.0) (sym step) ∙ calm) in
            let whole = ap (λ r. is_owed j r.1.payments) step ∙ after in
            let one = owed_token token j db a in
            let value : acked token ≡ a = ground (arith, known) in
            elim (Bool-cases (token == j)) [
              | inl same ↦
                  let names : token ≡ j = ground arith in
                  let mine : acked j ≡ a = ap acked (sym names) ∙ value in
                  ground (arith, whole, one, mine, Bool-cases a)
              | inr other ↦ ground (arith, whole, one)
            ]
      ]

  -- After a sweep that does not raise, a purchase token is owed an acknowledgement exactly where
  -- it was owed one before, the store did not take the acknowledgement, and no fetched resource
  -- says that it is acknowledged.
  pub sweep_lem :
      (db : Db) (token : Text)
      → (sweep_pending_acks acknowledge fetch db).0 ≡ false
      → is_owed token (sweep_pending_acks acknowledge fetch db).1.payments
        ≡ (is_owed token db.payments && not (acked token))
  unfolding sweep_pending_acks
  sweep_lem db token calm = ground (
    arith,
    owed_tokens token (google_payment_tokens_needing_ack db.payments) db calm,
    listed_is_owed token db.payments,
  )

  -- A sweep up to a token for which it raises does to the tables what the tokens in front have it
  -- do.
  sweep_until_raise :
      (front rest : List (Text × DateTime)) (token : Text) (at : DateTime) (db : Db)
      → (sweep_tokens acknowledge fetch front db).0 ≡ false
      → is_acked acknowledge fetch token ≡ none
      → sweep_tokens acknowledge fetch (front ++ (token, at) ∷ rest) db
        ≡ (true, (sweep_tokens acknowledge fetch front db).1)
  unfolding sweep_tokens
  sweep_until_raise [] rest token at db calm raises = ground arith
  sweep_until_raise ((t, first) ∷ front) rest token at db calm raises =
      elim (Option-cases (is_acked acknowledge fetch t)) [
        | inl breaks ↦ ground arith
        | inr (a, known) ↦
            let swept : Db = if a then clear_flag acknowledge fetch t db else db in
            ground (arith, sweep_until_raise front rest token at swept)
      ]

  -- One acknowledgement that raises keeps the purchases behind it from being acknowledged. Where
  -- the sweep meets a token for which it raises, after some in front that it passes, it raises, and
  -- a token that is not among those in front is owed an acknowledgement exactly where it was owed
  -- one before, whatever the store would say of it.
  pub raise_blocks_sweep :
      (db : Db) (front rest : List (Text × DateTime)) (token j : Text) (at : DateTime)
      → google_payment_tokens_needing_ack db.payments ≡ front ++ (token, at) ∷ rest
      → (sweep_tokens acknowledge fetch front db).0 ≡ false
      → is_acked acknowledge fetch token ≡ none
      → is_listed j front ≡ false
      → ((sweep_pending_acks acknowledge fetch db).0 ≡ true)
        × (is_owed j (sweep_pending_acks acknowledge fetch db).1.payments ≡ is_owed j db.payments)
  unfolding sweep_pending_acks
  raise_blocks_sweep db front rest token j at needing calm raises behind =
      let swept : sweep_pending_acks acknowledge fetch db
          ≡ (true, (sweep_tokens acknowledge fetch front db).1) =
        ap (λ (rows : List (Text × DateTime)). sweep_tokens acknowledge fetch rows db) needing
        ∙ sweep_until_raise front rest token at db calm raises in
      (
        ap (λ (r : Bool × Db). r.0) swept,
        ap (λ (r : Bool × Db). is_owed j r.1.payments) swept
            ∙ ground (arith, owed_tokens j front db calm, behind),
      )
