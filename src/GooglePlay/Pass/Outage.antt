-- ===== src/GooglePlay/Pass/Outage.antt =====
-- providers/google_play/notifications.py: a pass of reconciles while the store does not answer.
use session_pro_backend.Base.Units.{DateTime}
use session_pro_backend.Db.Monad.{Env}
use session_pro_backend.GooglePlay.{SinkMessage}
use session_pro_backend.GooglePlay.Pass.{
  Fetched, answered, drain_due_reconciles, raised, reconcile_claim, reconcile_claims,
  reconcile_token, settle_claim, reconcile_batch_limit, reconcile_lease,
}
use session_pro_backend.GooglePlay.Pass.Settled.{reconcile_token-cases}
use session_pro_backend.GooglePlay.Store.{PlayDb}
use session_pro_backend.Prelude.{
  Bool, List, [], arith, false, inl, inr, none, refl, some, true, ◌∷◌, ◌≡◌, ◌∙◌, ap, ℕ, ◌+◌,
}
use session_pro_backend.Queue.{GoogleReconcileClaim, PurchaseToken, google_claim_due_reconciles}

-- No resource came, or one with a message in the sink.
abbrev pub is_outage : Fetched → Bool
is_outage (raised _) = true
is_outage (answered none _) = true
is_outage (answered (some _) []) = false
is_outage (answered (some _) (_ ∷ _)) = true

module _ (env : Env) (at : DateTime) (fetch : PurchaseToken → Fetched)
    (build : List SinkMessage → ℕ)
    (outage : (token : PurchaseToken) → is_outage (fetch token) ≡ true) where
  token_keeps :
      (token : PurchaseToken) (play play' : PlayDb) (messages : List SinkMessage)
      → reconcile_token env at fetch token play ≡ (messages, play')
      → play' ≡ play
  token_keeps token play play' messages h =
      elim (reconcile_token-cases env at fetch token play play' messages h) [
        | inl (reported, same) ↦ same
        | inr (resource, fetched, ran) ↦ ground (arith, outage token)
      ]

  settle_claim-tables :
      (c : GoogleReconcileClaim) (messages : List SinkMessage) (play : PlayDb)
      → ((settle_claim env at build c messages play).db ≡ play.db)
        × ((settle_claim env at build c messages play).google_notification_history
            ≡ play.google_notification_history)
  unfolding settle_claim
  settle_claim-tables c [] play = (refl, refl)
  settle_claim-tables c (m ∷ ms) play = (refl, refl)

  claims_keep_tables :
      (claims : List GoogleReconcileClaim) (play : PlayDb)
      → ((reconcile_claims env at fetch build claims play).db ≡ play.db)
        × ((reconcile_claims env at fetch build claims play).google_notification_history
            ≡ play.google_notification_history)
  unfolding reconcile_claims reconcile_claim
  claims_keep_tables [] play = (refl, refl)
  claims_keep_tables (c ∷ cs) play =
      let (messages, play1) = reconcile_token env at fetch c.payment_token play in
      let same = token_keeps c.payment_token play play1 messages refl in
      let (db_kept, history_kept) = settle_claim-tables c messages play1 in
      let (db_rest, history_rest) =
        claims_keep_tables cs (settle_claim env at build c messages play1) in
      (
        db_rest ∙ db_kept ∙ ap (λ s. s.db) same,
        history_rest ∙ history_kept ∙ ap (λ s. s.google_notification_history) same,
      )

  -- While no token's resource can be fetched, a pass changes neither a payment, an account nor the
  -- history of notifications, however many tokens are due.
  pub outage_keeps_tables :
      (play : PlayDb)
      → ((drain_due_reconciles env at fetch build play).1.db ≡ play.db)
        × ((drain_due_reconciles env at fetch build play).1.google_notification_history
            ≡ play.google_notification_history)
  unfolding drain_due_reconciles google_claim_due_reconciles
  outage_keeps_tables play =
      let taken =
        google_claim_due_reconciles at (at + reconcile_lease) reconcile_batch_limit
          play.google_reconcile_queue in
      claims_keep_tables taken.0 (record play { google_reconcile_queue = taken.1 })
