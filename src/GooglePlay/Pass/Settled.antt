-- ===== src/GooglePlay/Pass/Settled.antt =====
-- providers/google_play/notifications.py: what the reconcile of one token of a pass leaves.
use session_pro_backend.Base.Errors.{Result-cases, ok}
use session_pro_backend.Base.Units.{DateTime}
use session_pro_backend.Db.Monad.{Env}
use session_pro_backend.GooglePlay.{SinkMessage}
use session_pro_backend.GooglePlay.Pass.{
  Fetched, answered, raised, reconcile_resource, reconcile_token,
}
use session_pro_backend.GooglePlay.Reconcile.{reconcile_google_subscription}
use session_pro_backend.GooglePlay.Resource.{SubscriptionV2Data}
use session_pro_backend.GooglePlay.Store.{PlayDb}
use session_pro_backend.Prelude.{
  List, List-cases, [], arith, false, inl, inr, is_empty, none, refl, some, ◌∷◌, ◌≡◌, ◌⊎◌,
}
use session_pro_backend.Queue.{PurchaseToken}

module _ (env : Env) (at : DateTime) where
  -- The reconcile of a token either reports no message, and is then that of the resource which the
  -- store answered without one, or reports something and changes no table.
  pub reconcile_token-cases :
      (fetch : PurchaseToken → Fetched) (token : PurchaseToken) (play play' : PlayDb)
      (messages : List SinkMessage)
      → reconcile_token env at fetch token play ≡ (messages, play')
      → ((is_empty messages ≡ false) × (play' ≡ play))
        ⊎ ((resource : SubscriptionV2Data) × (fetch token ≡ answered (some resource) [])
            × (reconcile_google_subscription env token resource at play ≡ ok ([], play')))
  unfolding reconcile_token reconcile_resource
  reconcile_token-cases fetch token play play' messages h = by_answer (fetch token) refl
    where
      by_answer :
          (answer : Fetched)
          → fetch token ≡ answer
          → ((is_empty messages ≡ false) × (play' ≡ play))
            ⊎ ((resource : SubscriptionV2Data) × (fetch token ≡ answered (some resource) [])
                × (reconcile_google_subscription env token resource at play ≡ ok ([], play')))
      by_answer (raised e) said = inl (ground arith, ground arith)
      by_answer (answered none []) said = inl (ground arith, ground arith)
      by_answer (answered none (m ∷ ms)) said = inl (ground arith, ground arith)
      by_answer (answered (some resource) (m ∷ ms)) said = inl (ground arith, ground arith)
      by_answer (answered (some resource) []) said =
          elim (Result-cases (reconcile_google_subscription env token resource at play)) [
            | inl (e, failed) ↦ inl (ground arith, ground arith)
            | inr ((said', play1), ran) ↦ elim (List-cases said') [
              | inl no_message ↦ inr (resource, said, ground arith)
              | inr (m, ms, some_message) ↦ inl (ground arith, ground arith)
            ]
          ]
