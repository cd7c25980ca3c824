-- ===== src/GooglePlay/Pass.antt =====
-- providers/google_play/notifications.py: the pass that reconciles every token whose turn has come.
-- What the Play API answers is a parameter; the pass asks for each claimed token once.
pub mod Delay
pub mod Settled
pub mod Released
pub mod Outage
use Prim.Native.Nat.{◌^◌}
use session_pro_backend.Base.Errors.{Error, ok, err}
use session_pro_backend.Base.Units.{DateTime, Duration, second, hour}
use session_pro_backend.Db.Monad.{Env}
use session_pro_backend.GooglePlay.{SinkMessage, fetch_failed, reconcile_raised}
use session_pro_backend.GooglePlay.Reconcile.{reconcile_google_subscription}
use session_pro_backend.GooglePlay.Resource.{SubscriptionV2Data}
use session_pro_backend.GooglePlay.Store.{PlayDb}
use session_pro_backend.Prelude.{
  List, Option, [], if◌then◌else◌, leb, length, ltb, min, none, some, ℕ, ◌*◌, ◌++◌, ◌+◌, ◌∷◌,
}
use session_pro_backend.Queue.{
  GoogleReconcileClaim, PurchaseToken, google_claim_due_reconciles, google_reconcile_done,
  google_reconcile_failed,
}

abbrev pub reconcile_batch_limit : ℕ
reconcile_batch_limit = 32

-- `api.SOCKET_TIMEOUT_S`
abbrev pub socket_timeout_s : ℕ
socket_timeout_s = 15

abbrev pub reconcile_lease : Duration
reconcile_lease = 2 * reconcile_batch_limit * socket_timeout_s * second

abbrev pub reconcile_retry_min : Duration
reconcile_retry_min = 60 * second

abbrev pub reconcile_retry_max : Duration
reconcile_retry_max = 6 * hour

abbrev pub reconcile_max_attempts : ℕ
reconcile_max_attempts = 36

unfoldable pub reconcile_retry_delay : ℕ → Duration
reconcile_retry_delay attempts =
    let doubled = reconcile_retry_min * 2 ^ min attempts 16 in
    if ltb doubled reconcile_retry_max then doubled else reconcile_retry_max

-- What `fetch_subscription_v2_details` comes to: an exception, or an answer with the messages that
-- it put into the sink.
pub data Fetched : Type 0 where
  raised : Error → Fetched
  answered : Option SubscriptionV2Data → List SinkMessage → Fetched

module _ (env : Env) (at : DateTime) where
  -- The transaction of one reconcile, cancelled where the sink has a message, undone where it
  -- raises.
  unfoldable pub reconcile_resource :
      PurchaseToken → SubscriptionV2Data → PlayDb → List SinkMessage × PlayDb
  unfolding reconcile_google_subscription
  reconcile_resource token resource play =
      elim (reconcile_google_subscription env token resource at play) [
        | err e ↦ (reconcile_raised e ∷ [], play)
        | ok (messages, play') ↦ elim messages [ [] ↦ ([], play') | m ∷ ms ↦ (m ∷ ms, play) ]
      ]

  -- The block under `try`.
  unfoldable pub reconcile_token :
      (PurchaseToken → Fetched) → PurchaseToken → PlayDb → List SinkMessage × PlayDb
  unfolding reconcile_resource
  reconcile_token fetch token play = elim (fetch token) [
    | raised e ↦ (reconcile_raised e ∷ [], play)
    | answered none messages ↦ (messages ++ fetch_failed ∷ [], play)
    | answered (some resource) (m ∷ ms) ↦ ((m ∷ ms) ++ fetch_failed ∷ [], play)
    | answered (some resource) [] ↦ reconcile_resource token resource play
  ]

  -- The transaction that settles the claim. `build` numbers the text of the messages.
  unfoldable pub settle_claim :
      (List SinkMessage → ℕ) → GoogleReconcileClaim → List SinkMessage → PlayDb → PlayDb
  unfolding google_reconcile_done google_reconcile_failed reconcile_retry_delay
  settle_claim build claim [] play = record play {
    google_reconcile_queue = (google_reconcile_done claim play.google_reconcile_queue).1;
  }
  settle_claim build claim (m ∷ ms) play = record play {
    google_reconcile_queue =
        google_reconcile_failed claim (at + reconcile_retry_delay claim.attempts) (build (m ∷ ms))
          (leb reconcile_max_attempts (claim.attempts + 1)) play.google_reconcile_queue;
  }

  unfoldable pub reconcile_claim :
      (PurchaseToken → Fetched) → (List SinkMessage → ℕ) → GoogleReconcileClaim → PlayDb → PlayDb
  unfolding reconcile_token settle_claim
  reconcile_claim fetch build claim play =
      let (messages, play') = reconcile_token fetch claim.payment_token play in
      settle_claim build claim messages play'

  unfoldable pub reconcile_claims :
      (PurchaseToken → Fetched)
      → (List SinkMessage → ℕ)
      → List GoogleReconcileClaim
      → PlayDb
      → PlayDb
  unfolding reconcile_claim
  reconcile_claims fetch build [] play = play
  reconcile_claims fetch build (claim ∷ claims) play =
      reconcile_claims fetch build claims (reconcile_claim fetch build claim play)

  -- How many tokens were claimed, and the tables.
  unfoldable pub drain_due_reconciles :
      (PurchaseToken → Fetched) → (List SinkMessage → ℕ) → PlayDb → ℕ × PlayDb
  unfolding google_claim_due_reconciles reconcile_claims
  drain_due_reconciles fetch build play =
      let (claims, queue) =
        google_claim_due_reconciles at (at + reconcile_lease) reconcile_batch_limit
          play.google_reconcile_queue in
      (
        length claims,
        reconcile_claims fetch build claims (record play { google_reconcile_queue = queue }),
      )
