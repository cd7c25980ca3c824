-- ===== src/GooglePlay/Pass/Released.antt =====
-- providers/google_play/notifications.py: a pass of reconciles gives every token that it claimed
-- back.
use session_pro_backend.Base.Units.{DateTime}
use session_pro_backend.Prelude.{
  Bool, Bool-cases, Option-cases, arith, inl, inr, is_none, none, refl, some, true, ℕ, ◌≡◌, ◌⊎◌,
  ◌==◌, List, [], ap, leb, ◌+◌, ◌∷◌,
}
use session_pro_backend.Queue.{
  GoogleReconcileClaim, PurchaseToken, Queue, find, google_enqueue_reconcile, google_reconcile_done,
  google_reconcile_failed, requeue, fail_row, google_claim_due_reconciles, selected_tokens,
}
use session_pro_backend.Queue.Table.{
  IsKeyed, find-done, find-enqueue, find-update_row, update_row-IsKeyed, done-IsKeyed,
  enqueue-IsKeyed, lease_selected-IsKeyed,
}
use session_pro_backend.Db.Monad.{Env}
use session_pro_backend.GooglePlay.Pass.{
  Fetched, drain_due_reconciles, reconcile_batch_limit, reconcile_claim, reconcile_claims,
  reconcile_lease, reconcile_max_attempts, reconcile_retry_delay, reconcile_token, settle_claim,
}
use session_pro_backend.GooglePlay.Store.{PlayDb}
use session_pro_backend.GooglePlay.{SinkMessage}
use session_pro_backend.Queue.Claims.{claims_token}
use session_pro_backend.GooglePlay.Reconcile.Stored.{reconcile_queue}
use session_pro_backend.GooglePlay.Pass.Settled.{reconcile_token-cases}

-- The token has no row, or one that no worker holds.
abbrev pub is_released : PurchaseToken → Queue → Bool
is_released token q = elim (find token q) [ none ↦ true | some row ↦ is_none row.leased_until ]

enqueue_keeps :
    (t j : PurchaseToken) (e : DateTime) (q : Queue)
    → is_released j q ≡ true
    → is_released j (google_enqueue_reconcile t e q) ≡ true
unfolding requeue
enqueue_keeps t j e q h =
    let row = find-enqueue t j e q in
    elim (Bool-cases (t == j)) [
      | inl same ↦
          let one : t ≡ j = ground arith in
          elim (Option-cases (find t q)) [
            | inl new ↦ ground (arith, row)
            | inr (r, there) ↦ ground (arith, row, one)
          ]
      | inr other ↦ ground (arith, row)
    ]

done_releases :
    (c : GoogleReconcileClaim) (j : PurchaseToken) (q : Queue)
    → IsKeyed q
    → (is_released j q ≡ true) ⊎ (c.payment_token ≡ j)
    → is_released j (google_reconcile_done c q).1 ≡ true
done_releases c j q keyed h =
    let row = find-done c j q keyed in
    elim (Bool-cases (c.payment_token == j)) [
      | inl same ↦ elim (Option-cases (find j q)) [
        | inl absent ↦ ground (arith, row)
        | inr (r, there) ↦ ground (arith, row)
      ]
      | inr other ↦ ground (arith, row)
    ]

failed_releases :
    (c : GoogleReconcileClaim) (retry_at : DateTime) (error : ℕ) (park : Bool) (j : PurchaseToken)
    (q : Queue)
    → (is_released j q ≡ true) ⊎ (c.payment_token ≡ j)
    → is_released j (google_reconcile_failed c retry_at error park q) ≡ true
unfolding google_reconcile_failed fail_row
failed_releases c retry_at error park j q h =
    let row = find-update_row c.payment_token j (fail_row c retry_at error park) q (λ r. refl) in
    elim (Bool-cases (c.payment_token == j)) [
      | inl same ↦ elim (Option-cases (find j q)) [
        | inl absent ↦ ground (arith, row)
        | inr (r, there) ↦ ground (arith, row)
      ]
      | inr other ↦ ground (arith, row)
    ]

failed-IsKeyed :
    (c : GoogleReconcileClaim) (retry_at : DateTime) (error : ℕ) (park : Bool) (q : Queue)
    → IsKeyed q
    → IsKeyed (google_reconcile_failed c retry_at error park q)
unfolding google_reconcile_failed fail_row
failed-IsKeyed c retry_at error park q keyed =
    update_row-IsKeyed c.payment_token (fail_row c retry_at error park) q (λ r. refl) keyed

module _ (env : Env) (at : DateTime) (fetch : PurchaseToken → Fetched)
    (build : List SinkMessage → ℕ) where
  -- The reconcile of one token leaves the queue as it is, or puts a token into it.
  token_queue :
      (token : PurchaseToken) (play play' : PlayDb) (messages : List SinkMessage)
      → reconcile_token env at fetch token play ≡ (messages, play')
      → (play'.google_reconcile_queue ≡ play.google_reconcile_queue)
        ⊎ ((old : PurchaseToken) × (play'.google_reconcile_queue
              ≡ google_enqueue_reconcile old at play.google_reconcile_queue))
  token_queue token play play' messages h =
      elim (reconcile_token-cases env at fetch token play play' messages h) [
        | inl (reported, same) ↦ inl (ap (λ s. s.google_reconcile_queue) same)
        | inr (resource, fetched, ran) ↦ reconcile_queue env token resource at play play' ran
      ]

  settle_claim-keeps :
      (c : GoogleReconcileClaim) (messages : List SinkMessage) (j : PurchaseToken) (play : PlayDb)
      → IsKeyed play.google_reconcile_queue
      → (is_released j play.google_reconcile_queue ≡ true) ⊎ (c.payment_token ≡ j)
      → IsKeyed (settle_claim env at build c messages play).google_reconcile_queue
        × (is_released j (settle_claim env at build c messages play).google_reconcile_queue ≡ true)
  unfolding settle_claim
  settle_claim-keeps c [] j play keyed h = (
    done-IsKeyed c play.google_reconcile_queue keyed,
    done_releases c j play.google_reconcile_queue keyed h,
  )
  settle_claim-keeps c (m ∷ ms) j play keyed h =
      let retry_at = at + reconcile_retry_delay c.attempts in
      let park = leb reconcile_max_attempts (c.attempts + 1) in
      (
        failed-IsKeyed c retry_at (build (m ∷ ms)) park play.google_reconcile_queue keyed,
        failed_releases c retry_at (build (m ∷ ms)) park j play.google_reconcile_queue h,
      )

  -- The reconcile of one claim gives its own token back, and takes no other.
  claim_keeps :
      (c : GoogleReconcileClaim) (j : PurchaseToken) (play : PlayDb)
      → IsKeyed play.google_reconcile_queue
      → (is_released j play.google_reconcile_queue ≡ true) ⊎ (c.payment_token ≡ j)
      → IsKeyed (reconcile_claim env at fetch build c play).google_reconcile_queue
        × (is_released j (reconcile_claim env at fetch build c play).google_reconcile_queue ≡ true)
  unfolding reconcile_claim
  claim_keeps c j play keyed h =
      let (messages, play1) = reconcile_token env at fetch c.payment_token play in
      elim (token_queue c.payment_token play play1 messages refl) [
        | inl same ↦ settle_claim-keeps c messages j play1 (rw same keyed) (rw same h)
        | inr (old, queued) ↦
            settle_claim-keeps c messages j play1
              (rw queued (enqueue-IsKeyed old at play.google_reconcile_queue keyed))
              (elim h [
                | inl released ↦
                    inl (rw queued (enqueue_keeps old j at play.google_reconcile_queue released))
                | inr own ↦ inr own
              ])
      ]

  claims_keep :
      (claims : List GoogleReconcileClaim) (j : PurchaseToken) (play : PlayDb)
      → IsKeyed play.google_reconcile_queue
      → (is_released j play.google_reconcile_queue ≡ true) ⊎ (claims_token j claims ≡ true)
      → is_released j (reconcile_claims env at fetch build claims play).google_reconcile_queue
        ≡ true
  unfolding reconcile_claims
  claims_keep [] j play keyed (inl released) = released
  claims_keep [] j play keyed (inr claimed) = ground arith
  claims_keep (c ∷ cs) j play keyed h = elim (step_cases h) [
    | inl here ↦
        let (keyed', released) = claim_keeps c j play keyed here in
        claims_keep cs j (reconcile_claim env at fetch build c play) keyed' (inl released)
    | inr later ↦
        let (keyed', own) = claim_keeps c c.payment_token play keyed (inr refl) in
        claims_keep cs j (reconcile_claim env at fetch build c play) keyed' (inr later)
  ]
    where
      step_cases :
          (is_released j play.google_reconcile_queue ≡ true) ⊎ (claims_token j (c ∷ cs) ≡ true)
          → ((is_released j play.google_reconcile_queue ≡ true) ⊎ (c.payment_token ≡ j))
            ⊎ (claims_token j cs ≡ true)
      step_cases (inl released) = inl (inl released)
      step_cases (inr claimed) = elim (Bool-cases (c.payment_token == j)) [
        | inl own ↦ inl (inr (ground arith))
        | inr other ↦ inr (ground arith)
      ]

  -- In a queue with one row for each token, a pass gives back every token that it claimed,
  -- whatever the store answers: the token's row is gone or has no lease.
  pub drain_releases :
      (j : PurchaseToken) (play : PlayDb)
      → IsKeyed play.google_reconcile_queue
      → claims_token j
          (google_claim_due_reconciles at
            (at + reconcile_lease)
            reconcile_batch_limit
            play.google_reconcile_queue).0
        ≡ true
      → is_released j (drain_due_reconciles env at fetch build play).1.google_reconcile_queue ≡ true
  unfolding drain_due_reconciles google_claim_due_reconciles
  drain_releases j play keyed claimed =
      let q = play.google_reconcile_queue in
      let taken = google_claim_due_reconciles at (at + reconcile_lease) reconcile_batch_limit q in
      let start : PlayDb = record play { google_reconcile_queue = taken.1 } in
      claims_keep taken.0 j start
        (lease_selected-IsKeyed (selected_tokens at reconcile_batch_limit q) (at + reconcile_lease)
          q keyed)
        (inr claimed)
