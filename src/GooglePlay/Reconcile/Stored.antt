-- ===== src/GooglePlay/Reconcile/Stored.antt =====
-- providers/google_play/notifications.py: what a successful reconcile of a token stores.
use session_pro_backend.GooglePlay.Reconcile.{
  ok, read_resource, reconcile_google_subscription, snapshot_of, write_resource, enqueue_linked,
  is_acknowledged, is_auto_renewing,
}
use session_pro_backend.GooglePlay.Resource.{
  furthest, SubscriptionPlanEventTransaction, SubscriptionV2Data, SubscriptionV2DataLineItem,
  owned_items, parse_line_item, parse_subscription_plan_event_tx, parse_subscription_purchase_tx,
  parse_valid_order_id,
}
use session_pro_backend.Prelude.{
  List-cases, [], arith, inl, inr, some, ◌≡◌, Option-cases, true, ap, not, ◌∙◌, ◌≤◌, Option, ◌⊎◌,
}
use session_pro_backend.Queue.{PurchaseToken, QueueRow, find, google_enqueue_reconcile}
use session_pro_backend.Renewal.{PaymentProviderTransaction, google_play_store}
use session_pro_backend.Base.Units.{DateTime, datetime_from_unix_ms}
use session_pro_backend.Db.Monad.{Env}
use session_pro_backend.GooglePlay.Store.{PlayDb}
use session_pro_backend.GooglePlay.Reconcile.Recorded.{
  has_order, write_resource-cases, recorded_cycle, standing_converges, converge_or_register-cases,
}
use session_pro_backend.Db.Tables.{Payment}
use session_pro_backend.Converge.{first_matching, is_standing_order}
use session_pro_backend.GooglePlay.Handle.Delivery.{enqueued_is_due}
use session_pro_backend.Converge.Settled.{stated_end}
use session_pro_backend.Converge.Again.{google_converge_payment-settled}

-- What a resource that can be read says.
read_resource-cases :
    (token : PurchaseToken) (resource : SubscriptionV2Data) (item : SubscriptionV2DataLineItem)
    (t : PaymentProviderTransaction) (event : SubscriptionPlanEventTransaction)
    → read_resource token resource ≡ (some item, t, event, [])
    → (t.provider ≡ google_play_store)
      × (t.google_payment_token ≡ token)
      × ((parse_line_item resource).0 ≡ some item)
      × (event.resource ≡ resource)
      × (event.plan_expiry_time ≡ item.expiry_time)
unfolding read_resource parse_line_item parse_subscription_plan_event_tx
    parse_subscription_purchase_tx parse_valid_order_id
read_resource-cases token resource item t event h =
    elim (List-cases (owned_items resource.line_items)) [
      | inl unowned ↦ ground arith
      | inr (first, rest, owned) ↦
          let best = furthest first rest in
          elim (Option-cases best.latest_successful_order_id) [
            | inl no_order ↦ (ground arith, ground arith, ground arith, ground arith, ground arith)
            | inr (order, has_id) ↦
                (ground arith, ground arith, ground arith, ground arith, ground arith)
          ]
    ]

linked_keeps_tables :
    (old : Option PurchaseToken) (at : DateTime) (play play' : PlayDb)
    → enqueue_linked old at play ≡ ok ([], play')
    → play'.db ≡ play.db
linked_keeps_tables old at play play' h = elim (Option-cases old) [
  | inl none_linked ↦ ground arith
  | inr (token, links) ↦ ground arith
]

module _ (env : Env) (token : PurchaseToken) (resource : SubscriptionV2Data) (at : DateTime) where
  -- A reconcile without a message read the resource and wrote it.
  reconcile-cases :
      (play play' : PlayDb)
      → reconcile_google_subscription env token resource at play ≡ ok ([], play')
      → (item : SubscriptionV2DataLineItem) × (t : PaymentProviderTransaction)
        × (event : SubscriptionPlanEventTransaction) × (read_resource token resource
            ≡ (some item, t, event, []))
        × (write_resource env event (snapshot_of item event) t at play ≡ ok ([], play'))
  unfolding reconcile_google_subscription
  reconcile-cases play play' h =
      let read = read_resource token resource in
      elim (Option-cases read.0) [
        | inl unowned ↦ elim (List-cases read.3) [
          | inl no_message ↦ ground arith
          | inr (m, ms, some_message) ↦ ground arith
        ]
        | inr (item, owned) ↦ elim (List-cases read.3) [
          | inl no_message ↦ (item, read.1, read.2, ground arith, ground arith)
          | inr (m, ms, some_message) ↦ ground arith
        ]
      ]

  -- A purchase is never dropped: after a reconcile of a resource that reports no message, a
  -- payment of the purchase token and of the resource's order is on record, whether it was there
  -- before, whatever the subscription's state, and however late the reconcile comes.
  pub reconciled_is_recorded :
      (play play' : PlayDb)
      → reconcile_google_subscription env token resource at play ≡ ok ([], play')
      → has_order token (read_resource token resource).1.google_order_id play'.db ≡ true
  reconciled_is_recorded play play' h =
      let (item, t, event, read, wrote) = reconcile-cases play play' h in
      let (from_google, of_token, chosen, same, ends) =
        read_resource-cases token resource item t event read in
      let (play1, ran, linked) =
        write_resource-cases env event (snapshot_of item event) t at play play' wrote in
      let same_tables : play'.db ≡ play1.db =
        linked_keeps_tables event.resource.linked_purchase_token at play1 play' linked in
      let there =
        recorded_cycle env event (snapshot_of item event) t at play play1 from_google ran in
      ground (arith, there)

  -- Where the resource names the token that its subscription replaces, a reconcile without a
  -- message leaves that token in the queue, due at once.
  pub linked_is_queued :
      (play play' : PlayDb) (old : PurchaseToken)
      → resource.linked_purchase_token ≡ some old
      → reconcile_google_subscription env token resource at play ≡ ok ([], play')
      → (row : QueueRow) × (find old play'.google_reconcile_queue ≡ some row)
        × (row.eligible_at ≤ at)
  linked_is_queued play play' old links h =
      let (item, t, event, read, wrote) = reconcile-cases play play' h in
      let (from_google, of_token, chosen, same, ends) =
        read_resource-cases token resource item t event read in
      let (play1, ran, linked) =
        write_resource-cases env event (snapshot_of item event) t at play play' wrote in
      let (row, there, due) = enqueued_is_due old at play1.google_reconcile_queue in
      let names : event.resource.linked_purchase_token ≡ some old =
        ap (λ r. r.linked_purchase_token) same ∙ links in
      (row, ground (arith, there, names), due)

  -- Where a payment of the token and the resource's order stands unrevoked, a reconcile without a
  -- message leaves it as the resource says: it ends, its grace included, at the expiry of the line
  -- item that the reconcile reads, with that item's renewal flag, and owes an acknowledgement
  -- unless the resource is acknowledged.
  pub reconciled_is_settled :
      (play play' : PlayDb) (item : SubscriptionV2DataLineItem) (p : Payment)
      → reconcile_google_subscription env token resource at play ≡ ok ([], play')
      → (parse_line_item resource).0 ≡ some item
      → let standing = is_standing_order token (read_resource token resource).1.google_order_id in
        first_matching standing play.db.payments ≡ some p
        → (q : Payment) × (first_matching standing play'.db.payments ≡ some q)
          × (stated_end q ≡ some (datetime_from_unix_ms item.expiry_time))
          × (q.auto_renewing ≡ is_auto_renewing item.auto_renewing_plan)
          × (q.needs_ack ≡ not (is_acknowledged resource.acknowledgement_state))
  reconciled_is_settled play play' item p h chosen before =
      let (item', t, event, read, wrote) = reconcile-cases play play' h in
      let (from_google, of_token, chosen', same, ends) =
        read_resource-cases token resource item' t event read in
      let s = snapshot_of item' event in
      let (play1, ran, linked) = write_resource-cases env event s t at play play' wrote in
      let same_tables : play'.db ≡ play1.db =
        linked_keeps_tables event.resource.linked_purchase_token at play1 play' linked in
      let order = t.google_order_id in
      let found : first_matching (is_standing_order t.google_payment_token order) play.db.payments
          ≡ some p =
        ground (arith, before) in
      let ran' = standing_converges env event s t at play play1 p found ran in
      let (q, standing, end, renewing, owed) =
        google_converge_payment-settled env s t at play.db play1.db ran' in
      let one : item' ≡ item = ground arith in
      (
        q,
        ground (arith, standing),
        ground (arith, end, ends, one),
        ground (arith, renewing, one),
        ground (arith, owed, same),
      )

  -- A reconcile without a message changes the queue only by the replaced token.
  pub reconcile_queue :
      (play play' : PlayDb)
      → reconcile_google_subscription env token resource at play ≡ ok ([], play')
      → (play'.google_reconcile_queue ≡ play.google_reconcile_queue)
        ⊎ ((old : PurchaseToken) × (play'.google_reconcile_queue
              ≡ google_enqueue_reconcile old at play.google_reconcile_queue))
  reconcile_queue play play' h =
      let (item, t, event, read, wrote) = reconcile-cases play play' h in
      let s = snapshot_of item event in
      let (play1, ran, linked) = write_resource-cases env event s t at play play' wrote in
      let (same, outcome) = converge_or_register-cases env event s t at play play1 ran in
      elim (Option-cases event.resource.linked_purchase_token) [
        | inl unlinked ↦ inl (ground (arith, same))
        | inr (old, links) ↦ inr (old, ground (arith, same))
      ]
