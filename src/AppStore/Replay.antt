-- ===== src/AppStore/Replay.antt =====
-- providers/app_store.py: what the replay of missed notifications ends with.
use session_pro_backend.AppStore.Catchup.{
  CatchUp, HistoryPage, checkpointed, counted, finished, replay_pages, replay_one, replay_all,
  SignedDataVerifier, catchup_on_missed_notifications, decoded_notification, history_start,
}
use session_pro_backend.Base.Errors.{Result-cases}
use session_pro_backend.Prelude.{
  inl, inr, refl, length, List, List-cases, Option, Option-cases, [], arith, false, none, some,
  true, ℕ, ◌+◌, ◌∷◌, ◌≡◌, Bool-cases, ◌==◌, ap, suc, zero, ◌++◌,
}
use session_pro_backend.Base.Units.{DateTime, Duration, unix_ms_from_datetime}
use session_pro_backend.Db.Monad.{Db, Env}
use session_pro_backend.Db.Tables.{Text}
use session_pro_backend.AppStore.{handle_notification, rolled_back}
use session_pro_backend.AppStore.Delivery.{handled_once, unhandled_leaves_no_trace}

replay_all-length :
    (env : Env) (v : SignedDataVerifier) (retry : Duration) (items : List (Option Text)) (db : Db)
    → (replay_all env v retry items db).0 + (replay_all env v retry items db).1 ≡ length items
unfolding replay_all
replay_all-length env v retry [] db = refl
replay_all-length env v retry (item ∷ items) db =
    ground (arith, replay_all-length env v retry items (replay_one env v retry item db).1)

-- The items of all pages from a token on, where the store answers every request and the pages end
-- within so many.
abbrev pub items_from :
    ℕ → (Option Text → Option HistoryPage) → Option Text → Option (List (Option Text))
items_from zero fetch token = none
items_from (suc requests) fetch token = elim (fetch token) [
  | none ↦ none
  | some page ↦ elim page.has_more [
    | false ↦ some page.notification_history
    | true ↦ elim (items_from requests fetch page.pagination_token) [
      | none ↦ none
      | some items ↦ some (page.notification_history ++ items)
    ]
  ]
]

abbrev pub as_finished : ℕ × ℕ × Db → CatchUp
as_finished r = finished r.0 r.1 r.2

replay_all-append :
    (env : Env) (v : SignedDataVerifier) (retry : Duration) (xs ys : List (Option Text)) (db : Db)
    → let first = replay_all env v retry xs db in
      as_finished (replay_all env v retry (xs ++ ys) db)
      ≡ counted first.0 first.1 (as_finished (replay_all env v retry ys first.2))
unfolding replay_all
replay_all-append env v retry [] ys db = ground arith
replay_all-append env v retry (x ∷ xs) ys db =
    ground (arith, replay_all-append env v retry xs ys (replay_one env v retry x db).1)

module _ (env : Env) (v : SignedDataVerifier) (retry : Duration) where
  replay_pages-items :
      (requests : ℕ) (fetch : Option Text → Option HistoryPage) (token : Option Text) (db : Db)
      (items : List (Option Text))
      → items_from requests fetch token ≡ some items
      → replay_pages env v retry requests fetch token db
        ≡ as_finished (replay_all env v retry items db)
  unfolding replay_pages
  replay_pages-items zero fetch token db items h = cc
  replay_pages-items (suc requests) fetch token db items h = elim (Option-cases (fetch token)) [
    | inl raises ↦ ground arith
    | inr (page, answered) ↦
        let first = replay_all env v retry page.notification_history db in
        elim (Bool-cases page.has_more) [
          | inr last ↦ ground (arith, answered, last)
          | inl more ↦ elim (Option-cases (items_from requests fetch page.pagination_token)) [
            | inl cut ↦ ground (arith, answered, more)
            | inr (rest, known) ↦
                let ih =
                  replay_pages-items requests fetch page.pagination_token first.2 rest known in
                let joined = replay_all-append env v retry page.notification_history rest db in
                let all : items ≡ page.notification_history ++ rest =
                  ground (arith, answered, more, known) in
                rw all (ground (arith, answered, more, ih, joined))
          ]
        ]
  ]

  -- A catch-up is one pass over the items of all pages. Where the store answers every request, and
  -- its pages end within so many, the catch-up finishes: it replays all items in their order, each
  -- on the tables that those before it left, counts every one as handled or as failed, and moves
  -- the checkpoint to its instant.
  pub catchup_is_one_pass :
      (history : ℕ → ℕ → Option Text → Option HistoryPage) (requests max_days : ℕ) (at : DateTime)
      (db : Db) (items : List (Option Text))
      → let start = history_start max_days db.apple_notification_checkpoint_at at in
        items_from requests (history (unix_ms_from_datetime start) (unix_ms_from_datetime at)) none
          ≡ some items
        → let pass = replay_all env v retry items db in
          (catchup_on_missed_notifications env v retry history requests max_days at db
            ≡ finished pass.0 pass.1 (record pass.2 { apple_notification_checkpoint_at = at }))
          × (pass.0 + pass.1 ≡ length items)
  unfolding catchup_on_missed_notifications
  catchup_is_one_pass history requests max_days at db items h =
      let start = history_start max_days db.apple_notification_checkpoint_at at in
      let fetch = history (unix_ms_from_datetime start) (unix_ms_from_datetime at) in
      (
        ap (checkpointed at) (replay_pages-items requests fetch none db items h),
        replay_all-length env v retry items db,
      )

  -- An item that fails, whether it is reported, does not verify or raises, changes no table.
  pub replay_one_failed :
      (item : Option Text) (db : Db)
      → (replay_one env v retry item db).0 ≡ false
      → (replay_one env v retry item db).1 ≡ rolled_back db (replay_one env v retry item db).1
  unfolding replay_one
  replay_one_failed none db h = refl
  replay_one_failed (some payload) db h = elim (Bool-cases (payload == 0)) [
    | inl empty ↦ ground arith
    | inr set ↦ elim (Option-cases (v.verify_and_decode_notification payload)) [
      | inl unverified ↦ ground arith
      | inr (body, verified) ↦
          let decoded = decoded_notification v body in
          elim (List-cases decoded.0) [
            | inr (c, cs, reported) ↦ ground arith
            | inl clean ↦ elim (Result-cases (handle_notification env decoded.1 retry [] db)) [
              | inl (e, failed) ↦ ground arith
              | inr ((h1, db1), ran) ↦
                  let trace =
                    unhandled_leaves_no_trace env decoded.1 retry [] db db1 h1 ran (ground arith) in
                  ground (arith, trace.1)
            ]
          ]
    ]
  ]

  -- An item that was replayed with success may come again: it counts as handled, and changes
  -- nothing.
  pub replay_one_again :
      (item : Option Text) (db : Db)
      → (replay_one env v retry item db).0 ≡ true
      → replay_one env v retry item (replay_one env v retry item db).1
        ≡ (true, (replay_one env v retry item db).1)
  unfolding replay_one
  replay_one_again none db h = ground arith
  replay_one_again (some payload) db h = elim (Bool-cases (payload == 0)) [
    | inl empty ↦ ground arith
    | inr set ↦ elim (Option-cases (v.verify_and_decode_notification payload)) [
      | inl unverified ↦ ground arith
      | inr (body, verified) ↦
          let decoded = decoded_notification v body in
          elim (List-cases decoded.0) [
            | inr (c, cs, reported) ↦ ground arith
            | inl clean ↦ elim (Result-cases (handle_notification env decoded.1 retry [] db)) [
              | inl (e, failed) ↦ ground arith
              | inr ((h1, db1), ran) ↦
                  let again =
                    handled_once env decoded.1 retry [] db db1 h1 decoded.1 retry ran (ground arith)
                      refl in
                  ground (arith, again)
            ]
          ]
    ]
  ]
