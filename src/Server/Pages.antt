-- ===== src/Server/Pages.antt =====
-- The cursor that the route get_payment_details hands out, when it comes back.
use session_pro_backend.Base.Hex.{hex_of}
use session_pro_backend.Server.{respond, success}
use session_pro_backend.Server.Decoding.{respond-success}
use session_pro_backend.Redeem.{key_bytes, reconcile_pending_payments}
use session_pro_backend.Json.Integers.{ℤ}
use session_pro_backend.Base.Errors.{ok, Result-cases}
use session_pro_backend.Listing.{
  PaymentDetails, get_payment_details, last_id, max_payment_details_page, next_cursor,
}
use session_pro_backend.Server.Details.{
  DetailsAnswer, opened_cursor, page_answer, positive_limit, sealed_cursor, details_message,
  post_get_payment_details,
}
use session_pro_backend.Listing.Cursor.{
  Aead, AreBytes, capacity, encrypt_payment_cursor, nonce_size, decrypt_payment_cursor,
  sealed_cursor_opens,
}
use session_pro_backend.Prelude.{
  All, List, Option, [], arith, inl, inr, length, min, some, ℕ, ◌<◌, ◌∷◌, ◌≡◌, Bool-cases,
  Option-cases, ap, refl, sym, ◌==◌, ◌∙◌, ◌≢◌,
}
use session_pro_backend.Message.{Bytes}
use session_pro_backend.Base.Units.{DateTime}
use session_pro_backend.Db.Monad.{Db, Env}
use session_pro_backend.Db.Tables.{Payment, VerifyKey}
use session_pro_backend.Json.{JsonValue}
use session_pro_backend.Server.Fields.{ReadFields, read_details_request}
use session_pro_backend.Issue.{SignatureScheme}
use session_pro_backend.Status.{check_read_replay_window}

-- The page of an answer and its cursor belong together.
get_payment_details-next_cursor :
    (env : Env) (key : VerifyKey) (at : DateTime) (limit : ℕ) (before_id : Option ℕ) (db db' : Db)
    (details : PaymentDetails)
    → get_payment_details env key at limit before_id db ≡ ok (details, db')
    → details.next_cursor ≡ next_cursor (min limit max_payment_details_page) details.items
unfolding get_payment_details
get_payment_details-next_cursor env key at limit before_id db db' details h =
    elim (Bool-cases (limit == 0)) [
      | inl none_asked ↦ ground arith
      | inr positive ↦ elim (Result-cases (reconcile_pending_payments env key at db)) [
        | inl (e, failed) ↦ ground arith
        | inr ((n, db1), bound) ↦ ground arith
      ]
    ]

abbrev pub HaveIds : List Payment → Type 0
HaveIds ps = All (λ p. p.id < capacity 8) ps

last_id-lt : (n : ℕ) (ps : List Payment) → n < capacity 8 → HaveIds ps → last_id n ps < capacity 8
unfolding last_id
last_id-lt n [] small bound = small
last_id-lt n (p ∷ ps) small bound = last_id-lt p.id ps bound.0 bound.1

next_cursor-last_id :
    (limit id : ℕ) (ps : List Payment)
    → next_cursor limit ps ≡ some id
    → HaveIds ps
    → (id ≡ last_id 0 ps) × (id < capacity 8)
unfolding next_cursor last_id
next_cursor-last_id limit id [] h bound = cc
next_cursor-last_id limit id (p ∷ ps) h bound =
    let same : id ≡ last_id p.id ps = ground arith in
    (same, rw same (last_id-lt p.id ps bound.0 bound.1))

module _ (cipher : Aead) (cursor_key : Bytes) (master_pkey : VerifyKey) where
  opened_cursor-some :
      (cursor : Bytes) (id : ℕ)
      → decrypt_payment_cursor cipher cursor_key master_pkey cursor ≡ some id
      → cursor ≢ []
      → opened_cursor cipher cursor_key master_pkey cursor ≡ ok (some id)
  unfolding opened_cursor
  opened_cursor-some [] id opens filled = absurd (filled refl)
  opened_cursor-some (c ∷ cs) id opens filled = ground arith

  encrypt_payment_cursor-filled :
      (nonce : Bytes) (id : ℕ)
      → length nonce ≡ nonce_size
      → encrypt_payment_cursor cipher cursor_key master_pkey nonce id ≢ []
  unfolding encrypt_payment_cursor hex_of
  encrypt_payment_cursor-filled [] id long = absurd (omega (arith, long))
  encrypt_payment_cursor-filled (b ∷ bs) id long = λ empty. cc

  opened_cursor-sealed :
      (nonce : Bytes) (id : ℕ)
      → length nonce ≡ nonce_size
      → AreBytes nonce
      → id < capacity 8
      → opened_cursor cipher cursor_key master_pkey
          (encrypt_payment_cursor cipher cursor_key master_pkey nonce id)
        ≡ ok (some id)
  opened_cursor-sealed nonce id long bytes fits =
      opened_cursor-some (encrypt_payment_cursor cipher cursor_key master_pkey nonce id) id
        (sealed_cursor_opens cipher cursor_key master_pkey nonce id long bytes fits)
        (encrypt_payment_cursor-filled nonce id long)

  page_answer-steps :
      (env : Env) (nonce : Bytes) (at : DateTime) (limit : ℤ) (before : Bytes) (db db' : Db)
      (answer : DetailsAnswer)
      → page_answer cipher cursor_key master_pkey env nonce at limit before db ≡ ok (answer, db')
      → (n : ℕ) × (answer.next_cursor
          ≡ sealed_cursor cipher cursor_key master_pkey nonce (next_cursor n answer.items))
  unfolding page_answer
  page_answer-steps env nonce at limit before db db' answer h =
      elim (Result-cases (positive_limit limit)) [
        | inl (e, failed) ↦ ground arith
        | inr (n, positive) ↦
            elim (Result-cases (opened_cursor cipher cursor_key master_pkey before)) [
              | inl (e, failed) ↦ ground arith
              | inr (before_id, opened) ↦
                  elim (Result-cases (get_payment_details env master_pkey at n before_id db)) [
                    | inl (e, failed) ↦ ground arith
                    | inr ((details, db1), paged) ↦
                        let cursor =
                          get_payment_details-next_cursor env master_pkey at n before_id db db1
                            details paged in
                        (min n max_payment_details_page, ground (arith, cursor))
                  ]
            ]
      ]

  sealed_cursor-steps :
      (nonce : Bytes) (n : ℕ) (ps : List Payment) (cursor : Bytes)
      → sealed_cursor cipher cursor_key master_pkey nonce (next_cursor n ps) ≡ some cursor
      → (id : ℕ) × (next_cursor n ps ≡ some id)
        × (encrypt_payment_cursor cipher cursor_key master_pkey nonce id ≡ cursor)
  unfolding sealed_cursor
  sealed_cursor-steps nonce n ps cursor h = elim (Option-cases (next_cursor n ps)) [
    | inl last ↦ ground arith
    | inr (id, more) ↦ (id, more, ground arith)
  ]

module _ (json_loads : Bytes → Option JsonValue) (verify_key_of : Bytes → Option VerifyKey)
    (utf8 : Bytes → Bytes) (env : Env) (scheme : SignatureScheme) (cipher : Aead)
    (cursor_key : Bytes) where
  open scheme use {verify}

  module _ (now : DateTime) (nonce body : Bytes) (db db' : Db) (answer : DetailsAnswer) where
    route_steps :
        post_get_payment_details json_loads verify_key_of utf8 env scheme cipher cursor_key now
            nonce body db
          ≡ ok (answer, db')
        → (b : ReadFields) × (at : DateTime) × (limit : ℤ) × (before : Bytes)
          × (master_pkey : VerifyKey) × (db1 : Db) × (read_details_request json_loads body
              ≡ ok (b, at, limit, before))
          × (verify_key_of b.master_pkey ≡ some master_pkey)
          × (page_answer cipher cursor_key master_pkey env nonce at limit before db1
              ≡ ok (answer, db'))
    unfolding post_get_payment_details
    route_steps h = elim (Result-cases (read_details_request json_loads body)) [
      | inl (e, failed) ↦ cc
      | inr ((b, at, limit, before), read) ↦
          elim (Result-cases (check_read_replay_window now at db)) [
            | inl (e, stale) ↦ cc
            | inr ((_, db1), fresh) ↦ elim (Option-cases (verify_key_of b.master_pkey)) [
              | inl short ↦ cc
              | inr (mk, master) ↦
                  elim (Option-cases (details_message utf8 (key_bytes mk) at limit before)) [
                    | inl unsigned ↦ cc
                    | inr (message, built) ↦ elim (Bool-cases (verify mk message b.master_sig)) [
                      | inl by_master ↦ (b, at, limit, before, mk, db1, read, master, ground arith)
                      | inr forged ↦ ground arith
                    ]
                  ]
            ]
          ]
    ]

    -- A cursor that is handed out leads on. Where the route answers a page with a cursor, this
    -- opens, for the key that the request named, to the id of the last payment of the page. The
    -- nonce has 24 bytes, and the ids of the page are below 2 ^ 64.
    pub handed_cursor_opens :
        (cursor : Bytes)
        → respond
            (post_get_payment_details json_loads verify_key_of utf8 env scheme cipher cursor_key now
              nonce body)
            db
          ≡ (success answer, db')
        → answer.next_cursor ≡ some cursor
        → length nonce ≡ nonce_size
        → AreBytes nonce
        → HaveIds answer.items
        → (b : ReadFields) × (at : DateTime) × (limit : ℤ) × (before : Bytes)
          × (master_pkey : VerifyKey) × (read_details_request json_loads body
              ≡ ok (b, at, limit, before))
          × (verify_key_of b.master_pkey ≡ some master_pkey)
          × (opened_cursor cipher cursor_key master_pkey cursor
              ≡ ok (some (last_id 0 answer.items)))
    handed_cursor_opens cursor h more long bytes ids =
        let (b, at, limit, before, mk, db1, read, master, paged) = route_steps (
          respond-success
            (post_get_payment_details json_loads verify_key_of utf8 env scheme cipher cursor_key now
              nonce body)
            db db' answer h) in
        let (n, shown) =
          page_answer-steps cipher cursor_key mk env nonce at limit before db1 db' answer paged in
        let (id, ends, text) =
          sealed_cursor-steps cipher cursor_key mk nonce n answer.items cursor (sym shown ∙ more) in
        let (last, fits) = next_cursor-last_id n id answer.items ends ids in
        (
          b,
          at,
          limit,
          before,
          mk,
          read,
          master,
          ap (opened_cursor cipher cursor_key mk) (sym text)
              ∙ opened_cursor-sealed cipher cursor_key mk nonce id long bytes fits
              ∙ ap (λ (i : ℕ). ok (some i)) last,
        )
