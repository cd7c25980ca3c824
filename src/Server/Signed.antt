-- ===== src/Server/Signed.antt =====
-- What a request has shown that is answered with a status.
use mathlib.Core.Path.{subst}
use session_pro_backend.Json.{integral, object, string, JsonObject, JsonValue}
use session_pro_backend.Server.{key_bytes, pos, post_get_pro_status, respond, success}
use session_pro_backend.Base.Errors.{ok, Result-cases}
use session_pro_backend.Server.Fields.{
  ReadFields, get_json_from_flask_request, instant_of_ts, read_bytes, read_fields,
  read_status_request,
}
use session_pro_backend.Status.{ProStatus, check_read_replay_window, get_pro_status}
use session_pro_backend.Prelude.{
  Bool-cases, Option, Option-cases, ap, arith, inl, inr, some, sym, true, ℕ, ◌∙◌, ◌≡◌,
}
use session_pro_backend.Message.{Bytes, make_get_pro_status_message}
use session_pro_backend.Base.Units.{DateTime, datetime_from_unix_seconds}
use session_pro_backend.Db.Monad.{Db, Env}
use session_pro_backend.Server.Decoding.{
  Holds, IsInWindow, Spells, get_json-object, hex_to_bytes-Spells, instant_of_ts-ok,
  respond-success,
}
use session_pro_backend.Issue.{SignatureScheme}
use session_pro_backend.Db.Tables.{VerifyKey}
use session_pro_backend.Base.Hex.{hex_to_bytes}

abbrev pub IsReadRequest : JsonObject → ReadFields → Type 0
IsReadRequest d r =
    Holds d "master_pkey" (string r.master_pkey)
    × Holds d "master_sig" (string r.master_sig)
    × Holds d "ts" (integral r.ts)

read_fields-IsReadRequest :
    (d : JsonObject) (r : ReadFields) → read_fields d ≡ ok r → IsReadRequest d r
unfolding read_fields
read_fields-IsReadRequest d r h = ground arith

abbrev pub IsRead : ReadFields → ReadFields → Type 0
IsRead r b = Spells r.master_pkey 64 b.master_pkey × Spells r.master_sig 128 b.master_sig

read_bytes-IsRead : (r b : ReadFields) → read_bytes r ≡ ok b → IsRead r b
unfolding read_bytes
read_bytes-IsRead r b h = elim (Result-cases (hex_to_bytes r.master_pkey 64)) [
  | inl (e, failed) ↦ ground arith
  | inr (m, master) ↦ elim (Result-cases (hex_to_bytes r.master_sig 128)) [
    | inl (e, failed) ↦ ground arith
    | inr (s, by_master) ↦
        let same : record r { master_pkey = m; master_sig = s } ≡ b = ground arith in
        subst (λ (b : ReadFields). IsRead r b) same
          (
            hex_to_bytes-Spells r.master_pkey m 64 master,
            hex_to_bytes-Spells r.master_sig s 128 by_master,
          )
  ]
]

module _ (json_loads : Bytes → Option JsonValue) (verify_key_of : Bytes → Option VerifyKey)
    (env : Env) (scheme : SignatureScheme) where
  open scheme use {verify}

  module _ (now : DateTime) (body : Bytes) (db db' : Db) (s : ProStatus) where
    -- What a request that is answered with a status has shown.
    abbrev pub IsSigned : Type 0
    IsSigned =
        (d : JsonObject) × (r b : ReadFields) × (n : ℕ) × (master_pkey : VerifyKey)
        × (message : Bytes) × (json_loads body ≡ some (object d))
        × IsReadRequest d r
        × (r.ts ≡ pos n)
        × IsRead r b
        × IsInWindow now (datetime_from_unix_seconds n)
        × (verify_key_of b.master_pkey ≡ some master_pkey)
        × (make_get_pro_status_message (key_bytes master_pkey) (datetime_from_unix_seconds n)
            ≡ some message)
        × (verify master_pkey message b.master_sig ≡ true)
        × (get_pro_status env master_pkey (datetime_from_unix_seconds n) db ≡ ok (s, db'))

    request_steps :
        (b : ReadFields) (at : DateTime)
        → read_status_request json_loads body ≡ ok (b, at)
        → (d : JsonObject) × (r : ReadFields) × (get_json_from_flask_request json_loads body ≡ ok d)
          × (read_fields d ≡ ok r)
          × (read_bytes r ≡ ok b)
          × (instant_of_ts r.ts ≡ ok at)
    unfolding read_status_request
    request_steps b at h = elim (Result-cases (get_json_from_flask_request json_loads body)) [
      | inl (e, failed) ↦ ground arith
      | inr (d, parsed) ↦ elim (Result-cases (read_fields d)) [
        | inl (e, failed) ↦ ground arith
        | inr (r, typed) ↦ elim (Result-cases (read_bytes r)) [
          | inl (e, failed) ↦ ground arith
          | inr (b', spelled) ↦ elim (Result-cases (instant_of_ts r.ts)) [
            | inl (e, failed) ↦ ground arith
            | inr (at', dated) ↦ (d, r, parsed, typed, ground arith, ground arith)
          ]
        ]
      ]
    ]

    pub window_steps :
        (at : DateTime) (db1 : Db)
        → check_read_replay_window now at db ≡ ok (tt, db1)
        → (db1 ≡ db) × IsInWindow now at
    unfolding check_read_replay_window
    window_steps at db1 h = ground arith

    pub route_steps :
        post_get_pro_status json_loads verify_key_of env scheme now body db ≡ ok (s, db')
        → (b : ReadFields) × (at : DateTime) × (master_pkey : VerifyKey) × (message : Bytes)
          × (db1 : Db) × (read_status_request json_loads body ≡ ok (b, at))
          × (check_read_replay_window now at db ≡ ok (tt, db1))
          × (verify_key_of b.master_pkey ≡ some master_pkey)
          × (make_get_pro_status_message (key_bytes master_pkey) at ≡ some message)
          × (verify master_pkey message b.master_sig ≡ true)
          × (get_pro_status env master_pkey at db1 ≡ ok (s, db'))
    unfolding post_get_pro_status
    route_steps h = elim (Result-cases (read_status_request json_loads body)) [
      | inl (e, failed) ↦ cc
      | inr ((b, at), read) ↦ elim (Result-cases (check_read_replay_window now at db)) [
        | inl (e, stale) ↦ cc
        | inr ((_, db1), fresh) ↦ elim (Option-cases (verify_key_of b.master_pkey)) [
          | inl short ↦ cc
          | inr (mk, master) ↦ elim (Option-cases (make_get_pro_status_message (key_bytes mk) at)) [
            | inl unsigned ↦ cc
            | inr (message, built) ↦ elim (Bool-cases (verify mk message b.master_sig)) [
              | inl by_master ↦
                  (b, at, mk, message, db1, read, fresh, master, built, by_master, ground arith)
              | inr forged ↦ ground arith
            ]
          ]
        ]
      ]
    ]

    -- A status is told only to the key that it is of. Where the body of a request is answered with
    -- a status, it parses to an object that holds the three fields with their types; the timestamp
    -- is at most 70 seconds from the time of the server, either way; the two texts have their exact
    -- lengths and read as bytes, of which the first makes a key; that key signed the message for
    -- itself and the timestamp; and the status is that of the key at that instant.
    pub answered_status_is_signed :
        respond (post_get_pro_status json_loads verify_key_of env scheme now body) db
          ≡ (success s, db')
        → IsSigned
    answered_status_is_signed h =
        let (b, at, mk, message, db1, read, fresh, master, built, by_master, answered) =
          route_steps (
            respond-success (post_get_pro_status json_loads verify_key_of env scheme now body) db
              db' s h) in
        let (d, r, parsed, typed, spelled, dated) = request_steps b at read in
        let (n, ts, same) = instant_of_ts-ok r.ts at dated in
        let (kept, near) = window_steps at db1 fresh in
        (
          d,
          r,
          b,
          n,
          mk,
          message,
          get_json-object json_loads body d parsed,
          read_fields-IsReadRequest d r typed,
          ts,
          read_bytes-IsRead r b spelled,
          subst (IsInWindow now) same near,
          master,
          ap (make_get_pro_status_message (key_bytes mk)) (sym same) ∙ built,
          by_master,
          ap (λ (t : DateTime). get_pro_status env mk t db) (sym same)
              ∙ ap (get_pro_status env mk at) (sym kept)
              ∙ answered,
        )
