-- ===== src/Server/Blanks.antt =====
-- A key whose text has blanks: `bytes.fromhex` skips them, so that the key comes out short.
use session_pro_backend.Server.Fields.{
  decoded, ProofFields, get_json_from_flask_request, instant_of_ts, is_outside_window, proof_fields,
  read_proof_request,
}
use session_pro_backend.Server.{uncaught, ok, respond, post_generate_pro_proof}
use session_pro_backend.Base.Hex.{fromhex, hex_digit, is_hex_blank}
use session_pro_backend.Prelude.{
  Bool-cases, Option, Option-cases, [], arith, false, if◌then◌else◌, inl, inr, length, none, some,
  suc, ℕ, ◌*◌, ◌+◌, ◌∷◌, ◌≡◌, ◌<◌, ◌≢◌,
}
use session_pro_backend.Message.{Bytes}
use session_pro_backend.Base.Units.{DateTime}
use session_pro_backend.Db.Monad.{Db, Env}
use session_pro_backend.Json.{JsonObject, JsonValue}
use session_pro_backend.Issue.{SignatureScheme}
use session_pro_backend.Db.Tables.{VerifyKey}
use session_pro_backend.Server.Decoding.{decoded-IsSpelled}

abbrev pub count_blanks : Bytes → ℕ
count_blanks [] = 0
count_blanks (c ∷ cs) = if is_hex_blank c then suc (count_blanks cs) else count_blanks cs

-- The characters that are still to come before the byte is whole.
abbrev half_read : Option ℕ → ℕ
half_read none = 0
half_read (some top) = 1

hex_digit-not_blank : (c x : ℕ) → hex_digit c ≡ some x → is_hex_blank c ≡ false
hex_digit-not_blank c x digit = ground arith

-- Two characters make a byte, and a blank none.
fromhex-length :
    (top : Option ℕ) (hex bytes : Bytes)
    → fromhex top hex ≡ some bytes
    → 2 * length bytes + count_blanks hex ≡ length hex + half_read top
unfolding fromhex
fromhex-length none [] bytes h = ground arith
fromhex-length (some top) [] bytes h = ground arith
fromhex-length none (c ∷ cs) bytes h = elim (Bool-cases (is_hex_blank c)) [
  | inl blank ↦ ground (arith, fromhex-length none cs bytes)
  | inr solid ↦ elim (Option-cases (hex_digit c)) [
    | inl other ↦ ground arith
    | inr (x, digit) ↦ ground (arith, fromhex-length (some x) cs bytes)
  ]
]
fromhex-length (some top) (c ∷ cs) bytes h = elim (Option-cases (hex_digit c)) [
  | inl other ↦ ground arith
  | inr (x, digit) ↦ elim (Option-cases (fromhex none cs)) [
    | inl bad ↦ ground arith
    | inr (rest, read) ↦
        let solid = hex_digit-not_blank c x digit in
        ground (arith, fromhex-length none cs rest read, solid)
  ]
]

module _ (json_loads : Bytes → Option JsonValue) (verify_key_of : Bytes → Option VerifyKey)
    (env : Env) (scheme : SignatureScheme) where
  open scheme use {SigningKey}

  short_key_is_uncaught :
      (key : SigningKey) (now : DateTime) (body : Bytes) (b : ProofFields) (at : DateTime) (db : Db)
      → read_proof_request json_loads body ≡ ok (b, at)
      → is_outside_window now at ≡ false
      → verify_key_of b.master_pkey ≡ none
      → respond (post_generate_pro_proof json_loads verify_key_of env scheme key now body) db
        ≡ (uncaught, db)
  unfolding respond post_generate_pro_proof
  short_key_is_uncaught key now body b at db read fresh short = cc

  request_reads :
      (body : Bytes) (d : JsonObject) (r b : ProofFields) (at : DateTime)
      → get_json_from_flask_request json_loads body ≡ ok d
      → proof_fields d ≡ ok r
      → decoded r ≡ ok b
      → instant_of_ts r.ts ≡ ok at
      → read_proof_request json_loads body ≡ ok (b, at)
  unfolding read_proof_request
  request_reads body d r b at parsed typed spelled dated = ground arith

  -- A blank in the text of the master key is not refused as such. Where a proof's request has all
  -- its fields with their types, the four texts pass `hex_to_bytes` and the timestamp is in the
  -- window, but the text of the master key has a blank, the route raises what no handler turns into
  -- an envelope, and the tables stay as they are. The constructor of a key raises for any other
  -- number of bytes than 32.
  pub blank_key_is_uncaught :
      (key : SigningKey) (now : DateTime) (body : Bytes) (d : JsonObject) (r b : ProofFields)
      (at : DateTime) (db : Db)
      → ((bytes : Bytes) → length bytes ≢ 32 → verify_key_of bytes ≡ none)
      → get_json_from_flask_request json_loads body ≡ ok d
      → proof_fields d ≡ ok r
      → decoded r ≡ ok b
      → instant_of_ts r.ts ≡ ok at
      → is_outside_window now at ≡ false
      → 0 < count_blanks r.master_pkey
      → respond (post_generate_pro_proof json_loads verify_key_of env scheme key now body) db
        ≡ (uncaught, db)
  blank_key_is_uncaught key now body d r b at db exact parsed typed spelled dated fresh blank =
      let (long, read) = (decoded-IsSpelled r b spelled).0.0 in
      let counted = fromhex-length none r.master_pkey b.master_pkey read in
      short_key_is_uncaught key now body b at db
        (request_reads body d r b at parsed typed spelled dated) fresh
        (exact b.master_pkey (omega (arith, long, counted, blank)))
