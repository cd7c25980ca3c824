-- ===== src/Examples/Requests.antt =====
-- Requests to the routes on the small database. A body is one number, which names what it parses
-- to.
use session_pro_backend.Server.Details.{
  sealed_cursor, DetailsAnswer, opened_cursor, post_get_payment_details,
}
use session_pro_backend.Listing.{last_id}
use session_pro_backend.Json.Integers.{ℤ, pos}
use session_pro_backend.Base.Units.{DateTime, day, second}
use session_pro_backend.Server.Pages.{handed_cursor_opens}
use session_pro_backend.Server.Fields.{
  read_details_request, decoded, read_proof_request, ProofFields, ReadFields, read_status_request,
  get_json_from_flask_request, instant_of_ts, is_outside_window, proof_fields,
}
use session_pro_backend.Examples.Accounts.{
  unclaimed, after_reconcile, after_proof, account, after_request, backend, earned_proof,
  generation, naming_scheme, tables,
}
use session_pro_backend.Redeem.{big_endian, key_bytes, number_of}
use session_pro_backend.Server.{
  uncaught, failure, success, ProRevocations, get_pro_revocations, post_generate_pro_proof,
  post_get_pro_status, respond,
}
use session_pro_backend.Server.Blanks.{blank_key_is_uncaught, count_blanks}
use session_pro_backend.Listing.Cursor.{Aead, encrypt_payment_cursor}
use session_pro_backend.Message.Decimal.{decimal}
use mathlib.Core.List.{Memᴰ}
use session_pro_backend.Base.Errors.{rate_limited, ok}
use session_pro_backend.Issue.{generate_pro_proof, sign_counted_proof}
use session_pro_backend.Server.Decoding.{Holds}
use session_pro_backend.Server.Earned.{IsServed, served_proof_is_earned}
use session_pro_backend.Server.Signed.{IsSigned, answered_status_is_signed}
use session_pro_backend.Server.Standing.{IsOwnFault, active_is_not_turned_away}
use session_pro_backend.Server.Revocations.{item_of, revocation_reaches_clients}
use session_pro_backend.Revoke.{revoke_current}
use session_pro_backend.Db.Users.{get_user}
use session_pro_backend.Examples.Standing.{status_told, after_status, told_active}
use session_pro_backend.Base.Hex.{hex_of}
use session_pro_backend.Message.{ascii, Bytes}
use session_pro_backend.Json.{
  JsonObject, JsonValue, field, integral, no_fields, object, string, get_field,
}
use session_pro_backend.Prelude.{
  Option, [], if◌then◌else◌, length, none, refl, some, suc, zero, ℕ, ◌*◌, ◌++◌, ◌==◌, ◌∷◌, ◌≡◌,
  arith, ◌+◌, ◌<◌, ◌≢◌,
}
use session_pro_backend.Db.Tables.{VerifyKey}
use session_pro_backend.Entitlement.{add_credits, lookup_user_expiry, scan_payment, scan_payments}
use session_pro_backend.Db.Account.{allocate_generation}
use session_pro_backend.Proof.{build_proof_clamped_expiry_time}
use session_pro_backend.Status.{get_pro_status}
use session_pro_backend.Base.Grid.{grid_origin, offset_range, round_datetime_up_onto_offset_grid}
use session_pro_backend.Db.Generations.{is_generation_revoked}
use session_pro_backend.Coverage.{subscription_coverage_end}

unfoldable blanks : ℕ → Bytes
blanks zero = []
blanks (suc n) = 32 ∷ blanks n

-- A signature of the naming scheme, blank up to the length that is asked for.
abbrev signature_hex : Bytes → Bytes
signature_hex bytes = hex_of bytes ++ blanks 124

abbrev key_hex : VerifyKey → Bytes
key_hex k = hex_of (key_bytes k)

abbrev proof_body : JsonObject
proof_body = field (ascii "master_pkey") (string (key_hex 9)) (
    field (ascii "rotating_pkey") (string (key_hex 5)) (
      field (ascii "ts") (integral (pos 8640000)) (
        field (ascii "master_sig") (string (signature_hex (9 ∷ 87 ∷ [])))
          (field (ascii "rotating_sig") (string (signature_hex (5 ∷ 87 ∷ []))) no_fields))))

abbrev status_body : JsonObject
status_body = field (ascii "master_pkey") (string (key_hex 9)) (
    field (ascii "ts") (integral (pos 8640000))
      (field (ascii "master_sig") (string (signature_hex (9 ∷ 55 ∷ []))) no_fields))

-- The master key is a byte short, and two blanks fill its text up.
abbrev blank_body : JsonObject
blank_body = field (ascii "master_pkey") (string (hex_of (big_endian 31 9) ++ blanks 2)) proof_body

abbrev details_body : JsonObject
details_body =
    field (ascii "limit") (integral (pos 1))
      (field (ascii "master_sig") (string (signature_hex (9 ∷ 58 ∷ []))) status_body)

abbrev ticket_body : JsonObject
ticket_body = field (ascii "ticket") (integral (pos 0)) no_fields

abbrev json_loads : Bytes → Option JsonValue
json_loads [] = none
json_loads (c ∷ _) =
    if c == 1
    then some (object proof_body)
    else if c == 2
    then some (object status_body)
    else if c == 4
    then some (object blank_body)
    else if c == 5
    then some (object details_body)
    else some (object ticket_body)

abbrev verify_key_of : Bytes → Option VerifyKey
verify_key_of bytes = if length bytes == 32 then some (number_of 0 bytes) else none

abbrev proof_bytes : ProofFields
proof_bytes = record {
  master_pkey = key_bytes 9;
  rotating_pkey = key_bytes 5;
  ts = pos 8640000;
  master_sig = 9 ∷ 87 ∷ [];
  rotating_sig = 5 ∷ 87 ∷ [];
}

abbrev status_bytes : ReadFields
status_bytes = record { master_pkey = key_bytes 9; master_sig = 9 ∷ 55 ∷ []; ts = pos 8640000 }

proof_read : read_proof_request json_loads (1 ∷ []) ≡ ok (proof_bytes, 100 * day)
unfolding read_proof_request blanks hex_of key_bytes
proof_read = refl

proof_served :
    respond
      (post_generate_pro_proof json_loads verify_key_of backend naming_scheme 3
        (100 * day + second)
        (1 ∷ []))
      tables
    ≡ (success earned_proof, after_request)
unfolding respond post_generate_pro_proof blanks hex_of key_bytes generate_pro_proof get_user
    is_generation_revoked build_proof_clamped_expiry_time offset_range
    round_datetime_up_onto_offset_grid grid_origin subscription_coverage_end sign_counted_proof
    decimal lookup_user_expiry scan_payments scan_payment add_credits allocate_generation
proof_served = refl

served_proof_is_earned_example :
    IsServed json_loads verify_key_of backend naming_scheme 3
      (100 * day + second)
      (1 ∷ [])
      tables
      after_request
      earned_proof
served_proof_is_earned_example =
    served_proof_is_earned json_loads verify_key_of backend naming_scheme 3 (100 * day + second)
      (1 ∷ []) tables after_request earned_proof (omega arith) proof_served

status_read : read_status_request json_loads (2 ∷ []) ≡ ok (status_bytes, 100 * day)
unfolding read_status_request blanks hex_of key_bytes
status_read = refl

status_answered :
    respond
      (post_get_pro_status json_loads verify_key_of backend naming_scheme (100 * day) (2 ∷ []))
      after_proof
    ≡ (success status_told, after_status)
unfolding respond decimal post_get_pro_status blanks hex_of key_bytes get_pro_status
    lookup_user_expiry scan_payments scan_payment add_credits subscription_coverage_end
    allocate_generation
status_answered = refl

answered_status_is_signed_example :
    IsSigned json_loads verify_key_of backend naming_scheme
      (100 * day)
      (2 ∷ [])
      after_proof
      after_status
      status_told
answered_status_is_signed_example =
    answered_status_is_signed json_loads verify_key_of backend naming_scheme (100 * day) (2 ∷ [])
      after_proof after_status status_told status_answered

proof_refused :
    respond
      (post_generate_pro_proof json_loads verify_key_of backend naming_scheme 3
        (100 * day + second)
        (1 ∷ []))
      after_status
    ≡ (failure rate_limited, after_status)
unfolding respond post_generate_pro_proof get_pro_status blanks hex_of key_bytes generate_pro_proof
    get_user is_generation_revoked build_proof_clamped_expiry_time offset_range
    round_datetime_up_onto_offset_grid grid_origin subscription_coverage_end sign_counted_proof
    decimal lookup_user_expiry scan_payments scan_payment add_credits allocate_generation
proof_refused = refl

active_is_not_turned_away_example : IsOwnFault rate_limited
active_is_not_turned_away_example =
    active_is_not_turned_away naming_scheme backend json_loads verify_key_of 3 (100 * day)
      (100 * day + second) (2 ∷ []) (1 ∷ []) status_bytes proof_bytes (100 * day) after_proof
      after_status after_status status_told rate_limited (omega arith) status_read proof_read refl
      status_answered told_active proof_refused

ticket_held : Holds ticket_body "ticket" (integral (pos 0))
unfolding get_field
ticket_held = refl

revocation_reaches_clients_example :
    let db' = revoke_current 9 (99 * day) tables in
    (answer : ProRevocations) × (respond (get_pro_revocations json_loads (100 * day) (3 ∷ [])) db'
      ≡ (success answer, db'))
    × (0 < answer.ticket)
    × Memᴰ (item_of generation (99 * day)) answer.items
revocation_reaches_clients_example =
    revocation_reaches_clients json_loads (100 * day) (3 ∷ []) ticket_body 0 9 (99 * day) tables
      account generation refl ticket_held (omega arith) (unfold get_user in refl) refl (omega arith)
      (omega arith)

abbrev blank_fields : ProofFields
blank_fields = record {
  master_pkey = hex_of (big_endian 31 9) ++ blanks 2;
  rotating_pkey = key_hex 5;
  ts = pos 8640000;
  master_sig = signature_hex (9 ∷ 87 ∷ []);
  rotating_sig = signature_hex (5 ∷ 87 ∷ []);
}

blank_read : proof_fields blank_body ≡ ok blank_fields
unfolding proof_fields blanks hex_of key_bytes
blank_read = refl

blank_decoded : decoded blank_fields ≡ ok (record proof_bytes { master_pkey = big_endian 31 9 })
unfolding decoded blanks hex_of key_bytes
blank_decoded = refl

only_whole_keys : (bytes : Bytes) → length bytes ≢ 32 → verify_key_of bytes ≡ none
only_whole_keys bytes short = ground arith

blank_counted : 0 < count_blanks blank_fields.master_pkey
unfolding blanks hex_of big_endian
blank_counted = omega arith

blank_key_is_uncaught_example :
    respond
      (post_generate_pro_proof json_loads verify_key_of backend naming_scheme 3
        (100 * day)
        (4 ∷ []))
      tables
    ≡ (uncaught, tables)
blank_key_is_uncaught_example =
    blank_key_is_uncaught json_loads verify_key_of backend naming_scheme 3 (100 * day) (4 ∷ [])
      blank_body blank_fields (record proof_bytes { master_pkey = big_endian 31 9 }) (100 * day)
      tables only_whole_keys (unfold get_json_from_flask_request in refl) blank_read blank_decoded
      (unfold instant_of_ts in refl) (unfold is_outside_window in refl) blank_counted

-- The cipher that does nothing.
abbrev bare_cipher : Aead
bare_cipher = record {
  encrypt = λ message associated nonce key. message;
  decrypt = λ sealed associated nonce key. some sealed;
  decrypt-encrypt = λ message associated nonce key plain. refl;
  encrypt-bytes = λ message associated nonce key plain. plain;
}

abbrev first_page : DetailsAnswer
first_page = record {
  payments_total = 2;
  items = record unclaimed { user_id = some 1; redeemed_at = some (100 * day) } ∷ [];
  next_cursor = some (encrypt_payment_cursor bare_cipher [] 9 (big_endian 24 5) 2);
}

details_answered :
    respond
      (post_get_payment_details json_loads verify_key_of
        (λ t. t)
        backend
        naming_scheme
        bare_cipher
        []
        (100 * day)
        (big_endian 24 5)
        (5 ∷ []))
      tables
    ≡ (success first_page, after_reconcile)
unfolding respond post_get_payment_details decimal blanks hex_of key_bytes get_pro_status
    lookup_user_expiry scan_payments scan_payment add_credits subscription_coverage_end
    allocate_generation opened_cursor sealed_cursor
details_answered = refl

handed_cursor_opens_example :
    (b : ReadFields) × (at : DateTime) × (limit : ℤ) × (before : Bytes) × (master_pkey : VerifyKey)
    × (read_details_request json_loads (5 ∷ []) ≡ ok (b, at, limit, before))
    × (verify_key_of b.master_pkey ≡ some master_pkey)
    × (opened_cursor bare_cipher [] master_pkey
          (encrypt_payment_cursor bare_cipher [] 9 (big_endian 24 5) 2)
        ≡ ok (some (last_id 0 first_page.items)))
handed_cursor_opens_example =
    handed_cursor_opens json_loads verify_key_of (λ t. t) backend naming_scheme bare_cipher []
      (100 * day) (big_endian 24 5) (5 ∷ []) tables after_reconcile first_page
      (encrypt_payment_cursor bare_cipher [] 9 (big_endian 24 5) 2) details_answered refl
      (unfold big_endian in refl) (unfold big_endian in omega arith) (omega arith)
