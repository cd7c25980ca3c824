-- ===== src/Server/Decoding.antt =====
-- What the body of a request holds that a route reads.
use session_pro_backend.Json.{
  null, boolean, floating, array, object, JsonObject, JsonValue, get_field, json_dict_require_str,
  json_dict_require_int, integral, string, raising, json_get,
}
use session_pro_backend.Server.{success, respond, failure}
use session_pro_backend.Base.Units.{
  DateTime, datetime_from_unix_seconds, default_timestamp_tolerance,
}
use mathlib.Core.Path.{subst}
use session_pro_backend.Base.Errors.{
  ErrorCode, ok, err, fail, server_error, assertion_error, runtime_error, constraint_violation,
  Error, Result-cases,
}
use session_pro_backend.Base.Hex.{fromhex, hex_to_bytes}
use session_pro_backend.Message.{ascii, Bytes}
use session_pro_backend.Server.Fields.{
  require_int, require_str, proof_fields, decoded, ProofFields, get_json_from_flask_request,
  instant_of_ts, is_outside_window,
}
use session_pro_backend.Json.Integers.{ℤ, negsuc, pos}
use session_pro_backend.Prelude.{
  String, arith, length, none, some, ℕ, ◌≡◌, Option-cases, inl, inr, refl, Option, false, ◌+◌, ◌≤◌,
}
use session_pro_backend.Db.Monad.{Db, Tx}

pub require_str-ok :
    (d : JsonObject) (key s : Bytes) → require_str d key ≡ ok s → get_field key d ≡ some (string s)
unfolding require_str json_dict_require_str json_get raising
require_str-ok d key s h = grind (arith, Option-cases)

pub require_int-ok :
    (d : JsonObject) (key : Bytes) (n : ℤ)
    → require_int d key ≡ ok n
    → get_field key d ≡ some (integral n)
unfolding require_int json_dict_require_int json_get raising
require_int-ok d key n h = grind (arith, Option-cases)

-- A text of so many characters that reads as bytes.
abbrev pub Spells : Bytes → ℕ → Bytes → Type 0
Spells hex hex_len bytes = (length hex ≡ hex_len) × (fromhex none hex ≡ some bytes)

pub hex_to_bytes-Spells :
    (hex bytes : Bytes) (hex_len : ℕ)
    → hex_to_bytes hex hex_len ≡ ok bytes
    → Spells hex hex_len bytes
unfolding hex_to_bytes
hex_to_bytes-Spells hex bytes hex_len h = ground arith

-- The body of a request is an object with a text, or an integer, under the key.
abbrev pub Holds : JsonObject → String → JsonValue → Type 0
Holds d name v = get_field (ascii name) d ≡ some v

abbrev pub IsProofRequest : JsonObject → ProofFields → Type 0
IsProofRequest d r =
    Holds d "master_pkey" (string r.master_pkey)
    × Holds d "rotating_pkey" (string r.rotating_pkey)
    × Holds d "ts" (integral r.ts)
    × Holds d "master_sig" (string r.master_sig)
    × Holds d "rotating_sig" (string r.rotating_sig)

pub proof_fields-IsProofRequest :
    (d : JsonObject) (r : ProofFields) → proof_fields d ≡ ok r → IsProofRequest d r
unfolding proof_fields
proof_fields-IsProofRequest d r h = ground arith

abbrev pub IsSpelled : ProofFields → ProofFields → Type 0
IsSpelled r b =
    Spells r.master_pkey 64 b.master_pkey
    × Spells r.rotating_pkey 64 b.rotating_pkey
    × Spells r.master_sig 128 b.master_sig
    × Spells r.rotating_sig 128 b.rotating_sig

pub decoded-IsSpelled : (r b : ProofFields) → decoded r ≡ ok b → IsSpelled r b × (b.ts ≡ r.ts)
unfolding decoded
decoded-IsSpelled r b h = elim (Result-cases (hex_to_bytes r.master_pkey 64)) [
  | inl (e, failed) ↦ ground arith
  | inr (m, master) ↦ elim (Result-cases (hex_to_bytes r.rotating_pkey 64)) [
    | inl (e, failed) ↦ ground arith
    | inr (k, rotating) ↦ elim (Result-cases (hex_to_bytes r.master_sig 128)) [
      | inl (e, failed) ↦ ground arith
      | inr (s, by_master) ↦ elim (Result-cases (hex_to_bytes r.rotating_sig 128)) [
        | inl (e, failed) ↦ ground arith
        | inr (t, by_rotating) ↦
            let same : record r {
              master_pkey = m;
              rotating_pkey = k;
              master_sig = s;
              rotating_sig = t;
            }
                ≡ b =
              ground arith in
            subst (λ (b : ProofFields). IsSpelled r b × (b.ts ≡ r.ts)) same
              (
                (
                  hex_to_bytes-Spells r.master_pkey m 64 master,
                  hex_to_bytes-Spells r.rotating_pkey k 64 rotating,
                  hex_to_bytes-Spells r.master_sig s 128 by_master,
                  hex_to_bytes-Spells r.rotating_sig t 128 by_rotating,
                ),
                refl,
              )
      ]
    ]
  ]
]

pub respond-success :
    {A : Type 0} (m : Tx A) (db db' : Db) (a : A)
    → respond m db ≡ (success a, db')
    → m db ≡ ok (a, db')
unfolding respond
respond-success m db db' a h = elim (Result-cases (m db)) [
  | inl (e, failed) ↦ by_error e failed
  | inr ((b, db1), passed) ↦ ground arith
]
  where
    by_error : (e : Error) → m db ≡ err e → m db ≡ ok (a, db')
    by_error (fail c) failed = ground (arith, h)
    by_error server_error failed = ground (arith, h)
    by_error assertion_error failed = ground (arith, h)
    by_error runtime_error failed = ground (arith, h)
    by_error constraint_violation failed = ground (arith, h)

pub instant_of_ts-ok :
    (ts : ℤ) (at : DateTime)
    → instant_of_ts ts ≡ ok at
    → (s : ℕ) × (ts ≡ pos s) × (at ≡ datetime_from_unix_seconds s)
unfolding instant_of_ts
instant_of_ts-ok (pos s) at h = (s, refl, ground arith)
instant_of_ts-ok (negsuc s) at h = ground arith

-- The server's time and a request's are at most the tolerance apart.
abbrev pub IsInWindow : DateTime → DateTime → Type 0
IsInWindow now at =
    (now ≤ at + default_timestamp_tolerance) × (at ≤ now + default_timestamp_tolerance)

pub is_outside_window-IsInWindow :
    (now at : DateTime) → is_outside_window now at ≡ false → IsInWindow now at
unfolding is_outside_window
is_outside_window-IsInWindow now at fresh = ground arith

pub get_json-object :
    (json_loads : Bytes → Option JsonValue) (body : Bytes) (d : JsonObject)
    → get_json_from_flask_request json_loads body ≡ ok d
    → json_loads body ≡ some (object d)
unfolding get_json_from_flask_request
get_json-object json_loads body d h = elim (Option-cases (json_loads body)) [
  | inl bad ↦ ground arith
  | inr (v, parsed) ↦ by_value v parsed
]
  where
    by_value : (v : JsonValue) → json_loads body ≡ some v → json_loads body ≡ some (object d)
    by_value (object o) e = ground (arith, h)
    by_value null e = ground (arith, h)
    by_value (boolean b) e = ground (arith, h)
    by_value (integral n) e = ground (arith, h)
    by_value (floating n) e = ground (arith, h)
    by_value (string s) e = ground (arith, h)
    by_value (array a) e = ground (arith, h)

pub respond-failure :
    {A : Type 0} (m : Tx A) (db db' : Db) (code : ErrorCode)
    → respond m db ≡ (failure code, db')
    → m db ≡ err (fail code)
unfolding respond
respond-failure m db db' code h = elim (Result-cases (m db)) [
  | inl (e, failed) ↦ by_error e failed
  | inr ((a, db1), passed) ↦ ground arith
]
  where
    by_error : (e : Error) → m db ≡ err e → m db ≡ err (fail code)
    by_error (fail c) failed = ground (arith, h)
    by_error server_error failed = ground (arith, h)
    by_error assertion_error failed = ground (arith, h)
    by_error runtime_error failed = ground (arith, h)
    by_error constraint_violation failed = ground (arith, h)
