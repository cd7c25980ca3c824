-- ===== src/Server/Fields.antt =====
-- server.py: what a route reads from the body of a request before it acts.
use session_pro_backend.Base.Errors.{
  stale_request, runtime_error, invalid_request, fail, err, ok, Result,
}
use session_pro_backend.Json.Integers.{ℤ, pos, negsuc}
use session_pro_backend.Json.{
  raising, JsonObject, JsonValue, as_object, json_dict_require_int, json_dict_require_str,
  as_string, get_field,
}
use session_pro_backend.Message.{ascii, Bytes}
use session_pro_backend.Base.Units.{
  DateTime, datetime_from_unix_seconds, default_timestamp_tolerance,
}
use session_pro_backend.Prelude.{Option, if◌then◌else◌, leb, none, some, ℕ, ◌+◌, Bool, ltb, ◌-◌, []}
use session_pro_backend.Db.Monad.{Tx}
use session_pro_backend.Base.Hex.{hex_to_bytes}

-- `get_json_from_flask_request`
unfoldable pub get_json_from_flask_request : (Bytes → Option JsonValue) → Bytes → Result JsonObject
get_json_from_flask_request json_loads body = elim (json_loads body) [
  | none ↦ err (fail invalid_request)
  | some v ↦ elim (as_object v) [ none ↦ err (fail invalid_request) | some d ↦ ok d ]
]

-- A step that does not touch the tables.
abbrev pub given : {A : Type 0} → Result A → Tx A
given (ok a) db = ok (a, db)
given (err e) db = err e

infixl 5 ◌>>=◌
abbrev pub ◌>>=◌ : {A B : Type 0} → Result A → (A → Result B) → Result B
◌>>=◌ m f = elim m [ ok a ↦ f a | err e ↦ err e ]

unfoldable pub require_str : JsonObject → Bytes → Result Bytes
unfolding json_dict_require_str raising
require_str d key = raising (json_dict_require_str d key)

unfoldable pub require_int : JsonObject → Bytes → Result ℤ
unfolding json_dict_require_int raising
require_int d key = raising (json_dict_require_int d key)

-- The seconds of the years 1 and 9999: beyond them the arithmetic on instants raises an
-- `OverflowError`.
abbrev pub min_unix_seconds : ℕ
min_unix_seconds = 62135596800

abbrev pub max_unix_seconds : ℕ
max_unix_seconds = 253402300799

-- `datetime_from_unix_seconds` of a request's timestamp. An instant before 1970 is refused here as
-- stale: the window is checked next, and the clock stands at more than 70 seconds after 1970.
unfoldable pub instant_of_ts : ℤ → Result DateTime
unfolding datetime_from_unix_seconds
instant_of_ts (pos s) =
    if leb s max_unix_seconds then ok (datetime_from_unix_seconds s) else err runtime_error
instant_of_ts (negsuc s) =
    if leb (s + 1) min_unix_seconds then err (fail stale_request) else err runtime_error

-- `abs(now - request_at) > DEFAULT_TIMESTAMP_TOLERANCE`
unfoldable pub is_outside_window : DateTime → DateTime → Bool
is_outside_window now request_at =
    ltb default_timestamp_tolerance ((now - request_at) + (request_at - now))

pub record ProofFields : Type 0 where
  pub master_pkey : Bytes
  pub rotating_pkey : Bytes
  pub ts : ℤ
  pub master_sig : Bytes
  pub rotating_sig : Bytes

-- The fields of a proof's request, in the order in which they are asked for.
unfoldable pub proof_fields : JsonObject → Result ProofFields
unfolding require_str require_int
proof_fields d = do
  master_pkey ← require_str d (ascii "master_pkey")
  rotating_pkey ← require_str d (ascii "rotating_pkey")
  ts ← require_int d (ascii "ts")
  master_sig ← require_str d (ascii "master_sig")
  rotating_sig ← require_str d (ascii "rotating_sig")
  ok (record {
    master_pkey = master_pkey;
    rotating_pkey = rotating_pkey;
    ts = ts;
    master_sig = master_sig;
    rotating_sig = rotating_sig;
  })

-- Their keys and signatures as bytes.
unfoldable pub decoded : ProofFields → Result ProofFields
unfolding hex_to_bytes
decoded r = do
  master_pkey ← hex_to_bytes r.master_pkey 64
  rotating_pkey ← hex_to_bytes r.rotating_pkey 64
  master_sig ← hex_to_bytes r.master_sig 128
  rotating_sig ← hex_to_bytes r.rotating_sig 128
  ok (record r {
    master_pkey = master_pkey;
    rotating_pkey = rotating_pkey;
    master_sig = master_sig;
    rotating_sig = rotating_sig;
  })

pub record ReadFields : Type 0 where
  pub master_pkey : Bytes
  pub master_sig : Bytes
  pub ts : ℤ

-- The fields that the two read requests share, and their key and signature as bytes.
unfoldable pub read_fields : JsonObject → Result ReadFields
unfolding require_str require_int
read_fields d = do
  master_pkey ← require_str d (ascii "master_pkey")
  master_sig ← require_str d (ascii "master_sig")
  ts ← require_int d (ascii "ts")
  ok (record { master_pkey = master_pkey; master_sig = master_sig; ts = ts })

unfoldable pub read_bytes : ReadFields → Result ReadFields
unfolding hex_to_bytes
read_bytes r = do
  master_pkey ← hex_to_bytes r.master_pkey 64
  master_sig ← hex_to_bytes r.master_sig 128
  ok (record r { master_pkey = master_pkey; master_sig = master_sig })

-- `get_json.get('before', '')`
unfoldable pub before_of : JsonObject → Result Bytes
unfolding get_field
before_of d = elim (get_field (ascii "before") d) [
  | none ↦ ok []
  | some v ↦ elim (as_string v) [ none ↦ err (fail invalid_request) | some s ↦ ok s ]
]

module _ (json_loads : Bytes → Option JsonValue) (body : Bytes) where
  -- The keys and signatures of a proof's request, with its instant.
  unfoldable pub read_proof_request : Result (ProofFields × DateTime)
  unfolding get_json_from_flask_request proof_fields decoded instant_of_ts
  read_proof_request = do
    get_json ← get_json_from_flask_request json_loads body
    fields ← proof_fields get_json
    bytes ← decoded fields
    request_at ← instant_of_ts fields.ts
    ok (bytes, request_at)

  -- The key and the signature of a request that reads, with its instant.
  unfoldable pub read_status_request : Result (ReadFields × DateTime)
  unfolding get_json_from_flask_request read_fields read_bytes instant_of_ts
  read_status_request = do
    get_json ← get_json_from_flask_request json_loads body
    fields ← read_fields get_json
    bytes ← read_bytes fields
    request_at ← instant_of_ts fields.ts
    ok (bytes, request_at)

  -- The same of a request for a page, with its limit and its cursor.
  unfoldable pub read_details_request : Result (ReadFields × DateTime × ℤ × Bytes)
  unfolding get_json_from_flask_request read_fields require_int before_of read_bytes instant_of_ts
  read_details_request = do
    get_json ← get_json_from_flask_request json_loads body
    fields ← read_fields get_json
    limit ← require_int get_json (ascii "limit")
    before ← before_of get_json
    bytes ← read_bytes fields
    request_at ← instant_of_ts fields.ts
    ok (bytes, request_at, limit, before)
