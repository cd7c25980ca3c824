-- ===== src/Json/Fields.antt =====
-- base.py: what the accessors of a required field of a JSON object return.
use session_pro_backend.Json.{
  JsonArray, JsonObject, JsonValue, array, boolean, integral, object, string,
}
use session_pro_backend.Json.Integers.{ℤ}
use session_pro_backend.Base.Errors.{Result, err, fail, invalid_request, ok}
use session_pro_backend.Prelude.{Bool, Option, none, some}
use session_pro_backend.Message.{Bytes}

-- The value of a field that has one, and is of the type; else the request is invalid.
abbrev pub valid : {A : Type 0} → Option A → Result A
valid none = err (fail invalid_request)
valid (some a) = ok a

abbrev pub text_of : Option JsonValue → Result Bytes
text_of (some (string s)) = ok s
text_of _ = err (fail invalid_request)

-- A bool is no integer.
abbrev pub integer_of : Option JsonValue → Result ℤ
integer_of (some (integral n)) = ok n
integer_of _ = err (fail invalid_request)

abbrev pub bool_of : Option JsonValue → Result Bool
bool_of (some (boolean b)) = ok b
bool_of _ = err (fail invalid_request)

abbrev pub array_of : Option JsonValue → Result JsonArray
array_of (some (array items)) = ok items
array_of _ = err (fail invalid_request)

abbrev pub object_of : Option JsonValue → Result JsonObject
object_of (some (object o)) = ok o
object_of _ = err (fail invalid_request)

-- A text that reads as something.
abbrev pub coerced : {A B : Type 0} → (A → Option B) → Result A → Result B
coerced read (ok a) = valid (read a)
coerced read (err e) = err e
