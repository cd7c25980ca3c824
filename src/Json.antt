-- ===== src/Json.antt =====
-- base.py: the typed accessors for the fields of a JSON object.
-- A text is the list of its code points. A dict has every key once, so the first field of a key is
-- its value; a fractional number is only kept.
pub mod Integers
pub mod Fields
use session_pro_backend.Base.Errors.{fail, invalid_request, ok, err, Result}
use session_pro_backend.Json.Integers.{ℤ, pos, int_of}
use session_pro_backend.Message.{Bytes}
use session_pro_backend.Prelude.{
  Bool, List, Option, [], bytes_eq, false, if◌then◌else◌, none, some, true, ℕ, ◌++◌, ◌∷◌,
}

mutual
  -- `JSONValue`
  pub data JsonValue : Type 0 where
    null : JsonValue
    boolean : Bool → JsonValue
    integral : ℤ → JsonValue
    floating : ℕ → JsonValue
    string : Bytes → JsonValue
    array : JsonArray → JsonValue
    object : JsonObject → JsonValue

  pub data JsonArray : Type 0 where
    no_items : JsonArray
    item : JsonValue → JsonArray → JsonArray

  pub data JsonObject : Type 0 where
    no_fields : JsonObject
    field : Bytes → JsonValue → JsonObject → JsonObject

-- `d[key]`, where `key in d`
unfoldable pub get_field : Bytes → JsonObject → Option JsonValue
get_field key no_fields = none
get_field key (field k v rest) = if bytes_eq k key then some v else get_field key rest

-- What `_require_fail` is told.
pub data JsonError : Type 0 where
  missing_key wrong_type not_an_int not_a_member : Bytes → JsonError

-- What an accessor returns, and the messages that it puts into an error sink.
abbrev pub Access : Type 0 → Type 0
Access A = A × List JsonError

-- The same accessor without a sink: its first message is raised as a `FailError`.
unfoldable pub raising : {A : Type 0} → Access A → Result A
raising (a, []) = ok a
raising (a, message ∷ messages) = err (fail invalid_request)

-- `_json_get`: `convert` has a value where `ok` accepts the field.
unfoldable pub json_get :
    {A : Type 0} → JsonObject → Bytes → (JsonValue → Option A) → A → Bool → Access A
unfolding get_field
json_get d key convert default required = elim (get_field key d) [
  | none ↦ (default, if required then missing_key key ∷ [] else [])
  | some v ↦ elim (convert v) [ some a ↦ (a, []) | none ↦ (default, wrong_type key ∷ []) ]
]

abbrev pub as_string : JsonValue → Option Bytes
as_string (string s) = some s
as_string _ = none

-- `_json_is_int`: a bool is none, although Python counts it as one.
abbrev pub as_integer : JsonValue → Option ℤ
as_integer (integral n) = some n
as_integer _ = none

abbrev pub as_bool : JsonValue → Option Bool
as_bool (boolean b) = some b
as_bool _ = none

abbrev pub as_array : JsonValue → Option JsonArray
as_array (array items) = some items
as_array _ = none

abbrev pub as_object : JsonValue → Option JsonObject
as_object (object o) = some o
as_object _ = none

-- The value of an optional field.
abbrev pub optional {ℓ} : {A : Type ℓ} → (JsonValue → Option A) → JsonValue → Option (Option A)
optional convert v = elim (convert v) [ none ↦ none | some a ↦ some (some a) ]

module _ (d : JsonObject) (key : Bytes) where
  unfoldable pub json_dict_require_str : Access Bytes
  unfolding json_get
  json_dict_require_str = json_get d key as_string [] true

  unfoldable pub json_dict_require_int : Access ℤ
  unfolding json_get
  json_dict_require_int = json_get d key as_integer (pos 0) true

  unfoldable pub json_dict_require_bool : Access Bool
  unfolding json_get
  json_dict_require_bool = json_get d key as_bool false true

  unfoldable pub json_dict_require_array : Access JsonArray
  unfolding json_get
  json_dict_require_array = json_get d key as_array no_items true

  unfoldable pub json_dict_require_obj : Access JsonObject
  unfolding json_get
  json_dict_require_obj = json_get d key as_object no_fields true

  unfoldable pub json_dict_optional_bool : Bool → Access Bool
  unfolding json_get
  json_dict_optional_bool default = json_get d key as_bool default false

  unfoldable pub json_dict_optional_str : Access (Option Bytes)
  unfolding json_get
  json_dict_optional_str = json_get d key (optional as_string) none false

  unfoldable pub json_dict_optional_obj : Access (Option JsonObject)
  unfolding json_get
  json_dict_optional_obj = json_get d key (optional as_object) none false

  unfoldable pub json_dict_require_str_coerce_to_int : Access ℤ
  unfolding json_dict_require_str int_of
  json_dict_require_str_coerce_to_int =
      let (result_str, messages) = json_dict_require_str in
      elim (int_of result_str) [
        | some n ↦ (n, messages)
        | none ↦ (pos 0, messages ++ not_an_int key ∷ [])
      ]

  -- The enum is the function that finds the member of a value.
  unfoldable pub json_dict_require_str_coerce_to_enum :
      {E : Type 0} → (Bytes → Option E) → Access (Option E)
  unfolding json_dict_require_str
  json_dict_require_str_coerce_to_enum member_of =
      let (value, messages) = json_dict_require_str in
      elim (member_of value) [
        | some e ↦ (some e, messages)
        | none ↦ (none, messages ++ not_a_member key ∷ [])
      ]

  unfoldable pub json_dict_require_int_coerce_to_enum :
      {E : Type 0} → (ℤ → Option E) → Access (Option E)
  unfolding json_dict_require_int
  json_dict_require_int_coerce_to_enum member_of =
      let (value, messages) = json_dict_require_int in
      elim (member_of value) [
        | some e ↦ (some e, messages)
        | none ↦ (none, messages ++ not_a_member key ∷ [])
      ]

-- `validate_string_list`
unfoldable pub validate_string_list : JsonArray → Bool
validate_string_list no_items = true
validate_string_list (item (string _) rest) = validate_string_list rest
validate_string_list (item _ rest) = false
