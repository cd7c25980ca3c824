-- ===== src/Base/Hex.antt =====
-- base.py: `hex_to_bytes`, and the texts of hexadecimal digits of the language.
-- A text is the list of its code points.
use session_pro_backend.Base.Errors.{Result, err, fail, invalid_request, ok}
use session_pro_backend.Prelude.{
  Bool, List, Option, [], false, if◌then◌else◌, leb, length, none, some, true, ℕ, ◌&&◌, ◌*◌, ◌+◌,
  ◌-◌, ◌==◌, ◌||◌, ◌∷◌, ◌%◌, ◌/◌,
}

abbrev pub hex_digit : ℕ → Option ℕ
hex_digit c =
    if leb 48 c && leb c 57
    then some (c - 48)
    else if leb 65 c && leb c 70
    then some (c - 55)
    else if leb 97 c && leb c 102
    then some (c - 87)
    else none

-- The blanks that `bytes.fromhex` skips between two bytes.
abbrev pub is_hex_blank : ℕ → Bool
is_hex_blank c = leb 9 c && leb c 13 || c == 32

-- `bytes.fromhex`, on the upper half of a byte where that is read; `none` where it raises.
unfoldable pub fromhex : Option ℕ → List ℕ → Option (List ℕ)
fromhex none [] = some []
fromhex (some top) [] = none
fromhex none (c ∷ cs) = elim (is_hex_blank c) [
  | true ↦ fromhex none cs
  | false ↦ elim (hex_digit c) [ none ↦ none | some d ↦ fromhex (some d) cs ]
]
fromhex (some top) (c ∷ cs) = elim (hex_digit c) [
  | none ↦ none
  | some d ↦ elim (fromhex none cs) [ none ↦ none | some bytes ↦ some ((top * 16 + d) ∷ bytes) ]
]

-- `bytes.hex`
abbrev pub hex_character : ℕ → ℕ
hex_character d = if leb d 9 then d + 48 else d + 87

unfoldable pub hex_of : List ℕ → List ℕ
hex_of [] = []
hex_of (b ∷ bs) = hex_character (b / 16) ∷ hex_character (b % 16) ∷ hex_of bs

-- `hex_to_bytes`, without a sink: each failure raises.
unfoldable pub hex_to_bytes : List ℕ → ℕ → Result (List ℕ)
unfolding fromhex
hex_to_bytes hex hex_len = elim (length hex == hex_len) [
  | false ↦ err (fail invalid_request)
  | true ↦ elim (fromhex none hex) [ none ↦ err (fail invalid_request) | some bytes ↦ ok bytes ]
]
