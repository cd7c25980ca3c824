-- ===== src/Json/Integers.antt =====
-- base.py: Python's `int` of a text, which `json_dict_require_str_coerce_to_int` applies. Of the
-- characters, the ASCII ones are modelled: blanks at both ends, a sign, and digits which single
-- underscores may separate.
pub mod Written
use session_pro_backend.Message.{Bytes}
use session_pro_backend.Prelude.{
  Bool, Option, [], false, if◌then◌else◌, leb, none, some, suc, zero, ℕ, ◌&&◌, ◌*◌, ◌+◌, ◌-◌, ◌==◌,
  ◌||◌, ◌∷◌,
}

-- `negsuc n` is minus n, less one.
pub data ℤ : Type 0 where
  pos negsuc : ℕ → ℤ

abbrev pub negated : ℕ → ℤ
negated zero = pos 0
negated (suc n) = negsuc n

abbrev pub is_digit : ℕ → Bool
is_digit c = leb 48 c && leb c 57

abbrev pub is_blank : ℕ → Bool
is_blank c = leb 9 c && leb c 13 || leb 28 c && leb c 32

-- The digits after a digit, or after an underscore or the sign, with the number read so far.
unfoldable pub int_digits : Bool → ℕ → Bytes → Option ℕ
int_digits after_digit acc [] = if after_digit then some acc else none
int_digits after_digit acc (c ∷ cs) =
    let digit = is_digit c in
    let rest = int_digits digit (if digit then acc * 10 + (c - 48) else acc) cs in
    if digit || c == 95 && after_digit then rest else none

unfoldable pub drop_blanks : Bytes → Bytes
drop_blanks [] = []
drop_blanks (c ∷ cs) = let rest = drop_blanks cs in if is_blank c then rest else c ∷ cs

-- The text without its blanks at the end.
unfoldable pub trim_end : Bytes → Bytes
trim_end [] = []
trim_end (c ∷ cs) = elim (trim_end cs) [
  | [] ↦ if is_blank c then [] else c ∷ []
  | r ∷ rs ↦ c ∷ r ∷ rs
]

abbrev pub signed : (ℕ → ℤ) → Option ℕ → Option ℤ
signed sign none = none
signed sign (some n) = some (sign n)

unfoldable pub int_signed : Bytes → Option ℤ
unfolding int_digits
int_signed [] = none
int_signed (c ∷ cs) =
    if c == 45
    then signed negated (int_digits false 0 cs)
    else if c == 43
    then signed pos (int_digits false 0 cs)
    else signed pos (int_digits false 0 (c ∷ cs))

unfoldable pub int_of : Bytes → Option ℤ
unfolding int_signed drop_blanks trim_end
int_of s = int_signed (trim_end (drop_blanks s))
