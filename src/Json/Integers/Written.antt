-- ===== src/Json/Integers/Written.antt =====
-- Reading an integer that was written in decimal.
use session_pro_backend.Message.{Bytes}
use session_pro_backend.Message.Decimal.{
  decimal, read_from, decimal_range, decimal_nonempty, read-decimal,
}
use session_pro_backend.Json.Integers.{
  pos, negsuc, int_of, int_digits, int_signed, drop_blanks, trim_end, ℤ,
}
use session_pro_backend.Prelude.{
  All, [], arith, false, refl, some, suc, true, ℕ, ◌∷◌, ◌≡◌, ◌≤◌, ◌≢◌, ◌∙◌, ◌*◌, ◌+◌, ◌-◌,
}

abbrev Digits : Bytes → Type 0
Digits = All (λ d. (48 ≤ d) × (d ≤ 57))

int_digits-read : (acc : ℕ) (s : Bytes) → Digits s → int_digits true acc s ≡ some (read_from acc s)
unfolding int_digits
int_digits-read acc [] h = refl
int_digits-read acc (c ∷ cs) h = ground (arith, h.0, int_digits-read (acc * 10 + (c - 48)) cs h.1)

int_digits-decimal : (s : Bytes) → Digits s → s ≢ [] → int_digits false 0 s ≡ some (read_from 0 s)
unfolding int_digits
int_digits-decimal [] h full = absurd (full refl)
int_digits-decimal (c ∷ cs) h full = ground (arith, h.0, int_digits-read (c - 48) cs h.1)

drop_blanks-Digits : (s : Bytes) → Digits s → drop_blanks s ≡ s
unfolding drop_blanks
drop_blanks-Digits [] h = refl
drop_blanks-Digits (c ∷ cs) h = ground (arith, h.0)

trim_end-Digits : (s : Bytes) → Digits s → trim_end s ≡ s
unfolding trim_end
trim_end-Digits [] h = refl
trim_end-Digits (c ∷ []) h = ground (arith, h.0)
trim_end-Digits (c ∷ d ∷ cs) h = rw (trim_end-Digits (d ∷ cs) h.1) refl

int_signed-Digits : (s : Bytes) → Digits s → s ≢ [] → int_signed s ≡ some (pos (read_from 0 s))
unfolding int_signed
int_signed-Digits [] h full = absurd (full refl)
int_signed-Digits (c ∷ cs) h full = ground (arith, h.0, int_digits-decimal (c ∷ cs) h full)

int_signed-minus : (n : ℕ) → int_signed (45 ∷ decimal (suc n)) ≡ some (negsuc n)
unfolding int_signed
int_signed-minus n =
    let s = decimal (suc n) in
    rw (int_digits-decimal s (decimal_range (suc n)) (decimal_nonempty (suc n)))
      (rw (read-decimal (suc n)) refl)

abbrev pub written : ℤ → Bytes
written (pos n) = decimal n
written (negsuc n) = 45 ∷ decimal (suc n)

-- Reading an integer that was written in decimal gives the integer, whatever its sign.
pub int_of-written : (n : ℤ) → int_of (written n) ≡ some n
unfolding int_of drop_blanks trim_end
int_of-written (pos n) =
    let s = decimal n in
    let digits = decimal_range n in
    rw (drop_blanks-Digits s digits) (
      rw (trim_end-Digits s digits)
        (int_signed-Digits s digits (decimal_nonempty n) ∙ rw (read-decimal n) refl))
int_of-written (negsuc n) =
    let s = decimal (suc n) in
    let digits = decimal_range (suc n) in
    rw (minus_drop s) (rw (minus_trim s digits) (int_signed-minus n))
  where
    minus_drop : (s : Bytes) → drop_blanks (45 ∷ s) ≡ 45 ∷ s
    minus_drop s = refl

    minus_trim : (s : Bytes) → Digits s → trim_end (45 ∷ s) ≡ 45 ∷ s
    minus_trim [] h = refl
    minus_trim (c ∷ cs) h = rw (trim_end-Digits (c ∷ cs) h) refl
