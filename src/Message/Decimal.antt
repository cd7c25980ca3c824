-- ===== src/Message/Decimal.antt =====
-- The canonical decimal digits of a number, `str(n).encode('ascii')`, and reading them back.
use session_pro_backend.Prelude.{
  ℕ, All, Bool-cases, List, [], ap, arith, if◌then◌else◌, inl, inr, ltb, refl, suc, sym, zero, ◌%◌,
  ◌*◌, ◌≢◌, ◌++◌, ◌+◌, ◌-◌, ◌/◌, ◌<◌, ◌∙◌, ◌∷◌, ◌≡◌, ◌≤◌,
}

-- The fuel is one more than the number, and each digit uses one unit.
digits : ℕ → ℕ → List ℕ
digits zero n = []
digits (suc fuel) n =
    let front = digits fuel (n / 10) in
    if ltb n 10 then (48 + n) ∷ [] else front ++ (48 + n % 10) ∷ []

unfoldable pub decimal : ℕ → List ℕ
unfolding digits
decimal n = digits (suc n) n

-- The number that a list of ASCII digits writes, after the digits read so far.
abbrev pub read_from : ℕ → List ℕ → ℕ
read_from acc [] = acc
read_from acc (d ∷ ds) = read_from (acc * 10 + (d - 48)) ds

read_from-append :
    (acc : ℕ) (xs ys : List ℕ) → read_from acc (xs ++ ys) ≡ read_from (read_from acc xs) ys
read_from-append acc [] ys = refl
read_from-append acc (x ∷ xs) ys = read_from-append (acc * 10 + (x - 48)) xs ys

read-digits : (fuel n : ℕ) → n < fuel → read_from 0 (digits fuel n) ≡ n
unfolding digits
read-digits zero n h = elim h [ ]
read-digits (suc fuel) n h = elim (Bool-cases (ltb n 10)) [
  | inl small ↦ rw small (omega arith)
  | inr big ↦
      rw (big, read_from-append 0 (digits fuel (n / 10)) ((48 + n % 10) ∷ []))
        (let le : 10 ≤ n = ground arith in omega (arith, read-digits fuel (n / 10) (omega arith)))
]

-- Reading the digits of a number gives the number.
pub read-decimal : (n : ℕ) → read_from 0 (decimal n) ≡ n
unfolding decimal
read-decimal n = read-digits (suc n) n (omega arith)

-- Two numbers with the same digits are one number.
pub decimal_inj : (m n : ℕ) → decimal m ≡ decimal n → m ≡ n
decimal_inj m n e = sym (read-decimal m) ∙ ap (read_from 0) e ∙ read-decimal n

All-append {ℓ} :
    {A : Type ℓ} (P : A → Type 0) (xs ys : List A) → All P xs → All P ys → All P (xs ++ ys)
All-append P [] ys h k = k
All-append P (x ∷ xs) ys h k = (h.0, All-append P xs ys h.1 k)

-- The characters are ASCII digits.
digits_range : (fuel n : ℕ) → All (λ d. (48 ≤ d) × (d ≤ 57)) (digits fuel n)
unfolding digits
digits_range zero n = tt
digits_range (suc fuel) n = elim (Bool-cases (ltb n 10)) [
  | inl small ↦ rw small (let lt : n < 10 = ground arith in ((omega arith, omega arith), tt))
  | inr big ↦ rw big (
      All-append (λ d. (48 ≤ d) × (d ≤ 57)) (digits fuel (n / 10)) ((48 + n % 10) ∷ [])
        (digits_range fuel (n / 10)) ((omega arith, omega arith), tt))
]

pub decimal_range : (n : ℕ) → All (λ d. (48 ≤ d) × (d ≤ 57)) (decimal n)
unfolding decimal
decimal_range n = digits_range (suc n) n

range_pos : (xs : List ℕ) → All (λ d. (48 ≤ d) × (d ≤ 57)) xs → All (λ d. 0 < d) xs
range_pos [] h = tt
range_pos (x ∷ xs) h = (omega (arith, h.0), range_pos xs h.1)

-- A digit is not the NUL byte.
pub decimal_pos : (n : ℕ) → All (λ d. 0 < d) (decimal n)
decimal_pos n = range_pos (decimal n) (decimal_range n)

pub decimal_nonempty : (n : ℕ) → decimal n ≢ []
unfolding decimal digits
decimal_nonempty n h = elim (Bool-cases (ltb n 10)) [
  | inl small ↦ cc
  | inr big ↦ append_nonempty (digits n (n / 10)) (48 + n % 10) (ground (arith, h))
]
  where
    append_nonempty : (xs : List ℕ) (x : ℕ) → xs ++ x ∷ [] ≡ [] → ⊥
    append_nonempty [] x e = cc
    append_nonempty (y ∷ ys) x e = cc
