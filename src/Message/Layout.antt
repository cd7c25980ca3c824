-- ===== src/Message/Layout.antt =====
-- Taking a concatenation of bytes apart.
use mathlib.Core.Path.{ap₂}
use session_pro_backend.Message.{Bytes}
use session_pro_backend.Prelude.{All, List, [], arith, length, refl, ◌++◌, ◌<◌, ◌∷◌, ◌≡◌}

pub heads {ℓ} : {A : Type ℓ} {x y : A} {xs ys : List A} → x ∷ xs ≡ y ∷ ys → x ≡ y
heads e = cc

pub tails {ℓ} : {A : Type ℓ} {x y : A} {xs ys : List A} → x ∷ xs ≡ y ∷ ys → xs ≡ ys
tails e = cc

-- A prefix of known length, and the rest.
pub append_cancel {ℓ} :
    {A : Type ℓ} (xs xs' : List A) {ys ys' : List A}
    → length xs ≡ length xs'
    → xs ++ ys ≡ xs' ++ ys'
    → (xs ≡ xs') × (ys ≡ ys')
append_cancel [] [] l e = (refl, e)
append_cancel [] (x ∷ xs') l e = absurd (omega arith)
append_cancel (x ∷ xs) [] l e = absurd (omega arith)
append_cancel (x ∷ xs) (x' ∷ xs') l e =
    let rest = append_cancel xs xs' (omega arith) (tails e) in (ap₂ ◌∷◌ (heads e) rest.0, rest.1)

-- A prefix without NUL bytes before a NUL byte, and the rest.
pub separator_cancel :
    (xs xs' : Bytes) {ys ys' : Bytes}
    → All (λ d. 0 < d) xs
    → All (λ d. 0 < d) xs'
    → xs ++ 0 ∷ ys ≡ xs' ++ 0 ∷ ys'
    → (xs ≡ xs') × (ys ≡ ys')
separator_cancel [] [] h h' e = (refl, cc)
separator_cancel [] (x ∷ xs') h h' e = absurd (omega (arith, heads e, h'.0))
separator_cancel (x ∷ xs) [] h h' e = absurd (omega (arith, heads e, h.0))
separator_cancel (x ∷ xs) (x' ∷ xs') h h' e =
    let rest = separator_cancel xs xs' h.1 h'.1 (tails e) in (ap₂ ◌∷◌ (heads e) rest.0, rest.1)
