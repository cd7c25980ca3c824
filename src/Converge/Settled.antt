-- ===== src/Converge/Settled.antt =====
-- backend.py: what a convergence leaves of a payment.
use session_pro_backend.Redeem.Terms.{terms, terms_of}
use session_pro_backend.Base.Units.{DateTime}
use session_pro_backend.Prelude.{
  Option, Option-cases, arith, inl, inr, none, some, ◌+◌, ◌≡◌, List, [], if◌then◌else◌, refl, ◌∷◌,
}
use session_pro_backend.Db.Tables.{Payment, Text}
use session_pro_backend.Converge.{
  Snapshot, converge_terms, held_expiry, converge_rows, is_standing_order, of_google_order,
  set_needs_ack, update_matching,
}
use session_pro_backend.Register.{or_zero}

-- Where the store said that the entitlement of a subscription ends.
abbrev pub stated_end : Payment → Option DateTime
stated_end p = elim p.expiry_at [ none ↦ none | some e ↦ some (e + or_zero p.grace_period) ]

-- Whatever the row held, a standing row that converges ends where the resource says.
pub converge_terms_end :
    (s : Snapshot) (p : Payment) → stated_end (converge_terms s p) ≡ some s.expiry_at
unfolding converge_terms held_expiry
converge_terms_end s p = elim (Option-cases p.expiry_at) [
  | inl unset ↦ ground arith
  | inr (stored, set) ↦ ground arith
]

converge_terms_twice :
    (s : Snapshot) (p : Payment) → converge_terms s (converge_terms s p) ≡ converge_terms s p
unfolding converge_terms held_expiry
converge_terms_twice s p = elim (Option-cases p.expiry_at) [
  | inl unset ↦ ground arith
  | inr (stored, set) ↦ ground arith
]

module _ (token order : Text) (s : Snapshot) where
  unfoldable pub converge_row : Payment → Payment
  converge_row p =
      let settled = if is_standing_order token order p then converge_terms s p else p in
      if of_google_order token order settled then set_needs_ack s.needs_ack settled else settled

  pub converge_rows-each :
      (p : Payment) (ps : List Payment)
      → converge_rows token order s (p ∷ ps) ≡ converge_row p ∷ converge_rows token order s ps
  unfolding converge_rows update_matching converge_row
  converge_rows-each p ps = refl

  converge_row_twice : (p : Payment) → converge_row (converge_row p) ≡ converge_row p
  unfolding converge_row converge_terms held_expiry
  converge_row_twice p = elim (Option-cases p.expiry_at) [
    | inl unset ↦ ground arith
    | inr (stored, set) ↦ ground arith
  ]

  pub converge_rows_twice :
      (ps : List Payment)
      → converge_rows token order s (converge_rows token order s ps)
        ≡ converge_rows token order s ps
  converge_rows_twice [] = unfold converge_rows update_matching in refl
  converge_rows_twice (p ∷ ps) = rw (converge_rows-each p ps) (
      rw (converge_rows-each (converge_row p) (converge_rows token order s ps))
        (rw (converge_row_twice p) (rw (converge_rows_twice ps) refl)))

  converge_row-terms : (p : Payment) → terms_of (converge_row p) ≡ converge_row (terms_of p)
  unfolding converge_row converge_terms held_expiry
  converge_row-terms p = elim (Option-cases p.expiry_at) [
    | inl unset ↦ ground arith
    | inr (stored, set) ↦ ground arith
  ]

  pub terms-converge :
      (ps : List Payment)
      → terms (converge_rows token order s ps) ≡ converge_rows token order s (terms ps)
  unfolding terms
  terms-converge [] = unfold converge_rows update_matching in refl
  terms-converge (p ∷ ps) = rw (converge_rows-each p ps) (
      rw (converge_rows-each (terms_of p) (terms ps))
        (rw (converge_row-terms p) (rw (terms-converge ps) refl)))
