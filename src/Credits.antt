-- ===== src/Credits.antt =====
-- backend.py: `drain_credits`, which spends uncovered time across an account's credits.
pub mod Spending
use session_pro_backend.Prelude.{
  ℕ, ◌-◌, Bool, false, ◌&&◌, not, List, [], ◌∷◌, min, ltb, leb, if◌then◌else◌, is_empty,
}
use session_pro_backend.Base.Units.{Duration}

pub record CreditToDrain : Type 0 where
  pub payment_id : ℕ
  pub remaining : Duration

pub record CreditDrainResult : Type 0 where
  pub updated : List (ℕ × Duration)
  pub spent : Duration
  pub exhausted : Bool

-- The loop over the credits: what it appends to `updated`, and what is left of the budget.
unfoldable pub drain_loop : List CreditToDrain → Duration → List (ℕ × Duration) × Duration
drain_loop [] left = ([], left)
drain_loop (credit ∷ credits) left =
    let charge = min credit.remaining left in
    let rest = drain_loop credits (left - charge) in
    if leb left 0
    then ([], left)
    else if leb charge 0
    then rest
    else ((credit.payment_id, credit.remaining - charge) ∷ rest.0, rest.1)

unfoldable pub drain_credits : List CreditToDrain → Duration → CreditDrainResult
drain_credits credits budget =
    if leb budget 0
    then record { updated = []; spent = 0; exhausted = false }
    else let loop = drain_loop credits budget in
      record {
        updated = loop.0;
        spent = budget - loop.1;
        exhausted = ltb 0 loop.1 && not (is_empty credits);
      }
