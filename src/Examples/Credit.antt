-- ===== src/Examples/Credit.antt =====
-- Two credits and what is drained of them.
use session_pro_backend.Credits.{CreditToDrain, drain_credits}
use session_pro_backend.Base.Units.{Duration}
use session_pro_backend.Credits.Spending.{HasDistinctIds, drain_credits-spend, write_back}
use session_pro_backend.Prelude.{List, [], arith, map, ℕ, ◌∷◌, ◌≡◌}

abbrev credit : ℕ → Duration → CreditToDrain
credit id remaining = record { payment_id = id; remaining = remaining }

abbrev two_credits : List CreditToDrain
two_credits = credit 1 10 ∷ credit 2 50 ∷ []

two_credits-HasDistinctIds : HasDistinctIds two_credits
two_credits-HasDistinctIds = ((omega arith, tt), (tt, tt))

drain_credits-spend_example :
    map (write_back (drain_credits two_credits 25).updated) two_credits
    ≡ credit 1 0 ∷ credit 2 35 ∷ []
drain_credits-spend_example = drain_credits-spend two_credits 25 two_credits-HasDistinctIds
