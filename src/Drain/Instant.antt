-- ===== src/Drain/Instant.antt =====
-- A pass of the drain does not move the instant at which the credits will have run out.
use session_pro_backend.Base.Units.{DateTime, Duration}
use session_pro_backend.Credits.{CreditToDrain, drain_credits}
use session_pro_backend.Credits.Spending.{
  total, HasDistinctIds, pass, drain_credits-spent, pass_conserves,
}
use session_pro_backend.Drain.{next_checkpoint}
use session_pro_backend.Entitlement.{stack_credits}
use session_pro_backend.Prelude.{
  List, Option, none, some, ◌-◌, ◌<◌, ◌≡◌, ◌≤◌, ◌⊎◌, [], arith, false, is_empty, refl, ◌+◌, ◌∷◌,
}

nonempty : (cs : List CreditToDrain) → 0 < total cs → is_empty cs ≡ false
nonempty [] h = absurd (omega arith)
nonempty (c ∷ cs) h = refl

-- The checkpoint after the pass and the length that is left add up to what they were.
checkpoint-pass :
    (credits : List CreditToDrain) (checkpoint now : DateTime)
    → HasDistinctIds credits
    → 0 < total credits
    → checkpoint ≤ now
    → (checkpoint ≤ next_checkpoint now checkpoint (drain_credits credits (now - checkpoint)))
      × (next_checkpoint now checkpoint (drain_credits credits (now - checkpoint))
            + total (pass credits (now - checkpoint))
          ≡ checkpoint + total credits)
unfolding next_checkpoint
checkpoint-pass credits checkpoint now distinct some_left past = ground (
  arith,
  drain_credits-spent credits (now - checkpoint),
  pass_conserves credits (now - checkpoint) distinct,
  nonempty credits some_left,
)

-- Where nothing else covers the account past its checkpoint, a pass over the whole span since the
-- checkpoint leaves the entitlement's end where it was: the new checkpoint, or the older coverage
-- where that is later, extended by what the credits have left, is the same instant as before the
-- pass. So the passes neither extend nor shorten what was granted. The credits hold some length,
-- and their ids are distinct.
pub pass_keeps_end :
    (credits : List CreditToDrain) (checkpoint now : DateTime) (best : Option DateTime)
    → HasDistinctIds credits
    → 0 < total credits
    → checkpoint ≤ now
    → (best ≡ none) ⊎ ((b : DateTime) × (best ≡ some b) × (b ≤ checkpoint))
    → let budget : Duration = now - checkpoint in
      stack_credits
        (total (pass credits budget))
        (next_checkpoint now checkpoint (drain_credits credits budget))
        best
      ≡ stack_credits (total credits) checkpoint best
pass_keeps_end credits checkpoint now best distinct some_left past old =
    ground (arith, checkpoint-pass credits checkpoint now distinct some_left past)
