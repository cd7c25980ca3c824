-- ===== src/Credits/Spending.antt =====
-- `drain_credits` of backend.py against a plain account of spending, oldest first.
use session_pro_backend.Prelude.{
  ℕ, ◌+◌, ◌-◌, ◌≡◌, ◌≢◌, refl, ◌&&◌, not, List, [], ◌∷◌, min, ltb, ◌==◌, if◌then◌else◌, arith, All,
  ap, map, Bool-cases, false, inl, inr, leb, sym, true, ◌∙◌, ◌<◌, is_empty,
}
use session_pro_backend.Base.Units.{Duration}
use session_pro_backend.Credits.{CreditToDrain, drain_loop, drain_credits}

-- All the length that the credits still hold.
abbrev pub total : List CreditToDrain → Duration
total [] = 0
total (c ∷ cs) = c.remaining + total cs

-- Every credit pays what it can of what those before it left unpaid.
abbrev pub spend : List CreditToDrain → Duration → List CreditToDrain
spend [] budget = []
spend (c ∷ cs) budget =
    record c { remaining = c.remaining - budget } ∷ spend cs (budget - c.remaining)

-- The write-back of the updated rows, by payment id.
abbrev pub updated_remaining : List (ℕ × Duration) → ℕ → Duration → Duration
updated_remaining [] id old = old
updated_remaining ((i, r) ∷ us) id old = if i == id then r else updated_remaining us id old

abbrev pub write_back : List (ℕ × Duration) → CreditToDrain → CreditToDrain
write_back us c = record c { remaining = updated_remaining us c.payment_id c.remaining }

abbrev pub HasDistinctIds : List CreditToDrain → Type 0
HasDistinctIds [] = Unit
HasDistinctIds (c ∷ cs) = All (λ d. d.payment_id ≢ c.payment_id) cs × HasDistinctIds cs

drain_loop-left :
    (cs : List CreditToDrain) (left : Duration) → (drain_loop cs left).1 ≡ left - total cs
unfolding drain_loop
drain_loop-left [] left = omega arith
drain_loop-left (c ∷ cs) left = ground (arith, drain_loop-left cs (left - min c.remaining left))

-- What is charged is the budget, or all that the credits hold where that is less, and the credits
-- are reported exhausted exactly where there was a credit and the budget outran them.
pub drain_credits-spent :
    (cs : List CreditToDrain) (budget : Duration)
    → ((drain_credits cs budget).spent ≡ min budget (total cs))
      × ((drain_credits cs budget).exhausted ≡ (ltb (total cs) budget && not (is_empty cs)))
unfolding drain_credits
drain_credits-spent cs budget = ground (arith, drain_loop-left cs budget)

zero_sub : (n : ℕ) → 0 - n ≡ 0
zero_sub n = omega arith

spend-zero : (cs : List CreditToDrain) → spend cs 0 ≡ cs
spend-zero [] = refl
spend-zero (c ∷ cs) =
    let rest : spend cs (0 - c.remaining) ≡ cs = rw (zero_sub c.remaining) (spend-zero cs) in
    ground (arith, rest)

total-spend : (cs : List CreditToDrain) (b : Duration) → total (spend cs b) ≡ total cs - b
total-spend [] b = omega arith
total-spend (c ∷ cs) b = omega (arith, total-spend cs (b - c.remaining))

-- Spending in two passes is spending once.
pub spend-spend :
    (cs : List CreditToDrain) (a b : Duration) → spend (spend cs a) b ≡ spend cs (a + b)
spend-spend [] a b = refl
spend-spend (c ∷ cs) a b =
    let left : (a - c.remaining) + (b - (c.remaining - a)) ≡ a + b - c.remaining = omega arith in
    let now : c.remaining - a - b ≡ c.remaining - (a + b) = omega arith in
    let rest = spend-spend cs (a - c.remaining) (b - (c.remaining - a)) in cc (now, rest, left)

-- An id that no credit has is not updated.
updated-other :
    (cs : List CreditToDrain) (left : Duration) (id : ℕ) (old : Duration)
    → All (λ d. d.payment_id ≢ id) cs
    → updated_remaining (drain_loop cs left).0 id old ≡ old
unfolding drain_loop
updated-other [] left id old h = refl
updated-other (c ∷ cs) left id old h =
    ground (arith, updated-other cs (left - min c.remaining left) id old)

write_back-nil : (cs : List CreditToDrain) → map (write_back []) cs ≡ cs
write_back-nil [] = refl
write_back-nil (c ∷ cs) = ap (λ t. c ∷ t) (write_back-nil cs)

write_back-cons :
    (us : List (ℕ × Duration)) (id : ℕ) (r : Duration) (cs : List CreditToDrain)
    → All (λ d. d.payment_id ≢ id) cs
    → map (write_back ((id, r) ∷ us)) cs ≡ map (write_back us) cs
write_back-cons us id r [] h = refl
write_back-cons us id r (c ∷ cs) h = ground (arith, write_back-cons us id r cs h.1)

-- One step of the loop: what it does to the first credit.
module _ (c : CreditToDrain) (cs : List CreditToDrain) (left : Duration) where
  abbrev next_left : Duration
  next_left = left - min c.remaining left

  loop_stop : leb left 0 ≡ true → (drain_loop (c ∷ cs) left).0 ≡ []
  unfolding drain_loop
  loop_stop h = ground arith

  loop_skip :
      leb left 0 ≡ false
      → leb (min c.remaining left) 0 ≡ true
      → (drain_loop (c ∷ cs) left).0 ≡ (drain_loop cs next_left).0
  unfolding drain_loop
  loop_skip h k = ground arith

  loop_charge :
      leb left 0 ≡ false
      → leb (min c.remaining left) 0 ≡ false
      → (drain_loop (c ∷ cs) left).0
        ≡ (c.payment_id, c.remaining - min c.remaining left) ∷ (drain_loop cs next_left).0
  unfolding drain_loop
  loop_charge h k = ground arith

-- The two parts of what is to be shown about a first credit and the others.
write_back-spend :
    (c : CreditToDrain) (cs : List CreditToDrain) (left left' : Duration) (us : List (ℕ × Duration))
    → updated_remaining us c.payment_id c.remaining ≡ c.remaining - left
    → map (write_back us) cs ≡ spend cs left'
    → left' ≡ left - c.remaining
    → map (write_back us) (c ∷ cs) ≡ spend (c ∷ cs) left
write_back-spend c cs left left' us p q e = cc

-- Writing back what the loop reports leaves every credit with what it has not paid.
drain_loop-spend :
    (cs : List CreditToDrain) (left : Duration)
    → HasDistinctIds cs
    → map (write_back (drain_loop cs left).0) cs ≡ spend cs left
drain_loop-spend [] left h = refl
drain_loop-spend (c ∷ cs) left h =
    let left' : Duration = next_left c cs left in
    let ih = drain_loop-spend cs left' h.1 in
    elim (Bool-cases (leb left 0)) [
      | inl stop ↦
          let zero_left : left ≡ 0 = ground arith in
          write_back-spend c cs left 0 (drain_loop (c ∷ cs) left).0
            (rw (loop_stop c cs left stop) (omega arith))
            (rw (loop_stop c cs left stop) (write_back-nil cs ∙ sym (spend-zero cs))) (omega arith)
      | inr go ↦ elim (Bool-cases (leb (min c.remaining left) 0)) [
        | inl skip ↦
            let empty : min c.remaining left ≡ 0 = ground arith in
            let some_left : 0 < left = ground arith in
            write_back-spend c cs left left' (drain_loop (c ∷ cs) left).0
              (rw (loop_skip c cs left go skip)
                (updated-other cs left' c.payment_id c.remaining h.0 ∙ omega arith))
              (rw (loop_skip c cs left go skip) ih) (omega arith)
        | inr charge ↦
            write_back-spend c cs left left' (drain_loop (c ∷ cs) left).0
              (rw (loop_charge c cs left go charge) (ground arith))
              (rw (loop_charge c cs left go charge) (
                write_back-cons (drain_loop cs left').0 c.payment_id
                  (c.remaining - min c.remaining left) cs h.0
                ∙ ih))
              (omega arith)
      ]
    ]

-- Writing the reported rows back, by payment id, leaves every credit with what it has not paid when
-- each pays, in order, what it can of what those before it left unpaid. The ids are distinct.
pub drain_credits-spend :
    (cs : List CreditToDrain) (budget : Duration)
    → HasDistinctIds cs
    → map (write_back (drain_credits cs budget).updated) cs ≡ spend cs budget
unfolding drain_credits
drain_credits-spend cs budget h = elim (Bool-cases (leb budget 0)) [
  | inl none_due ↦
      let zero_due : budget ≡ 0 = ground arith in
      rw (none_due, zero_due) (write_back-nil cs ∙ sym (spend-zero cs))
  | inr due ↦ rw due (drain_loop-spend cs budget h)
]

other_ids-write_back :
    (us : List (ℕ × Duration)) (id : ℕ) (cs : List CreditToDrain)
    → All (λ d. d.payment_id ≢ id) cs
    → All (λ d. d.payment_id ≢ id) (map (write_back us) cs)
other_ids-write_back us id [] h = tt
other_ids-write_back us id (c ∷ cs) h = (h.0, other_ids-write_back us id cs h.1)

HasDistinctIds-write_back :
    (us : List (ℕ × Duration)) (cs : List CreditToDrain)
    → HasDistinctIds cs
    → HasDistinctIds (map (write_back us) cs)
HasDistinctIds-write_back us [] h = tt
HasDistinctIds-write_back us (c ∷ cs) h =
    (other_ids-write_back us c.payment_id cs h.0, HasDistinctIds-write_back us cs h.1)

-- The account's credits after a pass that charges `budget`.
abbrev pub pass : List CreditToDrain → Duration → List CreditToDrain
pass cs budget = map (write_back (drain_credits cs budget).updated) cs

-- Two passes charge what one pass over the whole span does, credit by credit, so how often the
-- drain runs does not change what the credits are charged. The ids are distinct.
pub pass-pass :
    (cs : List CreditToDrain) (a b : Duration)
    → HasDistinctIds cs
    → pass (pass cs a) b ≡ pass cs (a + b)
pass-pass cs a b h =
    drain_credits-spend (pass cs a) b (HasDistinctIds-write_back (drain_credits cs a).updated cs h)
    ∙ ap (λ t. spend t b) (drain_credits-spend cs a h)
    ∙ spend-spend cs a b
    ∙ sym (drain_credits-spend cs (a + b) h)

-- Nothing is lost or made: what is charged and what the credits hold afterwards add up to what they
-- held. The ids are distinct.
pub pass_conserves :
    (cs : List CreditToDrain) (budget : Duration)
    → HasDistinctIds cs
    → (drain_credits cs budget).spent + total (pass cs budget) ≡ total cs
pass_conserves cs budget h =
    rw (drain_credits-spend cs budget h)
      (omega (arith, total-spend cs budget, (drain_credits-spent cs budget).0))
