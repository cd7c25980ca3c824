-- ===== src/Issue/Counters.antt =====
-- The proof counters of an account: what the limit is judged on.
use session_pro_backend.Base.Units.{DateTime, proof_issue_window}
use session_pro_backend.Db.Tables.{User}
use session_pro_backend.Issue.{count_proof, counted_proofs}
use session_pro_backend.Prelude.{
  Bool, List, [], arith, false, if◌then◌else◌, length, some, suc, true, ℕ, ◌+◌, ◌<◌, ◌∷◌, ◌≡◌, ◌≤◌,
  ◌∙◌,
}

-- A request of an account's history: when it was made, and whether it was past the paid term.
abbrev pub Request : Type 0
Request = DateTime × Bool

abbrev pub issue_all : List Request → User → User
issue_all [] u = u
issue_all ((now, past) ∷ rs) u = issue_all rs (count_proof now past u)

abbrev pub paid_requests : List Request → ℕ
paid_requests [] = 0
paid_requests ((now, past) ∷ rs) = if past then paid_requests rs else suc (paid_requests rs)

abbrev pub AllWithin : DateTime → List Request → Type 0
AllWithin start [] = Unit
AllWithin start ((now, past) ∷ rs) = (now < start + proof_issue_window) × AllWithin start rs

-- The proofs past the paid term are some of the window's.
abbrev pub HasSoundCounters : User → Type 0
HasSoundCounters u = u.proofs_issued_past_expiry_window ≤ u.proofs_issued_window

-- Counting a proof keeps the count of proofs past the paid term a part of the window's count.
pub count_proof-HasSoundCounters :
    (now : DateTime) (past : Bool) (u : User)
    → HasSoundCounters u
    → HasSoundCounters (count_proof now past u)
unfolding count_proof
count_proof-HasSoundCounters now true u h = ground arith
count_proof-HasSoundCounters now false u h = ground arith

-- One proof inside the window.
count_proof_within :
    (now start : DateTime) (past : Bool) (u : User)
    → HasSoundCounters u
    → u.proofs_window_start ≡ some start
    → now < start + proof_issue_window
    → (counted_proofs (count_proof now past u) ≡ counted_proofs u + (if past then 0 else 1))
      × ((count_proof now past u).proofs_issued_total ≡ u.proofs_issued_total + 1)
      × ((count_proof now past u).proofs_window_start ≡ some start)
unfolding count_proof
count_proof_within now start true u sound open_at within = ground arith
count_proof_within now start false u sound open_at within = ground arith

-- The counters are sound and a window is open, and all requests fall into it. Then requests of the
-- paid term raise the number that the limit is judged on by one each and requests past the paid
-- term by none, while every proof counts in the total.
pub issue_all_window :
    (rs : List Request) (start : DateTime) (u : User)
    → HasSoundCounters u
    → u.proofs_window_start ≡ some start
    → AllWithin start rs
    → (counted_proofs (issue_all rs u) ≡ counted_proofs u + paid_requests rs)
      × ((issue_all rs u).proofs_issued_total ≡ u.proofs_issued_total + length rs)
      × ((issue_all rs u).proofs_window_start ≡ some start)
issue_all_window [] start u sound open_at within = (omega arith, omega arith, open_at)
issue_all_window ((now, past) ∷ rs) start u sound open_at within =
    let first = count_proof_within now start past u sound open_at within.0 in
    let rest =
      issue_all_window rs start (count_proof now past u)
        (count_proof-HasSoundCounters now past u sound) first.2 within.1 in
    (rest.0 ∙ ground (arith, first.0), rest.1 ∙ omega (arith, first.1), rest.2)

-- A request after the window's end opens the next window, which starts at the request.
pub count_proof_restart :
    (now start : DateTime) (past : Bool) (u : User)
    → u.proofs_window_start ≡ some start
    → start + proof_issue_window ≤ now
    → ((count_proof now past u).proofs_window_start ≡ some now)
      × ((count_proof now past u).proofs_issued_window ≡ 1)
      × (counted_proofs (count_proof now past u) ≡ (if past then 0 else 1))
unfolding count_proof
count_proof_restart now start past u open_at over = ground arith

restarted_sound :
    (now start : DateTime) (past : Bool) (u : User)
    → u.proofs_window_start ≡ some start
    → start + proof_issue_window ≤ now
    → HasSoundCounters (count_proof now past u)
unfolding count_proof
restarted_sound now start true u open_at over = ground arith
restarted_sound now start false u open_at over = ground arith

-- After the window's end, the first request opens the next window, which starts at that request.
-- The judged number is then exactly the requests of the paid term since, whatever the counters said
-- before. All other requests fall into the new window.
pub issue_all_restart :
    (now : DateTime) (past : Bool) (rs : List Request) (start : DateTime) (u : User)
    → u.proofs_window_start ≡ some start
    → start + proof_issue_window ≤ now
    → AllWithin now rs
    → let requests : List Request = (now, past) ∷ rs in
      ((issue_all requests u).proofs_window_start ≡ some now)
      × (counted_proofs (issue_all requests u) ≡ paid_requests requests)
issue_all_restart now past rs start u open_at over within =
    let first = count_proof_restart now start past u open_at over in
    let rest =
      issue_all_window rs now (count_proof now past u)
        (restarted_sound now start past u open_at over) first.0 within in
    (rest.2, rest.0 ∙ ground (arith, first.2))
