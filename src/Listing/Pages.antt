-- ===== src/Listing/Pages.antt =====
-- backend.py: the pages of rows, each from the cursor of the one before, make up the rows.
use session_pro_backend.Db.Monad.{Db}
use session_pro_backend.Listing.{
  is_before, take, last_id, rows_before, next_cursor, page_of, account_payments,
}
use session_pro_backend.Prelude.{
  refl, length, suc, zero, Bool, List, Option, [], arith, ltb, some, true, ℕ, ◌&&◌, ◌++◌, ◌<◌, ◌∷◌,
  ◌≡◌, Bool-cases, List-cases, false, inl, inr, none, sym, ◌==◌, ◌≤◌, ap, ◌∙◌, Option-cases,
}
use session_pro_backend.Db.Tables.{Payment, VerifyKey}
use session_pro_backend.Db.Users.{find_user, payments_of}

abbrev pub all_before : ℕ → List Payment → Bool
all_before id [] = true
all_before id (p ∷ ps) = ltb p.id id && all_before id ps

-- Rows whose ids fall, as those of a table that only inserts in front with a fresh id.
abbrev pub is_descending : List Payment → Bool
is_descending [] = true
is_descending (p ∷ ps) = all_before p.id ps && is_descending ps

rows_before-all :
    (id : ℕ) (ps : List Payment) → all_before id ps ≡ true → rows_before (some id) ps ≡ ps
unfolding rows_before
rows_before-all id [] h = refl
rows_before-all id (p ∷ ps) h = ground (arith, rows_before-all id ps)

rows_before-rows_before :
    (id : ℕ) (before : Option ℕ) (ps : List Payment)
    → ((p : Payment) → ltb p.id id ≡ true → is_before before p ≡ true)
    → rows_before (some id) (rows_before before ps) ≡ rows_before (some id) ps
unfolding rows_before
rows_before-rows_before id before [] weaker = refl
rows_before-rows_before id before (p ∷ ps) weaker =
    ground (arith, weaker p, rows_before-rows_before id before ps weaker)

last_id-before :
    (bound id n : ℕ) (ps : List Payment)
    → id < bound
    → all_before bound ps ≡ true
    → last_id id (take n ps) < bound
unfolding last_id take
last_id-before bound id zero ps h below = h
last_id-before bound id (suc n) [] h below = h
last_id-before bound id (suc n) (p ∷ ps) h below =
    last_id-before bound p.id n ps (ground arith) (ground arith)

unfoldable drop : ℕ → List Payment → List Payment
drop zero ps = ps
drop (suc n) [] = []
drop (suc n) (p ∷ ps) = drop n ps

take-drop : (n : ℕ) (ps : List Payment) → take n ps ++ drop n ps ≡ ps
unfolding take drop
take-drop zero ps = refl
take-drop (suc n) [] = refl
take-drop (suc n) (p ∷ ps) = ground (arith, take-drop n ps)

-- The rows before the last of a full page are those behind the page.
rows_behind_page :
    (n : ℕ) (p : Payment) (ps : List Payment)
    → is_descending (p ∷ ps) ≡ true
    → length (take n ps) ≡ n
    → rows_before (some (last_id p.id (take n ps))) (p ∷ ps) ≡ drop n ps
unfolding rows_before last_id take drop
rows_behind_page zero p ps falls full = ground (arith, rows_before-all p.id ps)
rows_behind_page (suc n) p [] falls full = ground arith
rows_behind_page (suc n) p (q ∷ qs) falls full =
    ground (arith, rows_behind_page n q qs, last_id-before p.id q.id n qs)

last_id-le :
    (n : ℕ) (p : Payment) (ps : List Payment)
    → is_descending (p ∷ ps) ≡ true
    → last_id p.id (take n ps) ≤ p.id
unfolding last_id take
last_id-le zero p ps falls = omega arith
last_id-le (suc n) p [] falls = omega arith
last_id-le (suc n) p (q ∷ qs) falls =
    let lower : q.id < p.id = ground arith in
    let rest = last_id-le n q qs (ground arith) in omega (arith, lower, rest)

is_before-lower :
    (before : Option ℕ) (c : ℕ) (p q : Payment)
    → is_before before p ≡ true
    → c ≤ p.id
    → ltb q.id c ≡ true
    → is_before before q ≡ true
is_before-lower none c p q head le lower = refl
is_before-lower (some b) c p q head le lower = ground arith

head_is_before :
    (before : Option ℕ) (rows : List Payment) (p : Payment) (ps : List Payment)
    → rows_before before rows ≡ p ∷ ps
    → is_before before p ≡ true
unfolding rows_before
head_is_before before [] p ps h = ground arith
head_is_before before (q ∷ rows) p ps h = elim (Bool-cases (is_before before q)) [
  | inl earlier ↦ let same : q ≡ p = ground arith in rw (sym same) earlier
  | inr later ↦ head_is_before before rows p ps (ground arith)
]

take_short : (n : ℕ) (ps : List Payment) → (length (take n ps) == n) ≡ false → take n ps ≡ ps
unfolding take
take_short zero ps h = ground arith
take_short (suc n) [] h = refl
take_short (suc n) (p ∷ ps) h = ground (arith, take_short n ps)

drop-is_descending :
    (n : ℕ) (ps : List Payment) → is_descending ps ≡ true → is_descending (drop n ps) ≡ true
unfolding drop
drop-is_descending zero ps h = h
drop-is_descending (suc n) [] h = refl
drop-is_descending (suc n) (p ∷ ps) h = drop-is_descending n ps (ground arith)

length-drop : (n : ℕ) (ps : List Payment) → length (drop n ps) ≤ length ps
unfolding drop
length-drop zero ps = omega arith
length-drop (suc n) [] = omega arith
length-drop (suc n) (p ∷ ps) = omega (arith, length-drop n ps)

-- The pages of rows that do not change, each from the cursor of the one before: at most so many.
unfoldable pub collect_pages : ℕ → ℕ → Option ℕ → List Payment → List Payment
unfolding page_of next_cursor
collect_pages zero limit before_id rows = []
collect_pages (suc requests) limit before_id rows =
    let page = page_of limit before_id rows in
    elim (next_cursor limit page) [
      | none ↦ page
      | some cursor ↦ page ++ collect_pages requests limit (some cursor) rows
    ]

collected :
    (requests k : ℕ) (before : Option ℕ) (rows : List Payment)
    → is_descending (rows_before before rows) ≡ true
    → length (rows_before before rows) < requests
    → collect_pages requests (suc k) before rows ≡ rows_before before rows
unfolding collect_pages page_of next_cursor
collected zero k before rows falls enough = ground arith
collected (suc requests) k before rows falls enough = elim (List-cases (rows_before before rows)) [
  | inl done ↦ unfold take in ground arith
  | inr (p, ps, left) ↦
      let c = last_id p.id (take k ps) in
      elim (Bool-cases (length (take k ps) == k)) [
        | inr short ↦ unfold take in ground (arith, take_short k ps short)
        | inl full ↦
            let descending : is_descending (p ∷ ps) ≡ true = ground (arith, falls, left) in
            let weaker = λ (q : Payment) (lower : ltb q.id c ≡ true).
              is_before-lower before c p q (head_is_before before rows p ps left)
                (last_id-le k p ps descending) lower in
            let behind =
              sym (rows_before-rows_before c before rows weaker)
              ∙ (ap (rows_before (some c)) left
                  ∙ rows_behind_page k p ps descending (ground arith)) in
            let shorter = length-drop k ps in
            let falling = drop-is_descending k ps (ground arith) in
            let rest =
              collected requests k (some c) rows (rw behind falling)
                (rw behind (ground (arith, shorter, left))) in
            unfold take in ground (arith, rest, behind, take-drop k ps)
      ]
]

rows_before-none : (rows : List Payment) → rows_before none rows ≡ rows
unfolding rows_before
rows_before-none [] = refl
rows_before-none (p ∷ ps) = ground (arith, rows_before-none ps)

pub collect_pages_all :
    (requests limit : ℕ) (rows : List Payment)
    → is_descending rows ≡ true
    → 0 < limit
    → length rows < requests
    → collect_pages requests limit none rows ≡ rows
collect_pages_all requests zero rows falls positive enough = ground arith
collect_pages_all requests (suc k) rows falls positive enough =
    let all = rows_before-none rows in
    collected requests k none rows (rw all falls) (rw all enough) ∙ all

all_before-payments_of :
    (uid id : ℕ) (ps : List Payment)
    → all_before id ps ≡ true
    → all_before id (payments_of uid ps) ≡ true
all_before-payments_of uid id [] h = refl
all_before-payments_of uid id (p ∷ ps) h = ground (arith, all_before-payments_of uid id ps)

is_descending-payments_of :
    (uid : ℕ) (ps : List Payment)
    → is_descending ps ≡ true
    → is_descending (payments_of uid ps) ≡ true
is_descending-payments_of uid [] h = refl
is_descending-payments_of uid (p ∷ ps) h =
    ground (arith, is_descending-payments_of uid ps, all_before-payments_of uid p.id ps)

pub is_descending-account :
    (key : VerifyKey) (db : Db)
    → is_descending db.payments ≡ true
    → is_descending (account_payments key db) ≡ true
is_descending-account key db h = elim (Option-cases (find_user key db.users)) [
  | inl unknown ↦ ground arith
  | inr (u, found) ↦ ground (arith, is_descending-payments_of u.id db.payments)
]
