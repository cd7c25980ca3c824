-- ===== src/Entitlement/Spec.antt =====
-- What an account's payments entitle it to, without the loop: the newest row of each subscription,
-- the furthest coverage among them, and the live credits added up.
use session_pro_backend.Base.Units.{DateTime, Duration, Config}
use session_pro_backend.Db.Tables.{Detail, google, apple, stf, Payment}
use session_pro_backend.Entitlement.{
  Scan, clamp_revoked, is_redeemed, live_credit, mark_seen, seen_before,
}
use session_pro_backend.Prelude.{
  Bool, List, Option, [], arith, false, if◌then◌else◌, is_none, ltb, max, none, not, some, true,
  ◌&&◌, ◌+◌, ◌==◌, ◌∷◌, ◌≡◌,
}
use session_pro_backend.Coverage.{subscription_coverage_end}

-- Two rows of one subscription: one purchase token, one original transaction, one order.
abbrev pub same_subscription : Detail → Detail → Bool
same_subscription (google t _ _) (google u _ _) = t == u
same_subscription (apple t _ _ _) (apple u _ _ _) = t == u
same_subscription (stf t) (stf u) = t == u
same_subscription _ _ = false

abbrev pub seen_in : Detail → List Detail → Bool
seen_in d [] = false
seen_in d (e ∷ es) = if same_subscription d e then true else seen_in d es

-- The rows that the loop counts, given the subscriptions that newer rows belong to: no live credit,
-- and the newest row of each subscription.
abbrev pub newest : List Detail → List Payment → List Payment
newest visited [] = []
newest visited (p ∷ ps) =
    if ltb 0 (live_credit p)
    then newest visited ps
    else if seen_in p.detail visited
    then newest visited ps
    else p ∷ newest (p.detail ∷ visited) ps

-- The length that the credits which are neither spent nor revoked have left.
abbrev pub live_total : List Payment → Duration
live_total [] = 0
live_total (p ∷ ps) = if is_none p.revoked_at then live_credit p + live_total ps else live_total ps

abbrev pub end_of : Payment → DateTime
end_of p = elim p.expiry_at [ none ↦ 0 | some e ↦ clamp_revoked e p.revoked_at ]

abbrev pub later_of : DateTime → Option DateTime → DateTime
later_of t none = t
later_of t (some u) = max t u

module _ (config : Config) where
  -- How long one counted row covers the account.
  abbrev pub coverage_of : Payment → DateTime
  coverage_of p = subscription_coverage_end config (end_of p) p.grace_period p.auto_renewing

  -- The furthest coverage of some rows.
  abbrev pub furthest : List Payment → Option DateTime
  furthest [] = none
  furthest (p ∷ ps) = some (later_of (coverage_of p) (furthest ps))

abbrev pub redeemed_rows : List Payment → List Payment
redeemed_rows [] = []
redeemed_rows (p ∷ ps) = if is_redeemed p then p ∷ redeemed_rows ps else redeemed_rows ps

-- The constraint of the payments table and the two facts that the loop asserts: a row with no
-- expiry is a credit that still has length, and a revoked row does not renew.
abbrev pub IsSound : Payment → Type 0
IsSound p =
    ((is_none p.expiry_at && not (ltb 0 (live_credit p))) ≡ false)
    × ((not (is_none p.revoked_at) && p.auto_renewing) ≡ false)

-- The details that the three sets of the loop stand for.
abbrev pub Tracks : List Detail → Scan → Type 0
Tracks visited s = (d : Detail) → seen_before d s ≡ seen_in d visited

pub Tracks-mark :
    (visited : List Detail) (s : Scan) (d : Detail)
    → Tracks visited s
    → Tracks (d ∷ visited) (mark_seen d s)
unfolding seen_before mark_seen
Tracks-mark visited s (google t o a) h (google u p b) = ground (arith, h (google u p b))
Tracks-mark visited s (google t o a) h (apple u p b c) = ground (arith, h (apple u p b c))
Tracks-mark visited s (google t o a) h (stf u) = ground (arith, h (stf u))
Tracks-mark visited s (apple t o a w) h (google u p b) = ground (arith, h (google u p b))
Tracks-mark visited s (apple t o a w) h (apple u p b c) = ground (arith, h (apple u p b c))
Tracks-mark visited s (apple t o a w) h (stf u) = ground (arith, h (stf u))
Tracks-mark visited s (stf t) h (google u p b) = ground (arith, h (google u p b))
Tracks-mark visited s (stf t) h (apple u p b c) = ground (arith, h (apple u p b c))
Tracks-mark visited s (stf t) h (stf u) = ground (arith, h (stf u))
