-- ===== src/Entitlement/Row.antt =====
-- What one turn of the loop of `_lookup_user_expiry` makes of its variables.
use session_pro_backend.Base.Units.{DateTime, Duration, Config}
use session_pro_backend.Db.Tables.{Detail, google, apple, stf, Payment}
use session_pro_backend.Entitlement.{
  Scan, count_payment, live_credit, seen_before, take_best, take_redeemed, mark_seen,
}
use session_pro_backend.Prelude.{
  Bool, Option, [], ap, arith, false, if◌then◌else◌, is_none, ltb, max, none, refl, some, ◌+◌, ◌∷◌,
  ◌≡◌,
}
use session_pro_backend.Entitlement.Spec.{
  IsSound, coverage_of, end_of, furthest, later_of, redeemed_rows,
}
use session_pro_backend.Coverage.{subscription_coverage_end}

-- The later of two optional instants.
abbrev pub join : Option DateTime → Option DateTime → Option DateTime
join none b = b
join (some a) none = some a
join (some a) (some b) = some (max a b)

pub join_assoc :
    (a : Option DateTime) (t : DateTime) (c : Option DateTime)
    → join (join a (some t)) c ≡ join a (some (later_of t c))
join_assoc none t none = refl
join_assoc none t (some c) = refl
join_assoc (some a) t none = refl
join_assoc (some a) t (some c) = ap some (omega arith)

pub join-none : (a : Option DateTime) → join a none ≡ a
join-none none = refl
join-none (some a) = refl

pub mark_keeps :
    (d : Detail) (s : Scan)
    → ((mark_seen d s).best_coverage ≡ s.best_coverage)
      × ((mark_seen d s).best_coverage_from_redeemed ≡ s.best_coverage_from_redeemed)
      × ((mark_seen d s).credit_total ≡ s.credit_total)
      × ((mark_seen d s).result ≡ s.result)
unfolding mark_seen
mark_keeps (google t o a) s = (refl, refl, refl, refl)
mark_keeps (apple t o a w) s = (refl, refl, refl, refl)
mark_keeps (stf t) s = (refl, refl, refl, refl)

unfoldable pub add_credit : Payment → Scan → Scan
add_credit p s =
    if is_none p.revoked_at then record s { credit_total = s.credit_total + live_credit p } else s

pub seen-add_credit :
    (d : Detail) (p : Payment) (s : Scan) → seen_before d (add_credit p s) ≡ seen_before d s
unfolding seen_before add_credit
seen-add_credit (google t o a) p s = ground arith
seen-add_credit (apple t o a w) p s = ground arith
seen-add_credit (stf t) p s = ground arith

module _ (config : Config) where
  -- What the row's counting does once its assertions hold.
  unfoldable pub counted : Payment → Scan → Scan
  counted p s =
      take_best (end_of p) (coverage_of config p) p
        (take_redeemed (end_of p) (coverage_of config p) p s)

  pub count-counted :
      (p : Payment) (s : Scan)
      → IsSound p
      → ltb 0 (live_credit p) ≡ false
      → count_payment config p s ≡ some (counted p s)
  unfolding count_payment counted
  count-counted p s h l = ground arith

  -- The winner's expiry, grace and renewal flag cover as long as the best coverage says.
  abbrev pub winner_coverage : Option DateTime → Option Duration → Bool → Option DateTime
  winner_coverage none g r = none
  winner_coverage (some e) g r = some (subscription_coverage_end config e g r)

  pub record IsConsistent (s : Scan) : Type 0 where
    pub best :
        s.best_coverage
        ≡ winner_coverage s.result.best_expiry s.result.best_grace s.result.best_auto_renewing
    pub redeemed :
        s.best_coverage_from_redeemed
        ≡ winner_coverage s.result.expiry_from_redeemed s.result.grace_from_redeemed
            s.result.auto_renewing_from_redeemed

  pub counted-IsConsistent : (p : Payment) (s : Scan) → IsConsistent s → IsConsistent (counted p s)
  unfolding counted take_best take_redeemed
  counted-IsConsistent p s h = ground arith

  pub counted_best :
      (p : Payment) (s : Scan)
      → (counted p s).best_coverage ≡ join s.best_coverage (some (coverage_of config p))
  unfolding counted take_best take_redeemed
  counted_best p s = ground arith

  pub counted_redeemed :
      (p : Payment) (s : Scan)
      → (counted p s).best_coverage_from_redeemed
        ≡ join s.best_coverage_from_redeemed (furthest config (redeemed_rows (p ∷ [])))
  unfolding counted take_best take_redeemed
  counted_redeemed p s = ground arith

  pub counted_credit : (p : Payment) (s : Scan) → (counted p s).credit_total ≡ s.credit_total
  unfolding counted take_best take_redeemed
  counted_credit p s = ground arith

  pub counted_seen :
      (d : Detail) (p : Payment) (s : Scan) → seen_before d (counted p s) ≡ seen_before d s
  unfolding counted take_best take_redeemed seen_before
  counted_seen (google t o a) p s = ground arith
  counted_seen (apple t o a w) p s = ground arith
  counted_seen (stf t) p s = ground arith
