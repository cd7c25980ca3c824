-- ===== src/Entitlement/Laws.antt =====
-- What `_lookup_user_expiry` answers.
use mathlib.Core.Path.{ap₂}
use session_pro_backend.Base.Units.{DateTime, Duration, Config}
use session_pro_backend.Db.Tables.{google, apple, stf, Payment}
use session_pro_backend.Entitlement.Spec.{
  Tracks, IsSound, furthest, live_total, newest, redeemed_rows,
}
use session_pro_backend.Prelude.{
  All, List, Option, [], if◌then◌else◌, ltb, refl, some, ◌≡◌, ap, arith, sym, ◌∙◌,
}
use session_pro_backend.Entitlement.{
  LookupUserExpiry, anchor_of, lookup_user_expiry, seen_before, stack_credits, start_scan, Scan,
  add_credits, scan_payments,
}
use session_pro_backend.Entitlement.Loop.{scan_payments-Scanned}
use session_pro_backend.Entitlement.Row.{IsConsistent, winner_coverage}

start_Tracks : Tracks [] start_scan
unfolding seen_before
start_Tracks (google t o a) = refl
start_Tracks (apple t o a w) = refl
start_Tracks (stf t) = refl

-- The expiry that credits of a total length make of one that subscriptions give.
abbrev pub extended : Duration → DateTime → Option DateTime → Option DateTime
extended total anchor e = if ltb 0 total then some (stack_credits total anchor e) else e

-- The fields of the answer after the credits are added.
record Added (checkpoint : Option DateTime) (s : Scan) (r : LookupUserExpiry) : Type 0 where
  best : r.best_expiry ≡ extended s.credit_total (anchor_of checkpoint) s.result.best_expiry
  grace : r.best_grace ≡ s.result.best_grace
  renewing : r.best_auto_renewing ≡ s.result.best_auto_renewing
  redeemed :
      r.expiry_from_redeemed
      ≡ extended s.credit_total (anchor_of checkpoint) s.result.expiry_from_redeemed
  redeemed_grace : r.grace_from_redeemed ≡ s.result.grace_from_redeemed
  redeemed_renewing : r.auto_renewing_from_redeemed ≡ s.result.auto_renewing_from_redeemed

add_credits_fields :
    (checkpoint : Option DateTime) (s : Scan) → Added checkpoint s (add_credits checkpoint s)
unfolding add_credits
add_credits_fields checkpoint s = ground arith

module _ (config : Config) (checkpoint : Option DateTime) (rows : List Payment) where
  lookup-scan :
      (s : Scan)
      → scan_payments config rows start_scan ≡ some s
      → lookup_user_expiry config checkpoint rows ≡ some (add_credits checkpoint s)
  unfolding lookup_user_expiry
  lookup-scan s h = rw (h, lookup_user_expiry)

  -- On rows that meet the loop's assertions the lookup gives an answer `r`. There is an expiry `e`
  -- such that the best expiry is `e` extended by the live credits, and with the answer's grace and
  -- renewal flag `e` covers exactly until the furthest coverage of the counted rows: the newest row
  -- of each subscription, live credits left out. The answer for redeemed rows is made so from those
  -- counted rows that are redeemed and not revoked.
  pub lookup_user_expiry_lem :
      All IsSound rows
      → (r : LookupUserExpiry) × (e e' : Option DateTime) × (lookup_user_expiry config checkpoint
            rows
          ≡ some r)
        × (r.best_expiry ≡ extended (live_total rows) (anchor_of checkpoint) e)
        × (winner_coverage config e r.best_grace r.best_auto_renewing
            ≡ furthest config (newest [] rows))
        × (r.expiry_from_redeemed ≡ extended (live_total rows) (anchor_of checkpoint) e')
        × (winner_coverage config e' r.grace_from_redeemed r.auto_renewing_from_redeemed
            ≡ furthest config (redeemed_rows (newest [] rows)))
  lookup_user_expiry_lem sound =
      let scan = scan_payments-Scanned config [] rows start_scan sound start_Tracks in
      let s : Scan = scan.0 in
      let consistent = scan.2.consistent start-IsConsistent in
      let added = add_credits_fields checkpoint s in
      let total : s.credit_total ≡ live_total rows = scan.2.credit ∙ omega arith in
      (
        add_credits checkpoint s,
        s.result.best_expiry,
        s.result.expiry_from_redeemed,
        lookup-scan s scan.1,
        added.best ∙ ap (λ t. extended t (anchor_of checkpoint) s.result.best_expiry) total,
        ap₂ (winner_coverage config s.result.best_expiry) added.grace added.renewing
            ∙ sym consistent.best
            ∙ scan.2.best,
        added.redeemed
            ∙ ap (λ t. extended t (anchor_of checkpoint) s.result.expiry_from_redeemed) total,
        ap₂ (winner_coverage config s.result.expiry_from_redeemed) added.redeemed_grace
              added.redeemed_renewing
            ∙ sym consistent.redeemed
            ∙ scan.2.redeemed,
      )
    where
      start-IsConsistent : IsConsistent config start_scan
      start-IsConsistent = record { best = refl; redeemed = refl }
