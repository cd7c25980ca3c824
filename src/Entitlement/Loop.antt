-- ===== src/Entitlement/Loop.antt =====
-- The loop of `_lookup_user_expiry` computes the furthest coverage, among all counted rows and
-- among those that are redeemed and not revoked, and the total of the live credits.
use session_pro_backend.Entitlement.Row.{
  counted-IsConsistent, counted_credit, counted_redeemed, counted_best, counted_seen, IsConsistent,
  count-counted, counted, join, add_credit, join-none, join_assoc, mark_keeps, seen-add_credit,
}
use session_pro_backend.Base.Units.{DateTime, Config}
use session_pro_backend.Db.Tables.{Detail, Payment}
use session_pro_backend.Entitlement.{
  Scan, live_credit, seen_before, mark_seen, is_redeemed, scan_payment, scan_payments,
}
use session_pro_backend.Prelude.{
  List, Option, [], ap, arith, false, ltb, refl, some, ◌+◌, ◌∷◌, ◌≡◌, true, ◌∙◌, All, Bool-cases,
  inl, inr,
}
use session_pro_backend.Entitlement.Spec.{
  IsSound, coverage_of, furthest, live_total, newest, redeemed_rows, seen_in, Tracks, Tracks-mark,
}

module _ (config : Config) where
  join-redeemed_rows :
      (a : Option DateTime) (p : Payment) (rows : List Payment)
      → join
          (join a (furthest config (redeemed_rows (p ∷ []))))
          (furthest config (redeemed_rows rows))
        ≡ join a (furthest config (redeemed_rows (p ∷ rows)))
  join-redeemed_rows a p rows = elim (Bool-cases (is_redeemed p)) [
    | inl claimed ↦
        rw claimed (join_assoc a (coverage_of config p) (furthest config (redeemed_rows rows)))
    | inr unclaimed ↦ rw (unclaimed, join-none a)
  ]

  -- What a scan of rows makes of the variables.
  pub record Scanned (visited : List Detail) (ps : List Payment) (s s' : Scan) : Type 0 where
    pub best : s'.best_coverage ≡ join s.best_coverage (furthest config (newest visited ps))
    pub redeemed :
        s'.best_coverage_from_redeemed
        ≡ join s.best_coverage_from_redeemed (furthest config (redeemed_rows (newest visited ps)))
    pub credit : s'.credit_total ≡ s.credit_total + live_total ps
    pub consistent : IsConsistent config s → IsConsistent config s'

  Scanned-nil : (visited : List Detail) (s : Scan) → Scanned visited [] s s
  Scanned-nil visited s = record {
    best = ground arith;
    redeemed = ground arith;
    credit = omega arith;
    consistent = λ h. h;
  }

  -- A row that the loop does not count: a live credit, or an older row of a subscription.
  Scanned-credit :
      (visited : List Detail) (p : Payment) (ps : List Payment) (s s' : Scan)
      → ltb 0 (live_credit p) ≡ true
      → Scanned visited ps (add_credit p s) s'
      → Scanned visited (p ∷ ps) s s'
  unfolding add_credit
  Scanned-credit visited p ps s s' live h = record {
    best = h.best ∙ ground arith;
    redeemed = h.redeemed ∙ ground arith;
    credit = h.credit ∙ ground arith;
    consistent = λ c. h.consistent (ground (arith, c.best, c.redeemed));
  }

  Scanned-older :
      (visited : List Detail) (p : Payment) (ps : List Payment) (s s' : Scan)
      → ltb 0 (live_credit p) ≡ false
      → seen_in p.detail visited ≡ true
      → Scanned visited ps s s'
      → Scanned visited (p ∷ ps) s s'
  Scanned-older visited p ps s s' spent old h = record {
    best = ground (arith, h.best);
    redeemed = ground (arith, h.redeemed);
    credit = ground (arith, h.credit);
    consistent = h.consistent;
  }

  Scanned-counted :
      (visited : List Detail) (p : Payment) (ps : List Payment) (s marked_s s' : Scan)
      → ltb 0 (live_credit p) ≡ false
      → seen_in p.detail visited ≡ false
      → marked_s ≡ mark_seen p.detail s
      → Scanned (p.detail ∷ visited) ps (counted config p marked_s) s'
      → Scanned visited (p ∷ ps) s s'
  Scanned-counted visited p ps s marked_s s' spent new marked h =
      let rows = newest (p.detail ∷ visited) ps in
      let kept = mark_keeps p.detail s in
      record {
        best =
            h.best
            ∙ ap (λ b. join b (furthest config rows)) (counted_best config p marked_s)
            ∙ join_assoc marked_s.best_coverage (coverage_of config p) (furthest config rows)
            ∙ ground (arith, kept);
        redeemed =
            h.redeemed
            ∙ ap (λ b. join b (furthest config (redeemed_rows rows)))
                (counted_redeemed config p marked_s)
            ∙ join-redeemed_rows marked_s.best_coverage_from_redeemed p rows
            ∙ ground (arith, kept);
        credit = h.credit ∙ ground (arith, kept, counted_credit config p marked_s);
        consistent = λ c.
            h.consistent
              (counted-IsConsistent config p marked_s (ground (arith, kept, c.best, c.redeemed)));
      }

  scan-cons :
      (p : Payment) (ps : List Payment) (s s' : Scan)
      → scan_payment config p s ≡ some s'
      → scan_payments config (p ∷ ps) s ≡ scan_payments config ps s'
  unfolding scan_payments
  scan-cons p ps s s' h = rw (h, scan_payments)

  scan_live :
      (p : Payment) (s : Scan)
      → ltb 0 (live_credit p) ≡ true
      → scan_payment config p s ≡ some (add_credit p s)
  unfolding scan_payment add_credit
  scan_live p s live = rw live

  scan_older :
      (p : Payment) (s : Scan)
      → ltb 0 (live_credit p) ≡ false
      → seen_before p.detail s ≡ true
      → scan_payment config p s ≡ some s
  unfolding scan_payment
  scan_older p s spent old = rw (spent, old)

  scan_new :
      (p : Payment) (s : Scan)
      → IsSound p
      → ltb 0 (live_credit p) ≡ false
      → seen_before p.detail s ≡ false
      → scan_payment config p s ≡ some (counted config p (mark_seen p.detail s))
  unfolding scan_payment
  scan_new p s sound spent new =
      rw (spent, new) (count-counted config p (mark_seen p.detail s) sound spent)

  -- A scan of sound rows succeeds, and does what the specification says.
  pub scan_payments-Scanned :
      (visited : List Detail) (ps : List Payment) (s : Scan)
      → All IsSound ps
      → Tracks visited s
      → (s' : Scan) × (scan_payments config ps s ≡ some s') × Scanned visited ps s s'
  unfolding scan_payments
  scan_payments-Scanned visited [] s sound t = (s, refl, Scanned-nil visited s)
  scan_payments-Scanned visited (p ∷ ps) s sound t = elim (Bool-cases (ltb 0 (live_credit p))) [
    | inl live ↦
        let rest =
          scan_payments-Scanned visited ps (add_credit p s) sound.1
            (λ d. seen-add_credit d p s ∙ t d) in
        (
          rest.0,
          scan-cons p ps s (add_credit p s) (scan_live p s live) ∙ rest.1,
          Scanned-credit visited p ps s rest.0 live rest.2,
        )
    | inr spent ↦ elim (Bool-cases (seen_in p.detail visited)) [
      | inl old ↦
          let rest = scan_payments-Scanned visited ps s sound.1 t in
          (
            rest.0,
            scan-cons p ps s s (scan_older p s spent (t p.detail ∙ old)) ∙ rest.1,
            Scanned-older visited p ps s rest.0 spent old rest.2,
          )
      | inr new ↦
          let marked_s : Scan = mark_seen p.detail s in
          let rest =
            scan_payments-Scanned (p.detail ∷ visited) ps (counted config p marked_s) sound.1
              (λ d. counted_seen config d p marked_s ∙ Tracks-mark visited s p.detail t d) in
          (
            rest.0,
            scan-cons p ps s (counted config p marked_s)
                  (scan_new p s sound.0 spent (t p.detail ∙ new))
                ∙ rest.1,
            Scanned-counted visited p ps s marked_s rest.0 spent new refl rest.2,
          )
    ]
  ]
