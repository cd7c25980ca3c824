-- ===== src/GooglePlay/Resource/Owned.antt =====
-- providers/google_play/api.py: which line item of a resource decides.
use mathlib.Core.Path.{subst}
use session_pro_backend.GooglePlay.Resource.{
  SubscriptionV2Data, SubscriptionV2DataLineItem, furthest, owned_items, parse_line_item,
}
use session_pro_backend.Prelude.{
  All, List, List-cases, [], arith, false, inl, inr, is_none, ltb, some, ℕ, ◌∷◌, ◌≡◌, ◌≤◌,
  Bool-cases, ap, refl, sym, ◌∙◌, ◌⊎◌, if◌then◌else◌,
}
use session_pro_backend.GooglePlay.Reconcile.Recorded.{has_order}

abbrev pub Among : SubscriptionV2DataLineItem → List SubscriptionV2DataLineItem → Type 0
Among item [] = ⊥
Among item (i ∷ is) = (i ≡ item) ⊎ Among item is

-- An item that the user owns ends no later than the given instant.
abbrev pub OwnedBy : ℕ → SubscriptionV2DataLineItem → Type 0
OwnedBy end item = is_none item.latest_successful_order_id ≡ false → item.expiry_time ≤ end

-- The later of two items, the first where they end at one instant.
abbrev later_of :
    SubscriptionV2DataLineItem → SubscriptionV2DataLineItem → SubscriptionV2DataLineItem
later_of best item = if ltb best.expiry_time item.expiry_time then item else best

later_of-bounds :
    (best item : SubscriptionV2DataLineItem)
    → (best.expiry_time ≤ (later_of best item).expiry_time)
      × (item.expiry_time ≤ (later_of best item).expiry_time)
later_of-bounds best item = (ground arith, ground arith)

later_of-cases :
    (best item : SubscriptionV2DataLineItem)
    → (best ≡ later_of best item) ⊎ (item ≡ later_of best item)
later_of-cases best item = elim (Bool-cases (ltb best.expiry_time item.expiry_time)) [
  | inl later ↦ inr (ground arith)
  | inr other ↦ inl (ground arith)
]

furthest-bounds :
    (best : SubscriptionV2DataLineItem) (items : List SubscriptionV2DataLineItem)
    → (best.expiry_time ≤ (furthest best items).expiry_time)
      × All (λ i. i.expiry_time ≤ (furthest best items).expiry_time) items
unfolding furthest
furthest-bounds best [] = (omega arith, tt)
furthest-bounds best (item ∷ items) =
    let chosen = later_of best item in
    let (over_chosen, over_rest) = furthest-bounds chosen items in
    let (best_under, item_under) = later_of-bounds best item in
    let end = (furthest chosen items).expiry_time in
    let over_best : best.expiry_time ≤ end = omega (arith, best_under, over_chosen) in
    let over_item : item.expiry_time ≤ end = omega (arith, item_under, over_chosen) in
    (over_best, (over_item, over_rest))

furthest-Among :
    (best : SubscriptionV2DataLineItem) (items : List SubscriptionV2DataLineItem)
    → Among (furthest best items) (best ∷ items)
unfolding furthest
furthest-Among best [] = inl refl
furthest-Among best (item ∷ items) = elim (furthest-Among (later_of best item) items) [
  | inr there ↦ inr (inr there)
  | inl same ↦ elim (later_of-cases best item) [
    | inl first ↦ inl (first ∙ same)
    | inr second ↦ inr (inl (second ∙ same))
  ]
]

Among-owned :
    (item : SubscriptionV2DataLineItem) (items : List SubscriptionV2DataLineItem)
    → Among item (owned_items items)
    → Among item items × (is_none item.latest_successful_order_id ≡ false)
Among-owned item (i ∷ is) h = elim (Bool-cases (is_none i.latest_successful_order_id)) [
  | inl unowned ↦ let rest = Among-owned item is (rw unowned at h) in (inr rest.0, rest.1)
  | inr owned ↦ elim (rw owned at h) [
    | inl same ↦ (inl same, ap (λ x. is_none x.latest_successful_order_id) (sym same) ∙ owned)
    | inr there ↦ let rest = Among-owned item is there in (inr rest.0, rest.1)
  ]
]
Among-owned item [] h = elim h [ ]

owned_end_bound :
    (end : ℕ) (items : List SubscriptionV2DataLineItem)
    → All (λ i. i.expiry_time ≤ end) (owned_items items)
    → All (OwnedBy end) items
owned_end_bound end [] h = tt
owned_end_bound end (i ∷ is) h = elim (Bool-cases (is_none i.latest_successful_order_id)) [
  | inl unowned ↦ (λ owned. absurd (ground arith), owned_end_bound end is (rw unowned at h))
  | inr owned ↦
      let both : (i.expiry_time ≤ end) × All (λ j. j.expiry_time ≤ end) (owned_items is) =
        rw owned at h in
      (λ _. both.0, owned_end_bound end is both.1)
]

-- The line item that the reconcile reads is one of the resource's, the user owns it, and no item
-- that the user owns ends later, in whatever order the store lists them.
pub parse_line_item_lem :
    (details : SubscriptionV2Data) (item : SubscriptionV2DataLineItem)
    → (parse_line_item details).0 ≡ some item
    → Among item details.line_items
      × (is_none item.latest_successful_order_id ≡ false)
      × All (OwnedBy item.expiry_time) details.line_items
unfolding parse_line_item
parse_line_item_lem details item h = elim (List-cases (owned_items details.line_items)) [
  | inl unowned ↦ ground arith
  | inr (first, rest, owned) ↦
      let same : furthest first rest ≡ item = ground arith in
      let chosen : Among item (first ∷ rest) =
        subst (λ i. Among i (first ∷ rest)) same (furthest-Among first rest) in
      let (first_under, rest_under) = furthest-bounds first rest in
      let bounds : All (λ i. i.expiry_time ≤ (furthest first rest).expiry_time) (first ∷ rest) =
        (first_under, rest_under) in
      let (there, has_order) = Among-owned item details.line_items (rw owned chosen) in
      (
        there,
        has_order,
        owned_end_bound item.expiry_time details.line_items (
            rw owned
              (subst (λ i. All (λ j. j.expiry_time ≤ i.expiry_time) (first ∷ rest)) same bounds)),
      )
]
