-- ===== src/Entitlement.antt =====
-- backend.py: `_lookup_user_expiry`, which folds an account's payments, newest first, into what it
-- is entitled to.
pub mod Spec
pub mod Row
pub mod Loop
pub mod Laws
use session_pro_backend.Base.Units.{DateTime, Duration, Config, epoch}
use session_pro_backend.Db.Tables.{Detail, google, apple, stf, Payment}
use session_pro_backend.Prelude.{
  Bool, List, Option, [], false, if◌then◌else◌, is_none, ltb, max, min, none, not, some, true, ℕ,
  ◌&&◌, ◌+◌, ◌∷◌, member,
}
use session_pro_backend.Coverage.{subscription_coverage_end}

pub record LookupUserExpiry : Type 0 where
  pub expiry_from_redeemed : Option DateTime
  pub grace_from_redeemed : Option Duration
  pub auto_renewing_from_redeemed : Bool
  pub best_expiry : Option DateTime
  pub best_grace : Option Duration
  pub best_auto_renewing : Bool

abbrev pub no_expiry : LookupUserExpiry
no_expiry = record {
  expiry_from_redeemed = none;
  grace_from_redeemed = none;
  auto_renewing_from_redeemed = false;
  best_expiry = none;
  best_grace = none;
  best_auto_renewing = false;
}

-- The local variables of the loop.
pub record Scan : Type 0 where
  pub credit_total : Duration
  pub used_google_tokens : List ℕ
  pub used_apple_orig_tx_ids : List ℕ
  pub used_stf_order_ids : List ℕ
  pub best_coverage : Option DateTime
  pub best_coverage_from_redeemed : Option DateTime
  pub result : LookupUserExpiry

abbrev pub start_scan : Scan
start_scan = record {
  credit_total = 0;
  used_google_tokens = [];
  used_apple_orig_tx_ids = [];
  used_stf_order_ids = [];
  best_coverage = none;
  best_coverage_from_redeemed = none;
  result = no_expiry;
}

-- `credit_remaining is not None and credit_remaining > 0`, as the length that is left.
abbrev pub live_credit : Payment → Duration
live_credit p = elim p.credit_remaining [ none ↦ 0 | some r ↦ r ]

-- Whether a newer row of the same subscription has been seen.
unfoldable pub seen_before : Detail → Scan → Bool
seen_before (google token _ _) s = member token s.used_google_tokens
seen_before (apple orig _ _ _) s = member orig s.used_apple_orig_tx_ids
seen_before (stf order) s = member order s.used_stf_order_ids

unfoldable pub mark_seen : Detail → Scan → Scan
mark_seen (google token _ _) s = record s { used_google_tokens = token ∷ s.used_google_tokens }
mark_seen (apple orig _ _ _) s = record s {
  used_apple_orig_tx_ids = orig ∷ s.used_apple_orig_tx_ids;
}
mark_seen (stf order) s = record s { used_stf_order_ids = order ∷ s.used_stf_order_ids }

-- `best is None or coverage_end > best`
abbrev pub improves : DateTime → Option DateTime → Bool
improves coverage_end none = true
improves coverage_end (some best) = ltb best coverage_end

-- A revocation can only pull the end earlier.
abbrev pub clamp_revoked : DateTime → Option DateTime → DateTime
clamp_revoked expiry_at none = expiry_at
clamp_revoked expiry_at (some revoked_at) = min expiry_at revoked_at

abbrev pub is_redeemed : Payment → Bool
is_redeemed p = not (is_none p.redeemed_at) && is_none p.revoked_at

unfoldable pub take_redeemed : DateTime → DateTime → Payment → Scan → Scan
take_redeemed expiry_at coverage_end p s =
    if is_redeemed p && improves coverage_end s.best_coverage_from_redeemed
    then record s {
      best_coverage_from_redeemed = some coverage_end;
      result = record s.result {
        expiry_from_redeemed = some expiry_at;
        grace_from_redeemed = p.grace_period;
        auto_renewing_from_redeemed = p.auto_renewing;
      };
    }
    else s

unfoldable pub take_best : DateTime → DateTime → Payment → Scan → Scan
take_best expiry_at coverage_end p s =
    if improves coverage_end s.best_coverage
    then record s {
      best_coverage = some coverage_end;
      result = record s.result {
        best_expiry = some expiry_at;
        best_grace = p.grace_period;
        best_auto_renewing = p.auto_renewing;
      };
    }
    else s

-- `credits_checkpoint_at if credits_checkpoint_at is not None else base.EPOCH`
abbrev pub anchor_of : Option DateTime → DateTime
anchor_of none = epoch
anchor_of (some t) = t

abbrev pub stack_credits : Duration → DateTime → Option DateTime → DateTime
stack_credits total anchor none = anchor + total
stack_credits total anchor (some e) = max e anchor + total

-- After the loop: credits extend what the subscriptions cover.
unfoldable pub add_credits : Option DateTime → Scan → LookupUserExpiry
add_credits credits_checkpoint_at s =
    let anchor = anchor_of credits_checkpoint_at in
    if ltb 0 s.credit_total
    then record s.result {
      best_expiry = some (stack_credits s.credit_total anchor s.result.best_expiry);
      expiry_from_redeemed =
          some (stack_credits s.credit_total anchor s.result.expiry_from_redeemed);
    }
    else s.result

module _ (config : Config) where
  -- The newest row of a subscription; `none` is a failed assertion: the row states no expiry, or is
  -- revoked and renewing.
  unfoldable pub count_payment : Payment → Scan → Option Scan
  unfolding take_redeemed take_best
  count_payment p s = elim p.expiry_at [
    | none ↦ none
    | some e ↦
        let expiry_at = clamp_revoked e p.revoked_at in
        let coverage_end =
          subscription_coverage_end config expiry_at p.grace_period p.auto_renewing in
        if not (is_none p.revoked_at) && p.auto_renewing
        then none
        else some (take_best expiry_at coverage_end p (take_redeemed expiry_at coverage_end p s))
  ]

  -- One turn of the loop.
  unfoldable pub scan_payment : Payment → Scan → Option Scan
  unfolding count_payment seen_before mark_seen
  scan_payment p s =
      if ltb 0 (live_credit p)
      then some (
          if is_none p.revoked_at
          then record s { credit_total = s.credit_total + live_credit p }
          else s)
      else if seen_before p.detail s
      then some s
      else count_payment p (mark_seen p.detail s)

  unfoldable pub scan_payments : List Payment → Scan → Option Scan
  scan_payments [] s = some s
  scan_payments (p ∷ ps) s = elim (scan_payment p s) [ none ↦ none | some s' ↦ scan_payments ps s' ]

  -- `_lookup_user_expiry` on the rows of the account, newest first, and its drain checkpoint.
  unfoldable pub lookup_user_expiry : Option DateTime → List Payment → Option LookupUserExpiry
  lookup_user_expiry credits_checkpoint_at rows = elim (scan_payments rows start_scan) [
    | none ↦ none
    | some s ↦ some (add_credits credits_checkpoint_at s)
  ]
