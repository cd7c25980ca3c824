-- ===== src/GooglePlay/Pass/Delay.antt =====
-- providers/google_play/notifications.py: how long a failed reconcile waits.
use Prim.Native.Nat.pow
use Prim.Native.Nat.{◌^◌}
use session_pro_backend.GooglePlay.Pass.{
  reconcile_retry_delay, reconcile_retry_max, reconcile_retry_min,
}
use session_pro_backend.Prelude.{
  arith, min, suc, ℕ, ◌*◌, ◌≡◌, ◌≤◌, Bool-cases, inl, inr, ltb, refl, if◌then◌else◌,
}
use session_pro_backend.Base.Units.{Duration}

abbrev capped : Duration → Duration
capped d = if ltb d reconcile_retry_max then d else reconcile_retry_max

capped-twice : (d : Duration) → capped (2 * d) ≡ min (2 * capped d) reconcile_retry_max
capped-twice d = ground arith

doubled : (n : ℕ) → reconcile_retry_min * 2 ^ suc n ≡ 2 * (reconcile_retry_min * 2 ^ n)
doubled n = rw (pow.suc 2 n) (omega arith)

late_min : (n : ℕ) → 16 ≤ n → min n 16 ≡ 16
late_min n h = omega (arith, h)

-- The delay of a token that has not failed before is the shortest, and every further failure
-- doubles it until it reaches the longest, which it keeps.
pub reconcile_retry_delay_lem :
    (attempts : ℕ)
    → (reconcile_retry_delay 0 ≡ reconcile_retry_min)
      × (reconcile_retry_delay (suc attempts)
          ≡ min (2 * reconcile_retry_delay attempts) reconcile_retry_max)
unfolding reconcile_retry_delay
reconcile_retry_delay_lem attempts = (
  refl,
  elim (Bool-cases (ltb attempts 16)) [
    | inl early ↦
        let below : suc attempts ≤ 16 = ground arith in
        let this : min attempts 16 ≡ attempts = omega (arith, below) in
        let next : min (suc attempts) 16 ≡ suc attempts = omega (arith, below) in
        rw (this, next, doubled attempts) (capped-twice (reconcile_retry_min * 2 ^ attempts))
    | inr late ↦
        let above : 16 ≤ attempts = ground arith in
        rw (late_min attempts above, late_min (suc attempts) (omega (arith, above))) refl
  ],
)
