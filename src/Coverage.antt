-- ===== src/Coverage.antt =====
-- backend.py: how long a payment, or an account, is served past its paid-through expiry.
use session_pro_backend.Prelude.{◌+◌, ◌≤◌, Bool, Option, none, some, arith, if◌then◌else◌}
use session_pro_backend.Base.Units.{DateTime, Duration, Config}

-- `store_grace if store_grace is not None else pendulum.duration()`
abbrev pub grace_or_zero : Option Duration → Duration
grace_or_zero none = 0
grace_or_zero (some g) = g

unfoldable pub subscription_coverage_end : Config → DateTime → Option Duration → Bool → DateTime
subscription_coverage_end config expiry_at store_grace auto_renewing =
    if auto_renewing
    then expiry_at + grace_or_zero store_grace + config.renewal_latency_allowance
    else expiry_at

-- Coverage never ends before the paid term.
pub expiry-le-coverage :
    (c : Config) (e : DateTime) (g : Option Duration) (r : Bool)
    → e ≤ subscription_coverage_end c e g r
unfolding subscription_coverage_end
expiry-le-coverage c e g r = ground arith

-- A later expiry with the same grace and renewal flag covers at least as long.
pub coverage_mono :
    (c : Config) (e e' : DateTime) (g : Option Duration) (r : Bool)
    → e ≤ e'
    → subscription_coverage_end c e g r ≤ subscription_coverage_end c e' g r
unfolding subscription_coverage_end
coverage_mono c e e' g r h = ground arith
