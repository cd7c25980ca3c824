-- ===== src/Base/Units.antt =====
-- base.py: instants, durations, their conversions, and the constants.
-- An instant is a count of microseconds since the epoch and a duration a count of microseconds,
-- the resolution of a store's and of the database's timestamps. Instants before 1970 are not
-- modelled.
use session_pro_backend.Prelude.{ℕ, ◌+◌, ◌*◌, ◌/◌}

abbrev pub DateTime : Type 0
DateTime = ℕ

abbrev pub Duration : Type 0
Duration = ℕ

abbrev pub epoch : DateTime
epoch = 0

abbrev pub millisecond : Duration
millisecond = 1000

abbrev pub second : Duration
second = 1000000

abbrev pub hour : Duration
hour = 3600 * second

abbrev pub day : Duration
day = 24 * hour

-- `DEFAULT_TIMESTAMP_TOLERANCE`
abbrev pub default_timestamp_tolerance : Duration
default_timestamp_tolerance = 70 * second

abbrev pub revocation_poll_interval : Duration
revocation_poll_interval = 1 * day

abbrev pub revocation_effective_delay : Duration
revocation_effective_delay = revocation_poll_interval + 2 * hour

abbrev pub revocation_retain_for : Duration
revocation_retain_for = 31 * day

abbrev pub google_notification_retain_for : Duration
google_notification_retain_for = 8 * day

abbrev pub proof_issue_window : Duration
proof_issue_window = 7 * day

unfoldable pub datetime_from_unix_ms : ℕ → DateTime
datetime_from_unix_ms unix_ms = epoch + unix_ms * millisecond

unfoldable pub unix_ms_from_datetime : DateTime → ℕ
unix_ms_from_datetime value = value / millisecond

unfoldable pub datetime_from_unix_seconds : ℕ → DateTime
datetime_from_unix_seconds unix_s = epoch + unix_s * second

unfoldable pub unix_seconds_from_datetime : DateTime → ℕ
unix_seconds_from_datetime value = value / second

unfoldable pub duration_from_seconds : ℕ → Duration
duration_from_seconds s = s * second

unfoldable pub seconds_from_duration : Duration → ℕ
seconds_from_duration value = value / second

-- What an operator sets in the `[base]` section of the configuration.
pub record Config : Type 0 where
  -- `RENEWAL_LATENCY_ALLOWANCE`
  pub renewal_latency_allowance : Duration
  -- `MAX_PROOFS_PER_WINDOW`; 0 is unlimited
  pub max_proofs_per_window : ℕ

abbrev pub default_config : Config
default_config = record { renewal_latency_allowance = 1 * hour; max_proofs_per_window = 0 }
