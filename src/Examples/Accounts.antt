-- ===== src/Examples/Accounts.antt =====
-- A small database, and the transactions on it.
use session_pro_backend.Base.Errors.{ok}
use session_pro_backend.Proof.{build_proof_clamped_expiry_time}
use session_pro_backend.Base.Grid.{
  offset_range, round_datetime_up_onto_offset_grid, grid_origin, proof_expiry_shape,
}
use session_pro_backend.Coverage.{subscription_coverage_end}
use session_pro_backend.Issue.{
  sign_counted_proof, ProSubscriptionProof, SignatureScheme, build_current_entitlement_proof,
}
use session_pro_backend.Message.Decimal.{decimal}
use session_pro_backend.Entitlement.{lookup_user_expiry, scan_payments, scan_payment, add_credits}
use session_pro_backend.Db.Account.{allocate_generation}
use session_pro_backend.Base.Units.{day, hour, second}
use session_pro_backend.Db.Tables.{
  google, one_month, stf, three_month, Generation, Payment, User, VerifyKey,
}
use session_pro_backend.Message.{Bytes}
use session_pro_backend.Db.Monad.{Db, Env}
use session_pro_backend.Issue.Sound.{IsHonest, issued_proof-IsHonest}
use session_pro_backend.Prelude.{
  [], arith, bytes_eq, false, length, none, refl, some, true, ℕ, ◌*◌, ◌+◌, ◌==◌, ◌∷◌, ◌≡◌,
}
use session_pro_backend.Db.Users.{get_user}
use session_pro_backend.Db.Generations.{is_generation_revoked}
use session_pro_backend.Redeem.{reconcile_pending_payments}
use session_pro_backend.Redeem.Idempotent.{reconcile_twice}

-- The signature library, as a concrete one: a signature names the key and the message's length.
abbrev signature_of : VerifyKey → Bytes → Bytes
signature_of pkey m = pkey ∷ length m ∷ []

pub same_bytes : (m : Bytes) → bytes_eq m m ≡ true
same_bytes [] = refl
same_bytes (b ∷ bs) = ground (arith, same_bytes bs)

abbrev pub naming_scheme : SignatureScheme
naming_scheme = record {
  SigningKey = ℕ;
  is_zero_key = λ k. k == 0;
  verify_key = λ k. k + 1000;
  sign = λ k m. signature_of (k + 1000) m;
  verify = λ pkey m sig. bytes_eq (signature_of pkey m) sig;
  verify-sign = λ k m. same_bytes (signature_of (k + 1000) m);
}

abbrev pub backend : Env
backend = record {
  config = record { renewal_latency_allowance = hour; max_proofs_per_window = 3 };
  shape = proof_expiry_shape;
  utc_now = λ n. 100 * day + n * second;
  random = λ n. 500 + n;
}

abbrev pub paid : Payment
paid = record {
  id = 1;
  user_id = some 1;
  plan = one_month;
  detail = google 70 71 9;
  needs_ack = false;
  auto_renewing = false;
  purchased_at = 90 * day;
  redeemed_at = some (91 * day);
  expiry_at = some (130 * day);
  grace_period = none;
  platform_refund_expiry_at = 100 * day;
  revoked_at = none;
  credit_remaining = none;
}

-- A purchase that the store has told of and that no account has claimed.
abbrev pub unclaimed : Payment
unclaimed = record {
  id = 2;
  user_id = none;
  plan = three_month;
  detail = google 80 81 9;
  needs_ack = true;
  auto_renewing = false;
  purchased_at = 99 * day;
  redeemed_at = none;
  expiry_at = some (200 * day);
  grace_period = none;
  platform_refund_expiry_at = 100 * day;
  revoked_at = none;
  credit_remaining = none;
}

-- An older row of the first subscription, and a stack of credit.
abbrev pub superseded : Payment
superseded = record paid { id = 0; detail = google 70 60 9; expiry_at = some (300 * day) }

abbrev pub voucher : Payment
voucher = record paid {
  id = 3;
  detail = stf 40;
  expiry_at = none;
  credit_remaining = some (30 * day);
}

abbrev pub account : User
account = record {
  id = 1;
  master_pkey = 9;
  current_generation_id = 5;
  expiry_at = 130 * day;
  grace_period = none;
  auto_renewing = false;
  proof_expiry_offset = 3600;
  credits_checkpoint_at = none;
  proofs_issued_total = 4;
  proofs_issued_window = 2;
  proofs_issued_past_expiry_window = 0;
  proofs_window_start = some (98 * day);
}

abbrev pub generation : Generation
generation = record { id = 5; user_id = 1; token = 77; issued_at = 91 * day; revoked_at = none }

abbrev pub tables : Db
tables = record {
  payments = unclaimed ∷ paid ∷ [];
  users = account ∷ [];
  generations = generation ∷ [];
  apple_notification_uuid_history = [];
  revocation_ticket = 0;
  apple_notification_checkpoint_at = 0;
  next_payment_id = 4;
  next_user_id = 2;
  next_generation_id = 6;
  clock_reads = 0;
  draws = 0;
}

-- The third proof of the week, for a request on day 100.
abbrev third_proof : ProSubscriptionProof
third_proof = record {
  revocation_tag = 77;
  rotating_pkey = 5;
  expiry_at = 130 * day + hour;
  sig = 1003 ∷ 88 ∷ [];
  account_expiry_at = 130 * day;
  account_grace_period = 0;
  account_auto_renewing = false;
}

abbrev pub after_proof : Db
after_proof = record tables {
  users = record account { proofs_issued_total = 5; proofs_issued_window = 3 } ∷ [];
}

third_proof_issued :
    build_current_entitlement_proof naming_scheme backend 9 5 (100 * day) 3 tables
    ≡ ok (third_proof, after_proof)
unfolding build_current_entitlement_proof get_user is_generation_revoked
    build_proof_clamped_expiry_time offset_range round_datetime_up_onto_offset_grid grid_origin
    subscription_coverage_end sign_counted_proof decimal
third_proof_issued = refl

issued_proof-IsHonest_example :
    IsHonest naming_scheme backend 9 5 (100 * day) 3 tables after_proof third_proof
issued_proof-IsHonest_example =
    issued_proof-IsHonest naming_scheme backend 9 5 (100 * day) 3 tables after_proof third_proof
      (omega arith) third_proof_issued

-- Claiming the second payment extends the account, which takes a fresh offset.
abbrev pub after_reconcile : Db
after_reconcile = record tables {
  payments = record unclaimed { user_id = some 1; redeemed_at = some (100 * day) } ∷ paid ∷ [];
  users = record account { expiry_at = 200 * day; proof_expiry_offset = 500 } ∷ [];
  draws = 1;
}

pub reconciled : reconcile_pending_payments backend 9 (100 * day) tables ≡ ok (1, after_reconcile)
unfolding reconcile_pending_payments lookup_user_expiry scan_payments scan_payment add_credits
    subscription_coverage_end allocate_generation
reconciled = refl

reconcile_twice_example :
    reconcile_pending_payments backend 9 (101 * day) after_reconcile ≡ ok (0, after_reconcile)
reconcile_twice_example =
    reconcile_twice backend 9 (100 * day) (101 * day) tables after_reconcile 1 reconciled

-- The proof that a request gets once the second payment is bound, and the tables that it leaves.
abbrev pub earned_proof : ProSubscriptionProof
earned_proof = record {
  revocation_tag = 77;
  rotating_pkey = 5;
  expiry_at = 130 * day + 500 * second;
  sig = 1003 ∷ 88 ∷ [];
  account_expiry_at = 200 * day;
  account_grace_period = 0;
  account_auto_renewing = false;
}

abbrev pub after_request : Db
after_request = record after_reconcile {
  users =
      record account {
        expiry_at = 200 * day;
        proof_expiry_offset = 500;
        proofs_issued_total = 5;
        proofs_issued_window = 3;
      }
      ∷ [];
}
