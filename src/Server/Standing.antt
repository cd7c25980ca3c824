-- ===== src/Server/Standing.antt =====
-- An account that is told it is active, and then asks for a proof.
use session_pro_backend.Server.Signed
use session_pro_backend.Server.{
  failure, success, respond, post_generate_pro_proof, post_get_pro_status,
}
use session_pro_backend.Server.Signed.{window_steps, route_steps}
use session_pro_backend.Redeem.{key_bytes, reconcile_pending_payments}
use session_pro_backend.Base.Errors.{
  fail, err, ok, ErrorCode, Result-cases, bad_signature, invalid_request, rate_limited,
  stale_request, Result,
}
use session_pro_backend.Base.Units.{second, DateTime}
use session_pro_backend.Status.{ProStatus, active, get_pro_status}
use session_pro_backend.Status.Served.{active_is_served, status_of_account-active}
use session_pro_backend.Redeem.Idempotent.{reconcile_twice}
use session_pro_backend.Message.{Bytes, make_generate_pro_proof_message}
use session_pro_backend.Db.Monad.{Db, Env}
use session_pro_backend.Prelude.{
  Option-cases, arith, inl, inr, ℕ, ◌≡◌, ◌≤◌, ◌⊎◌, Bool-cases, Option, some, ap, sym, ◌∙◌,
}
use session_pro_backend.Issue.{
  SignatureScheme, generate_pro_proof, verify_proof_arguments, build_current_entitlement_proof,
}
use session_pro_backend.Db.Tables.{VerifyKey}
use session_pro_backend.Db.Users.{get_user}
use session_pro_backend.Json.{JsonValue}
use session_pro_backend.Server.Fields.{
  ProofFields, ReadFields, is_outside_window, read_proof_request, read_status_request,
}
use session_pro_backend.Server.Decoding.{respond-failure, respond-success}

active-reconciled :
    (env : Env) (key : VerifyKey) (at : DateTime) (db db' : Db) (s : ProStatus)
    → get_pro_status env key at db ≡ ok (s, db')
    → s.user_status ≡ active
    → (n : ℕ) × (reconcile_pending_payments env key at db ≡ ok (n, db'))
unfolding get_pro_status
active-reconciled env key at db db' s h told =
    elim (Result-cases (reconcile_pending_payments env key at db)) [
      | inl (e, failed) ↦ ground arith
      | inr ((n, db1), reconciled) ↦ elim (Option-cases (get_user key db1)) [
        | inl unknown ↦ ground arith
        | inr ((u, g), found) ↦
            let (same, live, covered) =
              status_of_account-active env key u at db1 db' s (ground arith) told in
            (n, rw same reconciled)
      ]
    ]

same_ok :
    {A B : Type 0} (r : Result (A × B)) (a a' : A) (b b' : B)
    → r ≡ ok (a, b)
    → r ≡ ok (a', b')
    → (a ≡ a') × (b ≡ b')
same_ok r a a' b b' first second = (ground arith, ground arith)

same_some : {A : Type 0} (o : Option A) (a a' : A) → o ≡ some a → o ≡ some a' → a ≡ a'
same_some o a a' first second = ground arith

-- The codes with which a request is refused whatever the account is entitled to.
abbrev pub IsOwnFault : ErrorCode → Type 0
IsOwnFault code =
    (code ≡ invalid_request)
    ⊎ (code ≡ bad_signature)
    ⊎ (code ≡ stale_request)
    ⊎ (code ≡ rate_limited)

module _ (scheme : SignatureScheme) (env : Env) where
  open scheme use {SigningKey}

  module _ (key : SigningKey) (master_pkey rotating_pkey : VerifyKey) where
    refused_arguments :
        (message master_sig rotating_sig : Bytes) (db : Db) (code : ErrorCode)
        → verify_proof_arguments scheme env key master_pkey rotating_pkey message master_sig
            rotating_sig db
          ≡ err (fail code)
        → IsOwnFault code
    unfolding verify_proof_arguments
    refused_arguments message master_sig rotating_sig db code h = ground arith

    kept_arguments :
        (message master_sig rotating_sig : Bytes) (db db' : Db)
        → verify_proof_arguments scheme env key master_pkey rotating_pkey message master_sig
            rotating_sig db
          ≡ ok (tt, db')
        → db' ≡ db
    unfolding verify_proof_arguments
    kept_arguments message master_sig rotating_sig db db' h = grind (arith, Bool-cases)

    -- A refusal on tables where nothing is left to bind is the request's own fault, or one of its
    -- entitlement.
    refusal_steps :
        (at : DateTime) (master_sig rotating_sig : Bytes) (db : Db) (code : ErrorCode)
        → reconcile_pending_payments env master_pkey at db ≡ ok (0, db)
        → generate_pro_proof scheme env key master_pkey rotating_pkey at master_sig rotating_sig db
          ≡ err (fail code)
        → IsOwnFault code
          ⊎ (build_current_entitlement_proof scheme env master_pkey rotating_pkey at key db
              ≡ err (fail code))
    unfolding generate_pro_proof
    refusal_steps at master_sig rotating_sig db code bound refusal =
        elim (Option-cases
          (make_generate_pro_proof_message (key_bytes master_pkey) (key_bytes rotating_pkey) at)) [
            | inl unsigned ↦ cc
            | inr (message, signed) ↦
                elim (Result-cases (
                  verify_proof_arguments scheme env key master_pkey rotating_pkey message master_sig
                    rotating_sig db)) [
                      | inl (e, failed) ↦ inl (
                          refused_arguments message master_sig rotating_sig db code
                            (ground (arith, failed)))
                      | inr ((_, db1), passed) ↦
                          let same = kept_arguments message master_sig rotating_sig db db1 passed in
                          inr (ground (arith, same))
                    ]
          ]

    active_is_not_refused :
        (at : DateTime) (master_sig rotating_sig : Bytes) (db db' : Db) (s : ProStatus)
        (code : ErrorCode)
        → second ≤ env.shape.grid
        → get_pro_status env master_pkey at db ≡ ok (s, db')
        → s.user_status ≡ active
        → generate_pro_proof scheme env key master_pkey rotating_pkey at master_sig rotating_sig db'
          ≡ err (fail code)
        → IsOwnFault code
    active_is_not_refused at master_sig rotating_sig db db' s code grid h told refusal =
        let (n, first) = active-reconciled env master_pkey at db db' s h told in
        let again = reconcile_twice env master_pkey at at db db' n first in
        elim (refusal_steps at master_sig rotating_sig db' code again refusal) [
          | inl own ↦ own
          | inr unentitled ↦ inr (
              inr (
                inr (
                  active_is_served scheme env rotating_pkey at key master_pkey db db' s code grid h
                    told unentitled)))
        ]

  module _ (json_loads : Bytes → Option JsonValue) (verify_key_of : Bytes → Option VerifyKey)
      (key : SigningKey) where
    refused_route :
        (now : DateTime) (body : Bytes) (b : ProofFields) (at : DateTime) (db : Db)
        (code : ErrorCode)
        → read_proof_request json_loads body ≡ ok (b, at)
        → post_generate_pro_proof json_loads verify_key_of env scheme key now body db
          ≡ err (fail code)
        → IsOwnFault code
          ⊎ ((master_pkey rotating_pkey : VerifyKey) × (verify_key_of b.master_pkey
                ≡ some master_pkey)
              × (generate_pro_proof scheme env key master_pkey rotating_pkey at b.master_sig
                    b.rotating_sig db
                  ≡ err (fail code)))
    unfolding post_generate_pro_proof
    refused_route now body b at db code read refusal =
        elim (Bool-cases (is_outside_window now at)) [
          | inl stale ↦ inl (inr (inr (inl (ground arith))))
          | inr fresh ↦ elim (Option-cases (verify_key_of b.master_pkey)) [
            | inl short ↦ cc
            | inr (mk, master) ↦ elim (Option-cases (verify_key_of b.rotating_pkey)) [
              | inl short ↦ cc
              | inr (rk, rotating) ↦ inr (mk, rk, master, ground arith)
            ]
          ]
        ]

    -- An account that is told it is active is not turned away. Where `/get_pro_status` answers
    -- active, a request to `/generate_pro_proof` that reads, on the tables that the first leaves,
    -- for the same master key and timestamp but at whatever time, is refused with a code only for
    -- its own fault, as a forged signature or a stale timestamp, or by the rate limit: never as not
    -- subscribed, revoked or expired. The grid of the shape is at least a second.
    pub active_is_not_turned_away :
        (now now' : DateTime) (body body' : Bytes) (b : ReadFields) (b' : ProofFields)
        (at : DateTime) (db db' db'' : Db) (s : ProStatus) (code : ErrorCode)
        → second ≤ env.shape.grid
        → read_status_request json_loads body ≡ ok (b, at)
        → read_proof_request json_loads body' ≡ ok (b', at)
        → b'.master_pkey ≡ b.master_pkey
        → respond (post_get_pro_status json_loads verify_key_of env scheme now body) db
          ≡ (success s, db')
        → s.user_status ≡ active
        → respond (post_generate_pro_proof json_loads verify_key_of env scheme key now' body') db'
          ≡ (failure code, db'')
        → IsOwnFault code
    active_is_not_turned_away now now' body body' b b' at db db' db'' s code grid read read' same h
          told refusal =
        let (b1, at1, mk, message, db1, read1, fresh, master, built, by_master, answered) =
          Signed.route_steps json_loads verify_key_of env scheme now body db db' s (
            respond-success (post_get_pro_status json_loads verify_key_of env scheme now body) db
              db' s h) in
        let (kept, near) =
          window_steps json_loads verify_key_of env scheme now body db db' s at1 db1 fresh in
        let (whose, dated) = same_ok (read_status_request json_loads body) b1 b at1 at read1 read in
        let asked : get_pro_status env mk at db ≡ ok (s, db') =
          ap (λ (t : DateTime). get_pro_status env mk t db) (sym dated)
          ∙ ap (get_pro_status env mk at1) (sym kept)
          ∙ answered in
        elim (refused_route now' body' b' at db' code read' (
          respond-failure
            (post_generate_pro_proof json_loads verify_key_of env scheme key now' body') db' db''
            code refusal)) [
              | inl own ↦ own
              | inr (mk', rk, master', unserved) ↦
                  let one : mk' ≡ mk = same_some (verify_key_of b'.master_pkey) mk' mk master' (
                    ap verify_key_of (same ∙ ap (λ (x : ReadFields). x.master_pkey) (sym whose))
                    ∙ master) in
                  active_is_not_refused key mk rk at b'.master_sig b'.rotating_sig db db' s code
                    grid asked told
                    (ap
                        (λ (k : VerifyKey).
                          generate_pro_proof scheme env key k rk at b'.master_sig b'.rotating_sig
                            db')
                        (sym one)
                      ∙ unserved)
            ]
