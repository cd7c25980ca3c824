-- ===== src/Server/Earned.antt =====
-- What a request has shown that is answered with a proof.
use session_pro_backend.Json.{object, JsonObject, JsonValue}
use session_pro_backend.Server.{success, respond, post_generate_pro_proof}
use session_pro_backend.Base.Units.{second, DateTime, datetime_from_unix_seconds}
use mathlib.Core.Path.{subst}
use session_pro_backend.Base.Errors.{ok, Result-cases}
use session_pro_backend.Message.{Bytes}
use session_pro_backend.Server.Fields.{
  proof_fields, decoded, ProofFields, get_json_from_flask_request, instant_of_ts,
  read_proof_request, is_outside_window,
}
use session_pro_backend.Json.Integers.{pos}
use session_pro_backend.Prelude.{
  arith, some, ℕ, ◌≡◌, Option-cases, inl, inr, Bool-cases, Option, false, ◌≤◌,
}
use session_pro_backend.Db.Monad.{Db, Env}
use session_pro_backend.Issue.Request.{IsEarned, generate_pro_proof-IsEarned}
use session_pro_backend.Issue.{ProSubscriptionProof, SignatureScheme, generate_pro_proof}
use session_pro_backend.Db.Tables.{VerifyKey}
use session_pro_backend.Server.Decoding.{
  IsInWindow, IsProofRequest, IsSpelled, decoded-IsSpelled, get_json-object, instant_of_ts-ok,
  is_outside_window-IsInWindow, proof_fields-IsProofRequest, respond-success,
}

module _ (json_loads : Bytes → Option JsonValue) (verify_key_of : Bytes → Option VerifyKey)
    (env : Env) (scheme : SignatureScheme) where
  open scheme use {SigningKey}

  module _ (key : SigningKey) (now : DateTime) (body : Bytes) (db db' : Db)
      (proof : ProSubscriptionProof) where
    -- What a request that is answered with a proof has shown.
    abbrev pub IsServed : Type 0
    IsServed =
        (d : JsonObject) × (r b : ProofFields) × (s : ℕ) × (master_pkey rotating_pkey : VerifyKey)
        × (json_loads body ≡ some (object d))
        × IsProofRequest d r
        × (r.ts ≡ pos s)
        × IsSpelled r b
        × IsInWindow now (datetime_from_unix_seconds s)
        × (verify_key_of b.master_pkey ≡ some master_pkey)
        × (verify_key_of b.rotating_pkey ≡ some rotating_pkey)
        × IsEarned scheme env key master_pkey rotating_pkey (datetime_from_unix_seconds s)
            b.master_sig b.rotating_sig db db' proof

    request_steps :
        (b : ProofFields) (at : DateTime)
        → read_proof_request json_loads body ≡ ok (b, at)
        → (d : JsonObject) × (r : ProofFields) × (get_json_from_flask_request json_loads body
            ≡ ok d)
          × (proof_fields d ≡ ok r)
          × (decoded r ≡ ok b)
          × (instant_of_ts r.ts ≡ ok at)
    unfolding read_proof_request
    request_steps b at h = elim (Result-cases (get_json_from_flask_request json_loads body)) [
      | inl (e, failed) ↦ ground arith
      | inr (d, parsed) ↦ elim (Result-cases (proof_fields d)) [
        | inl (e, failed) ↦ ground arith
        | inr (r, typed) ↦ elim (Result-cases (decoded r)) [
          | inl (e, failed) ↦ ground arith
          | inr (b', spelled) ↦ elim (Result-cases (instant_of_ts r.ts)) [
            | inl (e, failed) ↦ ground arith
            | inr (at', dated) ↦ (d, r, parsed, typed, ground arith, ground arith)
          ]
        ]
      ]
    ]

    route_steps :
        post_generate_pro_proof json_loads verify_key_of env scheme key now body db
          ≡ ok (proof, db')
        → (b : ProofFields) × (at : DateTime) × (master_pkey rotating_pkey : VerifyKey)
          × (read_proof_request json_loads body ≡ ok (b, at))
          × (is_outside_window now at ≡ false)
          × (verify_key_of b.master_pkey ≡ some master_pkey)
          × (verify_key_of b.rotating_pkey ≡ some rotating_pkey)
          × (generate_pro_proof scheme env key master_pkey rotating_pkey at b.master_sig
                b.rotating_sig db
              ≡ ok (proof, db'))
    unfolding post_generate_pro_proof
    route_steps h = elim (Result-cases (read_proof_request json_loads body)) [
      | inl (e, failed) ↦ ground arith
      | inr ((b, at), read) ↦ elim (Bool-cases (is_outside_window now at)) [
        | inl stale ↦ cc
        | inr fresh ↦ elim (Option-cases (verify_key_of b.master_pkey)) [
          | inl short ↦ cc
          | inr (mk, master) ↦ elim (Option-cases (verify_key_of b.rotating_pkey)) [
            | inl short ↦ cc
            | inr (rk, rotating) ↦ (b, at, mk, rk, read, fresh, master, rotating, ground arith)
          ]
        ]
      ]
    ]

    -- A proof that the route serves was asked for in time by both keys. Where the body of a request
    -- is answered with a proof, it parses to an object that holds the five fields with their types;
    -- the timestamp is at most 70 seconds from the time of the server, either way; the four texts
    -- have their exact lengths and read as bytes, of which the first two make keys. With these
    -- keys, signatures and that timestamp the proof is earned: both keys signed the request's
    -- message, the keys differ and the master key is not the backend's, the account's pending
    -- payments were bound first, and the proof is honest on the tables that this left. The grid of
    -- the shape is at least a second.
    pub served_proof_is_earned :
        second ≤ env.shape.grid
        → respond (post_generate_pro_proof json_loads verify_key_of env scheme key now body) db
          ≡ (success proof, db')
        → IsServed
    served_proof_is_earned grid h =
        let (b, at, mk, rk, read, fresh, master, rotating, issued) = route_steps (
          respond-success (post_generate_pro_proof json_loads verify_key_of env scheme key now body)
            db db' proof h) in
        let (d, r, parsed, typed, spelled, dated) = request_steps b at read in
        let (s, ts, same) = instant_of_ts-ok r.ts at dated in
        (
          d,
          r,
          b,
          s,
          mk,
          rk,
          get_json-object json_loads body d parsed,
          proof_fields-IsProofRequest d r typed,
          ts,
          (decoded-IsSpelled r b spelled).0,
          subst (IsInWindow now) same (is_outside_window-IsInWindow now at fresh),
          master,
          rotating,
          subst
              (λ (t : DateTime).
                IsEarned scheme env key mk rk t b.master_sig b.rotating_sig db db' proof)
              same
              (generate_pro_proof-IsEarned scheme env key mk rk at b.master_sig b.rotating_sig db
                db' proof grid issued),
        )
