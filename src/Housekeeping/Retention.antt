-- ===== src/Housekeeping/Retention.antt =====
-- Housekeeping deletes nothing that is still needed.
use session_pro_backend.Base.Units.{DateTime, revocation_retain_for}
use session_pro_backend.Base.Grid.{proof_expiry_shape}
use session_pro_backend.Db.Tables.{User, Generation}
use session_pro_backend.Db.Users.{find_generation}
use session_pro_backend.Proof.Expiry.{clamped_expiry-lt}
use session_pro_backend.Housekeeping.{delete_generations, is_expendable, get_revocations_list}
use session_pro_backend.Prelude.{
  List, [], arith, false, refl, some, true, ℕ, ◌+◌, ◌<◌, ◌∷◌, ◌≡◌, ◌≤◌,
}
use session_pro_backend.Proof.{build_proof_clamped_expiry_time}

module _ (now : DateTime) (users : List User) where
  -- A generation survives the delete unless it is revoked, has aged out of the retention window,
  -- and is no account's current one.
  pub delete_generations_keeps :
      (id : ℕ) (g : Generation) (gs : List Generation)
      → find_generation id gs ≡ some g
      → is_expendable now users g ≡ false
      → find_generation id (delete_generations now users gs).1 ≡ some g
  unfolding delete_generations
  delete_generations_keeps id g [] found kept = cc
  delete_generations_keeps id g (h ∷ gs) found kept =
      ground (arith, delete_generations_keeps id g gs)

  -- No response changes: the revocations after an instant that lies at most the retention window
  -- before the delete are the same before and after it.
  pub get_revocations_list-delete :
      (after : DateTime) (gs : List Generation)
      → now ≤ after + revocation_retain_for
      → get_revocations_list (some after) (delete_generations now users gs).1
        ≡ get_revocations_list (some after) gs
  unfolding delete_generations get_revocations_list
  get_revocations_list-delete after [] h = refl
  get_revocations_list-delete after (g ∷ gs) h =
      ground (arith, get_revocations_list-delete after gs h)

  -- A deleted generation has no proof left to revoke: a proof that was built for a request not
  -- after the revocation has expired by the time of the delete, whatever the account's coverage and
  -- offset. The shape is that of production.
  pub deleted_proofs_expired :
      (g : Generation) (revoked_at request_at true_end : DateTime) (offset : ℕ) (e : DateTime)
      → g.revoked_at ≡ some revoked_at
      → is_expendable now users g ≡ true
      → request_at ≤ revoked_at
      → build_proof_clamped_expiry_time proof_expiry_shape request_at true_end offset ≡ some e
      → e < now
  deleted_proofs_expired g revoked_at request_at true_end offset e at gone before built =
      let bounds =
        clamped_expiry-lt proof_expiry_shape request_at true_end offset e (omega arith) built in
      ground (arith, bounds)
