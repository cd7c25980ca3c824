-- ===== src/Revoke/Refused.antt =====
-- A revoked generation stays revoked, and its account gets no proof.
use session_pro_backend.Db.Users.Lookup.{joined, get_user-found}
use session_pro_backend.Base.Errors.{err, fail, revoked_code}
use session_pro_backend.Base.Units.{DateTime}
use session_pro_backend.Db.Monad.{Db, Env}
use session_pro_backend.Db.Tables.{Generation, User, VerifyKey}
use session_pro_backend.Prelude.{
  List, [], arith, if◌then◌else◌, is_none, refl, some, ℕ, ◌&&◌, ◌==◌, ◌∷◌, ◌≡◌, Option-cases, false,
  inl, inr, ◌∙◌, true,
}
use session_pro_backend.Issue.{SignatureScheme, build_current_entitlement_proof}
use session_pro_backend.Db.Users.{find_generation, get_user, find_user}
use session_pro_backend.Db.Generations.{is_generation_revoked}
use session_pro_backend.Queue.Table.{map_option}
use session_pro_backend.Revoke.{revoke_current, revoke_rows, revoke_generation}

-- The row of a generation after the UPDATE that revokes one.
abbrev pub revoked_row : ℕ → DateTime → Generation → Generation
revoked_row id recorded_at g =
    if g.id == id && is_none g.revoked_at then record g { revoked_at = some recorded_at } else g

find_generation-revoke_rows :
    (id : ℕ) (recorded_at : DateTime) (j : ℕ) (gs : List Generation)
    → find_generation j (revoke_rows id recorded_at gs).0
      ≡ map_option (revoked_row id recorded_at) (find_generation j gs)
unfolding revoke_rows
find_generation-revoke_rows id recorded_at j [] = refl
find_generation-revoke_rows id recorded_at j (g ∷ gs) =
    ground (arith, find_generation-revoke_rows id recorded_at j gs)

pub find_generation-id :
    (j : ℕ) (gs : List Generation) (g : Generation) → find_generation j gs ≡ some g → g.id ≡ j
find_generation-id j [] g h = cc
find_generation-id j (x ∷ gs) g h = ground (arith, find_generation-id j gs g)

-- Revoking any generation leaves one that is revoked already as it was, its time of revocation
-- included.
pub revoked_stays :
    (id : ℕ) (recorded_at : DateTime) (j : ℕ) (gs : List Generation) (g : Generation) (t : DateTime)
    → find_generation j gs ≡ some g
    → g.revoked_at ≡ some t
    → find_generation j (revoke_rows id recorded_at gs).0 ≡ some g
revoked_stays id recorded_at j gs g t found at =
    ground (arith, find_generation-revoke_rows id recorded_at j gs)

-- With the account on record, the UPDATE is that of its current generation.
pub revoke_current-found :
    (master_pkey : VerifyKey) (recorded_at : DateTime) (db : Db) (u : User)
    → find_user master_pkey db.users ≡ some u
    → revoke_current master_pkey recorded_at db
      ≡ revoke_generation u.current_generation_id recorded_at db
unfolding revoke_current
revoke_current-found master_pkey recorded_at db u row = ground (arith, row)

-- The account's row and its generation after its proofs are revoked.
pub revoked_current :
    (master_pkey : VerifyKey) (recorded_at : DateTime) (db : Db) (u : User) (g : Generation)
    → get_user master_pkey db ≡ some (u, g)
    → let db' = revoke_current master_pkey recorded_at db in
      (find_user master_pkey db'.users ≡ some u)
      × (find_generation u.current_generation_id db'.generations
          ≡ some (revoked_row u.current_generation_id recorded_at g))
revoked_current master_pkey recorded_at db u g account =
    let (row, current) = get_user-found master_pkey db u g account in
    let id : ℕ = u.current_generation_id in
    rw (revoke_current-found master_pkey recorded_at db u row)
      (row, find_generation-revoke_rows id recorded_at id db.generations ∙ rw current refl)

revoked_row-revoked :
    (id : ℕ) (recorded_at : DateTime) (g : Generation)
    → g.id ≡ id
    → is_none (revoked_row id recorded_at g).revoked_at ≡ false
revoked_row-revoked id recorded_at g same = elim (Option-cases g.revoked_at) [
  | inl live ↦ ground arith
  | inr (t, gone) ↦ ground arith
]

found_revoked :
    (id : ℕ) (db : Db) (g : Generation)
    → find_generation id db.generations ≡ some g
    → is_none g.revoked_at ≡ false
    → is_generation_revoked id db ≡ true
unfolding is_generation_revoked
found_revoked id db g found gone = ground (arith, found, gone)

module _ (scheme : SignatureScheme) (env : Env) (master_pkey rotating_pkey : VerifyKey)
    (request_at : DateTime) (key : scheme.SigningKey) where
  -- On the tables that the revocation of an account's current generation leaves, the account gets
  -- no proof: the request fails with the code for a revoked entitlement.
  pub revoked_account_is_refused :
      (recorded_at : DateTime) (db : Db) (u : User) (g : Generation)
      → get_user master_pkey db ≡ some (u, g)
      → build_current_entitlement_proof scheme env master_pkey rotating_pkey request_at key
          (revoke_current master_pkey recorded_at db)
        ≡ err (fail revoked_code)
  unfolding build_current_entitlement_proof
  revoked_account_is_refused recorded_at db u g account =
      let db' : Db = revoke_current master_pkey recorded_at db in
      let id : ℕ = u.current_generation_id in
      let (row, current) = get_user-found master_pkey db u g account in
      let (row', current') = revoked_current master_pkey recorded_at db u g account in
      let gone =
        revoked_row-revoked id recorded_at g (find_generation-id id db.generations g current) in
      let found = joined master_pkey db' u (revoked_row id recorded_at g) id row' refl current' in
      let revoked : is_generation_revoked id db' ≡ true = found_revoked id db' _ current' gone in
      ground (arith, found, revoked)
