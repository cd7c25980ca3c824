-- ===== src/Revoke/Served.antt =====
-- What a revocation publishes.
use session_pro_backend.Base.Units.{DateTime}
use session_pro_backend.Db.Monad.{Db}
use session_pro_backend.Db.Tables.{Generation, User, VerifyKey}
use session_pro_backend.Prelude.{
  List, Option, [], arith, none, some, true, ℕ, ◌<◌, ◌∷◌, ◌≡◌, ap, ◌∙◌,
}
use session_pro_backend.Db.Users.{find_generation, get_user}
use session_pro_backend.Housekeeping.{get_revocations_list, revoked_after}
use session_pro_backend.Revoke.{revoke_current, revoke_rows}
use session_pro_backend.Revoke.Refused.{
  find_generation-id, revoke_current-found, revoked_current, revoked_row,
}
use session_pro_backend.Db.Users.Lookup.{get_user-found}

find_generation-get_revocations_list :
    (window : Option DateTime) (j : ℕ) (gs : List Generation) (g : Generation)
    → find_generation j gs ≡ some g
    → revoked_after window g.revoked_at ≡ true
    → find_generation j (get_revocations_list window gs) ≡ some g
unfolding get_revocations_list
find_generation-get_revocations_list window j [] g found listed = cc
find_generation-get_revocations_list window j (x ∷ gs) g found listed =
    ground (arith, find_generation-get_revocations_list window j gs g)

-- The UPDATE counts at least the live row that it finds.
revoke_rows-counts :
    (j : ℕ) (recorded_at : DateTime) (gs : List Generation) (g : Generation)
    → find_generation j gs ≡ some g
    → g.revoked_at ≡ none
    → 0 < (revoke_rows j recorded_at gs).1
unfolding revoke_rows
revoke_rows-counts j recorded_at [] g found live = cc
revoke_rows-counts j recorded_at (x ∷ gs) g found live =
    ground (arith, revoke_rows-counts j recorded_at gs g)

module _ (master_pkey : VerifyKey) (recorded_at : DateTime) (db : Db) (u : User)
    (g : Generation) where
  -- Revoking the proofs of an account whose current generation is live publishes it: the generation
  -- is on the list of revocations that is served for any window that starts before the time of the
  -- recording, under its token and with that time, and the revocation ticket rises, so that a
  -- client that polls fetches the list.
  pub revoked_is_served :
      (after : DateTime)
      → get_user master_pkey db ≡ some (u, g)
      → g.revoked_at ≡ none
      → after < recorded_at
      → let db' = revoke_current master_pkey recorded_at db in
        (find_generation u.current_generation_id (get_revocations_list (some after) db'.generations)
          ≡ some (record g { revoked_at = some recorded_at }))
        × (db.revocation_ticket < db'.revocation_ticket)
  revoked_is_served after account live before =
      let id : ℕ = u.current_generation_id in
      let (row, current) = get_user-found master_pkey db u g account in
      let same : g.id ≡ id = find_generation-id id db.generations g current in
      let stamped : revoked_row id recorded_at g ≡ record g { revoked_at = some recorded_at } =
        ground (arith, same, live) in
      let (_, found) = revoked_current master_pkey recorded_at db u g account in
      (
        find_generation-get_revocations_list (some after) id
            (revoke_current master_pkey recorded_at db).generations
            (record g { revoked_at = some recorded_at }) (found ∙ ap some stamped) (ground arith),
        rw (revoke_current-found master_pkey recorded_at db u row)
            (omega (arith, revoke_rows-counts id recorded_at db.generations g current live)),
      )
