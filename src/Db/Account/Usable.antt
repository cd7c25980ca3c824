-- ===== src/Db/Account/Usable.antt =====
-- After `_ensure_active_generation` the account is on a generation that is not revoked.
use session_pro_backend.Base.Units.{DateTime}
use session_pro_backend.Base.Errors.{ok, Result-cases}
use session_pro_backend.Db.Tables.{VerifyKey, Text, User, Generation}
use session_pro_backend.Db.Generations.Minting.{mint_generation-Minted, fresh_generation}
use session_pro_backend.Db.Account.{
  ensure_active_generation, allocate_generation, AllocatedGenId, allocate_user, settle_generation,
  lookup_account, start_checkpoint,
}
use session_pro_backend.Db.Monad.{Env, Db}
use session_pro_backend.Prelude.{
  Bool, arith, false, none, refl, some, true, ℕ, ◌≡◌, Option-cases, inl, inr, ◌%◌, ap, ◌∙◌,
}
use session_pro_backend.Entitlement.{LookupUserExpiry}
use session_pro_backend.Db.Users.{
  by_id, find_generation, get_user, new_proof_expiry_offset, update_where, find_user, by_key,
}
use session_pro_backend.Db.Generations.{is_generation_revoked}
use session_pro_backend.Base.Grid.{offset_range}
use session_pro_backend.Db.Users.Lookup.{find_user-update_where, get_user-found, joined}

module _ (minted : Bool) (id : ℕ) (lookup : LookupUserExpiry) (e : DateTime) (drawn : ℕ)
    (u : User) where
  allocated_key : (allocate_user minted id lookup e drawn u).master_pkey ≡ u.master_pkey
  unfolding allocate_user
  allocated_key = ground arith

  allocated_generation : (allocate_user minted id lookup e drawn u).current_generation_id ≡ id
  unfolding allocate_user
  allocated_generation = ground arith

module _ (env : Env) (master_pkey : VerifyKey) (issued_at : DateTime) where
  ensure_steps :
      (db db' : Db) (r : AllocatedGenId)
      → ensure_active_generation env master_pkey issued_at db ≡ ok (r, db')
      → r.found ≡ true
      → (db1 : Db) × (lookup : LookupUserExpiry) × (allocate_generation env master_pkey issued_at
            lookup db1
          ≡ ok (r, db'))
  unfolding ensure_active_generation
  ensure_steps db db' r h found = grind arith

  settled_generation :
      (minted : Bool) (u : User) (g : Generation) (db db' : Db) (id : ℕ) (token : Text)
      → find_generation u.current_generation_id db.generations ≡ some g
      → is_generation_revoked u.current_generation_id db ≡ minted
      → settle_generation env minted u g issued_at db ≡ ok ((id, token), db')
      → (g' : Generation) × (find_generation id db'.generations ≡ some g')
        × (g'.revoked_at ≡ none)
        × (g'.token ≡ token)
        × (db'.users ≡ db.users)
  unfolding settle_generation is_generation_revoked
  settled_generation true u g db db' id token here revoked h =
      let new = mint_generation-Minted env u.id issued_at db db' id token h in
      (
        fresh_generation id u.id token issued_at,
        rw new.generations (ground arith),
        refl,
        refl,
        new.users,
      )
  settled_generation false u g db db' id token here live h =
      (g, ground arith, ground arith, ground arith, ground arith)

  allocate_steps :
      (lookup : LookupUserExpiry) (db db' : Db) (r : AllocatedGenId)
      → allocate_generation env master_pkey issued_at lookup db ≡ ok (r, db')
      → (u : User) × (g : Generation) × (minted : Bool) × (db1 : Db) × (drawn : ℕ) × (e : DateTime)
        × (get_user master_pkey db ≡ some (u, g))
        × (is_generation_revoked u.current_generation_id db ≡ minted)
        × (settle_generation env minted u g issued_at db ≡ ok ((r.generation_id, r.token), db1))
        × (db'.generations ≡ db1.generations)
        × (db'.users
            ≡ update_where
                (by_id u.id)
                (allocate_user minted r.generation_id lookup e drawn)
                db1.users)
  unfolding allocate_generation new_proof_expiry_offset
  allocate_steps lookup db db' r h = elim (Option-cases (get_user master_pkey db)) [
    | inl absent ↦ ground arith
    | inr ((u, g), account) ↦
        let minted : Bool = is_generation_revoked u.current_generation_id db in
        elim (Result-cases (settle_generation env minted u g issued_at db)) [
          | inl (e, failed) ↦ ground arith
          | inr ((settled, db1), settling) ↦ elim (Option-cases lookup.best_expiry) [
            | inl nothing ↦ ground arith
            | inr (e, best) ↦ (
              u,
              g,
              minted,
              db1,
              env.random db1.draws % offset_range env.shape,
              e,
              account,
              refl,
              ground arith,
              ground arith,
              ground arith,
            )
          ]
        ]
  ]

  -- Where the settling of the account's generation finds a usable payment, the account's row
  -- afterwards points at the generation that was returned, which exists under the returned token
  -- and is not revoked.
  pub ensured_is_usable :
      (db db' : Db) (r : AllocatedGenId)
      → ensure_active_generation env master_pkey issued_at db ≡ ok (r, db')
      → r.found ≡ true
      → (u : User) × (g : Generation) × (get_user master_pkey db' ≡ some (u, g))
        × (u.current_generation_id ≡ r.generation_id)
        × (g.token ≡ r.token)
        × (g.revoked_at ≡ none)
  ensured_is_usable db db' r h found =
      let (db0, lookup, allocated) = ensure_steps db db' r h found in
      let (u, g, minted, db1, drawn, e, account, revoked, settled, generations, users) =
        allocate_steps lookup db0 db' r allocated in
      let (row, current) = get_user-found master_pkey db0 u g account in
      let (g', here, live, token, kept) =
        settled_generation minted u g db0 db1 r.generation_id r.token current revoked settled in
      let f : User → User = allocate_user minted r.generation_id lookup e drawn in
      let row' : find_user master_pkey db'.users ≡ some (f u) =
        ap (find_user master_pkey) (users ∙ ap (update_where (by_id u.id) f) kept)
        ∙ find_user-update_where (by_id u.id) f master_pkey db0.users
            (λ v. allocated_key minted r.generation_id lookup e drawn v)
        ∙ ground arith in
      let here' : find_generation r.generation_id db'.generations ≡ some g' =
        ap (find_generation r.generation_id) generations ∙ here in
      let moved : (f u).current_generation_id ≡ r.generation_id =
        allocated_generation minted r.generation_id lookup e drawn u in
      (
        f u,
        g',
        joined master_pkey db' (f u) g' r.generation_id row' moved here',
        moved,
        token,
        live,
      )

  settle-payments :
      (minted : Bool) (u : User) (g : Generation) (db db' : Db) (id : ℕ) (token : Text)
      → settle_generation env minted u g issued_at db ≡ ok ((id, token), db')
      → db'.payments ≡ db.payments
  unfolding settle_generation
  settle-payments true u g db db' id token h =
      (mint_generation-Minted env u.id issued_at db db' id token h).payments
  settle-payments false u g db db' id token h = ground arith

  allocate-payments :
      (lookup : LookupUserExpiry) (db db' : Db) (r : AllocatedGenId)
      → allocate_generation env master_pkey issued_at lookup db ≡ ok (r, db')
      → db'.payments ≡ db.payments
  unfolding allocate_generation new_proof_expiry_offset
  allocate-payments lookup db db' r h = elim (Option-cases (get_user master_pkey db)) [
    | inl absent ↦ ground arith
    | inr ((u, g), account) ↦
        let minted : Bool = is_generation_revoked u.current_generation_id db in
        elim (Result-cases (settle_generation env minted u g issued_at db)) [
          | inl (e, failed) ↦ ground arith
          | inr (((id, token), db1), settling) ↦ elim (Option-cases lookup.best_expiry) [
            | inl nothing ↦ ground arith
            | inr (e, best) ↦ ground (arith, settle-payments minted u g db db1 id token settling)
          ]
        ]
  ]

  pub lookup-payments :
      (db db' : Db) (l : LookupUserExpiry)
      → lookup_account env master_pkey db ≡ ok (l, db')
      → db'.payments ≡ db.payments
  unfolding lookup_account
  lookup-payments db db' l h = grind arith

  -- Settling an account's generation writes no payment.
  pub ensure-payments :
      (db db' : Db) (r : AllocatedGenId)
      → ensure_active_generation env master_pkey issued_at db ≡ ok (r, db')
      → db'.payments ≡ db.payments
  unfolding ensure_active_generation
  ensure-payments db db' r h =
      let started : Db = record db {
        users = update_where (by_key master_pkey) (start_checkpoint issued_at db.payments) db.users;
      } in
      elim (Result-cases (lookup_account env master_pkey started)) [
        | inl (e, failed) ↦ ground arith
        | inr ((lookup, db1), looked) ↦
            let same = lookup-payments started db1 lookup looked in
            elim (Option-cases lookup.expiry_from_redeemed) [
              | inl nothing ↦ ground (arith, same)
              | inr (e, usable) ↦ ground (arith, same, allocate-payments lookup db1 db' r)
            ]
      ]
