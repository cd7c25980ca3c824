-- ===== src/Db/Users/Lookup.antt =====
-- What an UPDATE of user rows does to the row of a key or an id.
use session_pro_backend.Db.Tables.{VerifyKey, User, Generation}
use session_pro_backend.Db.Users.{find_user, find_by_id, update_where, find_generation, get_user}
use session_pro_backend.Prelude.{
  Bool, List, Option, [], arith, if◌then◌else◌, none, refl, some, ℕ, ◌∷◌, ◌≡◌, Option-cases, inl,
  inr,
}
use session_pro_backend.Db.Monad.{Db}

abbrev pub updated {ℓ} : {A : Type ℓ} → (A → Bool) → (A → A) → Option A → Option A
updated test f none = none
updated test f (some u) = some (if test u then f u else u)

module _ (test : User → Bool) (f : User → User) where
  pub find_user-update_where :
      (k : VerifyKey) (us : List User)
      → ((u : User) → (f u).master_pkey ≡ u.master_pkey)
      → find_user k (update_where test f us) ≡ updated test f (find_user k us)
  unfolding update_where
  find_user-update_where k [] keep = refl
  find_user-update_where k (u ∷ us) keep = ground (arith, keep u, find_user-update_where k us keep)

  pub find_by_id-update_where :
      (id : ℕ) (us : List User)
      → ((u : User) → (f u).id ≡ u.id)
      → find_by_id id (update_where test f us) ≡ updated test f (find_by_id id us)
  unfolding update_where
  find_by_id-update_where id [] keep = refl
  find_by_id-update_where id (u ∷ us) keep =
      ground (arith, keep u, find_by_id-update_where id us keep)

pub find_user-key :
    (k : VerifyKey) (us : List User) (u : User) → find_user k us ≡ some u → u.master_pkey ≡ k
find_user-key k [] u h = cc
find_user-key k (v ∷ us) u h = ground (arith, find_user-key k us u)

module _ (master_pkey : VerifyKey) where
  -- The join, from its two reads and back.
  pub joined :
      (db : Db) (u : User) (g : Generation) (id : ℕ)
      → find_user master_pkey db.users ≡ some u
      → u.current_generation_id ≡ id
      → find_generation id db.generations ≡ some g
      → get_user master_pkey db ≡ some (u, g)
  unfolding get_user
  joined db u g id row on here = ground arith

  pub get_user-found :
      (db : Db) (u : User) (g : Generation)
      → get_user master_pkey db ≡ some (u, g)
      → (find_user master_pkey db.users ≡ some u)
        × (find_generation u.current_generation_id db.generations ≡ some g)
  unfolding get_user
  get_user-found db u g h = elim (Option-cases (find_user master_pkey db.users)) [
    | inl absent ↦ ground arith
    | inr (v, here) ↦ elim (Option-cases (find_generation v.current_generation_id db.generations)) [
      | inl missing ↦ ground arith
      | inr (g', current) ↦ ground arith
    ]
  ]
