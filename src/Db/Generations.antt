-- ===== src/Db/Generations.antt =====
-- backend.py: generations, the tokens under which an account's proofs are issued.
pub mod Minting
use session_pro_backend.Base.Units.{DateTime, epoch}
use session_pro_backend.Base.Errors.{ok, err, runtime_error, constraint_violation}
use session_pro_backend.Db.Tables.{VerifyKey, Text, User, Generation}
use session_pro_backend.Db.Users.{get_user, new_proof_expiry_offset, find_generation}
use session_pro_backend.Db.Monad.{Env, Db, Tx, draw_random, gets, modify, pure, ◌>>=◌, ◌>>◌}
use session_pro_backend.Prelude.{
  Bool, List, [], false, if◌then◌else◌, is_none, none, not, some, suc, true, zero, ℕ, ◌+◌, ◌==◌,
  ◌∷◌,
}

abbrev pub has_token : Text → List Generation → Bool
has_token t [] = false
has_token t (g ∷ gs) = if g.token == t then true else has_token t gs

-- `is_generation_revoked`
unfoldable pub is_generation_revoked : ℕ → Db → Bool
is_generation_revoked id db = elim (find_generation id db.generations) [
  | none ↦ false
  | some g ↦ not (is_none g.revoked_at)
]

-- `INSERT INTO generations`, with the UNIQUE constraint on the token.
unfoldable pub insert_generation : ℕ → ℕ → Text → DateTime → Tx (Unit {0})
insert_generation id user_id token issued_at db = elim (has_token token db.generations) [
  | true ↦ err constraint_violation
  | false ↦
      let row : Generation = record {
        id = id;
        user_id = user_id;
        token = token;
        issued_at = issued_at;
        revoked_at = none;
      } in
      ok (tt, record db { generations = row ∷ db.generations })
]

-- The loop of `mint_generation` over the attempts that are left. A failed attempt has used its draw
-- and its id.
unfoldable pub mint_attempts : Env → ℕ → ℕ → DateTime → Tx (ℕ × Text)
unfolding insert_generation
mint_attempts env zero user_id issued_at db = err runtime_error
mint_attempts env (suc attempts) user_id issued_at db =
    let token = env.random db.draws in
    let id = db.next_generation_id in
    let used = record db { draws = db.draws + 1; next_generation_id = id + 1 } in
    elim (insert_generation id user_id token issued_at used) [
      | ok (_, db') ↦ ok ((id, token), db')
      | err _ ↦ mint_attempts env attempts user_id issued_at used
    ]

unfoldable pub mint_generation : Env → ℕ → DateTime → Tx (ℕ × Text)
unfolding mint_attempts
mint_generation env user_id issued_at = mint_attempts env 3 user_id issued_at

abbrev new_user : ℕ → VerifyKey → ℕ → ℕ → User
new_user id master_pkey gen_id offset = record {
  id = id;
  master_pkey = master_pkey;
  current_generation_id = gen_id;
  expiry_at = epoch;
  grace_period = none;
  auto_renewing = false;
  proof_expiry_offset = offset;
  credits_checkpoint_at = none;
  proofs_issued_total = 0;
  proofs_issued_window = 0;
  proofs_issued_past_expiry_window = 0;
  proofs_window_start = none;
}

-- The part of `get_or_create_user_and_generation` that creates: both ids are taken, the user is
-- inserted first and then the generation that it points at. Transactions run one after another, so
-- that no other creates the row between the read and the INSERT.
unfoldable pub create_user_and_generation : Env → VerifyKey → DateTime → Tx (ℕ × ℕ × Text × Bool)
unfolding insert_generation new_proof_expiry_offset
create_user_and_generation env master_pkey issued_at = do
  user_id ← gets (λ db. db.next_user_id)
  gen_id ← gets (λ db. db.next_generation_id)
  modify (λ db. record db { next_user_id = user_id + 1; next_generation_id = gen_id + 1 })
  token ← draw_random env
  offset ← new_proof_expiry_offset env
  modify (λ db. record db { users = new_user user_id master_pkey gen_id offset ∷ db.users })
  insert_generation gen_id user_id token issued_at
  pure (user_id, gen_id, token, true)

-- `get_or_create_user_and_generation`: the user's id, its generation with the token, and whether
-- the user was created.
unfoldable pub get_or_create_user_and_generation :
    Env → VerifyKey → DateTime → Tx (ℕ × ℕ × Text × Bool)
unfolding get_user create_user_and_generation
get_or_create_user_and_generation env master_pkey issued_at db = elim (get_user master_pkey db) [
  | some (u, g) ↦ ok ((u.id, u.current_generation_id, g.token, false), db)
  | none ↦ create_user_and_generation env master_pkey issued_at db
]
