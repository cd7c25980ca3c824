-- ===== src/Db/Generations/Minting.antt =====
-- Minting a generation, and revoking one.
use session_pro_backend.Base.Units.{DateTime}
use session_pro_backend.Base.Errors.{ok}
use session_pro_backend.Db.Tables.{Text, Generation}
use session_pro_backend.Db.Monad.{Env, Db}
use session_pro_backend.Db.Generations.{
  insert_generation, mint_attempts, has_token, mint_generation,
}
use session_pro_backend.Prelude.{
  false, none, suc, zero, ℕ, ◌∷◌, ◌≡◌, Bool-cases, arith, inl, inr, ◌+◌,
}

abbrev pub fresh_generation : ℕ → ℕ → Text → DateTime → Generation
fresh_generation id user_id token issued_at = record {
  id = id;
  user_id = user_id;
  token = token;
  issued_at = issued_at;
  revoked_at = none;
}

-- What a mint leaves: one more generation, live, with a token that none had, and the other tables
-- as they were.
pub record Minted (user_id : ℕ) (issued_at : DateTime) (db db' : Db) (id : ℕ) (token : Text)
    : Type 0 where
  pub generations : db'.generations ≡ fresh_generation id user_id token issued_at ∷ db.generations
  pub new_token : has_token token db.generations ≡ false
  pub users : db'.users ≡ db.users
  pub payments : db'.payments ≡ db.payments
  pub ticket : db'.revocation_ticket ≡ db.revocation_ticket

mint_attempts-Minted :
    (env : Env) (n user_id : ℕ) (issued_at : DateTime) (db db' : Db) (id : ℕ) (token : Text)
    → mint_attempts env n user_id issued_at db ≡ ok ((id, token), db')
    → Minted user_id issued_at db db' id token
unfolding mint_attempts insert_generation
mint_attempts-Minted env zero user_id issued_at db db' id token h = cc
mint_attempts-Minted env (suc n) user_id issued_at db db' id token h =
    elim (Bool-cases (has_token (env.random db.draws) db.generations)) [
      | inl taken ↦
          let used : Db = record db {
            draws = db.draws + 1;
            next_generation_id = db.next_generation_id + 1;
          } in
          let later =
            mint_attempts-Minted env n user_id issued_at used db' id token (ground arith) in
          record {
            generations = later.generations;
            new_token = later.new_token;
            users = later.users;
            payments = later.payments;
            ticket = later.ticket;
          }
      | inr free ↦ ground arith
    ]

-- A successful mint adds one live generation under a token that no other has, and leaves users,
-- payments and the revocation ticket alone.
pub mint_generation-Minted :
    (env : Env) (user_id : ℕ) (issued_at : DateTime) (db db' : Db) (id : ℕ) (token : Text)
    → mint_generation env user_id issued_at db ≡ ok ((id, token), db')
    → Minted user_id issued_at db db' id token
unfolding mint_generation
mint_generation-Minted env = mint_attempts-Minted env 3
