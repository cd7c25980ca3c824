-- ===== src/Db/Users.antt =====
-- backend.py: reading and updating user rows.
pub mod Lookup
use session_pro_backend.Base.Units.{DateTime, Config}
use session_pro_backend.Base.Grid.{offset_range}
use session_pro_backend.Db.Tables.{VerifyKey, Payment, User, Generation}
use session_pro_backend.Db.Monad.{Env, Db, Tx, draw_random, pure, ◌>>=◌}
use session_pro_backend.Prelude.{
  List, Option, [], if◌then◌else◌, ltb, none, some, ℕ, ◌%◌, ◌==◌, ◌∷◌, Bool,
}
use session_pro_backend.Coverage.{subscription_coverage_end}

abbrev pub find_user : VerifyKey → List User → Option User
find_user pkey [] = none
find_user pkey (u ∷ us) = if u.master_pkey == pkey then some u else find_user pkey us

abbrev pub find_by_id : ℕ → List User → Option User
find_by_id id [] = none
find_by_id id (u ∷ us) = if u.id == id then some u else find_by_id id us

abbrev pub find_generation : ℕ → List Generation → Option Generation
find_generation id [] = none
find_generation id (g ∷ gs) = if g.id == id then some g else find_generation id gs

abbrev pub with_generation : List Generation → Option User → Option (User × Generation)
with_generation gs none = none
with_generation gs (some u) = elim (find_generation u.current_generation_id gs) [
  | none ↦ none
  | some g ↦ some (u, g)
]

-- `get_user`: the user's row joined with its current generation.
unfoldable pub get_user : VerifyKey → Db → Option (User × Generation)
get_user pkey db = with_generation db.generations (find_user pkey db.users)

-- `UPDATE users SET ... WHERE ...`
unfoldable pub update_where : (User → Bool) → (User → User) → List User → List User
update_where test f [] = []
update_where test f (u ∷ us) = (if test u then f u else u) ∷ update_where test f us

abbrev pub by_key : VerifyKey → User → Bool
by_key pkey u = u.master_pkey == pkey

abbrev pub by_id : ℕ → User → Bool
by_id id u = u.id == id

-- `WHERE user_id = ...`
abbrev pub payments_of : ℕ → List Payment → List Payment
payments_of uid [] = []
payments_of uid (p ∷ ps) = elim p.user_id [
  | none ↦ payments_of uid ps
  | some owner ↦ if owner == uid then p ∷ payments_of uid ps else payments_of uid ps
]

-- The rows that `_lookup_user_expiry` selects, newest first, and the drain checkpoint they carry.
unfoldable pub account_rows : VerifyKey → Db → Option DateTime × List Payment
account_rows pkey db = elim (find_user pkey db.users) [
  | none ↦ (none, [])
  | some u ↦ (u.credits_checkpoint_at, payments_of u.id db.payments)
]

-- `new_proof_expiry_offset`
unfoldable pub new_proof_expiry_offset : Env → Tx ℕ
unfolding offset_range
new_proof_expiry_offset env = do n ← draw_random env; pure (n % offset_range env.shape)

-- `_offset_redrawn_if_expiry_extends`: the offset that the UPDATE stores. A fresh draw where the
-- expiry extends, the stored offset otherwise.
unfoldable pub offset_redrawn_if_expiry_extends : Option DateTime → ℕ → User → ℕ
offset_redrawn_if_expiry_extends none drawn u = u.proof_expiry_offset
offset_redrawn_if_expiry_extends (some expiry) drawn u =
    if ltb u.expiry_at expiry then drawn else u.proof_expiry_offset

abbrev pub account_coverage_end : Config → User → DateTime
account_coverage_end config u =
    subscription_coverage_end config u.expiry_at u.grace_period u.auto_renewing
