-- ===== src/Db/Monad.antt =====
-- A transaction: a function on the tables that returns a value and the tables it leaves, or an
-- error that rolls everything back. Transactions run one after another.
use session_pro_backend.Base.Units.{DateTime, Config}
use session_pro_backend.Base.Grid.{ProofExpiryShape}
use session_pro_backend.Base.Errors.{Error, Result, ok, err}
use session_pro_backend.Db.Tables.{Payment, Text, User, Generation}
use session_pro_backend.Prelude.{Bool, List, Option, false, none, some, true, ℕ, ◌+◌}

-- The module globals that the code reads, the clock, and the source of random numbers. `utc_now n`
-- is what the n-th read of the clock gives, `random n` the n-th draw.
pub record Env : Type 0 where
  pub config : Config
  pub shape : ProofExpiryShape
  pub utc_now : ℕ → DateTime
  pub random : ℕ → ℕ

-- The rows, newest first: an insert puts its row in front, with an id above all others. With them
-- the App Store notifications that were handled, each with the end of its retention, the revocation
-- ticket and the App Store checkpoint of `globals`, the sequences, and how often clock and random
-- source were used.
pub record Db : Type 0 where
  pub payments : List Payment
  pub users : List User
  pub generations : List Generation
  pub apple_notification_uuid_history : List (Text × DateTime)
  pub revocation_ticket : ℕ
  pub apple_notification_checkpoint_at : DateTime
  pub next_payment_id : ℕ
  pub next_user_id : ℕ
  pub next_generation_id : ℕ
  pub clock_reads : ℕ
  pub draws : ℕ

abbrev pub Tx : Type 0 → Type 0
Tx A = Db → Result (A × Db)

module _ {A : Type 0} where
  abbrev pub pure : A → Tx A
  pure a db = ok (a, db)

  abbrev pub raise : Error → Tx A
  raise e db = err e

  abbrev pub gets : (Db → A) → Tx A
  gets f db = ok (f db, db)

  -- `assert x is not None`
  abbrev pub require : Option A → Error → Tx A
  require none e = raise e
  require (some a) e = pure a

infixl 5 ◌>>=◌ ◌>>◌
abbrev pub ◌>>=◌ : {A B : Type 0} → Tx A → (A → Tx B) → Tx B
◌>>=◌ m f db = elim (m db) [ ok (a, db') ↦ f a db' | err e ↦ err e ]

abbrev pub ◌>>◌ : {A B : Type 0} → Tx A → Tx B → Tx B
m >> n = m >>= λ _. n

abbrev pub modify : (Db → Db) → Tx (Unit {0})
modify f db = ok (tt, f db)

abbrev pub when : Bool → Tx (Unit {0}) → Tx (Unit {0})
when true m = m
when false m = pure tt

-- `base.utc_now()`
abbrev pub read_clock : Env → Tx DateTime
read_clock env db = ok (env.utc_now db.clock_reads, record db { clock_reads = db.clock_reads + 1 })

abbrev pub draw_random : Env → Tx ℕ
draw_random env db = ok (env.random db.draws, record db { draws = db.draws + 1 })
