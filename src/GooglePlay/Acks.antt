-- ===== src/GooglePlay/Acks.antt =====
-- providers/google_play/notifications.py: the acknowledgement of purchases to the store, and
-- backend.py: the query for the purchases that it is owed for.
pub mod Cleared
use session_pro_backend.GooglePlay.Pass.{raised, Fetched, answered}
use session_pro_backend.Base.Errors.{ok, err}
use session_pro_backend.Base.Units.{DateTime}
use session_pro_backend.Converge.{google_clear_needs_ack}
use session_pro_backend.Db.Monad.{Db}
use session_pro_backend.Db.Tables.{Payment, Text, google, apple, stf}
use session_pro_backend.GooglePlay.Reconcile.{is_acknowledged}
use session_pro_backend.Prelude.{
  Bool, List, Option, [], false, if◌then◌else◌, min, none, some, true, ◌==◌, ◌∷◌,
}

-- One more row of the group of a token.
unfoldable pub group_token : Text → DateTime → List (Text × DateTime) → List (Text × DateTime)
group_token token at [] = (token, at) ∷ []
group_token token at ((t, first) ∷ rest) =
    if t == token then (t, min first at) ∷ rest else (t, first) ∷ group_token token at rest

-- `google_payment_tokens_needing_ack`: each token with its earliest purchase.
unfoldable pub google_payment_tokens_needing_ack : List Payment → List (Text × DateTime)
unfolding group_token
google_payment_tokens_needing_ack [] = []
google_payment_tokens_needing_ack (p ∷ ps) =
    let rest = google_payment_tokens_needing_ack ps in
    elim p.detail [
      | google token _ _ ↦ if p.needs_ack then group_token token p.purchased_at rest else rest
      | apple _ _ _ _ ↦ rest
      | stf _ ↦ rest
    ]

-- What `subscription_v1_acknowledge` comes to: success, a message in the sink, or an exception of
-- the client library, which nothing in the sweep catches.
pub data Acknowledgement : Type 0 where
  taken reported ack_raised : Acknowledgement

-- Whether the fetched resource says that the purchase is acknowledged; `none` where the fetch
-- raises.
unfoldable pub says_acknowledged : Fetched → Option Bool
says_acknowledged (raised _) = none
says_acknowledged (answered (some resource) []) =
    some (is_acknowledged resource.acknowledgement_state)
says_acknowledged (answered (some _) (_ ∷ _)) = some false
says_acknowledged (answered none _) = some false

module _ (acknowledge : Text → Acknowledgement) (fetch : Text → Fetched) where
  -- Whether the token is acknowledged, or `none` where that raises.
  unfoldable pub is_acked : Text → Option Bool
  unfolding says_acknowledged
  is_acked token = elim (acknowledge token) [
    | taken ↦ some true
    | reported ↦ says_acknowledged (fetch token)
    | ack_raised ↦ none
  ]

  abbrev pub clear_flag : Text → Db → Db
  clear_flag token db = elim (google_clear_needs_ack token db) [ ok (_, db') ↦ db' | err _ ↦ db ]

  -- The loop over the tokens: whether it raises, and the tables.
  unfoldable pub sweep_tokens : List (Text × DateTime) → Db → Bool × Db
  unfolding google_clear_needs_ack is_acked
  sweep_tokens [] db = (false, db)
  sweep_tokens ((token, purchased_at) ∷ rest) db = elim (is_acked token) [
    | none ↦ (true, db)
    | some acked ↦ sweep_tokens rest (if acked then clear_flag token db else db)
  ]

  -- `_sweep_pending_acks`
  unfoldable pub sweep_pending_acks : Db → Bool × Db
  unfolding google_payment_tokens_needing_ack sweep_tokens
  sweep_pending_acks db = sweep_tokens (google_payment_tokens_needing_ack db.payments) db
