-- ===== src/Server/Revocations.antt =====
-- What a client learns of a revocation that polls `/get_pro_revocations`.
use mathlib.Core.List.{Memᴰ}
use session_pro_backend.Server.{
  ok, key_bytes, RevocationItem, get_pro_revocations, revocation_items, respond, served_revocations,
  success, ProRevocations,
}
use session_pro_backend.Json.{
  integral, object, raising, JsonObject, JsonValue, get_field, json_dict_require_int, json_get,
}
use session_pro_backend.Server.Fields.{get_json_from_flask_request, require_int}
use session_pro_backend.Json.Integers.{ℤ, pos}
use session_pro_backend.Db.Users.{find_generation, get_user}
use session_pro_backend.Message.{Bytes, ascii}
use session_pro_backend.Base.Units.{
  DateTime, revocation_effective_delay, unix_seconds_from_datetime, revocation_retain_for,
}
use session_pro_backend.Db.Monad.{Db}
use session_pro_backend.Db.Tables.{Generation, User, VerifyKey}
use session_pro_backend.Server.Decoding.{Holds}
use session_pro_backend.Prelude.{
  List, Option, [], arith, some, ℕ, ◌+◌, ◌∷◌, ◌≡◌, Bool-cases, Option-cases, inl, inr, ltb, none,
  refl, true, ◌-◌, ◌<◌, ◌==◌, ◌≤◌,
}
use session_pro_backend.Housekeeping.{get_revocations_list}
use session_pro_backend.Revoke.{revoke_current}
use session_pro_backend.Revoke.Served.{revoked_is_served}

-- The item of a generation that was revoked at a time.
abbrev pub item_of : Generation → DateTime → RevocationItem
item_of g revoked_at = record {
  revocation_tag = key_bytes g.token;
  effective_ts = unix_seconds_from_datetime (revoked_at + revocation_effective_delay);
}

revocation_items-live :
    (x : Generation) (gs : List Generation)
    → x.revoked_at ≡ none
    → revocation_items (x ∷ gs) ≡ revocation_items gs
unfolding revocation_items
revocation_items-live x gs live = ground arith

revocation_items-revoked :
    (x : Generation) (gs : List Generation) (t : DateTime)
    → x.revoked_at ≡ some t
    → revocation_items (x ∷ gs) ≡ item_of x t ∷ revocation_items gs
unfolding revocation_items
revocation_items-revoked x gs t gone = ground arith

find_generation-revocation_items :
    (j : ℕ) (gs : List Generation) (g : Generation) (t : DateTime)
    → find_generation j gs ≡ some g
    → g.revoked_at ≡ some t
    → Memᴰ (item_of g t) (revocation_items gs)
find_generation-revocation_items j [] g t found stamped = cc
find_generation-revocation_items j (x ∷ gs) g t found stamped = elim (Bool-cases (x.id == j)) [
  | inl here ↦
      let same : x ≡ g = ground arith in
      rw (same, revocation_items-revoked g gs t stamped) (Memᴰ.head refl)
  | inr other ↦
      let later = find_generation-revocation_items j gs g t (ground arith) stamped in
      elim (Option-cases x.revoked_at) [
        | inl live ↦ rw (revocation_items-live x gs live) later
        | inr (r, gone) ↦ rw (revocation_items-revoked x gs r gone) (Memᴰ.tail later)
      ]
]

require_int-holds :
    (d : JsonObject) (key : Bytes) (n : ℤ)
    → get_field key d ≡ some (integral n)
    → require_int d key ≡ ok n
unfolding require_int json_dict_require_int json_get raising
require_int-holds d key n h = ground arith

module _ (json_loads : Bytes → Option JsonValue) (now : DateTime) (body : Bytes) (d : JsonObject)
    (ticket : ℤ) where
  -- The answer to a request that reads.
  get_pro_revocations-reads :
      (db : Db)
      → json_loads body ≡ some (object d)
      → Holds d "ticket" (integral ticket)
      → respond (get_pro_revocations json_loads now body) db
        ≡ (success (served_revocations now ticket db), db)
  unfolding respond get_pro_revocations get_json_from_flask_request
  get_pro_revocations-reads db parsed held =
      ground (arith, require_int-holds d (ascii "ticket") ticket held)

served_revocations-behind :
    (now : DateTime) (ticket : ℕ) (db : Db) (r : RevocationItem)
    → ticket < db.revocation_ticket
    → Memᴰ r (
        revocation_items (get_revocations_list (some (now - revocation_retain_for)) db.generations))
    → Memᴰ r (served_revocations now (pos ticket) db).items
unfolding served_revocations
served_revocations-behind now ticket db r behind listed =
    let fires : ltb ticket db.revocation_ticket ≡ true = ground arith in rw fires listed

module _ (json_loads : Bytes → Option JsonValue) (now : DateTime) (body : Bytes) (d : JsonObject)
    (ticket : ℕ) where
  module _ (master_pkey : VerifyKey) (recorded_at : DateTime) (db : Db) (u : User)
      (g : Generation) where
    -- A revocation reaches the clients that poll. On the tables that the revocation of an account's
    -- live generation leaves, a client whose ticket is not above that of the tables before is
    -- answered a higher ticket, and a list with the generation's token, which takes effect one day
    -- and two hours after the recording, in whole seconds. The request parses to an object with the
    -- client's ticket and comes before the retention ends; the recording lies after 1970.
    pub revocation_reaches_clients :
        json_loads body ≡ some (object d)
        → Holds d "ticket" (integral (pos ticket))
        → ticket ≤ db.revocation_ticket
        → get_user master_pkey db ≡ some (u, g)
        → g.revoked_at ≡ none
        → 0 < recorded_at
        → now < recorded_at + revocation_retain_for
        → let db' = revoke_current master_pkey recorded_at db in
          (answer : ProRevocations) × (respond (get_pro_revocations json_loads now body) db'
            ≡ (success answer, db'))
          × (ticket < answer.ticket)
          × Memᴰ (item_of g recorded_at) answer.items
    revocation_reaches_clients parsed held behind account live after within =
        let db' = revoke_current master_pkey recorded_at db in
        let (found, rises) =
          revoked_is_served master_pkey recorded_at db u g (now - revocation_retain_for) account
            live (omega arith) in
        let listed =
          find_generation-revocation_items u.current_generation_id
            (get_revocations_list (some (now - revocation_retain_for)) db'.generations)
            (record g { revoked_at = some recorded_at }) recorded_at found refl in
        (
          served_revocations now (pos ticket) db',
          get_pro_revocations-reads json_loads now body d (pos ticket) db' parsed held,
          unfold served_revocations in omega arith,
          served_revocations-behind now ticket db' (item_of g recorded_at) (omega arith) listed,
        )
