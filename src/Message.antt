-- ===== src/Message.antt =====
-- backend.py: `signed_message`, the byte layout of everything that a client or the backend signs,
-- and the messages built with it. A byte is a number; a key is the list of its bytes.
pub mod Decimal
pub mod Layout
pub mod Injective
use Prim.Native.Char.{code}
use Prim.Native.String.{String}
use session_pro_backend.Base.Units.{DateTime, unix_seconds_from_datetime}
use session_pro_backend.Message.Decimal.{decimal}
use session_pro_backend.Prelude.{
  Bool, List, Option, [], false, if◌then◌else◌, length, none, some, true, ℕ, ◌&&◌, ◌++◌, ◌==◌, ◌∷◌,
}

abbrev pub Bytes : Type 0
Bytes = List ℕ

abbrev pub ascii : String → Bytes
ascii String.[] = []
ascii (String.◌∷◌ c s) = code c ∷ ascii s

abbrev pub domain_size : ℕ
domain_size = 16

abbrev pub generate_proof_domain : Bytes
generate_proof_domain = ascii "ProGenerateProof"

abbrev pub build_proof_domain : Bytes
build_proof_domain = ascii "ProProof_v0_____"

abbrev pub get_payment_details_domain : Bytes
get_payment_details_domain = ascii "ProGetPayDetails"

abbrev pub get_pro_status_domain : Bytes
get_pro_status_domain = ascii "ProGetProStatus_"

-- The types of field that `signed_message` accepts. A text is given by its UTF-8 bytes; the callers
-- pass no negative integer.
pub data Field : Type 0 where
  raw : Bytes → Field
  instant : DateTime → Field
  integer : ℕ → Field
  text : Bytes → Field

-- What a field adds to the message, and whether its length varies.
unfoldable pub encode_field : Field → Bytes × Bool
unfolding unix_seconds_from_datetime
encode_field (raw b) = (b, false)
encode_field (instant t) = (decimal (unix_seconds_from_datetime t), true)
encode_field (integer n) = (decimal n, true)
encode_field (text b) = (b, true)

-- The loop over the fields, on the bytes written so far and whether the last field varied in
-- length.
unfoldable pub message_loop : Bytes → Bool → List Field → Bytes
unfolding encode_field
message_loop out prev_variable [] = out
message_loop out prev_variable (field ∷ fields) =
    let (bytes, variable) = encode_field field in
    let out' = if variable && prev_variable then out ++ 0 ∷ [] else out in
    message_loop (out' ++ bytes) variable fields

-- `none` is the failed assertion on the domain's size.
unfoldable pub signed_message : Bytes → List Field → Option Bytes
unfolding message_loop
signed_message domain fields =
    if length domain == domain_size then some (message_loop domain false fields) else none

unfoldable pub make_get_pro_status_message : Bytes → DateTime → Option Bytes
unfolding signed_message
make_get_pro_status_message master_pkey request_at =
    signed_message get_pro_status_domain (raw master_pkey ∷ instant request_at ∷ [])

unfoldable pub make_get_payment_details_message : Bytes → DateTime → ℕ → Bytes → Option Bytes
unfolding signed_message
make_get_payment_details_message master_pkey request_at limit before =
    signed_message get_payment_details_domain
      (raw master_pkey ∷ instant request_at ∷ integer limit ∷ text before ∷ [])

unfoldable pub make_generate_pro_proof_message : Bytes → Bytes → DateTime → Option Bytes
unfolding signed_message
make_generate_pro_proof_message master_pkey rotating_pkey request_at =
    signed_message generate_proof_domain
      (raw master_pkey ∷ raw rotating_pkey ∷ instant request_at ∷ [])

unfoldable pub build_proof_message : Bytes → Bytes → DateTime → Option Bytes
unfolding signed_message
build_proof_message revocation_tag rotating_pkey expiry_at =
    signed_message build_proof_domain
      (raw revocation_tag ∷ raw rotating_pkey ∷ instant expiry_at ∷ [])
