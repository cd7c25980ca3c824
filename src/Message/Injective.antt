-- ===== src/Message/Injective.antt =====
-- What a signed message binds: its domain, and every field of the message.
use session_pro_backend.Message.{
  Bytes, Field, build_proof_message, domain_size, encode_field, make_get_payment_details_message,
  make_get_pro_status_message, message_loop, signed_message, build_proof_domain,
  get_payment_details_domain, get_pro_status_domain, instant, integer, raw, text,
}
use session_pro_backend.Prelude.{
  Bool, Bool-cases, List, [], ap, arith, false, if◌then◌else◌, inl, inr, length, refl, some, sym,
  true, ℕ, ◌&&◌, ◌++◌, ◌==◌, ◌∙◌, ◌∷◌, ◌≡◌,
}
use session_pro_backend.Base.Units.{DateTime, unix_seconds_from_datetime}
use mathlib.Core.List.{append-nil, append_assoc}
use session_pro_backend.Message.Layout.{append_cancel, separator_cancel}
use session_pro_backend.Message.Decimal.{decimal, decimal_inj, decimal_pos}

-- The part of the message that the fields make, as a plain recursion.
abbrev field_bytes : Bool → Bytes × Bool → Bytes
field_bytes prev (bytes, variable) = if variable && prev then 0 ∷ bytes else bytes

abbrev body : Bool → List Field → Bytes
body prev [] = []
body prev (f ∷ fs) = field_bytes prev (encode_field f) ++ body (encode_field f).1 fs

append_field :
    (out : Bytes) (prev : Bool) (f : Bytes × Bool)
    → (if f.1 && prev then out ++ 0 ∷ [] else out) ++ f.0 ≡ out ++ field_bytes prev f
append_field out true (bytes, true) = append_assoc out (0 ∷ []) bytes
append_field out false (bytes, true) = refl
append_field out prev (bytes, false) = refl

message_loop-body :
    (out : Bytes) (prev : Bool) (fs : List Field) → message_loop out prev fs ≡ out ++ body prev fs
unfolding message_loop
message_loop-body out prev [] = sym (append-nil out)
message_loop-body out prev (f ∷ fs) =
    let (bytes, variable) = encode_field f in
    message_loop-body ((if variable && prev then out ++ 0 ∷ [] else out) ++ bytes) variable fs
    ∙ ap (λ t. t ++ body variable fs) (append_field out prev (encode_field f))
    ∙ append_assoc out (field_bytes prev (encode_field f)) (body variable fs)

-- A message is its domain, of the right size, and the bytes of its fields.
signed_message-eq-some :
    (d : Bytes) (fs : List Field) {m : Bytes}
    → signed_message d fs ≡ some m
    → (length d ≡ domain_size) × (d ++ body false fs ≡ m)
unfolding signed_message
signed_message-eq-some d fs p = elim (Bool-cases (length d == domain_size)) [
  | inl fits ↦ (ground arith, sym (message_loop-body d false fs) ∙ ground arith)
  | inr bad ↦ cc (rw bad at p)
]

-- Messages of two domains are never the same bytes, whatever their fields.
pub signed_message_domain :
    (d d' : Bytes) (fs fs' : List Field) {m : Bytes}
    → signed_message d fs ≡ some m
    → signed_message d' fs' ≡ some m
    → d ≡ d'
signed_message_domain d d' fs fs' p q =
    let a = signed_message-eq-some d fs p in
    let b = signed_message-eq-some d' fs' q in
    (append_cancel d d' (omega (arith, a.0, b.0)) (a.1 ∙ sym b.1)).0

abbrev seconds_text : DateTime → Bytes
seconds_text t = decimal (unix_seconds_from_datetime t)

-- The digits of the seconds at the end of a message.
seconds-inj :
    (t t' : DateTime)
    → seconds_text t ++ [] ≡ seconds_text t' ++ []
    → unix_seconds_from_datetime t ≡ unix_seconds_from_datetime t'
seconds-inj t t' e =
    decimal_inj _ _ (sym (append-nil (seconds_text t)) ∙ e ∙ append-nil (seconds_text t'))

module _ (k k' : Bytes) (r r' : DateTime) {m : Bytes} (same_length : length k ≡ length k') where
  -- Two requests for the account's status that sign to the same bytes name the same key and the
  -- same second. The keys have the same length.
  pub get_pro_status_message_inj :
      make_get_pro_status_message k r ≡ some m
      → make_get_pro_status_message k' r' ≡ some m
      → (k ≡ k') × (unix_seconds_from_datetime r ≡ unix_seconds_from_datetime r')
  unfolding make_get_pro_status_message encode_field
  get_pro_status_message_inj p q =
      let a = signed_message-eq-some get_pro_status_domain (raw k ∷ instant r ∷ []) p in
      let b = signed_message-eq-some get_pro_status_domain (raw k' ∷ instant r' ∷ []) q in
      let fields =
        (append_cancel get_pro_status_domain get_pro_status_domain refl (a.1 ∙ sym b.1)).1 in
      let parts = append_cancel k k' same_length fields in (parts.0, seconds-inj r r' parts.1)

  -- Two requests for a page of payments that sign to the same bytes name the same key, second,
  -- limit and cursor. The keys have the same length.
  pub get_payment_details_message_inj :
      (l l' : ℕ) (b b' : Bytes)
      → make_get_payment_details_message k r l b ≡ some m
      → make_get_payment_details_message k' r' l' b' ≡ some m
      → (k ≡ k')
        × (unix_seconds_from_datetime r ≡ unix_seconds_from_datetime r')
        × (l ≡ l')
        × (b ≡ b')
  unfolding make_get_payment_details_message encode_field
  get_payment_details_message_inj l l' b b' p q =
      let d : Bytes = get_payment_details_domain in
      let x = signed_message-eq-some d (raw k ∷ instant r ∷ integer l ∷ text b ∷ []) p in
      let y = signed_message-eq-some d (raw k' ∷ instant r' ∷ integer l' ∷ text b' ∷ []) q in
      let fields = (append_cancel d d refl (x.1 ∙ sym y.1)).1 in
      let key = append_cancel k k' same_length fields in
      let time =
        separator_cancel (seconds_text r) (seconds_text r') (decimal_pos _) (decimal_pos _) key.1 in
      let page =
        separator_cancel (decimal l) (decimal l') (decimal_pos l) (decimal_pos l') time.1 in
      (
        key.0,
        decimal_inj _ _ time.0,
        decimal_inj l l' page.0,
        sym (append-nil b) ∙ page.1 ∙ append-nil b',
      )

  -- Two messages that certify proofs and are the same bytes name the same tag, rotating key and
  -- second. The tags have the same length, and so have the keys.
  pub build_proof_message_inj :
      (s s' : Bytes)
      → length s ≡ length s'
      → build_proof_message k s r ≡ some m
      → build_proof_message k' s' r' ≡ some m
      → (k ≡ k') × (s ≡ s') × (unix_seconds_from_datetime r ≡ unix_seconds_from_datetime r')
  unfolding build_proof_message encode_field
  build_proof_message_inj s s' same p q =
      let d : Bytes = build_proof_domain in
      let x = signed_message-eq-some d (raw k ∷ raw s ∷ instant r ∷ []) p in
      let y = signed_message-eq-some d (raw k' ∷ raw s' ∷ instant r' ∷ []) q in
      let fields = (append_cancel d d refl (x.1 ∙ sym y.1)).1 in
      let tag = append_cancel k k' same_length fields in
      let key = append_cancel s s' same tag.1 in (tag.0, key.0, seconds-inj r r' key.1)
