-- ===== src/Listing/Cursor.antt =====
-- backend.py: the sealed cursor of a page of payments.
use session_pro_backend.Redeem.{key_bytes, big_endian, number_of}
use session_pro_backend.Base.Hex.{fromhex, hex_of, hex_character, hex_digit, is_hex_blank}
use session_pro_backend.Prelude.{
  All, Option, [], arith, false, length, none, refl, some, suc, zero, ℕ, ◌*◌, ◌++◌, ◌+◌, ◌<◌, ◌∷◌,
  ◌≡◌, ap, ◌%◌, ◌/◌,
}
use session_pro_backend.Message.{Bytes}
use session_pro_backend.Db.Tables.{VerifyKey}

abbrev pub AreBytes : Bytes → Type 0
AreBytes bs = All (λ b. b < 256) bs

-- XChaCha20-Poly1305 of the NaCl library: what it encrypts, of a message, the associated bytes, a
-- nonce and a key, it decrypts with the same three; `none` is where it raises.
pub record Aead : Type 0 where
  pub encrypt : Bytes → Bytes → Bytes → Bytes → Bytes
  pub decrypt : Bytes → Bytes → Bytes → Bytes → Option Bytes
  pub decrypt-encrypt :
      (message associated nonce key : Bytes)
      → AreBytes message
      → decrypt (encrypt message associated nonce key) associated nonce key ≡ some message
  pub encrypt-bytes :
      (message associated nonce key : Bytes)
      → AreBytes message
      → AreBytes (encrypt message associated nonce key)

abbrev pub nonce_size : ℕ
nonce_size = 24

-- `raw[:n]` and `raw[n:]`
abbrev first_bytes : ℕ → Bytes → Bytes
first_bytes zero raw = []
first_bytes (suc n) [] = []
first_bytes (suc n) (b ∷ bs) = b ∷ first_bytes n bs

abbrev without_first : ℕ → Bytes → Bytes
without_first zero raw = raw
without_first (suc n) [] = []
without_first (suc n) (b ∷ bs) = without_first n bs

module _ (cipher : Aead) (cursor_key : Bytes) (master_pkey : VerifyKey) where
  open cipher use {encrypt, decrypt, decrypt-encrypt, encrypt-bytes}

  -- The nonce is drawn at random. The ids are those of the table, below 2 ^ 64.
  unfoldable pub encrypt_payment_cursor : Bytes → ℕ → Bytes
  unfolding hex_of big_endian key_bytes
  encrypt_payment_cursor nonce payment_id =
      hex_of (nonce ++ encrypt (big_endian 8 payment_id) (key_bytes master_pkey) nonce cursor_key)

  unfoldable pub decrypt_payment_cursor : Bytes → Option ℕ
  unfolding fromhex key_bytes
  decrypt_payment_cursor cursor = elim (fromhex none cursor) [
    | none ↦ none
    | some raw ↦
        elim (decrypt (without_first nonce_size raw) (key_bytes master_pkey)
          (first_bytes nonce_size raw) cursor_key) [ none ↦ none | some pt ↦ some (number_of 0 pt) ]
  ]

-- A byte reads back from its two characters.
hex_digit-hex_character : (d : ℕ) → d < 16 → hex_digit (hex_character d) ≡ some d
hex_digit-hex_character d small = ground arith

hex_character-not_blank : (d : ℕ) → d < 16 → is_hex_blank (hex_character d) ≡ false
hex_character-not_blank d small = ground arith

fromhex-hex_of : (bs : Bytes) → AreBytes bs → fromhex none (hex_of bs) ≡ some bs
unfolding fromhex hex_of
fromhex-hex_of [] bytes = refl
fromhex-hex_of (b ∷ bs) bytes =
    let (small, rest) = bytes in
    let whole : (b / 16) * 16 + b % 16 ≡ b = omega arith in
    ground (
      arith,
      hex_character-not_blank (b / 16) (omega (arith, small)),
      hex_digit-hex_character (b / 16) (omega (arith, small)),
      hex_digit-hex_character (b % 16) (omega arith),
      fromhex-hex_of bs rest,
      whole,
    )

-- What a big-endian width can hold.
abbrev pub capacity : ℕ → ℕ
capacity zero = 1
capacity (suc width) = 256 * capacity width

number_of-append :
    (acc : ℕ) (bs : Bytes) (b : ℕ) → number_of acc (bs ++ b ∷ []) ≡ number_of acc bs * 256 + b
number_of-append acc [] b = refl
number_of-append acc (x ∷ bs) b = number_of-append (acc * 256 + x) bs b

number_of-big_endian : (width n : ℕ) → n < capacity width → number_of 0 (big_endian width n) ≡ n
unfolding big_endian
number_of-big_endian zero n fits = omega arith
number_of-big_endian (suc width) n fits =
    let above = number_of-big_endian width (n / 256) (omega (arith, fits)) in
    rw (number_of-append 0 (big_endian width (n / 256)) (n % 256), above) (omega arith)

first_bytes-append :
    (n : ℕ) (xs ys : Bytes)
    → length xs ≡ n
    → (first_bytes n (xs ++ ys) ≡ xs) × (without_first n (xs ++ ys) ≡ ys)
first_bytes-append zero [] ys long = (refl, refl)
first_bytes-append zero (x ∷ xs) ys long = absurd (omega (arith, long))
first_bytes-append (suc n) [] ys long = absurd (omega (arith, long))
first_bytes-append (suc n) (x ∷ xs) ys long =
    let (front, back) = first_bytes-append n xs ys (omega (arith, long)) in
    (ap (λ (t : Bytes). x ∷ t) front, back)

All-append : (xs ys : Bytes) → AreBytes xs → AreBytes ys → AreBytes (xs ++ ys)
All-append [] ys left right = right
All-append (x ∷ xs) ys left right = (left.0, All-append xs ys left.1 right)

big_endian-AreBytes : (width n : ℕ) → AreBytes (big_endian width n)
unfolding big_endian
big_endian-AreBytes zero n = tt
big_endian-AreBytes (suc width) n =
    All-append (big_endian width (n / 256)) (n % 256 ∷ []) (big_endian-AreBytes width (n / 256))
      (omega arith, tt)

module _ (cipher : Aead) (cursor_key : Bytes) (master_pkey : VerifyKey) where
  open cipher use {encrypt, decrypt, decrypt-encrypt, encrypt-bytes}

  -- A sealed cursor opens to the id that it seals: for the account and the key that it was sealed
  -- with, whatever nonce of 24 bytes was drawn, and any id below 2 ^ 64.
  pub sealed_cursor_opens :
      (nonce : Bytes) (payment_id : ℕ)
      → length nonce ≡ nonce_size
      → AreBytes nonce
      → payment_id < capacity 8
      → decrypt_payment_cursor cipher cursor_key master_pkey
          (encrypt_payment_cursor cipher cursor_key master_pkey nonce payment_id)
        ≡ some payment_id
  unfolding encrypt_payment_cursor decrypt_payment_cursor
  sealed_cursor_opens nonce payment_id long bytes fits =
      let message : Bytes = big_endian 8 payment_id in
      let plain : AreBytes message = big_endian-AreBytes 8 payment_id in
      let sealed : Bytes = encrypt message (key_bytes master_pkey) nonce cursor_key in
      let (front, back) = first_bytes-append nonce_size nonce sealed long in
      cc (
        fromhex-hex_of (nonce ++ sealed) (
            All-append nonce sealed bytes
              (encrypt-bytes message (key_bytes master_pkey) nonce cursor_key plain)),
        front,
        back,
        decrypt-encrypt message (key_bytes master_pkey) nonce cursor_key plain,
        number_of-big_endian 8 payment_id fits,
      )
