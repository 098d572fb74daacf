-- ===== src/Crypto.antt =====
-- crypto/aesCBC.go: AES in CBC mode with PKCS5 padding and a hex or base64 text form. The block
-- cipher and the source of random bytes are parameters; the encodings and the chaining are not.
pub mod Hex
pub mod Base64
pub mod Cbc
pub mod Padding
pub mod Roundtrip
pub mod Tests
use glibs.Base.{
  ℕ, zero, suc, ◌+◌, ◌-◌, ◌%◌, List, [], ◌∷◌, ◌++◌, Option, none, some, Bool, true, false, not,
  if◌then◌else◌, ltb, ◌==◌, length, take, drop, all, get_elem?,
}
use glibs.Base.Bytes.{Bytes}
use Hex.{hex_encode, hex_decode, to_upper, to_lower}
use Base64.{base64_encode, base64_decode}
use Cbc.{BlockCipher, cbc_encrypt, cbc_decrypt}

pub data CryptoError : Type 0 where
  bad_encoding bad_key too_short not_block_multiple : CryptoError
  padding_empty padding_invalid padding_mismatch no_random : CryptoError

pub data Result (A : Type 0) : Type 0 where
  ok : A → Result A
  err : CryptoError → Result A

infixl 5 ◌>>=◌
abbrev pub ◌>>=◌ : {A B : Type 0} → Result A → (A → Result B) → Result B
ok a >>= f = f a
err e >>= f = err e

abbrev pub block_size : ℕ
block_size = 16

-- `for i := byte(0); i < n; i++ { plaintext = append(plaintext, n) }`, with the rounds left first.
pub append_pad : ℕ → ℕ → Bytes → Bytes
append_pad zero n plaintext = plaintext
append_pad (suc rounds) n plaintext = append_pad rounds n (plaintext ++ n ∷ [])

-- The count is a byte.
pub pkcs5_padding : Bytes → ℕ → Bytes
unfolding append_pad
pkcs5_padding plaintext size =
    let n = (size - length plaintext % size) % 256 in append_pad n n plaintext

pub last_byte : Bytes → Option ℕ
last_byte [] = none
last_byte (x ∷ []) = some x
last_byte (x ∷ y ∷ r) = last_byte (y ∷ r)

pub pkcs5_un_padding : Bytes → Result Bytes
unfolding last_byte
pkcs5_un_padding r = elim (last_byte r) [
  | none ↦ err padding_empty
  | some last ↦
      if ltb (length r) last
      then err padding_invalid
      else if all (λ v. v == last) (drop (length r - last) r)
      then ok (take (length r - last) r)
      else err padding_mismatch
]

-- The first element of the variadic argument, or false.
pub one_bool : List Bool → Bool
one_bool [] = false
one_bool (b ∷ bs) = b

pub encode : Bytes → List Bool → Bytes
unfolding one_bool
encode src use_base64 = if one_bool use_base64 then base64_encode src else to_upper (hex_encode src)

pub or_fail : {A : Type 0} → Option A → CryptoError → Result A
or_fail none e = err e
or_fail (some a) e = ok a

pub decode : Bytes → List Bool → Result Bytes
unfolding one_bool or_fail
decode src use_base64 =
    if one_bool use_base64
    then or_fail (base64_decode src) bad_encoding
    else or_fail (hex_decode (to_lower src)) bad_encoding

module _ (c : BlockCipher) where
  -- `random` is what `io.ReadFull(rand.Reader, iv)` gives.
  unfoldable pub aes_cbc_encrypt : Option Bytes → Bytes → Bytes → List Bool → Result Bytes
  unfolding encode pkcs5_padding
  aes_cbc_encrypt random key plaintext use_base64 =
      if not (c.key_ok key) then err bad_key else elim random [
        | none ↦ err no_random
        | some iv ↦
            ok (encode (iv ++ cbc_encrypt c key iv (pkcs5_padding plaintext block_size)) use_base64)
      ]

  -- Behind the text form: the initial vector, the length and the key are checked in this order.
  pub decrypt_raw : Bytes → Bytes → Result Bytes
  unfolding pkcs5_un_padding
  decrypt_raw key raw =
      if ltb (length raw) block_size
      then err too_short
      else if not (length (drop block_size raw) % block_size == 0)
      then err not_block_multiple
      else if not (c.key_ok key)
      then err bad_key
      else pkcs5_un_padding (cbc_decrypt c key (take block_size raw) (drop block_size raw))

  pub aes_cbc_decrypt : Bytes → Bytes → List Bool → Result Bytes
  unfolding decode decrypt_raw
  aes_cbc_decrypt key text use_base64 = decode text use_base64 >>= decrypt_raw key
