-- ===== src/J2rpc/Body.antt =====
-- j2rpc/option.go: the encryption of request and response bodies. The cipher is of the library
-- goutil, and so a parameter. Its functions and the conversions of letters may not panic here.
pub mod Roundtrip
use glibs.Base.{
  ℕ, ◌+◌, ◌≡◌, ◌≤◌, refl, ap, Bool, true, false, not, ◌&&◌, Option, none, some, List, [], ◌∷◌, ◌++◌,
  arith, if◌then◌else◌, leb, ltb, length, take, drop, ◌⊎◌,
}
use glibs.Base.Bytes.{Bytes, codes, has_prefix}
use glibs.Rpc.{Try, value, failed}

pub record HandlerCrypto : Type 0 where
  pub key : Bytes
  pub use_base64 : Bool

abbrev pub base64_prefix : Bytes
base64_prefix = codes "base64:"

abbrev crypto_of : Bytes → Option HandlerCrypto
crypto_of [] = none
crypto_of (x ∷ s) = some (record { key = x ∷ s; use_base64 = true })

-- An empty text has no handler; neither has the prefix alone.
unfoldable pub parse_handler_crypto : Bytes → Option HandlerCrypto
parse_handler_crypto [] = none
parse_handler_crypto (x ∷ s) =
    if not (has_prefix base64_prefix (x ∷ s))
    then some (record { key = x ∷ s; use_base64 = false })
    else crypto_of (drop 7 (x ∷ s))

-- goutil's `AESCBCEncrypt` and `AESCBCDecrypt`, and `bytes.ToUpper` and `bytes.ToLower`.
pub record BodyLib : Type 0 where
  pub aes_cbc_encrypt : Bytes → Bytes → Bool → Bytes
  pub aes_cbc_decrypt : Bytes → Bytes → Bool → Try Bytes
  pub to_upper : Bytes → Bytes
  pub to_lower : Bytes → Bytes

-- The lengths of the keys of AES.
abbrev pub IsKeyLength : ℕ → Type 0
IsKeyLength n = (n ≡ 16) ⊎ ((n ≡ 24) ⊎ (n ≡ 32))

-- Decryption undoes encryption for keys of the three lengths; hexadecimal text is in lower case.
pub record IsBodyLib (l : BodyLib) : Type 0 where
  pub decrypt-encrypt :
      (key body : Bytes) (b : Bool)
      → IsKeyLength (length key)
      → l.aes_cbc_decrypt key (l.aes_cbc_encrypt key body b) b ≡ value body
  pub lower-upper :
      (key body : Bytes)
      → l.to_lower (l.to_upper (l.aes_cbc_encrypt key body false))
        ≡ l.aes_cbc_encrypt key body false
  pub encrypt-ne-nil :
      (key : Bytes) (body : Bytes) (b : Bool) → ltb 0 (length (l.aes_cbc_encrypt key body b)) ≡ true
  pub length-upper : (s : Bytes) → length (l.to_upper s) ≡ length s

-- The key's first 16, 24 or 32 bytes, for a key of at least 16.
unfoldable pub cut_key : Bytes → Bytes
cut_key key =
    if ltb (length key) 24
    then take 16 key
    else if ltb (length key) 32
    then take 24 key
    else take 32 key

module _ (l : BodyLib) where
  unfoldable pub with_crypto : HandlerCrypto → Bool → Bytes → Try Bytes
  unfolding cut_key
  with_crypto co is_decrypt body =
      if ltb (length co.key) 16
      then value body
      else if is_decrypt
      then l.aes_cbc_decrypt (cut_key co.key) (if not co.use_base64 then l.to_lower body else body)
          co.use_base64
      else (let body' = l.aes_cbc_encrypt (cut_key co.key) body co.use_base64 in
          value (if not co.use_base64 then l.to_upper body' else body'))

  -- `ParseRPCBody`, with the option's `CryptoKey`.
  unfoldable pub parse_rpc_body : Bytes → Bytes → Bool → Try Bytes
  unfolding parse_handler_crypto with_crypto
  parse_rpc_body crypto_key body is_decrypt =
      if not (ltb 0 (length body)) then value body else elim (parse_handler_crypto crypto_key) [
        | none ↦ value body
        | some co ↦ with_crypto co is_decrypt body
      ]
