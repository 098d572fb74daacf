-- ===== src/Crypto/Roundtrip.antt =====
-- crypto/aesCBC.go: `AESCBCDecrypt` against `AESCBCEncrypt`.
use glibs.Base.{
  ℕ, suc, ◌%◌, ◌≤◌, ◌<◌, ◌≡◌, length-drop, refl, List, ◌++◌, some, Bool, true, false, ltb, length,
  take, drop, replicate, length-append, length-replicate, take-append_of, drop-append_of,
  All-append, All-replicate, Bool-cases, inl, inr, arith, ◌==◌,
}
use glibs.Base.Bytes.{Bytes, IsBytes}
use glibs.Crypto.{
  Result, ok, err, ◌>>=◌, one_bool, encode, decode, or_fail, pkcs5_padding, pkcs5_un_padding,
  decrypt_raw, aes_cbc_encrypt, aes_cbc_decrypt,
}
use glibs.Crypto.Hex.{hex_text_roundtrip}
use glibs.Crypto.Base64.{base64_decode-encode}
use glibs.Crypto.Cbc.{BlockCipher, IsCipher, cbc_encrypt, cbc_decrypt, cbc_roundtrip}
use glibs.Crypto.Padding.{pkcs5_roundtrip, pkcs5_un_padding_sound}

-- Either text form is read back.
decode-encode : (bs : Bytes) (b64 : List Bool) → IsBytes bs → decode (encode bs b64) b64 ≡ ok bs
unfolding decode encode or_fail
decode-encode bs b64 h = elim (Bool-cases (one_bool b64)) [
  | inl text ↦ rw (text, base64_decode-encode bs h, or_fail)
  | inr hex ↦ rw (hex, hex_text_roundtrip bs h, or_fail)
]

padded-blocks : (p : Bytes) → length (pkcs5_padding p 16) % 16 ≡ 0
padded-blocks p =
    let (k, e, f) = (pkcs5_roundtrip p 16 (omega arith) (omega arith)).1 in
    rw (e, length-append p (replicate (suc k) (suc k)), length-replicate (suc k) (suc k))
      (omega arith)

padded-IsBytes : (p : Bytes) → IsBytes p → IsBytes (pkcs5_padding p 16)
padded-IsBytes p h =
    let (k, e, f) = (pkcs5_roundtrip p 16 (omega arith) (omega arith)).1 in
    rw e (
      All-append (λ b. b < 256) p (replicate (suc k) (suc k)) h
        (All-replicate (λ b. b < 256) (suc k) (suc k) (omega arith)))

module _ (c : BlockCipher) (laws : IsCipher c) (key iv p : Bytes) (good : c.key_ok key ≡ true)
    (iv_block : length iv ≡ 16) (iv_bytes : IsBytes iv) (bytes : IsBytes p) where
  decrypt_raw_lem : decrypt_raw c key (iv ++ cbc_encrypt c key iv (pkcs5_padding p 16)) ≡ ok p
  unfolding decrypt_raw
  decrypt_raw_lem =
      let padded = pkcs5_padding p 16 in
      let (back, size, _) =
        cbc_roundtrip c laws key good iv padded iv_block iv_bytes (padded-blocks p)
          (padded-IsBytes p bytes) in
      let body = cbc_encrypt c key iv padded in
      let long : ltb (length (iv ++ body)) 16 ≡ false = ground (arith, length-append iv body) in
      let whole : (length body % 16 == 0) ≡ true = ground (arith, padded-blocks p) in
      rw
        (
          drop-append_of 16 iv body iv_block,
          take-append_of 16 iv body iv_block,
          long,
          whole,
          good,
          back,
        )
        (pkcs5_roundtrip p 16 (omega arith) (omega arith)).0

  text_IsBytes : IsBytes (iv ++ cbc_encrypt c key iv (pkcs5_padding p 16))
  text_IsBytes =
      All-append (λ b. b < 256) iv _ iv_bytes
        (cbc_roundtrip c laws key good iv (pkcs5_padding p 16) iv_block iv_bytes (padded-blocks p)
          (padded-IsBytes p bytes)).2

-- With a block cipher that decrypts what it encrypts, a key that it takes and a random vector of
-- one block, every text of bytes is encrypted, and decrypting with the same key and text form gives
-- it back, in hex and in base64.
pub aes_cbc_roundtrip :
    (c : BlockCipher)
    → IsCipher c
    → (key iv p : Bytes) (b64 : List Bool) → c.key_ok key ≡ true
    → length iv ≡ 16
    → IsBytes iv
    → IsBytes p
    → (t : Bytes) × (aes_cbc_encrypt c (some iv) key p b64 ≡ ok t)
      × (aes_cbc_decrypt c key t b64 ≡ ok p)
unfolding aes_cbc_encrypt aes_cbc_decrypt
aes_cbc_roundtrip c laws key iv p b64 good iv_block iv_bytes bytes = (
  encode (iv ++ cbc_encrypt c key iv (pkcs5_padding p 16)) b64,
  rw good,
  rw (decode-encode _ b64 (text_IsBytes c laws key iv p good iv_block iv_bytes bytes))
      (decrypt_raw_lem c laws key iv p good iv_block iv_bytes bytes),
)

decrypt_raw_sound :
    (c : BlockCipher) (key raw p : Bytes)
    → decrypt_raw c key raw ≡ ok p
    → (16 ≤ length raw)
      × (length (drop 16 raw) % 16 ≡ 0)
      × (c.key_ok key ≡ true)
      × (pkcs5_un_padding (cbc_decrypt c key (take 16 raw) (drop 16 raw)) ≡ ok p)
unfolding decrypt_raw
decrypt_raw_sound c key raw p e = elim (Bool-cases (ltb (length raw) 16)) [
  | inl short ↦ absurd (ground arith)
  | inr long ↦ elim (Bool-cases (length (drop 16 raw) % 16 == 0)) [
    | inr rest ↦ absurd (ground arith)
    | inl whole ↦ elim (Bool-cases (c.key_ok key)) [
      | inr bad ↦ absurd (ground arith)
      | inl good ↦ (ground arith, ground arith, good, rw (long, whole, good) at e)
    ]
  ]
]

-- What decrypts was a text form of a vector and whole blocks, under a key that the cipher takes, and
-- the blocks hold the result and a padding of `n` bytes `n`.
pub aes_cbc_decrypt_sound :
    (c : BlockCipher) (key t p : Bytes) (b64 : List Bool)
    → aes_cbc_decrypt c key t b64 ≡ ok p
    → (raw : Bytes) × (n : ℕ) × (decode t b64 ≡ ok raw)
      × (16 ≤ length raw)
      × (length raw % 16 ≡ 0)
      × (c.key_ok key ≡ true)
      × (cbc_decrypt c key (take 16 raw) (drop 16 raw) ≡ p ++ replicate n n)
unfolding aes_cbc_decrypt
aes_cbc_decrypt_sound c key t p b64 e = from (decode t b64) refl
  where
    from :
        (d : Result Bytes)
        → decode t b64 ≡ d
        → (raw : Bytes) × (n : ℕ) × (decode t b64 ≡ ok raw)
          × (16 ≤ length raw)
          × (length raw % 16 ≡ 0)
          × (c.key_ok key ≡ true)
          × (cbc_decrypt c key (take 16 raw) (drop 16 raw) ≡ p ++ replicate n n)
    from (err x) d = absurd (ground arith)
    from (ok raw) d =
        let (long, whole, good, unpadded) = decrypt_raw_sound c key raw p (rw (d, ◌>>=◌) at e) in
        let (n, _, split) = pkcs5_un_padding_sound _ p unpadded in
        (raw, n, d, long, omega (arith, length-drop 16 raw), good, split)
