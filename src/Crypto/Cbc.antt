-- ===== src/Crypto/Cbc.antt =====
-- `cipher.NewCBCEncrypter` and `cipher.NewCBCDecrypter` over a block cipher that is a parameter.
use Prim.Native.Nat.{bit_xor}
use glibs.Base.{
  ℕ, zero, suc, ◌*◌, ◌%◌, ◌/◌, ◌≤◌, ◌≡◌, length-append, length-take, length-drop, take-append_of,
  drop-append_of, eq_nil_of_length, take-append-drop, sym, ◌∙◌, refl, [], ◌∷◌, ◌++◌, Bool, true,
  length, take, drop, arith, All-take, All-drop, All-append, ◌<◌,
}
use glibs.Base.Bits.{bit_xor_twice, bit_xor-lt}
use glibs.Base.Bytes.{Bytes, IsBytes}

-- `aes.NewCipher`: which keys it takes, and how it maps a block of 16 bytes there and back.
pub record BlockCipher : Type 0 where
  pub key_ok : Bytes → Bool
  pub encrypt_block : Bytes → Bytes → Bytes
  pub decrypt_block : Bytes → Bytes → Bytes

-- What is documented of it: a block of bytes goes to a block of bytes, and decryption undoes
-- encryption.
pub record IsCipher (c : BlockCipher) : Type 0 where
  pub encrypt_block-block :
      (key b : Bytes)
      → c.key_ok key ≡ true
      → length b ≡ 16
      → IsBytes b
      → (length (c.encrypt_block key b) ≡ 16) × IsBytes (c.encrypt_block key b)
  pub decrypt-encrypt_block :
      (key b : Bytes)
      → c.key_ok key ≡ true
      → length b ≡ 16
      → IsBytes b
      → c.decrypt_block key (c.encrypt_block key b) ≡ b

unfoldable pub xor_bytes : Bytes → Bytes → Bytes
xor_bytes [] ys = []
xor_bytes (x ∷ xs) [] = []
xor_bytes (x ∷ xs) (y ∷ ys) = bit_xor x y ∷ xor_bytes xs ys

module _ (c : BlockCipher) where
  encrypt_blocks : ℕ → Bytes → Bytes → Bytes → Bytes
  encrypt_blocks zero key prev p = []
  encrypt_blocks (suc n) key prev p =
      let block = c.encrypt_block key (xor_bytes (take 16 p) prev) in
      block ++ encrypt_blocks n key block (drop 16 p)

  decrypt_blocks : ℕ → Bytes → Bytes → Bytes → Bytes
  decrypt_blocks zero key prev p = []
  decrypt_blocks (suc n) key prev p =
      xor_bytes (c.decrypt_block key (take 16 p)) prev
      ++ decrypt_blocks n key (take 16 p) (drop 16 p)

  unfoldable pub cbc_encrypt : Bytes → Bytes → Bytes → Bytes
  unfolding encrypt_blocks
  cbc_encrypt key iv p = encrypt_blocks (length p / 16) key iv p

  unfoldable pub cbc_decrypt : Bytes → Bytes → Bytes → Bytes
  unfolding decrypt_blocks
  cbc_decrypt key iv p = decrypt_blocks (length p / 16) key iv p

length-xor_bytes :
    (n : ℕ) (xs ys : Bytes) → length xs ≡ n → length ys ≡ n → length (xor_bytes xs ys) ≡ n
unfolding xor_bytes
length-xor_bytes n [] ys p q = p
length-xor_bytes n (x ∷ xs) [] p q = absurd (omega arith)
length-xor_bytes zero (x ∷ xs) (y ∷ ys) p q = absurd (omega arith)
length-xor_bytes (suc n) (x ∷ xs) (y ∷ ys) p q =
    omega (arith, length-xor_bytes n xs ys (omega arith) (omega arith))

xor_bytes_twice : (xs ys : Bytes) → length xs ≡ length ys → xor_bytes (xor_bytes xs ys) ys ≡ xs
unfolding xor_bytes
xor_bytes_twice [] ys h = refl
xor_bytes_twice (x ∷ xs) [] h = absurd (omega arith)
xor_bytes_twice (x ∷ xs) (y ∷ ys) h = rw (bit_xor_twice x y, xor_bytes_twice xs ys (omega arith))

xor_bytes-IsBytes : (xs ys : Bytes) → IsBytes xs → IsBytes ys → IsBytes (xor_bytes xs ys)
unfolding xor_bytes
xor_bytes-IsBytes [] ys p q = tt
xor_bytes-IsBytes (x ∷ xs) [] p q = tt
xor_bytes-IsBytes (x ∷ xs) (y ∷ ys) p q =
    (bit_xor-lt 8 x y p.0 q.0, xor_bytes-IsBytes xs ys p.1 q.1)

module _ (c : BlockCipher) (laws : IsCipher c) (key : Bytes) (good : c.key_ok key ≡ true) where
  -- The chaining value and a plaintext that starts with a whole block.
  record IsStart (prev p : Bytes) : Type 0 where
    prev_block : length prev ≡ 16
    prev_bytes : IsBytes prev
    enough : 16 ≤ length p
    bytes : IsBytes p

  block_of : Bytes → Bytes → Bytes
  block_of prev p = c.encrypt_block key (xor_bytes (take 16 p) prev)

  first_size : (prev p : Bytes) → IsStart prev p → length (take 16 p) ≡ 16
  first_size prev p h = omega (arith, length-take 16 p, h.enough)

  mixed_size : (prev p : Bytes) → IsStart prev p → length (xor_bytes (take 16 p) prev) ≡ 16
  mixed_size prev p h = length-xor_bytes 16 (take 16 p) prev (first_size prev p h) h.prev_block

  mixed-IsBytes : (prev p : Bytes) → IsStart prev p → IsBytes (xor_bytes (take 16 p) prev)
  mixed-IsBytes prev p h =
      xor_bytes-IsBytes (take 16 p) prev (All-take (λ x. x < 256) 16 p h.bytes) h.prev_bytes

  block_lem :
      (prev p : Bytes)
      → IsStart prev p
      → (length (block_of prev p) ≡ 16)
        × IsBytes (block_of prev p)
        × (xor_bytes (c.decrypt_block key (block_of prev p)) prev ≡ take 16 p)
  unfolding block_of
  block_lem prev p h =
      let ciphered =
        laws.encrypt_block-block key _ good (mixed_size prev p h) (mixed-IsBytes prev p h) in
      let back : c.decrypt_block key (block_of prev p) ≡ xor_bytes (take 16 p) prev =
        laws.decrypt-encrypt_block key _ good (mixed_size prev p h) (mixed-IsBytes prev p h) in
      (
        ciphered.0,
        ciphered.1,
        rw back (xor_bytes_twice (take 16 p) prev (first_size prev p h ∙ sym h.prev_block)),
      )

  -- What `encrypt_blocks` gives from a chaining value: as many bytes, which decrypt to the text.
  abbrev Encrypts : ℕ → Bytes → Bytes → Type 0
  Encrypts n prev p =
      (length (encrypt_blocks c n key prev p) ≡ n * 16)
      × IsBytes (encrypt_blocks c n key prev p)
      × (decrypt_blocks c n key prev (encrypt_blocks c n key prev p) ≡ p)

  encrypt_blocks-Encrypts :
      (n : ℕ) (prev p : Bytes)
      → length prev ≡ 16
      → IsBytes prev
      → length p ≡ n * 16
      → IsBytes p
      → Encrypts n prev p
  unfolding encrypt_blocks decrypt_blocks block_of
  encrypt_blocks-Encrypts zero prev p hp bp hl b = (omega arith, tt, sym (eq_nil_of_length p hl))
  encrypt_blocks-Encrypts (suc n) prev p hp bp hl b =
      let start : IsStart prev p = record {
        prev_block = hp;
        prev_bytes = bp;
        enough = omega arith;
        bytes = b;
      } in
      let block = block_of prev p in
      let (size, bytes, back) = block_lem prev p start in
      let rest = encrypt_blocks c n key block (drop 16 p) in
      let ih =
        encrypt_blocks-Encrypts n block (drop 16 p) size bytes (omega (arith, length-drop 16 p))
          (All-drop (λ x. x < 256) 16 p b) in
      (
        omega (arith, length-append block rest, ih.0, size),
        All-append (λ x. x < 256) block rest bytes ih.1,
        rw (take-append_of 16 block rest size, drop-append_of 16 block rest size, back, ih.2)
            (take-append-drop 16 p),
      )

  -- CBC encryption of whole blocks keeps the length, gives bytes, and is undone by decryption.
  pub cbc_roundtrip :
      (iv p : Bytes)
      → length iv ≡ 16
      → IsBytes iv
      → length p % 16 ≡ 0
      → IsBytes p
      → (cbc_decrypt c key iv (cbc_encrypt c key iv p) ≡ p)
        × (length (cbc_encrypt c key iv p) ≡ length p)
        × IsBytes (cbc_encrypt c key iv p)
  unfolding cbc_encrypt cbc_decrypt
  cbc_roundtrip iv p hi bi hp bp =
      let n = length p / 16 in
      let whole : length p ≡ n * 16 = omega arith in
      let (size, bytes, back) = encrypt_blocks-Encrypts n iv p hi bi whole bp in
      let blocks : length (encrypt_blocks c n key iv p) / 16 ≡ n = omega arith in
      (rw blocks back, omega arith, bytes)
