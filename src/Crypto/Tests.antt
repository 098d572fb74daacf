-- ===== src/Crypto/Tests.antt =====
-- crypto/aesCBC.go: its properties at concrete texts, with a cipher that leaves a block as it is.
use glibs.Base.{
  ℕ, ◌≡◌, refl, ◌%◌, ◌≤◌, true, some, [], ◌∷◌, ◌++◌, arith, length, take, drop, replicate,
}
use glibs.Base.Bytes.{Bytes, codes, IsBytes}
use glibs.Crypto.{ok, aes_cbc_encrypt, aes_cbc_decrypt, pkcs5_un_padding, decode}
use glibs.Crypto.Cbc.{BlockCipher, xor_bytes, IsCipher, cbc_encrypt, cbc_decrypt, cbc_roundtrip}
use glibs.Crypto.Hex.{hex_decode, to_lower}
use glibs.Crypto.Roundtrip.{aes_cbc_roundtrip, aes_cbc_decrypt_sound}

abbrev pub plain_cipher : BlockCipher
plain_cipher = record {
  key_ok = λ key. true;
  encrypt_block = λ key b. b;
  decrypt_block = λ key b. b;
}

pub plain_cipher-IsCipher : IsCipher plain_cipher
plain_cipher-IsCipher = record {
  encrypt_block-block = λ key b good size bytes. (size, bytes);
  decrypt-encrypt_block = λ key b good size bytes. refl;
}

abbrev pub vector : Bytes
vector = 1 ∷ 2 ∷ 3 ∷ 4 ∷ 5 ∷ 6 ∷ 7 ∷ 8 ∷ 9 ∷ 10 ∷ 11 ∷ 12 ∷ 13 ∷ 14 ∷ 15 ∷ 255 ∷ []

pub vector-IsBytes : IsBytes vector
vector-IsBytes = ground arith

abbrev pub word : Bytes
word = 65 ∷ 0 ∷ 255 ∷ []

pub word-IsBytes : IsBytes word
word-IsBytes = ground arith

aes_cbc_roundtrip_example :
    (t : Bytes) × (aes_cbc_encrypt plain_cipher (some vector) vector word (true ∷ []) ≡ ok t)
    × (aes_cbc_decrypt plain_cipher vector t (true ∷ []) ≡ ok word)
aes_cbc_roundtrip_example =
    aes_cbc_roundtrip plain_cipher plain_cipher-IsCipher vector vector word (true ∷ []) refl refl
      vector-IsBytes word-IsBytes

unpadded : pkcs5_un_padding (65 ∷ 2 ∷ 2 ∷ []) ≡ ok (65 ∷ [])
unfolding pkcs5_un_padding
unpadded = refl

-- A last byte of 0 is taken for no padding.
zero_byte_accepted : pkcs5_un_padding (65 ∷ 0 ∷ []) ≡ ok (65 ∷ 0 ∷ [])
unfolding pkcs5_un_padding
zero_byte_accepted = refl

cbc_roundtrip_example :
    (cbc_decrypt plain_cipher vector vector
        (cbc_encrypt plain_cipher vector vector (vector ++ vector))
      ≡ vector ++ vector)
    × (length (cbc_encrypt plain_cipher vector vector (vector ++ vector)) ≡ 32)
    × IsBytes (cbc_encrypt plain_cipher vector vector (vector ++ vector))
cbc_roundtrip_example =
    cbc_roundtrip plain_cipher plain_cipher-IsCipher vector refl vector (vector ++ vector) refl
      vector-IsBytes refl (ground arith)

-- The vector, and one block that is xor'ed with it: fifteen bytes 15 of padding behind one letter.
abbrev cipher_hex : Bytes
cipher_hex = codes "00000000000000000000000000000000410F0F0F0F0F0F0F0F0F0F0F0F0F0F0F"

decrypts : aes_cbc_decrypt plain_cipher [] cipher_hex [] ≡ ok (65 ∷ [])
unfolding aes_cbc_decrypt hex_decode to_lower cbc_decrypt xor_bytes
decrypts = refl

aes_cbc_decrypt_sound_example :
    (raw : Bytes) × (n : ℕ) × (decode cipher_hex [] ≡ ok raw)
    × (16 ≤ length raw)
    × (length raw % 16 ≡ 0)
    × (plain_cipher.key_ok [] ≡ true)
    × (cbc_decrypt plain_cipher [] (take 16 raw) (drop 16 raw) ≡ (65 ∷ []) ++ replicate n n)
aes_cbc_decrypt_sound_example =
    aes_cbc_decrypt_sound plain_cipher [] cipher_hex (65 ∷ []) [] decrypts
