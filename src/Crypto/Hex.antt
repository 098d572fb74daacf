-- ===== src/Crypto/Hex.antt =====
-- `encoding/hex` and the ASCII part of `bytes.ToUpper` and `bytes.ToLower`, as crypto/aesCBC.go
-- uses them.
use glibs.Base.{
  ℕ, ◌+◌, ◌-◌, ◌*◌, ◌/◌, ◌%◌, ◌<◌, ◌≡◌, refl, [], ◌∷◌, Option, none, some, ◌&&◌, if◌then◌else◌, ltb,
  leb, map, arith, All,
}
use glibs.Base.Bytes.{Bytes}

pub hex_digit : ℕ → ℕ
hex_digit n = if ltb n 10 then b'0' + n else b'a' + (n - 10)

pub hex_value : ℕ → Option ℕ
hex_value c =
    if leb b'0' c && leb c b'9'
    then some (c - b'0')
    else if leb b'a' c && leb c b'f'
    then some (c - b'a' + 10)
    else if leb b'A' c && leb c b'F'
    then some (c - b'A' + 10)
    else none

pub hex_encode : Bytes → Bytes
unfolding hex_digit
hex_encode [] = []
hex_encode (b ∷ bs) = hex_digit (b / 16) ∷ hex_digit (b % 16) ∷ hex_encode bs

-- An odd number of digits and a byte that is no digit are errors.
unfoldable pub hex_decode : Bytes → Option Bytes
unfolding hex_value
hex_decode [] = some []
hex_decode (x ∷ []) = none
hex_decode (x ∷ y ∷ r) = elim (hex_value x) [
  | none ↦ none
  | some h ↦ elim (hex_value y) [
    | none ↦ none
    | some l ↦ elim (hex_decode r) [ none ↦ none | some bs ↦ some ((h * 16 + l) ∷ bs) ]
  ]
]

upper : ℕ → ℕ
upper c = if leb b'a' c && leb c b'z' then c - 32 else c

lower : ℕ → ℕ
lower c = if leb b'A' c && leb c b'Z' then c + 32 else c

pub to_upper : Bytes → Bytes
unfolding upper
to_upper = map upper

unfoldable pub to_lower : Bytes → Bytes
unfolding lower
to_lower = map lower

lower-upper-hex_digit : (n : ℕ) → n < 16 → lower (upper (hex_digit n)) ≡ hex_digit n
unfolding lower upper hex_digit
lower-upper-hex_digit n h = ground arith

hex_value-hex_digit : (n : ℕ) → n < 16 → hex_value (hex_digit n) ≡ some n
unfolding hex_value hex_digit
hex_value-hex_digit n h = ground arith

to_lower-to_upper-hex_encode :
    (bs : Bytes) → All (λ b. b < 256) bs → to_lower (to_upper (hex_encode bs)) ≡ hex_encode bs
unfolding to_lower to_upper hex_encode
to_lower-to_upper-hex_encode [] h = refl
to_lower-to_upper-hex_encode (b ∷ bs) h = ground (
  arith,
  lower-upper-hex_digit (b / 16) (omega arith),
  lower-upper-hex_digit (b % 16) (omega arith),
  to_lower-to_upper-hex_encode bs h.1,
)

hex_decode-hex_encode : (bs : Bytes) → All (λ b. b < 256) bs → hex_decode (hex_encode bs) ≡ some bs
unfolding hex_decode hex_encode
hex_decode-hex_encode [] h = refl
hex_decode-hex_encode (b ∷ bs) h = ground (
  arith,
  hex_value-hex_digit (b / 16) (omega arith),
  hex_value-hex_digit (b % 16) (omega arith),
  hex_decode-hex_encode bs h.1,
)

-- What `hexEncode` writes in upper case, `hexDecode` reads back through lower case.
pub hex_text_roundtrip :
    (bs : Bytes)
    → All (λ b. b < 256) bs
    → hex_decode (to_lower (to_upper (hex_encode bs))) ≡ some bs
hex_text_roundtrip bs h = rw (to_lower-to_upper-hex_encode bs h) (hex_decode-hex_encode bs h)
