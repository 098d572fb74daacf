-- ===== src/Crypto/Base64.antt =====
-- `base64.RawURLEncoding`: the URL alphabet with no padding. Decoding skips line ends and is not
-- strict about the bits left over.
use glibs.Base.{
  ℕ, ◌+◌, ◌-◌, ◌*◌, ◌/◌, ◌%◌, ◌<◌, ◌≡◌, refl, List, [], ◌∷◌, Option, none, some, Bool, false, ◌&&◌,
  ◌||◌, not, if◌then◌else◌, ltb, leb, ◌==◌, arith, All, keep,
}
use glibs.Base.Bytes.{Bytes}

unfoldable pub sextet_char : ℕ → ℕ
sextet_char n =
    if ltb n 26
    then b'A' + n
    else if ltb n 52
    then b'a' + (n - 26)
    else if ltb n 62
    then b'0' + (n - 52)
    else if n == 62
    then b'-'
    else b'_'

pub sextet_value : ℕ → Option ℕ
sextet_value c =
    if leb b'A' c && leb c b'Z'
    then some (c - b'A')
    else if leb b'a' c && leb c b'z'
    then some (c - b'a' + 26)
    else if leb b'0' c && leb c b'9'
    then some (c - b'0' + 52)
    else if c == b'-'
    then some 62
    else if c == b'_'
    then some 63
    else none

unfoldable pub base64_encode : Bytes → Bytes
base64_encode [] = []
base64_encode (a ∷ []) = sextet_char (a / 4) ∷ sextet_char (a % 4 * 16) ∷ []
base64_encode (a ∷ b ∷ []) =
    sextet_char (a / 4) ∷ sextet_char (a % 4 * 16 + b / 16) ∷ sextet_char (b % 16 * 4) ∷ []
base64_encode (a ∷ b ∷ c ∷ r) =
    sextet_char (a / 4)
    ∷ sextet_char (a % 4 * 16 + b / 16)
    ∷ sextet_char (b % 16 * 4 + c / 64)
    ∷ sextet_char (c % 64)
    ∷ base64_encode r

pub sextets : Bytes → Option (List ℕ)
sextets [] = some []
sextets (c ∷ cs) = elim (sextet_value c) [
  | none ↦ none
  | some v ↦ elim (sextets cs) [ none ↦ none | some vs ↦ some (v ∷ vs) ]
]

-- Four sextets are three bytes; two or three at the end are one or two, and a single one is an
-- error.
pub join_sextets : List ℕ → Option Bytes
join_sextets [] = some []
join_sextets (x ∷ []) = none
join_sextets (x ∷ y ∷ []) = some ((x * 4 + y / 16) ∷ [])
join_sextets (x ∷ y ∷ z ∷ []) = some ((x * 4 + y / 16) ∷ (y % 16 * 16 + z / 4) ∷ [])
join_sextets (x ∷ y ∷ z ∷ w ∷ r) = elim (join_sextets r) [
  | none ↦ none
  | some bs ↦ some ((x * 4 + y / 16) ∷ (y % 16 * 16 + z / 4) ∷ (z % 4 * 64 + w) ∷ bs)
]

is_line_end : ℕ → Bool
is_line_end c = c == 10 || c == 13

pub base64_decode : Bytes → Option Bytes
unfolding is_line_end
base64_decode src = elim (sextets (keep (λ c. not (is_line_end c)) src)) [
  | none ↦ none
  | some vs ↦ join_sextets vs
]

-- The sextets that `base64_encode` writes.
split_sextets : Bytes → List ℕ
split_sextets [] = []
split_sextets (a ∷ []) = a / 4 ∷ a % 4 * 16 ∷ []
split_sextets (a ∷ b ∷ []) = a / 4 ∷ (a % 4 * 16 + b / 16) ∷ b % 16 * 4 ∷ []
split_sextets (a ∷ b ∷ c ∷ r) =
    a / 4 ∷ (a % 4 * 16 + b / 16) ∷ (b % 16 * 4 + c / 64) ∷ c % 64 ∷ split_sextets r

chars : List ℕ → Bytes
chars [] = []
chars (v ∷ vs) = sextet_char v ∷ chars vs

chars-split_sextets : (bs : Bytes) → base64_encode bs ≡ chars (split_sextets bs)
unfolding base64_encode split_sextets chars
chars-split_sextets [] = refl
chars-split_sextets (a ∷ []) = refl
chars-split_sextets (a ∷ b ∷ []) = refl
chars-split_sextets (a ∷ b ∷ c ∷ r) = rw (chars-split_sextets r)

split_sextets-small : (bs : Bytes) → All (λ b. b < 256) bs → All (λ v. v < 64) (split_sextets bs)
unfolding split_sextets
split_sextets-small [] h = tt
split_sextets-small (a ∷ []) h = omega arith
split_sextets-small (a ∷ b ∷ []) h = omega arith
split_sextets-small (a ∷ b ∷ c ∷ r) h =
    (omega arith, (omega arith, (omega arith, (omega arith, split_sextets-small r h.1.1.1))))

sextet_value-char :
    (v : ℕ)
    → v < 64
    → (sextet_value (sextet_char v) ≡ some v) × (is_line_end (sextet_char v) ≡ false)
unfolding sextet_value sextet_char is_line_end
sextet_value-char v h = (ground arith, ground arith)

keep-chars :
    (vs : List ℕ) → All (λ v. v < 64) vs → keep (λ c. not (is_line_end c)) (chars vs) ≡ chars vs
unfolding chars
keep-chars [] h = refl
keep-chars (v ∷ vs) h = rw ((sextet_value-char v h.0).1, keep-chars vs h.1)

sextets-chars : (vs : List ℕ) → All (λ v. v < 64) vs → sextets (chars vs) ≡ some vs
unfolding sextets chars
sextets-chars [] h = refl
sextets-chars (v ∷ vs) h =
    rw ((sextet_value-char v h.0).0, sextets) (rw (sextets-chars vs h.1, sextets))

join-split_sextets :
    (bs : Bytes) → All (λ b. b < 256) bs → join_sextets (split_sextets bs) ≡ some bs
unfolding join_sextets split_sextets
join-split_sextets [] h = refl
join-split_sextets (a ∷ []) h = ground arith
join-split_sextets (a ∷ b ∷ []) h = ground arith
join-split_sextets (a ∷ b ∷ c ∷ r) h = ground (arith, join-split_sextets r h.1.1.1)

-- Decoding gives back what was encoded, for every string of bytes.
pub base64_decode-encode :
    (bs : Bytes) → All (λ b. b < 256) bs → base64_decode (base64_encode bs) ≡ some bs
unfolding base64_decode
base64_decode-encode bs h =
    let small = split_sextets-small bs h in
    rw (chars-split_sextets bs, keep-chars (split_sextets bs) small, base64_decode)
      (rw (sextets-chars (split_sextets bs) small, base64_decode) (join-split_sextets bs h))
