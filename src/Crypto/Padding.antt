-- ===== src/Crypto/Padding.antt =====
-- crypto/aesCBC.go: `pkcs5Padding` and `pkcs5UnPadding`.
use native.Mathlib.Nat.{mod-lt, mod-eq_of_lt}
use glibs.Base.{
  ℕ, zero, suc, ◌+◌, ◌-◌, ◌%◌, ◌<◌, ◌≡◌, refl, sym, ap, ◌∙◌, [], ◌∷◌, ◌++◌, append_assoc,
  append-nil, some, true, false, ltb, ◌==◌, length, take, drop, all, replicate, arith,
  length-append, length-replicate, take-append_of, drop-append_of, take-append-drop, length-drop,
  Bool-cases, Option-cases, inl, inr,
}
use glibs.Base.Bytes.{Bytes}
use glibs.Crypto.{ok, append_pad, pkcs5_padding, last_byte, pkcs5_un_padding}

append_pad-append : (k n : ℕ) (p : Bytes) → append_pad k n p ≡ p ++ replicate k n
unfolding append_pad
append_pad-append zero n p = sym (append-nil p)
append_pad-append (suc k) n p =
    append_pad-append k n (p ++ n ∷ []) ∙ append_assoc p (n ∷ []) (replicate k n)

last_byte-append : (p : Bytes) (x : ℕ) (xs : Bytes) → last_byte (p ++ x ∷ xs) ≡ last_byte (x ∷ xs)
unfolding last_byte
last_byte-append [] x xs = refl
last_byte-append (y ∷ []) x xs = refl
last_byte-append (y ∷ z ∷ p) x xs = last_byte-append (z ∷ p) x xs

last_byte-replicate : (k n : ℕ) → last_byte (replicate (suc k) n) ≡ some n
unfolding last_byte
last_byte-replicate zero n = refl
last_byte-replicate (suc k) n = last_byte-replicate k n

all-replicate : (k n : ℕ) → all (λ v. v == n) (replicate k n) ≡ true
all-replicate zero n = refl
all-replicate (suc k) n = ground (arith, all-replicate k n)

-- A text that ends in `n` bytes `n` loses those.
pkcs5_un_padding-replicate :
    (k : ℕ) (p : Bytes) → pkcs5_un_padding (p ++ replicate (suc k) (suc k)) ≡ ok p
unfolding pkcs5_un_padding
pkcs5_un_padding-replicate k p =
    let n = suc k in
    let r = p ++ replicate n n in
    let last : last_byte r ≡ some n =
      last_byte-append p n (replicate k n) ∙ last_byte-replicate k n in
    let size : length r ≡ length p + n =
      length-append p (replicate n n) ∙ ap (◌+◌ (length p)) (length-replicate n n) in
    let cut : length r - n ≡ length p = omega arith in
    let fits : ltb (length r) n ≡ false = ground arith in
    rw (last, pkcs5_un_padding)
      (rw (fits, cut)
        (rw (
          drop-append_of (length p) p (replicate n n) refl,
          take-append_of (length p) p (replicate n n) refl,
          all-replicate n n,
        )))

pad_count :
    (l s : ℕ) → 0 < s → s < 256 → (k : ℕ) × ((s - l % s) % 256 ≡ suc k) × (s - l % s ≡ suc k)
pad_count l s p b =
    let r : l % s < s = mod-lt l p in
    let e : (s - l % s) % 256 ≡ s - l % s = mod-eq_of_lt (omega arith) in
    (s - l % s - 1, e ∙ omega arith, omega arith)

-- Padding to blocks of up to 255 bytes fills the last block, and unpadding takes it off again, for
-- every text.
pub pkcs5_roundtrip :
    (p : Bytes) (size : ℕ)
    → 0 < size
    → size < 256
    → (pkcs5_un_padding (pkcs5_padding p size) ≡ ok p)
      × ((k : ℕ) × (pkcs5_padding p size ≡ p ++ replicate (suc k) (suc k))
          × (suc k ≡ size - length p % size))
unfolding pkcs5_padding
pkcs5_roundtrip p size h b =
    let (k, e, f) = pad_count (length p) size h b in
    let padded = append_pad-append (suc k) (suc k) p in
    (rw (e, padded) (pkcs5_un_padding-replicate k p), (k, rw e padded, sym f))

all-eq-replicate : (n : ℕ) (xs : Bytes) → all (λ v. v == n) xs ≡ true → xs ≡ replicate (length xs) n
all-eq-replicate n [] h = refl
all-eq-replicate n (x ∷ xs) h = ground (arith, all-eq-replicate n xs)

-- What unpadding accepts, it has split into the result and `n` bytes `n`, with `n` the last byte.
pub pkcs5_un_padding_sound :
    (r p : Bytes)
    → pkcs5_un_padding r ≡ ok p
    → (n : ℕ) × (last_byte r ≡ some n) × (r ≡ p ++ replicate n n)
unfolding pkcs5_un_padding
pkcs5_un_padding_sound r p h = elim (Option-cases (last_byte r)) [
  | inl empty ↦ absurd (ground arith)
  | inr (n, last) ↦ elim (Bool-cases (ltb (length r) n)) [
    | inl long ↦ absurd (ground arith)
    | inr fits ↦ elim (Bool-cases (all (λ v. v == n) (drop (length r - n) r))) [
      | inr bad ↦ absurd (ground arith)
      | inl good ↦
          let taken : take (length r - n) r ≡ p = ground arith in
          let size : length (drop (length r - n) r) ≡ n =
            length-drop (length r - n) r ∙ ground arith in
          let tail : drop (length r - n) r ≡ replicate n n =
            all-eq-replicate n (drop (length r - n) r) good ∙ ap (λ (k : ℕ). replicate k n) size in
          (n, last, sym (take-append-drop (length r - n) r) ∙ rw (taken, tail))
    ]
  ]
]
