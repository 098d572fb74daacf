-- ===== src/Base/Split.antt =====
-- `strings.Split`, `strings.Join`, `strings.Contains` over byte strings, and their laws.
use Prim.Native.Nat.{ℕ, zero, suc, ◌<◌}
use mathlib.Core.Path.{◌≡◌, refl, ap, sym, ◌∙◌}
use mathlib.Core.Logic.{inl, inr}
use mathlib.Core.Bool.{Bool, true, false, false≢true}
use mathlib.Core.List.{List, [], ◌∷◌, ◌++◌}
use mathlib.Core.Option.{Option, none, some}
use native.Mathlib.Omega.{arith}
use glibs.Base.Tests.{if◌then◌else◌, Option-cases, Bool-cases}
use glibs.Base.Lists.{length, drop, length-append, All}
use glibs.Base.Bytes.{Bytes, has_prefix}

-- The text before and behind the first place where `sep` stands.
unfoldable pub cut : Bytes → Bytes → Option (Bytes × Bytes)
cut sep [] = elim (has_prefix sep []) [ true ↦ some ([], []) | false ↦ none ]
cut sep (x ∷ s) =
    let rest = cut sep s in
    if has_prefix sep (x ∷ s)
    then some ([], drop (length sep) (x ∷ s))
    else elim rest [ none ↦ none | some (a, b) ↦ some (x ∷ a, b) ]

-- `strings.Contains(s, sub)`, with the part first.
unfoldable pub has_part : Bytes → Bytes → Bool
unfolding cut
has_part sub s = elim (cut sub s) [ none ↦ false | some p ↦ true ]

-- The rounds are bounded by the length, as each takes a separator.
split_fuel : ℕ → Bytes → Bytes → List Bytes
split_fuel zero sep s = s ∷ []
split_fuel (suc fuel) sep s = elim (cut sep s) [
  | none ↦ s ∷ []
  | some (a, b) ↦ a ∷ split_fuel fuel sep b
]

-- `strings.Split(s, sep)` at a separator that is not empty.
unfoldable pub split : Bytes → Bytes → List Bytes
unfolding split_fuel
split sep s = split_fuel (suc (length s)) sep s

unfoldable pub join : Bytes → List Bytes → Bytes
join sep [] = []
join sep (x ∷ []) = x
join sep (x ∷ y ∷ r) = x ++ (sep ++ join sep (y ∷ r))

has_prefix-split : (p s : Bytes) → has_prefix p s ≡ true → s ≡ p ++ drop (length p) s
has_prefix-split [] s h = refl
has_prefix-split (x ∷ p) [] h = absurd (ground arith)
has_prefix-split (x ∷ p) (y ∷ s) h = ground (arith, has_prefix-split p s)

pub cut-append : (sep s a b : Bytes) → cut sep s ≡ some (a, b) → s ≡ a ++ (sep ++ b)
unfolding cut
cut-append [] [] a b h = ground arith
cut-append (y ∷ sep) [] a b h = absurd (ground arith)
cut-append sep (x ∷ s) a b h = elim (Bool-cases (has_prefix sep (x ∷ s))) [
  | inl found ↦ ground (arith, has_prefix-split sep (x ∷ s) found)
  | inr further ↦ elim (Option-cases (cut sep s)) [
    | inl missing ↦ absurd (ground arith)
    | inr ((a', b'), e) ↦ ground (arith, cut-append sep s a' b' e)
  ]
]

split_fuel-ne_nil : (fuel : ℕ) (sep s : Bytes) → 0 < length (split_fuel fuel sep s)
unfolding split_fuel
split_fuel-ne_nil zero sep s = omega arith
split_fuel-ne_nil (suc fuel) sep s = ground arith

join-cons :
    (sep x : Bytes) (xs : List Bytes)
    → 0 < length xs
    → join sep (x ∷ xs) ≡ x ++ (sep ++ join sep xs)
unfolding join
join-cons sep x [] h = absurd (omega arith)
join-cons sep x (y ∷ r) h = refl

join-split_fuel : (fuel : ℕ) (sep s : Bytes) → join sep (split_fuel fuel sep s) ≡ s
unfolding split_fuel join
join-split_fuel zero sep s = refl
join-split_fuel (suc fuel) sep s = elim (Option-cases (cut sep s)) [
  | inl whole ↦ rw (whole, split_fuel)
  | inr ((a, b), e) ↦
      rw (e, split_fuel)
        (rw
          (
            join-cons sep a (split_fuel fuel sep b) (split_fuel-ne_nil fuel sep b),
            join-split_fuel fuel sep b,
          )
          (sym (cut-append sep s a b e)))
]

-- Joining what a split has made gives the text back.
pub join-split : (sep s : Bytes) → join sep (split sep s) ≡ s
unfolding split
join-split sep s = join-split_fuel (suc (length s)) sep s

has_prefix-append : (p a r : Bytes) → has_prefix p a ≡ true → has_prefix p (a ++ r) ≡ true
has_prefix-append [] a r h = refl
has_prefix-append (x ∷ p) [] r h = absurd (ground arith)
has_prefix-append (x ∷ p) (y ∷ a) r h = ground (arith, has_prefix-append p a r)

-- The text before the first separator has none in it.
pub cut-before : (sep s a b : Bytes) → 0 < length sep → cut sep s ≡ some (a, b) → cut sep a ≡ none
unfolding cut
cut-before [] s a b h e = absurd (omega arith)
cut-before (y ∷ sep) [] a b h e = absurd (ground arith)
cut-before (y ∷ sep) (x ∷ s) a b h e = elim (Bool-cases (has_prefix (y ∷ sep) (x ∷ s))) [
  | inl found ↦ let empty : a ≡ [] = ground arith in rw empty
  | inr further ↦ elim (Option-cases (cut (y ∷ sep) s)) [
    | inl missing ↦ absurd (ground arith)
    | inr ((a', b'), e') ↦
        let first : a ≡ x ∷ a' = ground arith in
        let same : s ≡ a' ++ ((y ∷ sep) ++ b') = cut-append (y ∷ sep) s a' b' e' in
        let later : cut (y ∷ sep) a' ≡ none = cut-before (y ∷ sep) s a' b' h e' in
        rw first (elim (Bool-cases (has_prefix (y ∷ sep) (x ∷ a'))) [
          | inr none_here ↦ ground arith
          | inl here ↦
              let there = has_prefix-append (y ∷ sep) (x ∷ a') ((y ∷ sep) ++ b') here in
              absurd (false≢true (sym further ∙ rw same there))
        ])
  ]
]

split_fuel-parts :
    (fuel : ℕ) (sep s : Bytes)
    → 0 < length sep
    → length s < fuel
    → All (λ p. cut sep p ≡ none) (split_fuel fuel sep s)
unfolding split_fuel
split_fuel-parts zero sep s h l = absurd (omega arith)
split_fuel-parts (suc fuel) sep s h l = elim (Option-cases (cut sep s)) [
  | inl whole ↦ rw (whole, split_fuel) (whole, tt)
  | inr ((a, b), e) ↦
      rw (e, split_fuel) (cut-before sep s a b h e, split_fuel-parts fuel sep b h (shorter a b e))
]
  where
    shorter : (a b : Bytes) → cut sep s ≡ some (a, b) → length b < fuel
    shorter a b e =
        omega (
          arith,
          ap length (cut-append sep s a b e),
          length-append a (sep ++ b),
          length-append sep b,
        )

-- No part that a split makes holds the separator.
pub split-parts : (sep s : Bytes) → 0 < length sep → All (λ p. cut sep p ≡ none) (split sep s)
unfolding split
split-parts sep s h = split_fuel-parts (suc (length s)) sep s h (omega arith)

pub length-split : (sep s : Bytes) → 0 < length (split sep s)
unfolding split
length-split sep s = split_fuel-ne_nil (suc (length s)) sep s
