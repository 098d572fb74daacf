-- ===== src/Base/Eq.antt =====
-- Boolean equality as an interface, for the keys of Go maps: numbers, byte strings, integers.
use Prim.Native.Nat.{ℕ}
use mathlib.Core.Path.{◌≡◌, refl}
use mathlib.Core.Logic.{◌≢◌, ◌↔◌, ◌⊎◌, inl, inr}
use mathlib.Core.Bool.{Bool, true, false, ◌&&◌}
use mathlib.Core.List.{List, [], ◌∷◌}
use native.Mathlib.Omega.{arith}
use glibs.Base.Tests.{◌==◌, ==_iff, Bool-cases}

pub record Equality {ℓ} (A : Type ℓ) : Type ℓ where
  pub beq : A → A → Bool
  pub beq_iff : (a b : A) → (beq a b ≡ true) ↔ (a ≡ b)

abbrev pub beq {ℓ} : {A : Type ℓ} ⦃e : Equality A⦄ → A → A → Bool
beq ⦃e⦄ = e.beq

pub beq_iff {ℓ} : {A : Type ℓ} ⦃e : Equality A⦄ (a b : A) → (beq a b ≡ true) ↔ (a ≡ b)
beq_iff ⦃e⦄ = e.beq_iff

infix 50 ◌===◌
abbrev pub ◌===◌ {ℓ} : {A : Type ℓ} ⦃e : Equality A⦄ → A → A → Bool
◌===◌ ⦃e⦄ = e.beq

module _ {ℓ} {A : Type ℓ} ⦃e : Equality A⦄ where
  pub ===_iff : (a b : A) → ((a === b) ≡ true) ↔ (a ≡ b)
  ===_iff = e.beq_iff

  pub ===_self : (a : A) → (a === a) ≡ true
  ===_self a = (e.beq_iff a a).1 refl

  pub ===_ne : (a b : A) → a ≢ b → (a === b) ≡ false
  ===_ne a b h = elim (Bool-cases (a === b)) [
    | inl t ↦ absurd (h ((e.beq_iff a b).0 t))
    | inr f ↦ f
  ]

  pub ===_cases : (a b : A) → ((a ≡ b) × ((a === b) ≡ true)) ⊎ ((a ≢ b) × ((a === b) ≡ false))
  ===_cases a b = elim (Bool-cases (a === b)) [
    | inl t ↦ inl ((e.beq_iff a b).0 t, t)
    | inr f ↦ inr (λ p. cc ((e.beq_iff a b).1 p), f)
  ]

instance abbrev pub nat_eq : Equality ℕ
nat_eq = record { beq = ◌==◌; beq_iff = ==_iff }

abbrev pub list_beq : List ℕ → List ℕ → Bool
list_beq [] [] = true
list_beq [] (y ∷ ys) = false
list_beq (x ∷ xs) [] = false
list_beq (x ∷ xs) (y ∷ ys) = (x == y) && list_beq xs ys

pub list_beq_sound : (xs ys : List ℕ) → list_beq xs ys ≡ true → xs ≡ ys
list_beq_sound [] [] h = refl
list_beq_sound [] (y ∷ ys) h = cc
list_beq_sound (x ∷ xs) [] h = cc
list_beq_sound (x ∷ xs) (y ∷ ys) h = ground (arith, list_beq_sound xs ys)

pub list_beq_self : (xs : List ℕ) → list_beq xs xs ≡ true
list_beq_self [] = refl
list_beq_self (x ∷ xs) = ground (arith, list_beq_self xs)

pub list_beq_iff : (xs ys : List ℕ) → (list_beq xs ys ≡ true) ↔ (xs ≡ ys)
list_beq_iff xs ys = (list_beq_sound xs ys, λ p. rw p (list_beq_self ys))

instance abbrev pub list_eq : Equality (List ℕ)
list_eq = record { beq = list_beq; beq_iff = list_beq_iff }
