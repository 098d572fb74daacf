-- ===== src/Base/Dict.antt =====
-- A Go map as an association list over keys with a Boolean equality. A range over the map visits
-- the entries in the list's order; Go leaves that order open, so what holds for every list holds
-- for every order.
use mathlib.Core.Path.{◌≡◌, refl}
use mathlib.Core.Logic.{◌≢◌, inl, inr}
use mathlib.Core.List.{List, [], ◌∷◌, ◌++◌}
use mathlib.Core.Bool.{Bool, false, ◌||◌}
use mathlib.Core.Option.{Option, none, some}
use native.Mathlib.Omega.{arith}
use glibs.Base.Tests.{if◌then◌else◌, Bool-cases}
use glibs.Base.Eq.{Equality, ◌===◌, ===_self, ===_ne, ===_cases}

abbrev pub Dict {ℓ κ} : Type ℓ → Type κ → Type (ℓ ⊔ κ)
Dict K V = List (K × V)

module _ {ℓ κ} {K : Type ℓ} {V : Type κ} ⦃e : Equality K⦄ where
  -- `v, ok := m[k]`
  abbrev pub lookup : K → Dict K V → Option V
  lookup k [] = none
  lookup k ((j, v) ∷ m) = if j === k then some v else lookup k m

  -- `m[k] = v`
  abbrev pub insert : K → V → Dict K V → Dict K V
  insert k v [] = (k, v) ∷ []
  insert k v ((j, w) ∷ m) = if j === k then (k, v) ∷ m else (j, w) ∷ insert k v m

  -- `delete(m, k)`
  abbrev pub erase : K → Dict K V → Dict K V
  erase k [] = []
  erase k ((j, w) ∷ m) = let rest = erase k m in if j === k then rest else (j, w) ∷ rest

module _ {ℓ κ} {K : Type ℓ} {V : Type κ} ⦃e : Equality K⦄ where
  pub lookup-insert_self : (k : K) (v : V) (m : Dict K V) → lookup k (insert k v m) ≡ some v
  lookup-insert_self k v [] = rw (===_self k)
  lookup-insert_self k v ((j, w) ∷ m) = elim (Bool-cases (j === k)) [
    | inl hit ↦ rw (hit, ===_self k)
    | inr miss ↦ rw (miss, miss) (lookup-insert_self k v m)
  ]

  pub lookup-insert_ne :
      (k j : K) (v : V) (m : Dict K V) → k ≢ j → lookup j (insert k v m) ≡ lookup j m
  lookup-insert_ne k j v [] h = rw (===_ne k j h)
  lookup-insert_ne k j v ((i, w) ∷ m) h = elim (===_cases i k) [
    | inl (p, hit) ↦ rw (hit, p, ===_ne k j h)
    | inr (_, miss) ↦ rw miss (ground (arith, lookup-insert_ne k j v m h))
  ]

  pub lookup-erase_self : (k : K) (m : Dict K V) → lookup k (erase k m) ≡ none
  lookup-erase_self k [] = refl
  lookup-erase_self k ((j, w) ∷ m) = elim (Bool-cases (j === k)) [
    | inl hit ↦ rw hit (lookup-erase_self k m)
    | inr miss ↦ rw (miss, miss) (lookup-erase_self k m)
  ]

  pub lookup-erase_ne : (k j : K) (m : Dict K V) → k ≢ j → lookup j (erase k m) ≡ lookup j m
  lookup-erase_ne k j [] h = refl
  lookup-erase_ne k j ((i, w) ∷ m) h = elim (===_cases i k) [
    | inl (p, hit) ↦ rw (hit, p, ===_ne k j h) (lookup-erase_ne k j m h)
    | inr (_, miss) ↦ rw miss (ground (arith, lookup-erase_ne k j m h))
  ]

module _ {ℓ} {A : Type ℓ} ⦃e : Equality A⦄ where
  -- Whether a value stands in a list.
  abbrev pub elem : A → List A → Bool
  elem a [] = false
  elem a (x ∷ xs) = (x === a) || elem a xs

  pub elem-append : (a : A) (xs ys : List A) → elem a (xs ++ ys) ≡ (elem a xs || elem a ys)
  elem-append a [] ys = refl
  elem-append a (x ∷ xs) ys = ground (arith, elem-append a xs ys)
