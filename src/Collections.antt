-- ===== src/Collections.antt =====
-- util/slice.go, util/singleton.go and the text functions of j2rpc/functions.go: searching a slice, the values
-- that are made once, and the snake case of a name of ASCII letters.
mod Tests
use glibs.Base.{
  ◌||◌, ◌-◌, not, ℕ, zero, suc, ◌+◌, ◌≡◌, ◌≢◌, ◌<◌, refl, sym, ap, ◌∙◌, ◌⊎◌, inl, inr, List, [],
  ◌∷◌, ◌++◌, Option, none, some, Bool, true, false, not, ◌&&◌, if◌then◌else◌, ltb, leb, length,
  get_elem?, arith, Bool-cases, Option-cases, ◌===◌, ===_cases, list_eq, All, Equality, ◌==◌,
}
use glibs.Base.Int.{ℤ, pos, negsuc, ltb_ℤ}
use glibs.Base.Dict.{Dict, lookup, insert, lookup-insert_self, lookup-insert_ne}
use glibs.Base.Bytes.{has_prefix, codes, Bytes}

module _ {T : Type 0} ⦃e : Equality T⦄ where
  pub contains : List T → T → Bool
  contains [] x = false
  contains (n ∷ a) x = if x === n then true else contains a x

module _ {T : Type 0} where
  -- The loops of `Find` and `FindIndex`, from an index on.
  pub find_from : (T → ℕ → Bool) → ℕ → List T → Option T
  find_from predicate i [] = none
  find_from predicate i (item ∷ s) =
      if predicate item i then some item else find_from predicate (i + 1) s

  pub find_index_from : (T → ℕ → Bool) → ℕ → List T → ℤ
  find_index_from predicate i [] = negsuc 0
  find_index_from predicate i (item ∷ s) =
      if predicate item i then pos i else find_index_from predicate (i + 1) s

  pub find : (T → ℕ → Bool) → List T → Option T
  unfolding find_from
  find predicate s = find_from predicate 0 s

  pub find_index : (T → ℕ → Bool) → List T → ℤ
  unfolding find_index_from
  find_index predicate s = find_index_from predicate 0 s

  -- No item of the list matches, at the indices from `i` on.
  abbrev pub NoneFrom : (T → ℕ → Bool) → ℕ → List T → Type 0
  NoneFrom p i [] = Unit {0}
  NoneFrom p i (x ∷ xs) = (p x i ≡ false) × NoneFrom p (i + 1) xs

  find_from_lem :
      (p : T → ℕ → Bool) (i : ℕ) (s : List T)
      → ((find_from p i s ≡ none) × (find_index_from p i s ≡ negsuc 0) × NoneFrom p i s)
        ⊎ ((a : List T) × (x : T) × (b : List T) × (s ≡ a ++ x ∷ b)
            × (find_from p i s ≡ some x)
            × (find_index_from p i s ≡ pos (i + length a))
            × (p x (i + length a) ≡ true)
            × NoneFrom p i a)
  unfolding find_from find_index_from
  find_from_lem p i [] = inl (refl, refl, tt)
  find_from_lem p i (x ∷ s) = elim (Bool-cases (p x i)) [
    | inl hit ↦
        let same : i + 0 ≡ i = omega arith in
        inr ([], x, s, refl, rw hit, rw (hit, same), rw (same, hit), tt)
    | inr miss ↦ elim (find_from_lem p (i + 1) s) [
      | inl (e, e', h) ↦ inl (rw miss e, rw miss e', (miss, h))
      | inr (a, y, b, split, e, e', h, before) ↦
          let same : i + suc (length a) ≡ i + 1 + length a = omega arith in
          inr (
            x ∷ a,
            y,
            b,
            ap (λ r. x ∷ r) split,
            rw miss e,
            rw (miss, same) e',
            rw same h,
            (miss, before),
          )
    ]
  ]

  -- `Find` and `FindIndex` agree: both say that no item matches, or the one gives the item that
  -- stands at the index that the other gives, which is the first that matches.
  pub find_lem :
      (p : T → ℕ → Bool) (s : List T)
      → ((find p s ≡ none) × (find_index p s ≡ negsuc 0) × NoneFrom p 0 s)
        ⊎ ((a : List T) × (x : T) × (b : List T) × (s ≡ a ++ x ∷ b)
            × (find p s ≡ some x)
            × (find_index p s ≡ pos (0 + length a))
            × (p x (0 + length a) ≡ true)
            × NoneFrom p 0 a)
  unfolding find find_index
  find_lem p s = find_from_lem p 0 s

module _ {V : Type 0} where
  -- `singleInstance.load`, with what the function would make.
  pub load_single : Bytes → V → Dict Bytes V → V × Dict Bytes V
  load_single key made m = elim (lookup key m) [
    | some v ↦ (v, m)
    | none ↦ (made, insert key made m)
  ]

  -- Whatever is made for it, a second load of a key gives the value of the first, and a load changes
  -- no other key.
  pub load_single_lem :
      (key other : Bytes) (made again : V) (m : Dict Bytes V)
      → key ≢ other
      → ((load_single key again (load_single key made m).1).0 ≡ (load_single key made m).0)
        × (lookup other (load_single key made m).1 ≡ lookup other m)
  unfolding load_single
  load_single_lem key other made again m ne = elim (Option-cases (lookup key m)) [
    | inl absent ↦
        ground (arith, lookup-insert_self key made m, lookup-insert_ne key other made m ne)
    | inr (v, found) ↦ ground arith
  ]

abbrev pub is_upper : ℕ → Bool
is_upper d = leb 65 d && leb d 90

-- The loop of `SnakeString`, with its flag.
unfoldable pub snake_from : Bool → Bytes → Bytes
snake_from j [] = []
snake_from j (d ∷ s) =
    let rest = snake_from (if is_upper d then false else if d == b'_' then j else true) s in
    if is_upper d && j then b'_' ∷ d ∷ rest else d ∷ rest

unfoldable pub lower_ascii : Bytes → Bytes
lower_ascii [] = []
lower_ascii (d ∷ s) = (if is_upper d then d + 32 else d) ∷ lower_ascii s

unfoldable pub snake_string : Bytes → Bytes
unfolding snake_from lower_ascii
snake_string s = lower_ascii (snake_from false s)

abbrev pub HasNoUpper : Bytes → Type 0
HasNoUpper s = All (λ d. is_upper d ≡ false) s

lower_ascii-HasNoUpper : (s : Bytes) → HasNoUpper (lower_ascii s)
unfolding lower_ascii
lower_ascii-HasNoUpper [] = tt
lower_ascii-HasNoUpper (d ∷ s) = (ground arith, lower_ascii-HasNoUpper s)

lower_ascii_same : (s : Bytes) → HasNoUpper s → lower_ascii s ≡ s
unfolding lower_ascii
lower_ascii_same [] h = refl
lower_ascii_same (d ∷ s) h = rw (h.0, lower_ascii_same s h.1) refl

snake_from_same : (j : Bool) (s : Bytes) → HasNoUpper s → snake_from j s ≡ s
unfolding snake_from
snake_from_same j [] h = refl
snake_from_same j (d ∷ s) h = rw (h.0, snake_from_same (if d == b'_' then j else true) s h.1) refl

-- The snake case of a name has no capital letter, and taking it again changes nothing.
pub snake_string_lem :
    (s : Bytes) → HasNoUpper (snake_string s) × (snake_string (snake_string s) ≡ snake_string s)
unfolding snake_string
snake_string_lem s =
    let h = lower_ascii-HasNoUpper (snake_from false s) in
    (
      h,
      ap lower_ascii (snake_from_same false (lower_ascii (snake_from false s)) h)
          ∙ lower_ascii_same (lower_ascii (snake_from false s)) h,
    )

abbrev pub is_lower : ℕ → Bool
is_lower d = leb 97 d && leb d 122

abbrev pub begins_lower : Bytes → Bool
begins_lower [] = false
begins_lower (d ∷ s) = is_lower d

-- The loop of `CamelString`, with its flags: a letter is raised at the start and behind a dropped
-- underscore.
unfoldable pub camel_from : Bool → Bool → Bytes → Bytes
camel_from j k [] = []
camel_from j k (d ∷ s) =
    let k' = k || is_upper d in
    let raised = is_lower d && (j || not k') in
    let dropped = not raised && (k' && (d == b'_' && begins_lower s)) in
    let rest =
      camel_from (if raised then false else if dropped then true else j) (k' || raised) s in
    if dropped then rest else (if raised then d - 32 else d) ∷ rest

pub camel_string : Bytes → Bytes
unfolding camel_from
camel_string s = camel_from false false s

-- `validateRequest` of the first server: the status and the text of a refusal.
unfoldable pub validate_request : (ℤ → Bytes) → Bytes → ℤ → Option (ℕ × Bytes)
validate_request too_large verb content_length =
    if (verb === codes "PUT") || (verb === codes "DELETE")
    then some (405, codes "method not allowed")
    else (if ltb_ℤ (pos 5_242_880) content_length
        then some (413, too_large content_length)
        else none)

pub slice_string_contains_prefix : List Bytes → Bytes → Bool
slice_string_contains_prefix [] val = false
slice_string_contains_prefix (item ∷ slice) val =
    if has_prefix val item then true else slice_string_contains_prefix slice val
