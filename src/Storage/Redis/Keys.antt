-- ===== src/Storage/Redis/Keys.antt =====
-- mdb/storage-redis.go: how `GetKeyFieldOrNot` takes a key apart into hash and field.
use glibs.Base.{
  ℕ, ◌<◌, ◌≡◌, ◌≢◌, refl, sym, ap, ◌∙◌, inl, inr, none, some, List, [], ◌∷◌, ◌++◌, append_assoc,
  All, arith, Option-cases, length,
}
use glibs.Base.Bytes.{Bytes}
use glibs.Base.Split.{cut, split, join, join-split, split-parts, length-split}
use glibs.Storage.Redis.{RedisStoreOption, init_last, key_field_of, get_key_field_or_not}

init_last-join :
    (sep x y : Bytes) (r : List Bytes)
    → join sep (x ∷ y ∷ r) ≡ join sep (init_last x (y ∷ r)).0 ++ (sep ++ (init_last x (y ∷ r)).1)
unfolding init_last join
init_last-join sep x y [] = refl
init_last-join sep x y (z ∷ r) = rw (init_last-join sep y z r) (simp append_assoc)

init_last-All :
    (P : Bytes → Type 0) (x : Bytes) (r : List Bytes) → All P (x ∷ r) → P (init_last x r).1
unfolding init_last
init_last-All P x [] h = h.0
init_last-All P x (y ∷ r) h = init_last-All P y r h.1

key_field_of_sound :
    (sep : Bytes) (xs : List Bytes) (k f : Bytes)
    → All (λ p. cut sep p ≡ none) xs
    → key_field_of sep xs ≡ some (k, f)
    → (join sep xs ≡ k ++ (sep ++ f)) × (cut sep f ≡ none)
unfolding key_field_of
key_field_of_sound sep [] k f h e = absurd (ground arith)
key_field_of_sound sep (x ∷ []) k f h e = absurd (ground arith)
key_field_of_sound sep (x ∷ y ∷ r) k f h e =
    let ek : join sep (init_last x (y ∷ r)).0 ≡ k = ground arith in
    let ef : (init_last x (y ∷ r)).1 ≡ f = ground arith in
    (
      init_last-join sep x y r ∙ rw (ek, ef),
      rw (← ef) (init_last-All (λ p. cut sep p ≡ none) x (y ∷ r) h),
    )

-- A key that is taken apart is the hash, the separator and the field put together, and the field
-- holds no separator: it is cut at the last one.
pub get_key_field_or_not_sound :
    (opt : RedisStoreOption) (key k f : Bytes)
    → 0 < length opt.separator
    → get_key_field_or_not opt key ≡ some (k, f)
    → (key ≡ k ++ (opt.separator ++ f)) × (cut opt.separator f ≡ none)
unfolding get_key_field_or_not
get_key_field_or_not_sound opt key k f h e =
    let sep = opt.separator in
    let (joined, last) = key_field_of_sound sep (split sep key) k f (split-parts sep key h) e in
    (sym (join-split sep key) ∙ joined, last)

-- Two ways to cut at a single byte that the fields do not hold are one.
pub cut-behind : (c : ℕ) (k f : Bytes) → cut (c ∷ []) (k ++ (c ∷ f)) ≢ none
unfolding cut
cut-behind c [] f e = ground arith
cut-behind c (x ∷ k) f e = ground (arith, cut-behind c k f)

cut_unique :
    (c : ℕ) (k f k' f' : Bytes)
    → cut (c ∷ []) f ≡ none
    → cut (c ∷ []) f' ≡ none
    → k ++ (c ∷ f) ≡ k' ++ (c ∷ f')
    → (k ≡ k') × (f ≡ f')
cut_unique c [] f [] f' h h' e = ground arith
cut_unique c [] f (x ∷ k') f' h h' e =
    let g : f ≡ k' ++ (c ∷ f') = ground arith in absurd (cut-behind c k' f' (rw (← g) h))
cut_unique c (x ∷ k) f [] f' h h' e =
    let g : f' ≡ k ++ (c ∷ f) = ground arith in absurd (cut-behind c k f (rw (← g) h'))
cut_unique c (x ∷ k) f (y ∷ k') f' h h' e = ground (arith, cut_unique c k f k' f' h h')

key_field_of-none :
    (sep : Bytes) (xs : List Bytes) (s : Bytes)
    → 0 < length xs
    → key_field_of sep xs ≡ none
    → join sep xs ≡ s
    → xs ≡ s ∷ []
unfolding key_field_of join
key_field_of-none sep [] s h e j = absurd (omega arith)
key_field_of-none sep (x ∷ []) s h e j = ap (λ (z : Bytes). z ∷ []) j
key_field_of-none sep (x ∷ y ∷ r) s h e j = absurd (ground arith)

-- A key that is not taken apart has no separator.
pub get_key_field_or_not-none :
    (opt : RedisStoreOption) (key : Bytes)
    → 0 < length opt.separator
    → get_key_field_or_not opt key ≡ none
    → cut opt.separator key ≡ none
unfolding get_key_field_or_not
get_key_field_or_not-none opt key h e =
    let sep = opt.separator in
    let whole : split sep key ≡ key ∷ [] =
      key_field_of-none sep (split sep key) key (length-split sep key) e (join-split sep key) in
    (rw whole at (split-parts sep key h)).0

-- With a separator of one byte, a key that was put together from a hash and a field without that
-- byte is taken apart into the two.
pub get_key_field_or_not_complete :
    (opt : RedisStoreOption) (c : ℕ) (k f : Bytes)
    → opt.separator ≡ c ∷ []
    → cut (c ∷ []) f ≡ none
    → get_key_field_or_not opt (k ++ (c ∷ f)) ≡ some (k, f)
get_key_field_or_not_complete opt c k f es hf =
    elim (Option-cases (get_key_field_or_not opt (k ++ (c ∷ f)))) [
      | inl missing ↦
          let clean = get_key_field_or_not-none opt (k ++ (c ∷ f)) (rw es (omega arith)) missing in
          absurd (cut-behind c k f (rw es at clean))
      | inr ((k', f'), found) ↦
          let (joined, last) =
            get_key_field_or_not_sound opt (k ++ (c ∷ f)) k' f' (rw es (omega arith)) found in
          let same = cut_unique c k f k' f' hf (rw es at last) (rw es at joined) in
          found ∙ rw (same.0, same.1)
    ]
