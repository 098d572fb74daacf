-- ===== src/Gm2c/Plugin/Keys.antt =====
-- mdb/gm2c.go: keys of the cache are apart, and the prefixes that a write drops cover them.
use glibs.Base.{ℕ, ◌≡◌, refl, sym, ap, ◌∙◌, true, false, [], ◌∷◌, ◌++◌, arith, append_assoc, drop}
use mathlib.Core.List.{append_cancel_left, append_cancel_right}
use glibs.Base.Bytes.{Bytes, codes, has_prefix}
use glibs.Gm2c.{
  primary_key_prefix, primary_cache_key, search_key_prefix, search_cache_key, separator, id_text,
  is_empty,
}

pub has_prefix-append : (p s : Bytes) → has_prefix p (p ++ s) ≡ true
has_prefix-append [] s = refl
has_prefix-append (x ∷ p) s = ground (arith, has_prefix-append p s)

pub id_text_inj : (name a b : Bytes) → id_text name a ≡ id_text name b → a ≡ b
id_text_inj name a b e = ap (drop 1) (append_cancel_left name (b'=' ∷ a) (b'=' ∷ b) e)

module _ (pre table : Bytes) where
  pub primary_cache_key_inj :
      (a b : Bytes) → primary_cache_key pre table a ≡ primary_cache_key pre table b → a ≡ b
  unfolding primary_cache_key
  primary_cache_key_inj a b e =
      append_cancel_left separator a b
        (append_cancel_left (primary_key_prefix pre table) (separator ++ a) (separator ++ b) e)

  pub search_cache_key_inj :
      (a b : Bytes) → search_cache_key pre table a ≡ search_cache_key pre table b → a ≡ b
  unfolding search_cache_key
  search_cache_key_inj a b e =
      let framed =
        append_cancel_left (search_key_prefix pre table) (separator ++ (b'[' ∷ (a ++ b']' ∷ [])))
          (separator ++ (b'[' ∷ (b ++ b']' ∷ []))) e in
      let inner : a ++ b']' ∷ [] ≡ b ++ b']' ∷ [] = ap (drop 6) framed in
      append_cancel_right a b (b']' ∷ []) inner

  -- A row's key is never a search's.
  pub keys_apart : (a b : Bytes) → primary_cache_key pre table a ≡ search_cache_key pre table b → ⊥
  unfolding primary_cache_key search_cache_key primary_key_prefix search_key_prefix
  keys_apart a b e =
      let p : Bytes = (codes ":p:" ++ table) ++ (separator ++ a) in
      let s : Bytes = (codes ":s:" ++ table) ++ (separator ++ (b'[' ∷ (b ++ b']' ∷ []))) in
      let same : pre ++ p ≡ pre ++ s =
        sym (append_assoc pre (codes ":p:" ++ table) (separator ++ a))
        ∙ (ap (drop 5) e ∙ append_assoc pre (codes ":s:" ++ table) _) in
      let heads : second p ≡ second s = ap second (append_cancel_left pre p s same) in
      absurd (omega (arith, heads))
    where
      second : Bytes → ℕ
      second [] = 0
      second (x ∷ []) = 0
      second (x ∷ y ∷ r) = y

  pub primary_covered :
      (a : Bytes) → has_prefix (primary_key_prefix pre table) (primary_cache_key pre table a) ≡ true
  unfolding primary_cache_key
  primary_covered a = has_prefix-append (primary_key_prefix pre table) (separator ++ a)

  pub search_covered :
      (a : Bytes) → has_prefix (search_key_prefix pre table) (search_cache_key pre table a) ≡ true
  unfolding search_cache_key
  search_covered a = has_prefix-append (search_key_prefix pre table) _

  pub primary-ne-nil : (a : Bytes) → is_empty (primary_cache_key pre table a) ≡ false
  unfolding primary_cache_key primary_key_prefix
  primary-ne-nil a = refl

  pub search-ne-nil : (a : Bytes) → is_empty (search_cache_key pre table a) ≡ false
  unfolding search_cache_key search_key_prefix
  search-ne-nil a = refl
