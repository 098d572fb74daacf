-- ===== src/Storage/Free.antt =====
-- mdb/storage.go: `FreeStore` and `CCStore`, the stores in memory.
pub mod Ccache
use glibs.Base.{
  ℕ, ◌+◌, ◌≡◌, refl, sym, ap, ◌∙◌, ◌⊎◌, inl, inr, Bool, true, false, ◌&&◌, ◌||◌, Option, none, some,
  List, [], ◌∷◌, arith, Option-cases, Bool-cases, if◌then◌else◌, ◌===◌, ===_cases, list_eq,
}
use glibs.Base.Int.{ℤ, pos, ◌+ℤ◌, ◌*ℤ◌, ltb_ℤ, ◌≤ℤ◌, wrap64}
use glibs.Base.Dict.{elem}
use glibs.Base.Bytes.{Bytes, has_prefix}
use glibs.Storage.Libraries.{FreeCacheLib, IsFreeCache, CcacheLib, CcItem}

module _ (c : FreeCacheLib) where
  open c use {Mem}

  unfoldable pub free_clear_all : Mem → Mem
  free_clear_all s = c.clear s

  unfoldable pub free_del : Bytes → Mem → Mem
  free_del key s = c.del key s

  unfoldable pub free_get : ℤ → Bytes → Mem → Option Bytes
  free_get now key s = c.get now key s

  -- The loop over the prefixes for one entry; each match deletes.
  pub drop_entry : List Bytes → Bytes → Mem → Mem
  drop_entry [] k s = s
  drop_entry (p ∷ ps) k s = drop_entry ps k (if has_prefix p k then c.del k s else s)

  pub drop_entries : List Bytes → List Bytes → Mem → Mem
  unfolding drop_entry
  drop_entries ps [] s = s
  drop_entries ps (k ∷ ks) s = drop_entries ps ks (drop_entry ps k s)

  pub free_drop_prefix : List Bytes → Mem → Mem
  unfolding drop_entries
  free_drop_prefix ps s = drop_entries ps (c.entries s) s

-- The seconds that a write hands to the cache: an hour without a time to live.
unfoldable pub free_exp : List ℤ → ℤ
free_exp [] = pos 3600
free_exp (t ∷ ts) = t

module _ (c : FreeCacheLib) where
  open c use {Mem}

  unfoldable pub free_set : ℤ → Bytes → Bytes → List ℤ → Mem → Mem
  unfolding free_exp
  free_set now key payload ttl s = c.set now key payload (free_exp ttl) s

abbrev pub has_any_prefix : List Bytes → Bytes → Bool
has_any_prefix [] j = false
has_any_prefix (p ∷ ps) j = has_prefix p j || has_any_prefix ps j

module _ (c : FreeCacheLib) (laws : IsFreeCache c) (now : ℤ) (j : Bytes) where
  open c use {Mem}

  drop_entry-get :
      (ps : List Bytes) (k : Bytes) (s : Mem)
      → c.get now j (drop_entry c ps k s)
        ≡ (if (k === j) && has_any_prefix ps j then none else c.get now j s)
  unfolding drop_entry
  drop_entry-get [] k s = ground arith
  drop_entry-get (p ∷ ps) k s =
      drop_entry-get ps k (if has_prefix p k then c.del k s else s) ∙ elim (===_cases k j) [
        | inl (same, hit) ↦ rw same (ground (arith, laws.get-del now j j s))
        | inr (_, miss) ↦ rw miss (ground (arith, laws.get-del now k j s))
      ]

  drop_entries-get :
      (ps ks : List Bytes) (s : Mem)
      → c.get now j (drop_entries c ps ks s)
        ≡ (if elem j ks && has_any_prefix ps j then none else c.get now j s)
  unfolding drop_entries
  drop_entries-get ps [] s = refl
  drop_entries-get ps (k ∷ ks) s =
      ground (arith, drop_entries-get ps ks (drop_entry c ps k s), drop_entry-get ps k s)

  pub free_drop_prefix-get :
      (ps : List Bytes) (s : Mem)
      → c.get now j (free_drop_prefix c ps s)
        ≡ (if has_any_prefix ps j then none else c.get now j s)
  unfolding free_drop_prefix
  free_drop_prefix-get ps s =
      drop_entries-get ps (c.entries s) s ∙ elim (Option-cases (c.get now j s)) [
        | inl absent ↦ rw absent (ground arith)
        | inr (v, found) ↦ rw (laws.elem-entries now j v s found)
      ]

abbrev pub hour : ℤ
hour = pos 3_600_000_000_000

abbrev pub second : ℤ
second = pos 1_000_000_000

-- The nanoseconds that a write of `CCStore` hands to the cache, a 64-bit product.
unfoldable pub cc_ttl : List ℤ → ℤ
cc_ttl [] = hour
cc_ttl (t ∷ ts) = if ltb_ℤ (pos 0) t then wrap64 (t *ℤ second) else hour

module _ (c : CcacheLib) where
  open c use {Mem}

  pub cc_clear_all : Mem → Mem
  cc_clear_all s = c.clear s

  pub cc_del : Bytes → Mem → Mem
  cc_del key s = c.delete key s

  pub cc_drop_prefix : List Bytes → Mem → Mem
  cc_drop_prefix [] s = s
  cc_drop_prefix (p ∷ ps) s = cc_drop_prefix ps (c.delete_prefix p s)

  -- An item that has expired is deleted by the read.
  pub cc_get : ℤ → Bytes → Mem → Option Bytes × Mem
  unfolding cc_del
  cc_get now key s = elim (c.get key s) [
    | none ↦ (none, s)
    | some item ↦ if ltb_ℤ item.expires now then (none, cc_del key s) else (some item.value, s)
  ]

  pub cc_set : ℤ → Bytes → Bytes → List ℤ → Mem → Mem
  unfolding cc_ttl
  cc_set now key payload ttl s = c.set now key payload (cc_ttl ttl) s
