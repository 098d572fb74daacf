-- ===== src/Storage/Free/Ccache.antt =====
-- mdb/storage.go: `CCStore`, and the times to live of the three stores.
use glibs.Base.{
  ◌≡◌, refl, ◌∙◌, ◌⊎◌, inl, inr, false, none, some, List, [], ◌∷◌, arith, Bool-cases, if◌then◌else◌,
  ===_self, list_eq,
}
use glibs.Base.Int.{ℤ, pos, ◌+ℤ◌, ltb_ℤ}
use glibs.Base.Bytes.{Bytes}
use glibs.Storage.Libraries.{CcacheLib, CcItem, IsCcache}
use glibs.Storage.Redis.{expire_at_of}
use glibs.Storage.Free.{
  hour, free_exp, cc_ttl, cc_get, cc_set, cc_del, cc_drop_prefix, cc_clear_all, has_any_prefix,
}

module _ (c : CcacheLib) (laws : IsCcache c) where
  read_item :
      (later : ℤ) (key : Bytes) (s : c.Mem) (item : CcItem)
      → c.get key s ≡ some item
      → (cc_get c later key s).0 ≡ (if ltb_ℤ item.expires later then none else some item.value)
  unfolding cc_get
  read_item later key s item h = elim (Bool-cases (ltb_ℤ item.expires later)) [
    | inl e ↦ ground arith
    | inr e ↦ ground arith
  ]

  read_none :
      (later : ℤ) (key : Bytes) (s : c.Mem) → c.get key s ≡ none → (cc_get c later key s).0 ≡ none
  unfolding cc_get
  read_none later key s h = ground arith

  -- A read gives what was last written, unless the cache has dropped it or it has outlived its time;
  -- behind that it gives nothing.
  pub cc_get-set :
      (now later : ℤ) (key payload : Bytes) (ttl : List ℤ) (s : c.Mem)
      → ((cc_get c later key (cc_set c now key payload ttl s)).0 ≡ none)
        ⊎ ((cc_get c later key (cc_set c now key payload ttl s)).0
            ≡ (if ltb_ℤ (now +ℤ cc_ttl ttl) later then none else some payload))
  unfolding cc_set
  cc_get-set now later key payload ttl s = elim (laws.get-set now key payload (cc_ttl ttl) s) [
    | inl gone ↦ inl (read_none later key _ gone)
    | inr kept ↦ inr (read_item later key _ _ kept)
  ]

  dropped :
      (ps : List Bytes) (j : Bytes) (s : c.Mem)
      → c.get j (cc_drop_prefix c ps s) ≡ (if has_any_prefix ps j then none else c.get j s)
  unfolding cc_drop_prefix
  dropped [] j s = refl
  dropped (p ∷ ps) j s =
      ground (arith, dropped ps j (c.delete_prefix p s), laws.get-delete_prefix p j s)

  -- `Del`, `DropPrefix` and `ClearAll` leave nothing that they are to delete, and `DropPrefix` deletes
  -- only what begins with one of the prefixes.
  pub cc_deleted :
      (now : ℤ) (ps : List Bytes) (j : Bytes) (s : c.Mem)
      → (c.get j (cc_drop_prefix c ps s) ≡ (if has_any_prefix ps j then none else c.get j s))
        × ((cc_get c now j (cc_del c j s)).0 ≡ none)
        × ((cc_get c now j (cc_clear_all c s)).0 ≡ none)
  unfolding cc_del cc_clear_all
  cc_deleted now ps j s = (
    dropped ps j s,
    read_none now j (c.delete j s) (laws.get-delete j j s ∙ rw (===_self j)),
    read_none now j (c.clear s) (laws.get-clear j s),
  )

-- For a time to live that is not positive the three stores differ: `CCStore` keeps the value for an
-- hour, `FreeStore` hands the number on to its cache, and `RedisStore` stores a value that never
-- expires.
pub ttl_lem :
    (now t : ℤ)
    → ltb_ℤ (pos 0) t ≡ false
    → (cc_ttl (t ∷ []) ≡ hour) × (free_exp (t ∷ []) ≡ t) × (expire_at_of now (t ∷ []) ≡ pos 0)
unfolding cc_ttl free_exp expire_at_of
ttl_lem now t h = (rw h refl, refl, rw h refl)
