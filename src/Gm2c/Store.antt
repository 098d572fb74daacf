-- ===== src/Gm2c/Store.antt =====
-- mdb/gm2c.go: the interface `CacheStore` of the plugin, and the stores of mdb/storage.go that fill
-- it. A store may lose an entry at any time; what it returns was written.
use glibs.Base.{
  ◌≡◌, sym, ◌∙◌, ◌⊎◌, inl, inr, false, Option, some, List, arith, ◌===◌, ===_cases, list_eq, subst,
}
use glibs.Base.Int.{ℤ}
use glibs.Base.Bytes.{Bytes}
use glibs.Storage.Libraries.{FreeCacheLib, IsFreeCache}
use glibs.Storage.Free.{
  free_get, free_set, free_del, free_clear_all, free_drop_prefix, free_drop_prefix-get,
  has_any_prefix, free_exp,
}

-- A read may change the state of a store.
pub record CacheStore : Type 1 where
  pub State : Type 0
  pub get_data : ℤ → Bytes → State → Option Bytes × State
  pub set_data : ℤ → Bytes → Bytes → List ℤ → State → State
  pub del_data : Bytes → State → State
  pub clear_all_data : State → State
  pub drop_prefix_data : List Bytes → State → State

-- What a read gives was there before the last call, or is what that call wrote.
pub record IsCacheStore (st : CacheStore) : Type 0 where
  pub get-get :
      (now later : ℤ) (k j w : Bytes) (s : st.State)
      → (st.get_data later j (st.get_data now k s).1).0 ≡ some w
      → (st.get_data later j s).0 ≡ some w
  pub get-set :
      (now later : ℤ) (k v : Bytes) (ttl : List ℤ) (j w : Bytes) (s : st.State)
      → (st.get_data later j (st.set_data now k v ttl s)).0 ≡ some w
      → ((k ≡ j) × (w ≡ v)) ⊎ ((st.get_data later j s).0 ≡ some w)
  pub get-del :
      (later : ℤ) (k j w : Bytes) (s : st.State)
      → (st.get_data later j (st.del_data k s)).0 ≡ some w
      → ((k === j) ≡ false) × ((st.get_data later j s).0 ≡ some w)
  pub get-drop :
      (later : ℤ) (ps : List Bytes) (j w : Bytes) (s : st.State)
      → (st.get_data later j (st.drop_prefix_data ps s)).0 ≡ some w
      → (has_any_prefix ps j ≡ false) × ((st.get_data later j s).0 ≡ some w)

abbrev pub free_store : FreeCacheLib → CacheStore
free_store c = record {
  State = c.Mem;
  get_data = λ now k s. (free_get c now k s, s);
  set_data = free_set c;
  del_data = free_del c;
  clear_all_data = free_clear_all c;
  drop_prefix_data = free_drop_prefix c;
}

module _ (c : FreeCacheLib) (laws : IsFreeCache c) where
  free_get-set :
      (now later : ℤ) (k v : Bytes) (ttl : List ℤ) (j w : Bytes) (s : c.Mem)
      → free_get c later j (free_set c now k v ttl s) ≡ some w
      → ((k ≡ j) × (w ≡ v)) ⊎ (free_get c later j s ≡ some w)
  unfolding free_get free_set free_exp
  free_get-set now later k v ttl j w s h = elim (===_cases k j) [
    | inl (p, e) ↦ inl (
      p,
      written (subst (λ x. c.get later x (c.set now k v (free_exp ttl) s) ≡ some w) (sym p) h),
    )
    | inr (_, e) ↦ elim (laws.get-set_ne now later k v (free_exp ttl) j s e) [
      | inl gone ↦ absurd (ground arith)
      | inr kept ↦ inr (sym kept ∙ h)
    ]
  ]
    where
      written : c.get later k (c.set now k v (free_exp ttl) s) ≡ some w → w ≡ v
      written e = elim (laws.get-set_self now later k v (free_exp ttl) s) [
        | inl gone ↦ absurd (ground arith)
        | inr kept ↦ ground arith
      ]

  -- `FreeStore` invents no entry, and a deletion leaves none.
  pub free_store-IsCacheStore : IsCacheStore (free_store c)
  unfolding free_get free_del
  free_store-IsCacheStore = record {
    get-get = λ now later k j w s h. h;
    get-set = free_get-set;
    get-del = λ later k j w s h. ground (arith, laws.get-del later k j s);
    get-drop = λ later ps j w s h. ground (arith, free_drop_prefix-get c laws later j ps s);
  }
