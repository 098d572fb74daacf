-- ===== src/Storage/Tests.antt =====
-- mdb: the properties of the stores at concrete keys and values.
use glibs.Base.{
  ◌≡◌, refl, Option, none, some, [], ◌∷◌, if◌then◌else◌, arith, inr, ◌===◌, ===_self, ===_cases,
  sym, inl, list_eq,
}
use glibs.Base.Int.{pos, ◌+ℤ◌, wrap64}
use glibs.Base.Bytes.{Bytes, codes, has_prefix}
use glibs.Base.Split.{has_part, cut, split, join}
use glibs.Storage.Libraries.{CcacheLib, CcItem, IsCcache}
use glibs.Storage.Memory.{memory_redis, memory_redis-IsRedis, memory_cache}
use glibs.Storage.Redis.{
  RedisStoreOption, get_key_field_or_not, get, set, del, store_gc, drop_prefix, expire_at_of,
  new_redis_store,
}
use glibs.Storage.Redis.Gc.{store_gc-hget, live}
use glibs.Storage.Redis.Access.{get-set, others, drop_prefix-hget}

abbrev colon : RedisStoreOption
colon = record { separator = codes ":" }

abbrev user_key : Bytes
user_key = codes "a:b"

-- A hash with a live value, one that expired at 50, and one that is no value.
abbrev mixed : memory_redis.Db
mixed =
    (codes "s", codes "f", 0 ∷ 0 ∷ codes "x")
    ∷ (codes "s", codes "g", 0 ∷ 50 ∷ codes "y")
    ∷ (codes "s", codes "h", codes "z")
    ∷ []

store_gc-hget_example :
    memory_redis.hget (codes "s") (codes "g") (store_gc memory_redis (pos 100) (codes "s") mixed)
    ≡ (if has_part (codes "s") (codes "s")
        then live memory_redis (pos 100) (memory_redis.hget (codes "s") (codes "g") mixed)
        else memory_redis.hget (codes "s") (codes "g") mixed)
store_gc-hget_example =
    store_gc-hget memory_redis memory_redis-IsRedis (pos 100) (codes "s") mixed (codes "s")
      (codes "g") refl

key_of_user : get_key_field_or_not colon user_key ≡ some (codes "a", codes "b")
unfolding get_key_field_or_not split cut join
key_of_user = refl

-- The options of a store: the first one, or the default separator.
chosen_option : new_redis_store (some colon ∷ none ∷ []) ≡ colon
unfolding new_redis_store
chosen_option = refl

abbrev stored : Bytes
stored = 0 ∷ 110 ∷ codes "x"

stored_is_marshalled :
    memory_redis.marshal
      (record { val = codes "x"; expire_at = expire_at_of (pos 100) (pos 10 ∷ []) })
    ≡ some stored
unfolding expire_at_of ◌+ℤ◌ wrap64
stored_is_marshalled = refl

get-set_example :
    get memory_redis colon
      (pos 120)
      user_key
      (set memory_redis colon (pos 100) user_key (codes "x") (pos 10 ∷ []) [])
    ≡ (
      none,
      memory_redis.hdel
          (codes "a")
          (codes "b" ∷ [])
          (set memory_redis colon (pos 100) user_key (codes "x") (pos 10 ∷ []) []),
    )
unfolding ◌+ℤ◌ wrap64
get-set_example =
    get-set memory_redis memory_redis-IsRedis colon (pos 100) (pos 120) user_key (codes "x")
      (pos 10 ∷ []) [] (codes "a") (codes "b") stored key_of_user stored_is_marshalled

no_key : get_key_field_or_not colon (codes "ab") ≡ none
unfolding get_key_field_or_not split cut
no_key = refl

drop_prefix-hget_example :
    memory_redis.hget
      (codes "as")
      (codes "f")
      (drop_prefix memory_redis (codes "s" ∷ []) ((codes "as", codes "f", codes "v") ∷ []))
    ≡ none
unfolding has_part
drop_prefix-hget_example =
    drop_prefix-hget memory_redis memory_redis-IsRedis (codes "s" ∷ [])
      ((codes "as", codes "f", codes "v") ∷ []) (codes "as") (codes "f") refl

others_example :
    (memory_redis.hget
        (codes "s")
        (codes "f")
        (set memory_redis colon (pos 100) user_key (codes "x") (pos 10 ∷ []) mixed)
      ≡ memory_redis.hget (codes "s") (codes "f") mixed)
    × (memory_redis.hget (codes "s") (codes "f") (get memory_redis colon (pos 100) user_key mixed).1
        ≡ memory_redis.hget (codes "s") (codes "f") mixed)
    × (memory_redis.hget (codes "s") (codes "f") (del memory_redis colon user_key mixed)
        ≡ memory_redis.hget (codes "s") (codes "f") mixed)
others_example =
    others memory_redis memory_redis-IsRedis colon user_key (codes "a") (codes "b") (codes "s")
      (codes "f") key_of_user refl (pos 100) (codes "x") (pos 10 ∷ []) mixed

abbrev three_keys : memory_cache.Mem
three_keys =
    (codes "row:1", codes "x") ∷ (codes "find:1", codes "y") ∷ (codes "row:2", codes "z") ∷ []

-- A cache of items that has room for one.
abbrev one_get : Bytes → Option (Bytes × CcItem) → Option CcItem
one_get j none = none
one_get j (some (k, v)) = if k === j then some v else none

abbrev one_delete : Bytes → Option (Bytes × CcItem) → Option (Bytes × CcItem)
one_delete j none = none
one_delete j (some (k, v)) = if j === k then none else some (k, v)

abbrev one_delete_prefix : Bytes → Option (Bytes × CcItem) → Option (Bytes × CcItem)
one_delete_prefix p none = none
one_delete_prefix p (some (k, v)) = if has_prefix p k then none else some (k, v)

abbrev one_item : CcacheLib
one_item = record {
  Mem = Option (Bytes × CcItem);
  get = one_get;
  set = λ now k v ttl m. some (k, record { value = v; expires = now +ℤ ttl });
  delete = one_delete;
  delete_prefix = one_delete_prefix;
  clear = λ m. none;
}

one_get-delete :
    (k j : Bytes) (s : Option (Bytes × CcItem))
    → one_get j (one_delete k s) ≡ (if k === j then none else one_get j s)
one_get-delete k j none = ground arith
one_get-delete k j (some (i, v)) = elim (===_cases k i) [
  | inl (p, e) ↦ rw (e, p) (ground arith)
  | inr (ne, e) ↦ elim (===_cases i j) [
    | inl (q, e') ↦ rw (e, sym q, e) refl
    | inr (_, e') ↦ rw (e, e') (ground arith)
  ]
]

one_get-delete_prefix :
    (p j : Bytes) (s : Option (Bytes × CcItem))
    → one_get j (one_delete_prefix p s) ≡ (if has_prefix p j then none else one_get j s)
one_get-delete_prefix p j none = ground arith
one_get-delete_prefix p j (some (i, v)) = elim (===_cases i j) [
  | inl (q, e) ↦ rw q (ground arith)
  | inr (_, e) ↦ ground arith
]

one_item-IsCcache : IsCcache one_item
one_item-IsCcache = record {
  get-set = λ now k v ttl s. inr (rw (===_self k) refl);
  get-delete = one_get-delete;
  get-delete_prefix = one_get-delete_prefix;
  get-clear = λ j s. refl;
}
