-- ===== src/Storage/Libraries.antt =====
-- The caches that mdb/storage.go and mdb/storage-redis.go call, and what is documented of them.
use glibs.Base.{
  ◌≡◌, ◌⊎◌, Bool, true, false, not, ◌&&◌, ◌||◌, ◌==◌, [], ◌∷◌, ◌++◌, Option, none, some, List,
  ◌===◌, list_eq, if◌then◌else◌, All,
}
use glibs.Base.Int.{ℤ, ◌+ℤ◌}
use glibs.Base.Dict.{Dict, lookup, elem}
use glibs.Base.Bytes.{Bytes, has_prefix}
use glibs.Base.Split.{has_part}

-- A value of the redis store in its JSON form; encoding fails on bytes that are no JSON, and
-- writes JSON without its white space (`compact`).
pub record RedisValue : Type 0 where
  pub val : Bytes
  pub expire_at : ℤ

-- A redis database: hashes by key and field. `fields` is what a scan of a hash visits, `scan` the
-- keys that match a pattern.
pub record RedisLib : Type 1 where
  pub Db : Type 0
  pub hget : Bytes → Bytes → Db → Option Bytes
  pub hset : Bytes → Bytes → Bytes → Db → Db
  pub hdel : Bytes → List Bytes → Db → Db
  pub del : List Bytes → Db → Db
  pub fields : Bytes → Db → Dict Bytes Bytes
  pub scan : Bytes → Db → List Bytes
  pub flush_db : Db → Db
  pub marshal : RedisValue → Option Bytes
  pub unmarshal : Bytes → Option RedisValue
  pub compact : Bytes → Bytes

-- The text `*part*`, and whether no byte of a part is a character of patterns: `*`, `?`, `[` or `\`.
abbrev pub around : Bytes → Bytes
around part = b'*' ∷ (part ++ b'*' ∷ [])

abbrev pub is_plain : Bytes → Bool
is_plain [] = true
is_plain (x ∷ s) = not ((x == 42) || ((x == 63) || ((x == 91) || (x == 92)))) && is_plain s

pub record IsRedis (r : RedisLib) : Type 0 where
  pub hget-hset :
      (k f v j g : Bytes) (s : r.Db)
      → r.hget j g (r.hset k f v s) ≡ (if (k === j) && (f === g) then some v else r.hget j g s)
  pub hget-hdel :
      (k : Bytes) (fs : List Bytes) (j g : Bytes) (s : r.Db)
      → r.hget j g (r.hdel k fs s) ≡ (if (k === j) && elem g fs then none else r.hget j g s)
  pub hget-del :
      (ks : List Bytes) (j g : Bytes) (s : r.Db)
      → r.hget j g (r.del ks s) ≡ (if elem j ks then none else r.hget j g s)
  pub hget-flush_db : (j g : Bytes) (s : r.Db) → r.hget j g (r.flush_db s) ≡ none
  pub lookup-fields : (k f : Bytes) (s : r.Db) → lookup f (r.fields k s) ≡ r.hget k f s
  pub fields_sound : (k : Bytes) (s : r.Db) → All (λ e. r.hget k e.0 s ≡ some e.1) (r.fields k s)
  pub elem-scan :
      (part k f v : Bytes) (s : r.Db)
      → is_plain part ≡ true
      → r.hget k f s ≡ some v
      → elem k (r.scan (around part) s) ≡ has_part part k
  pub unmarshal-marshal :
      (v : RedisValue) (b : Bytes)
      → r.marshal v ≡ some b
      → r.unmarshal b ≡ some (record v { val = r.compact v.val })

-- freecache: a bounded cache in memory, which may drop an entry at any write. `entries` is what an
-- iterator visits. A time to live that is not positive does not end.
pub record FreeCacheLib : Type 1 where
  pub Mem : Type 0
  pub get : ℤ → Bytes → Mem → Option Bytes
  pub set : ℤ → Bytes → Bytes → ℤ → Mem → Mem
  pub del : Bytes → Mem → Mem
  pub clear : Mem → Mem
  pub entries : Mem → List Bytes

pub record IsFreeCache (c : FreeCacheLib) : Type 0 where
  pub get-set_self :
      (now later : ℤ) (k v : Bytes) (exp : ℤ) (s : c.Mem)
      → (c.get later k (c.set now k v exp s) ≡ none)
        ⊎ (c.get later k (c.set now k v exp s) ≡ some v)
  pub get-set_ne :
      (now later : ℤ) (k v : Bytes) (exp : ℤ) (j : Bytes) (s : c.Mem)
      → (k === j) ≡ false
      → (c.get later j (c.set now k v exp s) ≡ none)
        ⊎ (c.get later j (c.set now k v exp s) ≡ c.get later j s)
  pub get-del :
      (now : ℤ) (k j : Bytes) (s : c.Mem)
      → c.get now j (c.del k s) ≡ (if k === j then none else c.get now j s)
  pub get-clear : (now : ℤ) (j : Bytes) (s : c.Mem) → c.get now j (c.clear s) ≡ none
  pub elem-entries :
      (now : ℤ) (k v : Bytes) (s : c.Mem) → c.get now k s ≡ some v → elem k (c.entries s) ≡ true

-- ccache: an item carries the time at which it expires, and is returned also after that.
pub record CcItem : Type 0 where
  pub value : Bytes
  pub expires : ℤ

pub record CcacheLib : Type 1 where
  pub Mem : Type 0
  pub get : Bytes → Mem → Option CcItem
  pub set : ℤ → Bytes → Bytes → ℤ → Mem → Mem
  pub delete : Bytes → Mem → Mem
  pub delete_prefix : Bytes → Mem → Mem
  pub clear : Mem → Mem

pub record IsCcache (c : CcacheLib) : Type 0 where
  -- A bounded cache may have dropped the item.
  pub get-set :
      (now : ℤ) (k v : Bytes) (ttl : ℤ) (s : c.Mem)
      → (c.get k (c.set now k v ttl s) ≡ none)
        ⊎ (c.get k (c.set now k v ttl s) ≡ some (record { value = v; expires = now +ℤ ttl }))
  pub get-delete :
      (k j : Bytes) (s : c.Mem) → c.get j (c.delete k s) ≡ (if k === j then none else c.get j s)
  pub get-delete_prefix :
      (p j : Bytes) (s : c.Mem)
      → c.get j (c.delete_prefix p s) ≡ (if has_prefix p j then none else c.get j s)
  pub get-clear : (j : Bytes) (s : c.Mem) → c.get j (c.clear s) ≡ none
