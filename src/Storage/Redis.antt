-- ===== src/Storage/Redis.antt =====
-- mdb/storage-redis.go: `RedisStore` and `HDeleter`, `HScanCallback` of mdb/storage.go. A state is
-- that of the database; the clock is the Unix time in seconds.
pub mod Keys
pub mod Gc
pub mod Access
use glibs.Base.{
  ℕ, zero, suc, ◌+◌, ◌-◌, ◌%◌, Bool, true, false, ◌&&◌, ◌||◌, not, Option, none, some, List, [],
  ◌∷◌, ◌++◌, if◌then◌else◌, ltb, leb, ◌==◌, length, get_elem?,
}
use glibs.Base.Int.{ℤ, pos, ◌+ℤ◌, ltb_ℤ, wrap64}
use glibs.Base.Dict.{Dict}
use glibs.Base.Bytes.{Bytes, codes}
use glibs.Base.Split.{split, join}
use glibs.Storage.Libraries.{RedisLib, RedisValue, around}

pub record RedisStoreOption : Type 0 where
  pub separator : Bytes

abbrev pub separator_colon : Bytes
separator_colon = codes ":"

-- `separator` of mdb/gm2c.go.
abbrev pub default_separator : Bytes
default_separator = codes ":sep:"

-- `NewRedisStore`: the option of the store, from the first of those given, which may be nil.
unfoldable pub new_redis_store : List (Option RedisStoreOption) → RedisStoreOption
new_redis_store [] = record { separator = default_separator }
new_redis_store (none ∷ opts) = record { separator = default_separator }
new_redis_store (some opt ∷ opts) = opt

unfoldable pub is_expired : ℤ → RedisValue → Bool
is_expired now v = ltb_ℤ (pos 0) v.expire_at && ltb_ℤ v.expire_at now

-- All but the last, and the last.
pub init_last : Bytes → List Bytes → List Bytes × Bytes
init_last x [] = ([], x)
init_last x (y ∷ r) = let (i, l) = init_last y r in (x ∷ i, l)

pub key_field_of : Bytes → List Bytes → Option (Bytes × Bytes)
unfolding init_last
key_field_of sep [] = none
key_field_of sep (x ∷ []) = none
key_field_of sep (x ∷ y ∷ r) = let (i, l) = init_last x (y ∷ r) in some (join sep i, l)

unfoldable pub get_key_field_or_not : RedisStoreOption → Bytes → Option (Bytes × Bytes)
unfolding key_field_of
get_key_field_or_not opt key = key_field_of opt.separator (split opt.separator key)

-- A ttl that is positive; the variadic argument is a list.
abbrev pub first_ttl : List ℤ → ℤ
first_ttl [] = pos 0
first_ttl (t ∷ ts) = t

-- The expiry, a 64-bit sum.
unfoldable pub expire_at_of : ℤ → List ℤ → ℤ
expire_at_of now ttl =
    if ltb_ℤ (pos 0) (first_ttl ttl) then wrap64 (now +ℤ first_ttl ttl) else pos 0

module _ (r : RedisLib) (opt : RedisStoreOption) where
  open r use {Db, hget, hset, hdel, fields, scan, flush_db, marshal, unmarshal}

  pub clear_all : Db → Db
  clear_all s = flush_db s

  pub del : Bytes → Db → Db
  unfolding get_key_field_or_not
  del key s = elim (get_key_field_or_not opt key) [ none ↦ s | some (k, f) ↦ hdel k (f ∷ []) s ]

  -- The value with the database, from which one that has expired is deleted.
  unfoldable pub get_value : ℤ → Bytes → Option RedisValue → Db → Option Bytes × Db
  unfolding del is_expired
  get_value now key none s = (none, s)
  get_value now key (some v) s = if is_expired now v then (none, del key s) else (some v.val, s)

  pub get : ℤ → Bytes → Db → Option Bytes × Db
  unfolding get_value
  get now key s = elim (get_key_field_or_not opt key) [
    | none ↦ (none, s)
    | some (k, f) ↦ elim (hget k f s) [
      | none ↦ (none, s)
      | some b ↦ get_value now key (unmarshal b) s
    ]
  ]

  pub set : ℤ → Bytes → Bytes → List ℤ → Db → Db
  unfolding expire_at_of
  set now key payload ttl s = elim (get_key_field_or_not opt key) [
    | none ↦ s
    | some (k, f) ↦ elim (marshal (record { val = payload; expire_at = expire_at_of now ttl })) [
      | none ↦ s
      | some b ↦ hset k f b s
    ]
  ]

-- The calls that `HScanCallback` makes on a pair; both texts are there when it is called.
abbrev pub at_pair {ℓ} :
    {S : Type ℓ} → Option Bytes → Option Bytes → (Bytes → Bytes → S → S) → S → S
at_pair none v fn s = s
at_pair (some k) none fn s = s
at_pair (some k) (some v) fn s = fn k v s

-- The reply of a scan of a hash, where fields and values take turns.
abbrev pub flat : Dict Bytes Bytes → List Bytes
flat [] = []
flat ((f, v) ∷ m) = f ∷ v ∷ flat m

-- The call after a text was appended: the last two texts, when their number is even.
pub call_at_even {ℓ} : {S : Type ℓ} → (Bytes → Bytes → S → S) → List Bytes → S → S
call_at_even fn seen s =
    let n = length seen in
    if ltb 1 n && (n % 2 == 0)
    then at_pair (get_elem? seen (n - 2)) (get_elem? seen (n - 1)) fn s
    else s

-- `HScanCallback`: the scan's reply is read one text at a time.
pub hscan_callback {ℓ} : {S : Type ℓ} → (Bytes → Bytes → S → S) → List Bytes → List Bytes → S → S
unfolding call_at_even
hscan_callback fn seen [] s = s
hscan_callback fn seen (v ∷ vs) s =
    hscan_callback fn (seen ++ v ∷ []) vs (call_at_even fn (seen ++ v ∷ []) s)

abbrev pub batch_size : ℕ
batch_size = 100

module _ (r : RedisLib) where
  open r use {Db, hdel, fields, scan, unmarshal}

  -- The text goes into the pattern as it is.
  pub scan_keys : Bytes → Db → List Bytes
  scan_keys part s = scan (around part) s

  pub drop_prefix : List Bytes → Db → Db
  unfolding scan_keys
  drop_prefix [] s = s
  drop_prefix (p ∷ ps) s =
      drop_prefix ps (elim (scan_keys p s) [ [] ↦ s | k ∷ ks ↦ r.del (k ∷ ks) s ])

  -- `HDeleter`: the closure's slice with the database. A call with fields waits for a full batch.
  pub hdeleter : ℕ → Bytes → List Bytes → List Bytes × Db → List Bytes × Db
  hdeleter l key given (sl, s) =
      let sl' = sl ++ given in
      if length sl' == 0
      then (sl', s)
      else if ltb (length sl') l && ltb 0 (length given)
      then (sl', s)
      else ([], hdel key sl' s)

  -- A value that cannot be read or has expired.
  unfoldable pub is_garbage : ℤ → Bytes → Bool
  unfolding is_expired
  is_garbage now v = elim (unmarshal v) [ none ↦ true | some rv ↦ is_expired now rv ]

  pub gc_step : ℤ → Bytes → Bytes → Bytes → List Bytes × Db → List Bytes × Db
  unfolding is_garbage hdeleter
  gc_step now key k v st = if is_garbage now v then hdeleter batch_size key (k ∷ []) st else st

  -- One round of the loop of `gc`: the scan, and the last call of the deleter.
  pub gc_key : ℤ → Bytes → Db → Db
  unfolding gc_step hscan_callback
  gc_key now key s =
      (hdeleter batch_size key []
        (hscan_callback (gc_step now key) [] (flat (fields key s)) ([], s))).1

  pub gc : ℤ → List Bytes → Db → Db
  unfolding gc_key
  gc now [] s = s
  gc now (key ∷ keys) s = gc now keys (gc_key now key s)

  pub store_gc : ℤ → Bytes → Db → Db
  unfolding gc scan_keys
  store_gc now prefix s = elim (scan_keys prefix s) [ [] ↦ s | k ∷ ks ↦ gc now (k ∷ ks) s ]
