-- ===== src/Storage/Redis/Access.antt =====
-- mdb/storage-redis.go: `Set`, `Get`, `Del` and `DropPrefix` on one another.
use glibs.Base.{
  ◌≡◌, refl, ap, ◌∙◌, inl, inr, Bool, true, false, ◌&&◌, ◌||◌, Option, none, some, List, [], ◌∷◌,
  arith, Option-cases, Bool-cases, if◌then◌else◌, ◌===◌, ===_self, list_eq,
}
use glibs.Base.Int.{ℤ, pos, ◌+ℤ◌, ltb_ℤ, wrap64}
use glibs.Base.Dict.{elem}
use glibs.Base.Bytes.{Bytes}
use glibs.Base.Split.{has_part}
use glibs.Storage.Libraries.{RedisLib, IsRedis, RedisValue, around, is_plain}
use glibs.Storage.Redis.{
  RedisStoreOption, is_expired, get_key_field_or_not, expire_at_of, first_ttl, del, get_value, get,
  set, scan_keys, drop_prefix,
}

module _ (r : RedisLib) (laws : IsRedis r) (opt : RedisStoreOption) where
  open r use {Db, hget, hset, hdel, marshal, unmarshal}

  pub set-hget :
      (now : ℤ) (key payload : Bytes) (ttl : List ℤ) (s : Db) (k f b : Bytes)
      → get_key_field_or_not opt key ≡ some (k, f)
      → marshal (record { val = payload; expire_at = expire_at_of now ttl }) ≡ some b
      → set r opt now key payload ttl s ≡ hset k f b s
  unfolding set
  set-hget now key payload ttl s k f b ek em = ground arith

  pub get-hget :
      (now : ℤ) (key : Bytes) (s : Db) (k f b : Bytes) (v : RedisValue)
      → get_key_field_or_not opt key ≡ some (k, f)
      → hget k f s ≡ some b
      → unmarshal b ≡ some v
      → get r opt now key s ≡ get_value r opt now key (some v) s
  unfolding get
  get-hget now key s k f b v ek eh eu = ground arith

  pub del-hget :
      (key k f : Bytes) (s : Db)
      → get_key_field_or_not opt key ≡ some (k, f)
      → hget k f (del r opt key s) ≡ none
  unfolding del
  del-hget key k f s ek = ground (arith, laws.hget-hdel k (f ∷ []) k f s, ===_self k, ===_self f)

  pub get-absent :
      (now : ℤ) (key k f : Bytes) (s : Db)
      → get_key_field_or_not opt key ≡ some (k, f)
      → hget k f s ≡ none
      → get r opt now key s ≡ (none, s)
  unfolding get
  get-absent now key k f s ek eh = ground arith

  -- What was set under a key that holds the separator, and is JSON, is read back in compact form until
  -- its expiry has passed, and a read behind that gives nothing and deletes it. The expiry is the time of
  -- the write and the time to live, as a 64-bit sum; where the time to live or that sum is not positive,
  -- the value never expires.
  pub get-set :
      (now later : ℤ) (key payload : Bytes) (ttl : List ℤ) (s : Db) (k f b : Bytes)
      → get_key_field_or_not opt key ≡ some (k, f)
      → marshal (record { val = payload; expire_at = expire_at_of now ttl }) ≡ some b
      → get r opt later key (set r opt now key payload ttl s) ≡ (
          let t = set r opt now key payload ttl s in
          if ltb_ℤ (pos 0) (first_ttl ttl)
            && (ltb_ℤ (pos 0) (wrap64 (now +ℤ first_ttl ttl))
                && ltb_ℤ (wrap64 (now +ℤ first_ttl ttl)) later)
          then (none, hdel k (f ∷ []) t)
          else (some (r.compact payload), t))
  unfolding get_value del is_expired expire_at_of
  get-set now later key payload ttl s k f b ek em =
      let v : RedisValue = record { val = r.compact payload; expire_at = expire_at_of now ttl } in
      let t = set r opt now key payload ttl s in
      let stored : hget k f t ≡ some b =
        ap (hget k f) (set-hget now key payload ttl s k f b ek em)
        ∙ (laws.hget-hset k f b k f s ∙ rw (===_self k, ===_self f)) in
      get-hget later key t k f b v ek stored (laws.unmarshal-marshal _ b em) ∙ ground arith

  module _ (key k f j g : Bytes) (ek : get_key_field_or_not opt key ≡ some (k, f))
      (ne : ((k === j) && (f === g)) ≡ false) where
    del-others : (s : Db) → hget j g (del r opt key s) ≡ hget j g s
    unfolding del
    del-others s = ground (arith, laws.hget-hdel k (f ∷ []) j g s)

    set-others :
        (now : ℤ) (payload : Bytes) (ttl : List ℤ) (s : Db)
        → hget j g (set r opt now key payload ttl s) ≡ hget j g s
    unfolding set
    set-others now payload ttl s =
        elim (Option-cases (marshal (record { val = payload; expire_at = expire_at_of now ttl }))) [
          | inl bad ↦ ground arith
          | inr (b, em) ↦ ground (arith, laws.hget-hset k f b j g s)
        ]

    get_value-others :
        (now : ℤ) (o : Option RedisValue) (s : Db)
        → hget j g (get_value r opt now key o s).1 ≡ hget j g s
    unfolding get_value
    get_value-others now none s = refl
    get_value-others now (some v) s = elim (Bool-cases (is_expired now v)) [
      | inl old ↦ rw old (del-others s)
      | inr fresh ↦ rw fresh
    ]

    get-others : (now : ℤ) (s : Db) → hget j g (get r opt now key s).1 ≡ hget j g s
    unfolding get
    get-others now s = elim (Option-cases (hget k f s)) [
      | inl absent ↦ ground arith
      | inr (b, found) ↦ ground (arith, get_value-others now (unmarshal b) s)
    ]

    -- For a key that holds the separator, a write, the deletion that a read may make, and `Del` leave
    -- every field but that of the key as it was.
    pub others :
        (now : ℤ) (payload : Bytes) (ttl : List ℤ) (s : Db)
        → (hget j g (set r opt now key payload ttl s) ≡ hget j g s)
          × (hget j g (get r opt now key s).1 ≡ hget j g s)
          × (hget j g (del r opt key s) ≡ hget j g s)
    others now payload ttl s = (set-others now payload ttl s, get-others now s, del-others s)

  -- A key that cannot be taken apart is never stored: a write, a read and a delete do nothing.
  pub no_separator :
      (now : ℤ) (key payload : Bytes) (ttl : List ℤ) (s : Db)
      → get_key_field_or_not opt key ≡ none
      → (set r opt now key payload ttl s ≡ s)
        × (get r opt now key s ≡ (none, s))
        × (del r opt key s ≡ s)
  unfolding set get del
  no_separator now key payload ttl s e = ground arith

module _ (r : RedisLib) (laws : IsRedis r) where
  open r use {Db, hget}

  abbrev has_any_part : List Bytes → Bytes → Bool
  has_any_part [] j = false
  has_any_part (p ∷ ps) j = has_part p j || has_any_part ps j

  -- One round of the loop: the keys of the scan, if there are any.
  abbrev drop_keys : List Bytes → Db → Db
  drop_keys [] s = s
  drop_keys (k ∷ ks) s = r.del (k ∷ ks) s

  drop_keys-hget :
      (keys : List Bytes) (s : Db) (j g : Bytes)
      → hget j g (drop_keys keys s) ≡ (if elem j keys then none else hget j g s)
  drop_keys-hget [] s j g = refl
  drop_keys-hget (k ∷ ks) s j g = laws.hget-del (k ∷ ks) j g s

  drop_scanned :
      (p : Bytes) (s : Db) (j g : Bytes)
      → is_plain p ≡ true
      → hget j g (drop_keys (r.scan (around p) s) s) ≡ (if has_part p j then none else hget j g s)
  drop_scanned p s j g plain =
      drop_keys-hget (r.scan (around p) s) s j g ∙ elim (Option-cases (hget j g s)) [
        | inl absent ↦ rw absent (ground arith)
        | inr (v, found) ↦ rw (laws.elem-scan p j g v s plain found)
      ]

  abbrev all_plain : List Bytes → Bool
  all_plain [] = true
  all_plain (p ∷ ps) = is_plain p && all_plain ps

  -- `DropPrefix` with texts that hold none of the characters `*`, `?`, `[` and `\` deletes every hash
  -- whose key holds one of the texts anywhere, not only those that begin with it, and no other.
  pub drop_prefix-hget :
      (parts : List Bytes) (s : Db) (j g : Bytes)
      → all_plain parts ≡ true
      → hget j g (drop_prefix r parts s) ≡ (if has_any_part parts j then none else hget j g s)
  unfolding drop_prefix scan_keys
  drop_prefix-hget [] s j g plain = refl
  drop_prefix-hget (p ∷ ps) s j g plain =
      let first : is_plain p ≡ true = ground arith in
      let rest : all_plain ps ≡ true = ground arith in
      by_keys (r.scan (around p) s)
      ∙ (drop_prefix-hget ps (drop_keys (r.scan (around p) s) s) j g rest
          ∙ ground (arith, drop_scanned p s j g first))
    where
      by_keys :
          (keys : List Bytes)
          → hget j g (drop_prefix r ps (elim keys [ [] ↦ s | k ∷ ks ↦ r.del (k ∷ ks) s ]))
            ≡ hget j g (drop_prefix r ps (drop_keys keys s))
      by_keys [] = refl
      by_keys (k ∷ ks) = refl
