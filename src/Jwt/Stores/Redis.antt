-- ===== src/Jwt/Stores/Redis.antt =====
-- jwt/store.go: `RedisTokenStore`, over a database that processes share and a cache of each.
use glibs.Base.{
  ◌≡◌, refl, ap, ◌∙◌, Option, none, some, [], ◌∷◌, arith, Option-cases, Bool-cases, inl, inr,
  if◌then◌else◌, ===_self, list_eq,
}
use glibs.Base.Int.{ℤ, pos, negsuc}
use glibs.Base.Bytes.{Bytes}
use glibs.Base.Split.{has_part}
use glibs.Storage.Libraries.{RedisLib, IsRedis, FreeCacheLib, IsFreeCache}
use glibs.Storage.Redis.{
  get_key_field_or_not, get, set, del, store_gc, expire_at_of, is_expired, is_garbage, get_value,
}
use glibs.Storage.Redis.Keys.{get_key_field_or_not-none, cut-behind}
use glibs.Storage.Redis.Access.{get-set, del-hget, get-absent, get-hget, set-hget}
use glibs.Storage.Redis.Gc.{live, store_gc-hget}
use glibs.Storage.Free.{free_get, free_set, free_del, free_clear_all}
use glibs.Jwt.{Token, get_jwt_key, inner_jwt_key}
use glibs.Jwt.Session.{IsTokenStore}
use glibs.Jwt.Stores.{
  TokenCodec, RedisTokens, colon_option, redis_set_token, after_miss, redis_get_token,
  redis_del_token, redis_clear_expired_token, redis_token_store,
}

-- The JSON of a token is read back, and is accepted inside the JSON of a stored value.
pub record IsTokenCodec (j : TokenCodec) (r : RedisLib) : Type 0 where
  pub decode-encode : (t : Token) → j.decode_token (j.encode_token t) ≡ some t
  pub decode-compact : (t : Token) → j.decode_token (r.compact (j.encode_token t)) ≡ some t
  pub accepted :
      (t : Token) (e : ℤ)
      → (b : Bytes) × (r.marshal (record { val = j.encode_token t; expire_at = e }) ≡ some b)

-- The key of an id always has a hash and a field.
jwt_key_field :
    (id : Bytes)
    → (k : Bytes) × (f : Bytes) × (get_key_field_or_not colon_option (get_jwt_key id) ≡ some (k, f))
unfolding get_jwt_key
jwt_key_field id = elim (Option-cases (get_key_field_or_not colon_option (get_jwt_key id))) [
  | inl missing ↦ absurd (
      cut-behind b':' inner_jwt_key id
        (get_key_field_or_not-none colon_option (get_jwt_key id) (omega arith) missing))
  | inr ((k, f), found) ↦ (k, f, found)
]

module _ (j : TokenCodec) (r : RedisLib) (c : FreeCacheLib) (rl : IsRedis r) (cl : IsFreeCache c)
    (jl : IsTokenCodec j r) where
  read_database :
      (now start : ℤ) (id : Bytes) (t : Token) (mem : c.Mem) (s : r.Db)
      → c.get now (get_jwt_key id) mem ≡ none
      → (redis_get_token j r c now (get_jwt_key id) (record {
        store = set r colon_option start (get_jwt_key id) (j.encode_token t) (negsuc 0 ∷ []) s;
        mem = mem;
      })).0
        ≡ some t
  unfolding redis_get_token free_get expire_at_of
  read_database now start id t mem s miss =
      let (k, f, ek) = jwt_key_field id in
      let (b, em) = jl.accepted t (pos 0) in
      let back =
        get-set r rl colon_option start now (get_jwt_key id) (j.encode_token t) (negsuc 0 ∷ []) s k
          f b ek em in
      rw (miss, redis_get_token) (rw back (jl.decode-compact t))

  remembered :
      (later : ℤ) (key d : Bytes) (u : RedisTokens r c)
      → c.get later key u.mem ≡ some d
      → (redis_get_token j r c later key u).0 ≡ j.decode_token d
  unfolding redis_get_token free_get
  remembered later key d u hit = rw (hit, redis_get_token)

  -- A token that was set is read back, from the cache or, when the cache has dropped it, from the
  -- database.
  pub redis_get-set :
      (now later : ℤ) (id : Bytes) (t : Token) (s : RedisTokens r c)
      → (redis_get_token j r c later
          (get_jwt_key id)
          (redis_set_token j r c now (get_jwt_key id) t s)).0
        ≡ some t
  unfolding redis_set_token free_set
  redis_get-set now later id t s =
      elim (cl.get-set_self now later (get_jwt_key id) (j.encode_token t) (negsuc 0) s.mem) [
        | inl miss ↦
            read_database later now id t
              (c.set now (get_jwt_key id) (j.encode_token t) (negsuc 0) s.mem) s.store miss
        | inr hit ↦
            remembered later (get_jwt_key id) (j.encode_token t)
              (redis_set_token j r c now (get_jwt_key id) t s) hit
            ∙ jl.decode-encode t
      ]

  missed :
      (later : ℤ) (key : Bytes) (u : RedisTokens r c)
      → c.get later key u.mem ≡ none
      → (get r colon_option later key u.store).0 ≡ none
      → (redis_get_token j r c later key u).0 ≡ none
  unfolding redis_get_token free_get after_miss
  missed later key u miss absent = elim (Option-cases (get r colon_option later key u.store).0) [
    | inl e ↦ ground arith
    | inr (v, e) ↦ ground arith
  ]

  pub redis_get-del :
      (later : ℤ) (id : Bytes) (s : RedisTokens r c)
      → (redis_get_token j r c later (get_jwt_key id) (redis_del_token j r c (get_jwt_key id) s)).0
        ≡ none
  unfolding redis_del_token free_del
  redis_get-del later id s =
      let key = get_jwt_key id in
      let (k, f, ek) = jwt_key_field id in
      missed later key (redis_del_token j r c key s)
        (cl.get-del later key key s.mem ∙ rw (===_self key))
        (ap (λ o. o.0)
          (get-absent r rl colon_option later key k f (del r colon_option key s.store) ek
            (del-hget r rl colon_option key k f s.store ek)))

  -- Without a time to live a value never ends.
  endless :
      (now : ℤ) (b d : Bytes)
      → r.marshal (record { val = d; expire_at = pos 0 }) ≡ some b
      → r.marshal (record { val = d; expire_at = expire_at_of now (negsuc 0 ∷ []) }) ≡ some b
  unfolding expire_at_of
  endless now b d e = e

  spared :
      (at : ℤ) (b d k : Bytes) (o : Option Bytes)
      → o ≡ some b
      → r.unmarshal b ≡ some (record { val = d; expire_at = pos 0 })
      → (if has_part inner_jwt_key k then live r at o else o) ≡ some b
  unfolding is_garbage is_expired
  spared at b d k o e eu = rw e (elim (Bool-cases (has_part inner_jwt_key k)) [
    | inl hit ↦ rw (hit, live) (rw (eu, is_garbage) refl)
    | inr miss ↦ rw miss
  ])

  from_database :
      (later : ℤ) (key k f b : Bytes) (t : Token) (u : RedisTokens r c)
      → get_key_field_or_not colon_option key ≡ some (k, f)
      → c.get later key u.mem ≡ none
      → r.hget k f u.store ≡ some b
      → r.unmarshal b ≡ some (record { val = r.compact (j.encode_token t); expire_at = pos 0 })
      → (redis_get_token j r c later key u).0 ≡ some t
  unfolding redis_get_token free_get get_value is_expired
  from_database later key k f b t u ek miss eh eu =
      let back = get-hget r rl colon_option later key u.store k f b _ ek eh eu in
      rw (miss, redis_get_token) (rw back (jl.decode-compact t))

  -- `ClearExpiredToken` removes no token that was set: the write gives it no time to live in the
  -- database, so it is read after a clearing at any time, whatever its own expiry says.
  pub redis_clear-set :
      (now at later : ℤ) (id : Bytes) (t : Token) (s : RedisTokens r c)
      → (redis_get_token j r c later
          (get_jwt_key id)
          (redis_clear_expired_token j r c at (redis_set_token j r c now (get_jwt_key id) t s))).0
        ≡ some t
  unfolding redis_set_token redis_clear_expired_token free_clear_all
  redis_clear-set now at later id t s =
      let key = get_jwt_key id in
      let (k, f, ek) = jwt_key_field id in
      let (b, em) = jl.accepted t (pos 0) in
      let db = set r colon_option now key (j.encode_token t) (negsuc 0 ∷ []) s.store in
      let eu = rl.unmarshal-marshal _ b em in
      let stored : r.hget k f db ≡ some b =
        ap (r.hget k f) (
          set-hget r rl colon_option now key (j.encode_token t) (negsuc 0 ∷ []) s.store k f b ek
            (endless now b (j.encode_token t) em))
        ∙ (rl.hget-hset k f b k f s.store ∙ rw (===_self k, ===_self f)) in
      let kept : r.hget k f (store_gc r at inner_jwt_key db) ≡ some b =
        store_gc-hget r rl at inner_jwt_key db k f refl
        ∙ spared at b (r.compact (j.encode_token t)) k (r.hget k f db) stored eu in
      from_database later key k f b t
        (redis_clear_expired_token j r c at (redis_set_token j r c now key t s)) ek
        (cl.get-clear later key (redis_set_token j r c now key t s).mem) kept eu

  -- The store over redis gives back what was last written for an id, and nothing behind a deletion,
  -- for one process, also when its own memory has dropped the token.
  pub redis_token_store-IsTokenStore : IsTokenStore (redis_token_store j r c)
  redis_token_store-IsTokenStore = record {
    get-set_self = redis_get-set;
    get-del_self = redis_get-del;
  }
