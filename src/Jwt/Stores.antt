-- ===== src/Jwt/Stores.antt =====
-- jwt/store.go: the token stores, in memory and over redis with a cache in memory. The store in memory
-- keeps pointers to tokens, which its callers do not change behind it; here it keeps the tokens.
pub mod Default
pub mod Redis
use glibs.Base.{
  ℕ, zero, suc, ◌+◌, ◌≡◌, ◌≢◌, refl, sym, ap, ◌∙◌, ◌⊎◌, inl, inr, Bool, true, false, ◌&&◌, ◌||◌,
  Option, none, some, List, [], ◌∷◌, ◌++◌, arith, Option-cases, Bool-cases, if◌then◌else◌, ◌===◌,
  ===_cases, ===_self, list_eq, keep, not, append_assoc,
}
use glibs.Base.Int.{ℤ, pos, negsuc, ltb_ℤ}
use glibs.Base.Dict.{Dict, lookup, insert, erase}
use glibs.Base.Bytes.{Bytes, codes}
use glibs.Base.Split.{cut, has_part}
use glibs.Storage.Libraries.{RedisLib, IsRedis, RedisValue, FreeCacheLib, IsFreeCache}
use glibs.Storage.Redis.{
  RedisStoreOption, separator_colon, get_key_field_or_not, get, set, del, store_gc,
}
use glibs.Storage.Free.{free_get, free_set, free_del, free_clear_all}
use glibs.Jwt.{Token, TokenStore, is_token_expired, inner_jwt_key, get_jwt_key}

abbrev pub TokenMap : Type 0
TokenMap = Dict Bytes Token

-- `defaultTokenStore`. The tokens are shared by pointer in the source; every change of one is
-- followed by a write of the same token.
pub clear_expired : ℤ → TokenMap → TokenMap
clear_expired now [] = []
clear_expired now ((k, t) ∷ m) =
    let rest = clear_expired now m in if is_token_expired now t then rest else (k, t) ∷ rest

abbrev pub default_token_store : TokenStore
default_token_store = record {
  State = TokenMap;
  set_token = λ now k t m. insert k t m;
  get_token = λ now k m. (lookup k m, m);
  del_token = λ k m. erase k m;
  clear_expired_token = clear_expired;
}

-- `JsMarshal` and `Unmarshal` on tokens.
pub record TokenCodec : Type 0 where
  pub encode_token : Token → Bytes
  pub decode_token : Bytes → Option Token

abbrev pub colon_option : RedisStoreOption
colon_option = record { separator = separator_colon }

-- A database that several processes share, and the cache of this one.
pub record RedisTokens (r : RedisLib) (c : FreeCacheLib) : Type 0 where
  pub store : r.Db
  pub mem : c.Mem

module _ (j : TokenCodec) (r : RedisLib) (c : FreeCacheLib) where
  pub redis_set_token : ℤ → Bytes → Token → RedisTokens r c → RedisTokens r c
  redis_set_token now key t s =
      let payload = j.encode_token t in
      record {
        store = set r colon_option now key payload (negsuc 0 ∷ []) s.store;
        mem = free_set c now key payload (negsuc 0 ∷ []) s.mem;
      }

  pub decoded : Option Bytes → Option Token
  decoded none = none
  decoded (some d) = j.decode_token d

  -- A miss in memory is answered by the database, and remembered.
  pub after_miss : ℤ → Bytes → c.Mem → Option Bytes × r.Db → Option Token × RedisTokens r c
  unfolding decoded
  after_miss now key mem (none, db) = (none, record { store = db; mem = mem })
  after_miss now key mem (some d, db) =
      (decoded (some d), record { store = db; mem = free_set c now key d (negsuc 0 ∷ []) mem })

  pub redis_get_token : ℤ → Bytes → RedisTokens r c → Option Token × RedisTokens r c
  unfolding after_miss decoded
  redis_get_token now key s = elim (free_get c now key s.mem) [
    | some d ↦ (decoded (some d), s)
    | none ↦ after_miss now key s.mem (get r colon_option now key s.store)
  ]

  pub redis_del_token : Bytes → RedisTokens r c → RedisTokens r c
  redis_del_token key s = record {
    store = del r colon_option key s.store;
    mem = free_del c key s.mem;
  }

  pub redis_clear_expired_token : ℤ → RedisTokens r c → RedisTokens r c
  redis_clear_expired_token now s = record {
    store = store_gc r now inner_jwt_key s.store;
    mem = free_clear_all c s.mem;
  }

  abbrev pub redis_token_store : TokenStore
  redis_token_store = record {
    State = RedisTokens r c;
    set_token = redis_set_token;
    get_token = redis_get_token;
    del_token = redis_del_token;
    clear_expired_token = redis_clear_expired_token;
  }
