-- ===== src/Gm2c/Plugin.antt =====
-- mdb/gm2c.go: the queries and writes of the plugin. The database, JSON and the casts are parameters.
-- A query that another goroutine is making already, whose result `singleflight` would share, is not
-- modelled.
pub mod Keys
pub mod Coherence
pub mod Lookups
pub mod Queries
pub mod Writes
pub mod History
pub mod Stale
mod Tests
use glibs.Base.{
  ℕ, ◌+◌, ◌%◌, ◌==◌, Bool, true, false, not, ◌&&◌, ◌||◌, Option, none, some, List, [], ◌∷◌, ◌++◌,
  if◌then◌else◌, ◌===◌, list_eq, ltb,
}
use glibs.Base.Int.{ℤ, pos}
use glibs.Base.Bytes.{Bytes, codes}
use glibs.Rpc.{Try, value, failed}
use glibs.Gm2c.{
  Statement, primary_cache_key, primary_key_prefix, search_cache_key, search_key_prefix,
  find_primary_cache_key, get_primary_key_name, null_value, id_text, is_empty,
}
use glibs.Gm2c.Store.{CacheStore}

pub data DbError : Type 0 where
  record_not_found : DbError
  failure : Bytes → DbError

-- A statement's target, error and count of rows, as they are filled in.
pub record Answer (Row : Type 0) : Type 0 where
  pub dest : Row
  pub error : Option DbError
  pub rows_affected : ℕ

pub record Backend : Type 1 where
  pub Row : Type 0
  pub Db : Type 0
  pub run_query : Statement → Row → Db → Answer Row
  pub marshal : Row → Option Bytes
  pub unmarshal : Bytes → Row → Try Row
  -- The value of the only primary field as text, unless it is zero.
  pub primary_value : Row → Option Bytes
  pub cast_to_uint64 : Bytes → ℕ
  pub decimal : ℕ → Bytes
  pub trim_space : Bytes → Bytes

pub record PluginCacheStat : Type 0 where
  pub search_hit : ℕ
  pub search_miss : ℕ
  pub primary_hit : ℕ
  pub primary_miss : ℕ

pub record Plugin (st : CacheStore) : Type 0 where
  pub store : st.State
  pub stat : PluginCacheStat

-- `atomic.AddUint64(n, 1)`.
abbrev pub add_one : ℕ → ℕ
add_one n = (n + 1) % 18_446_744_073_709_551_616

abbrev pub text_of : DbError → Bytes
text_of record_not_found = codes "record not found"
text_of (failure text) = text

-- gorm's `AddError`.
abbrev pub added : Option DbError → Bytes → DbError
added none text = failure text
added (some e) text = failure (text_of e ++ (codes "; " ++ text))

abbrev pub is_not_found : Option DbError → Bool
is_not_found none = false
is_not_found (some record_not_found) = true
is_not_found (some (failure text)) = false

module _ (b : Backend) (st : CacheStore) (pre : Bytes) (ttl : ℤ) where
  open b use {Row, Db}

  abbrev Ans : Type 0
  Ans = Answer Row

  -- gorm's `Query` does nothing behind an error.
  unfoldable pub callbacks_query : Statement → Ans → Db → Ans
  callbacks_query stm q db = elim q.error [ some e ↦ q | none ↦ b.run_query stm q.dest db ]

  unfoldable pub get_cache_key : Statement → Bytes × Bool
  get_cache_key stm =
      let pk = find_primary_cache_key b.trim_space pre stm false in
      if is_empty pk then (search_cache_key pre stm.table stm.sql, false) else (pk, true)

  pub count_primary_miss : Plugin st → Plugin st
  count_primary_miss p = record p {
    stat = record (p.stat) { primary_miss = add_one p.stat.primary_miss };
  }

  pub count_primary_hit : Bool → Plugin st → Plugin st
  count_primary_hit false p = p
  count_primary_hit true p = record p {
    stat = record (p.stat) { primary_hit = add_one p.stat.primary_hit };
  }

  pub count_search_miss : Plugin st → Plugin st
  count_search_miss p = record p {
    stat = record (p.stat) { search_miss = add_one p.stat.search_miss };
  }

  pub count_search_hit : Bool → Plugin st → Plugin st
  count_search_hit false p = p
  count_search_hit true p = record p {
    stat = record (p.stat) { search_hit = add_one p.stat.search_hit };
  }

  -- The row of a cache entry put into the target, with whether it is a hit.
  unfoldable pub read_row : Try Row → Ans → Bool × Ans
  read_row (failed text) q = (false, record q { error = some (added q.error text) })
  read_row (value r) q = (true, record q { dest = r })

  unfoldable pub use_primary : Option Bytes → Ans → Bool × Ans
  unfolding read_row
  use_primary none q = (false, q)
  use_primary (some d) q =
      if d === null_value
      then (true, record q { error = some record_not_found })
      else read_row (b.unmarshal d q.dest) q

  unfoldable pub miss_primary : Option Bytes → Plugin st → Plugin st
  unfolding count_primary_miss
  miss_primary none p = count_primary_miss p
  miss_primary (some d) p = p

  -- `queryCachePk`.
  unfoldable pub query_cache_pk : ℤ → Bytes → Ans → Plugin st → Bool × Ans × Plugin st
  unfolding use_primary miss_primary
  query_cache_pk now key q p =
      let (o, s) = st.get_data now key p.store in
      let (hit, q') = use_primary o q in (hit, q', miss_primary o (record p { store = s }))

  -- What the entry of a search says: the row's primary key, or that there is no row.
  unfoldable pub use_search : Statement → Option Bytes → Ans → Bytes × Bool × Ans
  unfolding get_primary_key_name primary_cache_key
  use_search stm none q = ([], false, q)
  use_search stm (some d) q =
      if d === null_value
      then ([], true, record q { error = some record_not_found })
      else (let n = b.cast_to_uint64 d in
          let name = get_primary_key_name stm in
          if n == 0
          then ([], false, q)
          else if is_empty name
          then ([], false, q)
          else (primary_cache_key pre stm.table (id_text name (b.decimal n)), true, q))

  unfoldable pub miss_search : Option Bytes → Plugin st → Plugin st
  unfolding count_search_miss
  miss_search none p = count_search_miss p
  miss_search (some d) p = p

  -- The end of `getCache`, with a primary key or without.
  unfoldable pub follow_key : ℤ → Bytes → Bool → Ans → Plugin st → Bool × Ans × Plugin st
  unfolding query_cache_pk count_primary_hit
  follow_key now key hit q p =
      if is_empty key
      then (hit, q, p)
      else (let (hit', q', p') = query_cache_pk now key q p in
          (hit', q', count_primary_hit hit' p'))

  -- The part of `getCache` for a search, `queryCacheSearch` included.
  unfoldable pub search_cache : ℤ → ℤ → Statement → Bytes → Ans → Plugin st → Bool × Ans × Plugin st
  unfolding use_search miss_search count_search_hit follow_key
  search_cache now later stm key q p =
      let (o, s) = st.get_data now key p.store in
      let (pk, hit, q') = use_search stm o q in
      follow_key later pk hit q' (count_search_hit hit (miss_search o (record p { store = s })))

  unfoldable pub get_cache : ℤ → ℤ → Statement → Ans → Plugin st → Bool × Ans × Plugin st
  unfolding get_cache_key search_cache
  get_cache now later stm q p =
      let (key, is_primary) = get_cache_key stm in
      if is_empty key
      then (false, q, p)
      else if is_primary
      then follow_key now key false q p
      else search_cache now later stm key q p

  -- The entry under a primary key.
  unfoldable pub set_primary : ℤ → Bytes → Ans → Plugin st → Ans × Plugin st
  set_primary now key q p =
      if is_not_found q.error
      then (q, record p { store = st.set_data now key null_value (pos 60 ∷ []) p.store })
      else elim (b.marshal q.dest) [
        | none ↦ (record q { error = some (added q.error (codes "json")) }, p)
        | some d ↦ (q, record p { store = st.set_data now key d (ttl ∷ []) p.store })
      ]

  -- A search whose row was found: its primary key, then the row. `getPrimaryCacheKVFromDest` gives
  -- the text of the key.
  unfoldable pub set_search :
      ℤ → Statement → Bytes → Option Bytes → Ans → Plugin st → Ans × Plugin st
  unfolding set_primary get_primary_key_name primary_cache_key
  set_search now stm key none q p = (q, p)
  set_search now stm key (some id) q p =
      let name = get_primary_key_name stm in
      if is_empty name
      then (q, p)
      else set_primary now (primary_cache_key pre stm.table (id_text name id)) q
          (record p { store = st.set_data now key id (ttl ∷ []) p.store })

  -- `setCache` with the key of `getCacheKey`.
  unfoldable pub set_under : ℤ → Statement → Ans → Plugin st → Bytes × Bool → Ans × Plugin st
  unfolding set_search set_primary
  set_under now stm q p (key, true) = set_primary now key q p
  set_under now stm q p (key, false) =
      if is_not_found q.error
      then (q, record p { store = st.set_data now key null_value (pos 60 ∷ []) p.store })
      else set_search now stm key (b.primary_value q.dest) q p

  unfoldable pub set_cache : ℤ → Statement → Ans → Plugin st → Ans × Plugin st
  unfolding get_cache_key set_under
  set_cache now stm q p = set_under now stm q p (get_cache_key stm)

  -- Behind `getCache`.
  unfoldable pub after_cache : ℤ → Statement → Db → Bool × Ans × Plugin st → Ans × Plugin st
  unfolding callbacks_query set_cache
  after_cache now stm db (true, q, p) =
      (elim q.error [ some e ↦ q | none ↦ record q { rows_affected = 1 } ], p)
  after_cache now stm db (false, q, p) = set_cache now stm (callbacks_query stm q db) p

  -- `queryWithCache`, for a target that is a struct with a schema and no error so far, as `query`
  -- has tested. The clock is read at each access of the store.
  unfoldable pub query_with_cache : ℤ → ℤ → ℤ → Statement → Ans → Db → Plugin st → Ans × Plugin st
  unfolding get_cache after_cache
  query_with_cache now now' later stm q db p = after_cache later stm db (get_cache now now' stm q p)

  -- What `singleflight` hands back: the row through JSON.
  unfoldable pub through_json : Option Bytes → Ans → Ans
  through_json none q = record q { error = some (failure (codes "json")) }
  through_json (some []) q = q
  through_json (some (x ∷ d)) q = elim (b.unmarshal (x ∷ d) q.dest) [
    | failed text ↦ record q { error = some (added q.error text) }
    | value r ↦ record q { dest = r }
  ]

  unfoldable pub shared : Ans → Ans
  unfolding through_json
  shared q = elim q.error [
    | some e ↦ q
    | none ↦ if ltb 0 q.rows_affected then through_json (b.marshal q.dest) q else q
  ]

  -- `query`, behind its test for an error.
  unfoldable pub query_clear : ℤ → ℤ → ℤ → Statement → Ans → Db → Plugin st → Ans × Plugin st
  unfolding callbacks_query query_with_cache shared
  query_clear now now' later stm q db p =
      if not stm.has_schema || (not stm.reflect_is_struct || stm.no_cache)
      then (callbacks_query stm q db, p)
      else (let (q', p') = query_with_cache now now' later stm q db p in (shared q', p'))

  unfoldable pub query : ℤ → ℤ → ℤ → Statement → Ans → Db → Plugin st → Ans × Plugin st
  unfolding query_clear
  query now now' later stm q db p = elim q.error [
    | some e ↦ (q, p)
    | none ↦ query_clear now now' later stm q db p
  ]

  -- The end of `afterDelete`: the entries of primary keys.
  unfoldable pub drop_rows : Statement → Row → st.State → st.State
  unfolding primary_key_prefix primary_cache_key get_primary_key_name
  drop_rows stm dest s =
      let all_rows = st.drop_prefix_data (primary_key_prefix pre stm.table ∷ []) s in
      if not stm.has_schema || (not stm.model_is_struct || not stm.reflect_is_struct)
      then all_rows
      else (let pk = find_primary_cache_key b.trim_space pre stm true in
          let name = get_primary_key_name stm in
          if not (is_empty pk)
          then st.del_data pk s
          else if is_empty name
          then all_rows
          else elim (b.primary_value dest) [
            | none ↦ all_rows
            | some id ↦ st.del_data (primary_cache_key pre stm.table (id_text name id)) s
          ])

  -- `afterDelete`, which `afterCreate` and `afterUpdate` call.
  unfoldable pub after_delete : Statement → Row → Plugin st → Plugin st
  unfolding search_key_prefix drop_rows
  after_delete stm dest p = record p {
    store = drop_rows stm dest (st.drop_prefix_data (search_key_prefix pre stm.table ∷ []) p.store);
  }
