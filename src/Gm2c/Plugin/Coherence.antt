-- ===== src/Gm2c/Plugin/Coherence.antt =====
-- mdb/gm2c.go: what the entries of one table's rows and searches say of the database, and the
-- statements for which they are kept. `row_by` gives a row by its primary key, `search_by` the row that
-- a statement's text finds.
use glibs.Base.{◌<◌, ◌≡◌, ◌⊎◌, false, Option, none, some, [], ◌===◌, list_eq}
use glibs.Base.Int.{ℤ}
use glibs.Base.Bytes.{Bytes}
use glibs.Rpc.{value}
use glibs.Gm2c.{
  Statement, primary_cache_key, search_cache_key, find_primary_cache_key, get_primary_key_name,
  null_value, id_text,
}
use glibs.Gm2c.Store.{CacheStore}
use glibs.Gm2c.Plugin.{Answer, Backend, record_not_found}

-- What a database says: the row of a primary key, and of a statement's text.
pub record View (b : Backend) : Type 0 where
  pub row_by : b.Db → Bytes → Option b.Row
  pub search_by : b.Db → Bytes → Option b.Row

-- JSON writes all of a row and never `null`; a primary key's text is a number's, or no number.
pub record IsBackend (b : Backend) (v : View b) : Type 0 where
  pub unmarshal-marshal :
      (r into : b.Row) (d : Bytes) → b.marshal r ≡ some d → b.unmarshal d into ≡ value r
  pub marshal_total : (r : b.Row) → (d : Bytes) × (b.marshal r ≡ some d)
  pub marshal-ne-null : (r : b.Row) (d : Bytes) → b.marshal r ≡ some d → (d === null_value) ≡ false
  pub primary-ne-null :
      (r : b.Row) (id : Bytes) → b.primary_value r ≡ some id → (id === null_value) ≡ false
  pub decimal-cast :
      (r : b.Row) (id : Bytes)
      → b.primary_value r ≡ some id
      → 0 < b.cast_to_uint64 id
      → b.decimal (b.cast_to_uint64 id) ≡ id
  -- A row that a search finds is the row of its key.
  pub search-row :
      (db : b.Db) (sq : Bytes) (r : b.Row) (id : Bytes)
      → v.search_by db sq ≡ some r
      → b.primary_value r ≡ some id
      → v.row_by db id ≡ some r

-- An answer is the row, or says that there is none.
abbrev pub Gives : (b : Backend) → Answer b.Row → Option b.Row → Type 0
Gives b q (some r) = (q.error ≡ none) × (q.dest ≡ r) × (q.rows_affected ≡ 1)
Gives b q none = q.error ≡ some record_not_found

module _ (b : Backend) (v : View b) (pre table name : Bytes) where
  -- A statement on the table that asks for one whole row, which the database answers with a row or as not
  -- found. If the plugin finds a key in its conditions, then the answer is the row of that key: no other
  -- condition excludes it. If it finds none, the answer is that of the search by the statement's text.
  pub record IsRead (db : b.Db) (stm : Statement) (o : Option b.Row) : Type 0 where
    pub same_table : stm.table ≡ table
    pub same_name : get_primary_key_name stm ≡ name
    pub reads : (into : b.Row) → Gives b (b.run_query stm into db) o
    pub by_key :
        ((id : Bytes) × (find_primary_cache_key b.trim_space pre stm false
            ≡ primary_cache_key pre table (id_text name id))
          × (v.row_by db id ≡ o))
        ⊎ ((find_primary_cache_key b.trim_space pre stm false ≡ []) × (v.search_by db stm.sql ≡ o))

  -- What an entry under a primary key says of the row, and one under a search's key.
  abbrev pub RowEntry : Option b.Row → Bytes → Type 0
  RowEntry none w = w ≡ null_value
  RowEntry (some r) w = b.marshal r ≡ some w

  abbrev pub SearchEntry : Option b.Row → Bytes → Type 0
  SearchEntry none w = w ≡ null_value
  SearchEntry (some r) w = b.primary_value r ≡ some w

  -- Every entry that can still be read agrees with the database.
  pub record IsCoherent (st : CacheStore) (db : b.Db) (s : st.State) : Type 0 where
    pub rows :
        (later : ℤ) (id w : Bytes)
        → (st.get_data later (primary_cache_key pre table (id_text name id)) s).0 ≡ some w
        → RowEntry (v.row_by db id) w
    pub searches :
        (later : ℤ) (sq w : Bytes)
        → (st.get_data later (search_cache_key pre table sq) s).0 ≡ some w
        → SearchEntry (v.search_by db sq) w
