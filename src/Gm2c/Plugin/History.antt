-- ===== src/Gm2c/Plugin/History.antt =====
-- mdb/gm2c.go: a history of queries and writes through the plugin, against the database alone.
use glibs.Base.{◌≡◌, Option, none, List, [], ◌∷◌, arith}
use glibs.Base.Int.{ℤ}
use glibs.Base.Bytes.{Bytes}
use glibs.Gm2c.{Statement, primary_cache_key, search_cache_key, id_text}
use glibs.Gm2c.Store.{CacheStore, IsCacheStore}
use glibs.Gm2c.Plugin.{Answer, Backend, Plugin, query, after_delete}
use glibs.Gm2c.Plugin.Coherence.{View, IsBackend, Gives, IsRead, IsCoherent}
use glibs.Gm2c.Plugin.Queries.{query_sound}
use glibs.Gm2c.Plugin.Writes.{IsWrite, after_delete-IsCoherent}

-- A query, with the clock's times at its reads and its write of the cache, or a write, with the
-- database that it leaves.
pub data Event (b : Backend) : Type 0 where
  ask : ℤ → ℤ → ℤ → Statement → Answer b.Row → Event b
  change : Statement → b.Row → b.Db → Event b

-- The answers of the queries through the plugin.
unfoldable pub replay :
    (b : Backend)
    → (st : CacheStore) → Bytes
    → ℤ
    → List (Event b)
    → b.Db
    → Plugin st
    → List (Answer b.Row)
replay b st pre ttl [] db p = []
replay b st pre ttl (ask now now' later stm q ∷ es) db p =
    let (q', p') = query b st pre ttl now now' later stm q db p in q' ∷ replay b st pre ttl es db p'
replay b st pre ttl (change stm dest db' ∷ es) db p =
    replay b st pre ttl es db' (after_delete b st pre ttl stm dest p)

-- Each query got its answer.
pub data AllGive (b : Backend) : List (Answer b.Row) → List (Option b.Row) → Type 0 where
  given_none : AllGive b [] []
  given :
      {q : Answer b.Row} {o : Option b.Row} {qs : List (Answer b.Row)} {os : List (Option b.Row)}
      → Gives b q o
      → AllGive b qs os
      → AllGive b (q ∷ qs) (o ∷ os)

-- What the database alone answers to the queries of a history.
pub data IsHistory (b : Backend) (v : View b) (pre table name : Bytes)
    : b.Db → List (Event b) → List (Option b.Row) → Type 0 where
  ended : (db : b.Db) → IsHistory b v pre table name db [] []
  asked :
      (db : b.Db) (now now' later : ℤ) (stm : Statement) (q : Answer b.Row) (o : Option b.Row)
      (es : List (Event b)) (os : List (Option b.Row))
      → IsRead b v pre table name db stm o
      → q.error ≡ none
      → IsHistory b v pre table name db es os
      → IsHistory b v pre table name db (ask now now' later stm q ∷ es) (o ∷ os)
  changed :
      (db db' : b.Db) (stm : Statement) (dest : b.Row) (es : List (Event b))
      (os : List (Option b.Row))
      → IsWrite b v pre table name db db' stm dest
      → IsHistory b v pre table name db' es os
      → IsHistory b v pre table name db (change stm dest db' ∷ es) os

module _ (b : Backend) (v : View b) (bl : IsBackend b v) (st : CacheStore) (sl : IsCacheStore st)
    (pre table name : Bytes) (ttl : ℤ) where
  replay-AllGive :
      {db : b.Db} {es : List (Event b)} {os : List (Option b.Row)} (p : Plugin st)
      → IsHistory b v pre table name db es os
      → IsCoherent b v pre table name st db p.store
      → AllGive b (replay b st pre ttl es db p) os
  unfolding replay
  replay-AllGive p (ended db) h = given_none
  replay-AllGive p (asked db now now' later stm q o es os r clear rest) h =
      let (good, kept) =
        query_sound b v bl st sl pre table name ttl db now now' later stm o q p r h clear in
      given good (replay-AllGive _ rest kept)
  replay-AllGive p (changed db db' stm dest es os u rest) h =
      replay-AllGive _ rest
        (after_delete-IsCoherent b v st sl pre table name ttl db db' stm dest p u h)

  -- Through the plugin, from an empty cache, the queries of a history of queries and writes on a table
  -- are answered as the database alone answers them at that moment, under these conditions. Each query
  -- asks for one whole row, on a target with no error, and the database answers it with a row or as not
  -- found. Either the plugin finds a primary key in its conditions, and the answer is the row of that
  -- key, which no other condition excludes; or it finds none. A write changes only the row of the key
  -- that the plugin finds in its conditions, or that its target has, where there is one. A row that a
  -- search finds is the row of its key; JSON and the keys' numbers are read back as written, and neither
  -- a row nor a key is the text for null.
  pub history_sound :
      {db : b.Db} {es : List (Event b)} {os : List (Option b.Row)} (p : Plugin st)
      → IsHistory b v pre table name db es os
      → ((later : ℤ) (k : Bytes) → (st.get_data later k p.store).0 ≡ none)
      → AllGive b (replay b st pre ttl es db p) os
  history_sound p t empty = replay-AllGive p t (record {
    rows = λ later id w e.
        absurd (ground (arith, empty later (primary_cache_key pre table (id_text name id))));
    searches = λ later sq w e. absurd (ground (arith, empty later (search_cache_key pre table sq)));
  })
