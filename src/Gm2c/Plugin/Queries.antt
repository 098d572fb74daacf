-- ===== src/Gm2c/Plugin/Queries.antt =====
-- mdb/gm2c.go: a query through the plugin answers as the database does, and keeps the cache true.
use glibs.Base.{
  by_if, ℕ, ◌≡◌, refl, sym, ap, subst, ◌∙◌, inl, inr, Bool, true, false, not, ◌||◌, Option, none,
  some, [], ◌∷◌, arith, if◌then◌else◌, ltb,
}
use glibs.Base.Int.{ℤ, pos}
use glibs.Base.Bytes.{Bytes}
use glibs.Gm2c.{
  Statement, primary_cache_key, search_cache_key, get_primary_key_name, null_value, id_text,
  is_empty,
}
use glibs.Gm2c.Store.{CacheStore, IsCacheStore}
use glibs.Gm2c.Plugin.{
  Answer, Backend, DbError, record_not_found, Plugin, callbacks_query, get_cache, set_primary,
  set_search, set_cache, set_under, after_cache, query_with_cache, through_json, shared,
  query_clear, query, is_not_found,
}
use glibs.Gm2c.Plugin.Coherence.{View, IsBackend, Gives, IsRead, SearchEntry, IsCoherent}
use glibs.Gm2c.Plugin.Lookups.{
  Shows, LookedUp, get_cache-LookedUp, get_cache_key-primary, get_cache_key-search,
  set_row-IsCoherent, set_search-IsCoherent,
}

module _ (b : Backend) (v : View b) (bl : IsBackend b v) (st : CacheStore) (sl : IsCacheStore st)
    (pre table name : Bytes) (ttl : ℤ) (db : b.Db) where
  abbrev Ans : Type 0
  Ans = Answer b.Row

  abbrev C : st.State → Type 0
  C s = IsCoherent b v pre table name st db s

  -- What a write of the cache leaves: the target as it was, and a true cache.
  abbrev Kept : Ans → Ans × Plugin st → Type 0
  Kept q (q', p') = (q' ≡ q) × C p'.store

  set_primary-Kept :
      (now : ℤ) (id : Bytes) (o : Option b.Row) (q : Ans) (p : Plugin st)
      → v.row_by db id ≡ o
      → Gives b q o
      → C p.store
      → Kept q (set_primary b st pre ttl now (primary_cache_key pre table (id_text name id)) q p)
  unfolding set_primary
  set_primary-Kept now id none q p found e h =
      let missing : is_not_found q.error ≡ true = rw e refl in
      rw missing (
        refl,
        set_row-IsCoherent b v bl st sl pre table name ttl db now id null_value (pos 60 ∷ [])
            p.store h (rw found refl),
      )
  set_primary-Kept now id (some r) q p found (e, same, rows) h =
      let present : is_not_found q.error ≡ false = rw e refl in
      let (d, written) = bl.marshal_total q.dest in
      let entry = ap b.marshal (sym same) ∙ written in
      rw (present, written)
        (
          refl,
          set_row-IsCoherent b v bl st sl pre table name ttl db now id d (ttl ∷ []) p.store h
              (rw found entry),
        )

  set_search-Kept :
      (now : ℤ) (stm : Statement) (r : b.Row) (id : Option Bytes) (q : Ans) (p : Plugin st)
      → stm.table ≡ table
      → get_primary_key_name stm ≡ name
      → v.search_by db stm.sql ≡ some r
      → b.primary_value r ≡ id
      → Gives b q (some r)
      → C p.store
      → Kept q (set_search b st pre ttl now stm (search_cache_key pre table stm.sql) id q p)
  unfolding set_search
  set_search-Kept now stm r none q p et en es ei g h = (refl, h)
  set_search-Kept now stm r (some id) q p et en es ei g h =
      by_if (λ x. Kept q x) (is_empty (get_primary_key_name stm)) _ _ (λ _. (refl, h))
        (λ _.
          subst (λ k. Kept q (set_primary b st pre ttl now k q p')) (sym same_key)
            (set_primary-Kept now id (some r) q p' (bl.search-row db stm.sql r id es ei) g kept))
    where
      p' : Plugin st
      p' = record p {
        store = st.set_data now (search_cache_key pre table stm.sql) id (ttl ∷ []) p.store;
      }

      kept : C (st.set_data now (search_cache_key pre table stm.sql) id (ttl ∷ []) p.store)
      kept =
          set_search-IsCoherent b v bl st sl pre table name ttl db now stm.sql id (ttl ∷ []) p.store
            h (subst (λ o. SearchEntry b v pre table name o id) (sym es) ei)

      same_key :
          primary_cache_key pre stm.table (id_text (get_primary_key_name stm) id)
          ≡ primary_cache_key pre table (id_text name id)
      same_key =
          ap (λ t. primary_cache_key pre t (id_text (get_primary_key_name stm) id)) et
          ∙ ap (λ n. primary_cache_key pre table (id_text n id)) en

  set_cache-Kept :
      (now : ℤ) (stm : Statement) (o : Option b.Row) (q : Ans) (p : Plugin st)
      → IsRead b v pre table name db stm o
      → Gives b q o
      → C p.store
      → Kept q (set_cache b st pre ttl now stm q p)
  unfolding set_cache set_under
  set_cache-Kept now stm o q p r g h = elim r.by_key [
    | inl (id, e, found) ↦
        subst (λ k. Kept q (set_under b st pre ttl now stm q p k))
          (sym (get_cache_key-primary b v bl st sl pre table name ttl db stm id e))
          (set_primary-Kept now id o q p found g h)
    | inr (e, found) ↦
        subst (λ k. Kept q (set_under b st pre ttl now stm q p k))
          (sym (get_cache_key-search b v bl st sl pre table name ttl db stm r.same_table e))
          (searched o g found)
  ]
    where
      searched :
          (o : Option b.Row)
          → Gives b q o
          → v.search_by db stm.sql ≡ o
          → Kept q (
              if is_not_found q.error
              then (
                q,
                record p {
                  store =
                      st.set_data now
                        (search_cache_key pre table stm.sql)
                        null_value
                        (pos 60 ∷ [])
                        p.store;
                },
              )
              else set_search b st pre ttl now stm
                  (search_cache_key pre table stm.sql)
                  (b.primary_value q.dest)
                  q
                  p)
      searched none e found =
          let missing : is_not_found q.error ≡ true = rw e refl in
          rw missing (
            refl,
            set_search-IsCoherent b v bl st sl pre table name ttl db now stm.sql null_value
                (pos 60 ∷ []) p.store h (rw found refl),
          )
      searched (some w) (e, same, rows) found =
          let present : is_not_found q.error ≡ false = rw e refl in
          rw present (
            set_search-Kept now stm w (b.primary_value q.dest) q p r.same_table r.same_name found
              (ap b.primary_value (sym same)) (e, same, rows) h)

  shared-Gives : (q : Ans) (o : Option b.Row) → Gives b q o → Gives b (shared b st pre ttl q) o
  unfolding shared
  shared-Gives q none e = cases q.error e
    where
      cases :
          (x : Option DbError)
          → x ≡ some record_not_found
          → (elim x as (λ x. Ans) [
            | some e ↦ q
            | none ↦
                if ltb 0 q.rows_affected then through_json b st pre ttl (b.marshal q.dest) q else q
          ]).error
            ≡ some record_not_found
      cases (some f) h = e
      cases none h = absurd (ground arith)
  shared-Gives q (some r) (e, same, rows) = row q.dest q.error q.rows_affected e same rows
    where
      row :
          (d : b.Row) (x : Option DbError) (n : ℕ)
          → x ≡ none
          → d ≡ r
          → n ≡ 1
          → Gives b
              (shared b st pre ttl (record { dest = d; error = x; rows_affected = n }))
              (some r)
      row d (some f) n e same rows = absurd (ground arith)
      row d none n e same rows =
          rw rows (let (t, written) = bl.marshal_total d in rw written (through t written))
        where
          through :
              (t : Bytes)
              → b.marshal d ≡ some t
              → Gives b
                  (through_json b st pre ttl
                    (some t)
                    (record { dest = d; error = none; rows_affected = 1 }))
                  (some r)
          through [] written = (refl, same, refl)
          through (c ∷ t) written =
              rw (through_json, bl.unmarshal-marshal d d (c ∷ t) written) (refl, same, refl)

  callbacks_query-run :
      (stm : Statement) (q : Ans)
      → q.error ≡ none
      → callbacks_query b st pre ttl stm q db ≡ b.run_query stm q.dest db
  unfolding callbacks_query
  callbacks_query-run stm q e = rw e refl

  hit-Gives :
      (stm : Statement) (later : ℤ) (p : Plugin st) (o : Option b.Row) (q : Ans)
      → Shows b v bl st sl pre table name ttl db o q
      → Gives b (after_cache b st pre ttl later stm db (true, q, p)).0 o
  unfolding after_cache
  hit-Gives stm later p o q shows = shown o q.dest q.error q.rows_affected shows
    where
      shown :
          (o : Option b.Row) (d : b.Row) (x : Option DbError) (n : ℕ)
          → Shows b v bl st sl pre table name ttl db o
              (record { dest = d; error = x; rows_affected = n })
          → Gives b
              (after_cache b st pre ttl later stm db
                (true, record { dest = d; error = x; rows_affected = n }, p)).0
              o
      shown none d none n e = absurd (ground arith)
      shown none d (some f) n e = e
      shown (some r) d (some f) n (e, same) = absurd (ground arith)
      shown (some r) d none n (e, same) = (refl, same, refl)

  after_cache-Gives :
      (later : ℤ) (stm : Statement) (o : Option b.Row) (q : Ans) (u : Bool × Ans × Plugin st)
      → IsRead b v pre table name db stm o
      → q.error ≡ none
      → LookedUp b v bl st sl pre table name ttl db q o u
      → Gives b (after_cache b st pre ttl later stm db u).0 o
        × C (after_cache b st pre ttl later stm db u).1.store
  unfolding after_cache
  after_cache-Gives later stm o q (true, q', p) r clear (inl (e, same), h) = absurd (ground arith)
  after_cache-Gives later stm o q (false, q', p) r clear (inl (e, same), h) =
      let ran = callbacks_query b st pre ttl stm q' db in
      let given : Gives b ran o =
        subst (λ x. Gives b x o)
          (sym (
            ap (λ x. callbacks_query b st pre ttl stm x db) same ∙ callbacks_query-run stm q clear))
          (r.reads q.dest) in
      let (kept, coherent) = set_cache-Kept later stm o ran p r given h in
      (subst (λ x. Gives b x o) (sym kept) given, coherent)
  after_cache-Gives later stm o q (false, q', p) r clear (inr (e, shows), h) = absurd (ground arith)
  after_cache-Gives later stm o q (true, q', p) r clear (inr (e, shows), h) =
      (hit-Gives stm later p o q' shows, h)

  query_clear-Gives :
      (now now' later : ℤ) (stm : Statement) (o : Option b.Row) (q : Ans) (p : Plugin st)
      → IsRead b v pre table name db stm o
      → q.error ≡ none
      → C p.store
      → Gives b (query_clear b st pre ttl now now' later stm q db p).0 o
        × C (query_clear b st pre ttl now now' later stm q db p).1.store
  unfolding query_clear query_with_cache
  query_clear-Gives now now' later stm o q p r clear h =
      let u = get_cache b st pre ttl now now' stm q p in
      let (good, kept) =
        after_cache-Gives later stm o q u r clear
          (get_cache-LookedUp b v bl st sl pre table name ttl db now now' stm o q p r clear h) in
      by_if {A = Ans × Plugin st} (λ x. Gives b x.0 o × C x.1.store)
        (not stm.has_schema || (not stm.reflect_is_struct || stm.no_cache)) _ _
        (λ _.
          (subst (λ x. Gives b x o) (sym (callbacks_query-run stm q clear)) (r.reads q.dest), h))
        (λ _. (shared-Gives _ o good, kept))

  query-clear :
      (now now' later : ℤ) (stm : Statement) (q : Ans) (p : Plugin st)
      → q.error ≡ none
      → query b st pre ttl now now' later stm q db p
        ≡ query_clear b st pre ttl now now' later stm q db p
  unfolding query
  query-clear now now' later stm q p e = cases q.error e
    where
      cases :
          (x : Option DbError)
          → x ≡ none
          → (elim x as (λ x. Ans × Plugin st) [
            | some e ↦ (q, p)
            | none ↦ query_clear b st pre ttl now now' later stm q db p
          ])
            ≡ query_clear b st pre ttl now now' later stm q db p
      cases none e = refl
      cases (some f) e = absurd (ground arith)

-- A query through the plugin, on a target with no error, answers as the database does: the row with one
-- row affected, or the error that there is none. A true cache stays true, whatever entries the store
-- loses. The query asks for one whole row, and the database answers it with a row or as not found.
-- Either the plugin finds a primary key in its conditions, and the answer is the row of that key, which no
-- other condition excludes; or it finds none. A row that a search finds is the row of its key. JSON and
-- the keys' numbers are read back as written, and neither a row nor a key is the text for null.
pub query_sound :
    (b : Backend) (v : View b) (bl : IsBackend b v) (st : CacheStore) (sl : IsCacheStore st)
    (pre table name : Bytes) (ttl : ℤ) (db : b.Db) (now now' later : ℤ) (stm : Statement)
    (o : Option b.Row) (q : Answer b.Row) (p : Plugin st)
    → IsRead b v pre table name db stm o
    → IsCoherent b v pre table name st db p.store
    → q.error ≡ none
    → Gives b (query b st pre ttl now now' later stm q db p).0 o
      × IsCoherent b v pre table name st db (query b st pre ttl now now' later stm q db p).1.store
query_sound b v bl st sl pre table name ttl db now now' later stm o q p r h clear =
    subst (λ x. Gives b x.0 o × IsCoherent b v pre table name st db x.1.store)
      (sym (query-clear b v bl st sl pre table name ttl db now now' later stm q p clear))
      (query_clear-Gives b v bl st sl pre table name ttl db now now' later stm o q p r clear h)
