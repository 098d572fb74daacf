-- ===== src/Gm2c/Plugin/Tests.antt =====
-- mdb/gm2c.go: the plugin over a table with at most one row, whose key is a digit.
use glibs.Base.{
  ℕ, ◌+◌, ◌-◌, ◌≡◌, refl, sym, ap, ◌∙◌, inl, inr, Bool, true, false, ◌&&◌, Option, none, some, List,
  [], ◌∷◌, arith, if◌then◌else◌, ◌==◌, subst, ===_cases, ◌===◌, list_eq, nat_eq,
}
use glibs.Base.Int.{ℤ, pos}
use glibs.Base.Bytes.{Bytes, codes}
use glibs.Rpc.{Try, value, failed}
use glibs.Storage.Memory.{memory_cache, memory_cache-IsFreeCache}
use glibs.Storage.Free.{free_get, free_set}
use glibs.Gm2c.{
  Statement, Expression, eq_value, other_expr, primary_cache_key, find_primary_cache_key, is_empty,
  null_value, id_text, search_cache_key, get_primary_key_name, clause_find_primary_cache_key,
}
use glibs.Gm2c.Store.{CacheStore, IsCacheStore, free_store, free_store-IsCacheStore}
use glibs.Gm2c.Plugin.{Answer, Backend, record_not_found, failure, Plugin, query, after_delete}
use glibs.Gm2c.Plugin.Keys.{primary_cache_key_inj, id_text_inj}
use glibs.Gm2c.Plugin.Coherence.{View, IsBackend, Gives, IsRead, IsCoherent}
use glibs.Gm2c.Plugin.Queries.{query_sound}
use glibs.Gm2c.Plugin.Writes.{IsWrite, after_delete-IsCoherent}
use glibs.Gm2c.Plugin.History.{
  Event, ask, change, replay, AllGive, IsHistory, ended, asked, changed, history_sound,
}
use glibs.Gm2c.Plugin.Stale.{mixed_where_key}

-- A row: the key and the text.
abbrev Row : Type 0
Row = ℕ × Bytes

abbrev Db : Type 0
Db = Option Row

abbrev key_text : ℕ → Bytes
key_text n = (48 + n) ∷ []

abbrev row_by : Db → Bytes → Option Row
row_by none id = none
row_by (some (n, v)) id = if key_text n === id then some (n, v) else none

abbrev search_by : Db → Bytes → Option Row
search_by none sq = none
search_by (some (n, v)) sq = if v === sq then some (n, v) else none

abbrev answer_of : Option Row → Row → Answer Row
answer_of none d = record { dest = d; error = some record_not_found; rows_affected = 0 }
answer_of (some r) d = record { dest = r; error = none; rows_affected = 1 }

abbrev found_by : Option (List Expression) → Bytes → Db → Option Row
found_by none sq db = search_by db sq
found_by (some []) sq db = search_by db sq
found_by (some (eq_value c v ∷ es)) sq db = row_by db v
found_by (some (e ∷ es)) sq db = search_by db sq

abbrev read_json : Bytes → Row → Try Row
read_json (c ∷ n ∷ v) d = if c == 123 then value (n, v) else failed (codes "json")
read_json (c ∷ []) d = failed (codes "json")
read_json [] d = failed (codes "json")

abbrev digit_of : Bytes → ℕ
digit_of [] = 0
digit_of (c ∷ s) = c - 48

abbrev table_db : Backend
table_db = record {
  Row = Row;
  Db = Db;
  run_query = λ stm d db. answer_of (found_by stm.wheres stm.sql db) d;
  marshal = λ r. some (123 ∷ r.0 ∷ r.1);
  unmarshal = read_json;
  primary_value = λ r. some (key_text r.0);
  cast_to_uint64 = digit_of;
  decimal = key_text;
  trim_space = λ s. s;
}

abbrev view : View table_db
view = record { row_by = row_by; search_by = search_by }

some_inj : (a b : Bytes) → some a ≡ some b → a ≡ b
some_inj a b e = ap inside e
  where
    inside : Option Bytes → Bytes
    inside none = a
    inside (some x) = x

chosen : (x : Bool) (a c : Row) → (if x then some a else none) ≡ some c → a ≡ c
chosen true a c e = ap inside e
  where
    inside : Option Row → Row
    inside none = a
    inside (some r) = r
chosen false a c e = absurd (ground arith)

taken : (x : Bool) (a c : Option Row) → x ≡ true → (if x && true then a else c) ≡ a
taken true a c e = refl
taken false a c e = absurd (ground arith)

search-row :
    (db : Db) (sq : Bytes) (n : ℕ) (t : Bytes)
    → search_by db sq ≡ some (n, t)
    → row_by db (key_text n) ≡ some (n, t)
search-row none sq n t e = absurd (ground arith)
search-row (some (m, w)) sq n t e =
    let same : ◌≡◌ {A = Row} (m, w) (n, t) = chosen (w === sq) (m, w) (n, t) e in
    let number : m ≡ n = ap (λ (r : Row). r.0) same in
    let text : w ≡ t = ap (λ (r : Row). r.1) same in
    rw (number, text) (taken (48 + n == 48 + n) (some (n, t)) none (ground arith))

table_db-IsBackend : IsBackend table_db view
table_db-IsBackend = record {
  unmarshal-marshal =
      λ r into d e. subst (λ x. read_json x into ≡ value r) (some_inj (123 ∷ r.0 ∷ r.1) d e) refl;
  marshal_total = λ r. (123 ∷ r.0 ∷ r.1, refl);
  marshal-ne-null =
      λ r d e. subst (λ x. (x === null_value) ≡ false) (some_inj (123 ∷ r.0 ∷ r.1) d e) refl;
  primary-ne-null = λ r id e.
      subst (λ x. (x === null_value) ≡ false) (some_inj (key_text r.0) id e) (ground arith);
  decimal-cast = λ r id e pos_id.
      subst (λ x. key_text (digit_of x) ≡ x) (some_inj (key_text r.0) id e)
        (ap (λ n. n ∷ []) (ground arith));
  search-row = λ db sq r id found e.
      subst (λ x. row_by db x ≡ some r) (some_inj (key_text r.0) id e)
        (search-row db sq r.0 r.1 found);
}

abbrev store : CacheStore
store = free_store memory_cache

abbrev fresh : Plugin store
fresh = record {
  store = [];
  stat = record { search_hit = 0; search_miss = 0; primary_hit = 0; primary_miss = 0 };
}

abbrev pre : Bytes
pre = codes "db"

abbrev table : Bytes
table = codes "t"

abbrev name : Bytes
name = codes "id"

abbrev of_conditions : List Expression → Bytes → Statement
of_conditions es sq = record {
  has_schema = true;
  model_is_struct = true;
  reflect_is_struct = true;
  table = table;
  primary_fields = name ∷ [];
  wheres = some es;
  sql = sq;
  no_cache = false;
}

abbrev by_seven : Statement
by_seven = of_conditions (eq_value (some name) (codes "7") ∷ []) (codes "id=7")

abbrev by_text : Statement
by_text = of_conditions (other_expr ∷ []) (codes "bob")

abbrev bob : Db
bob = some (7, codes "bob")

abbrev eve : Db
eve = some (7, codes "eve")

abbrev blank : Answer Row
blank = record { dest = (0, []); error = none; rows_affected = 0 }

seven-IsRead :
    (db : Db) (o : Option Row)
    → row_by db (codes "7") ≡ o
    → ((into : Row) → Gives table_db (answer_of (row_by db (codes "7")) into) o)
    → IsRead table_db view pre table name db by_seven o
unfolding find_primary_cache_key
seven-IsRead db o e g = record {
  same_table = refl;
  same_name = refl;
  reads = g;
  by_key = inl (codes "7", refl, e);
}

text-IsRead : IsRead table_db view pre table name bob by_text (some (7, codes "bob"))
unfolding find_primary_cache_key
text-IsRead = record {
  same_table = refl;
  same_name = refl;
  reads = λ into. (refl, refl, refl);
  by_key = inr (refl, refl);
}

-- The row of the key 7 changes from one text to another.
seven-IsWrite : IsWrite table_db view pre table name bob eve by_seven (7, codes "eve")
unfolding find_primary_cache_key
seven-IsWrite = record {
  same_table = refl;
  same_name = refl;
  by_condition = λ k id e. elim (===_cases (codes "7") id) [
    | inl (same, _) ↦
        inl (sym (id_text_inj name (codes "7") k (primary_cache_key_inj pre table _ _ e)) ∙ same)
    | inr (_, apart) ↦ inr (rw apart refl)
  ];
  by_dest = λ k id e given. absurd (ground (arith, ap is_empty e));
}

fresh_empty : (later : ℤ) (k : Bytes) → (store.get_data later k []).0 ≡ none
unfolding free_get
fresh_empty later k = refl

empty-IsCoherent : IsCoherent table_db view pre table name store bob []
empty-IsCoherent = record {
  rows = λ later id w e.
      absurd (ground (arith, fresh_empty later (primary_cache_key pre table (id_text name id))));
  searches =
      λ later sq w e. absurd (ground (arith, fresh_empty later (search_cache_key pre table sq)));
}

query_sound_example :
    Gives table_db
      (query table_db store pre (pos 300) (pos 0) (pos 0) (pos 0) by_text blank bob fresh).0
      (some (7, codes "bob"))
    × IsCoherent table_db view pre table name store bob
        (query table_db store pre (pos 300) (pos 0) (pos 0) (pos 0) by_text blank bob fresh).1.store
query_sound_example =
    query_sound table_db view table_db-IsBackend store
      (free_store-IsCacheStore memory_cache memory_cache-IsFreeCache) pre table name (pos 300) bob
      (pos 0) (pos 0) (pos 0) by_text (some (7, codes "bob")) blank fresh text-IsRead
      empty-IsCoherent refl

after_delete-IsCoherent_example :
    IsCoherent table_db view pre table name store eve
      (after_delete table_db store pre (pos 300) by_seven (7, codes "eve") fresh).store
after_delete-IsCoherent_example =
    after_delete-IsCoherent table_db view store
      (free_store-IsCacheStore memory_cache memory_cache-IsFreeCache) pre table name (pos 300) bob
      eve by_seven (7, codes "eve") fresh seven-IsWrite empty-IsCoherent

-- Two reads of a row, a search for it, its change, and a read and a search.
abbrev story : List (Event table_db)
story =
    ask (pos 0) (pos 0) (pos 0) by_seven blank
    ∷ ask (pos 1) (pos 1) (pos 1) by_text blank
    ∷ ask (pos 2) (pos 2) (pos 2) by_seven blank
    ∷ change by_seven (7, codes "eve") eve
    ∷ ask (pos 3) (pos 3) (pos 3) by_seven blank
    ∷ []

story-IsHistory : IsHistory table_db view pre table name bob story (
    some (7, codes "bob")
    ∷ some (7, codes "bob")
    ∷ some (7, codes "bob")
    ∷ some (7, codes "eve")
    ∷ [])
story-IsHistory =
    let first = seven-IsRead bob (some (7, codes "bob")) refl (λ into. (refl, refl, refl)) in
    asked bob _ _ _ by_seven blank _ _ _ first refl (
      asked bob _ _ _ by_text blank _ _ _ text-IsRead refl (
        asked bob _ _ _ by_seven blank _ _ _ first refl (
          changed bob eve by_seven _ _ _ seven-IsWrite (
            asked eve _ _ _ by_seven blank _ _ _
              (seven-IsRead eve (some (7, codes "eve")) refl (λ into. (refl, refl, refl))) refl
              (ended eve)))))

history_sound_example : AllGive table_db (replay table_db store pre (pos 300) story bob fresh) (
    some (7, codes "bob")
    ∷ some (7, codes "bob")
    ∷ some (7, codes "bob")
    ∷ some (7, codes "eve")
    ∷ [])
history_sound_example =
    history_sound table_db view table_db-IsBackend store
      (free_store-IsCacheStore memory_cache memory_cache-IsFreeCache) pre table name (pos 300) fresh
      story-IsHistory fresh_empty

mixed_where_key_example :
    find_primary_cache_key
      (λ s. s)
      pre
      (record by_seven { wheres = some (eq_value (some name) (codes "8") ∷ other_expr ∷ []) })
      false
    ≡ primary_cache_key pre table []
unfolding get_primary_key_name clause_find_primary_cache_key
mixed_where_key_example =
    mixed_where_key (λ s. s) pre (codes "8") other_expr by_seven refl refl refl

free_store-IsCacheStore_example : IsCacheStore (free_store memory_cache)
free_store-IsCacheStore_example = free_store-IsCacheStore memory_cache memory_cache-IsFreeCache

-- A database that fails.
abbrev broken_db : Backend
broken_db = record table_db {
  run_query =
      λ stm d db. record { dest = d; error = some (failure (codes "down")); rows_affected = 0 };
}

-- What a failed read leaves in the cache is the next read's answer.
failed_read_kept :
    (query table_db store pre
      (pos 300)
      (pos 1)
      (pos 1)
      (pos 1)
      by_seven
      blank
      bob
      (query broken_db store pre (pos 300) (pos 0) (pos 0) (pos 0) by_seven blank bob fresh).1).0
    ≡ record { dest = (0, []); error = none; rows_affected = 1 }
unfolding query free_get free_set find_primary_cache_key
failed_read_kept = refl
