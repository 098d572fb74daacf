-- ===== src/Gm2c/Plugin/Writes.antt =====
-- mdb/gm2c.go: a create, update or delete keeps the cache true.
use glibs.Base.{
  by_if, ◌≡◌, refl, sym, ap, subst, ◌∙◌, ◌⊎◌, inl, inr, true, false, not, ◌||◌, Option, none, some,
  List, [], ◌∷◌, arith, ◌===◌, ===_self, list_eq,
}
use glibs.Base.Int.{ℤ}
use glibs.Base.Bytes.{Bytes}
use glibs.Gm2c.{
  Statement, Expression, primary_cache_key, search_cache_key, primary_key_prefix, search_key_prefix,
  find_primary_cache_key, find_conditions, found_key, Found, early, through,
  clause_find_primary_cache_key, clause_id, get_primary_key_name, id_text, is_empty,
}
use glibs.Gm2c.Store.{CacheStore, IsCacheStore}
use glibs.Gm2c.Plugin.{Backend, Plugin, after_delete, drop_rows}
use glibs.Gm2c.Plugin.Coherence.{View, IsCoherent, RowEntry}
use glibs.Gm2c.Plugin.Keys.{primary_covered, search_covered, primary-ne-nil}

-- What the loop that stops at the first key returns: that key, or none.
abbrev FirstKey : Bytes → Found → Type 0
FirstKey name (early v) = (k : Bytes) × (v ≡ id_text name k)
FirstKey name (through m v) = m ≡ []

pub id_text-ne-nil : (name k : Bytes) → is_empty (id_text name k) ≡ false
id_text-ne-nil [] k = refl
id_text-ne-nil (c ∷ name) k = refl

clause_named :
    (trim : Bytes → Bytes) (e : Expression) (name : Bytes)
    → (clause_find_primary_cache_key trim e name ≡ [])
      ⊎ ((k : Bytes) × (clause_find_primary_cache_key trim e name ≡ id_text name k))
unfolding clause_find_primary_cache_key
clause_named trim e name =
    let id = clause_id trim e name in
    by_if (λ v. (v ≡ []) ⊎ ((k : Bytes) × (v ≡ id_text name k))) (is_empty id) _ _ (λ _. inl refl)
      (λ _. inr (id, refl))

find_conditions-FirstKey :
    (trim : Bytes → Bytes) (name : Bytes) (es : List Expression) (v : Bytes)
    → FirstKey name (find_conditions trim name true es [] v)
unfolding find_conditions
find_conditions-FirstKey trim name [] v = refl
find_conditions-FirstKey trim name (e ∷ es) v = elim (clause_named trim e name) [
  | inl none_named ↦ rw none_named (find_conditions-FirstKey trim name es [])
  | inr (k, named) ↦ rw (named, id_text-ne-nil name k) (k, refl)
]

-- The key that a write's conditions name.
find_primary_cache_key-named :
    (trim : Bytes → Bytes) (pre : Bytes) (stm : Statement)
    → (find_primary_cache_key trim pre stm true ≡ [])
      ⊎ ((k : Bytes) × (find_primary_cache_key trim pre stm true
            ≡ primary_cache_key pre stm.table (id_text (get_primary_key_name stm) k)))
unfolding find_primary_cache_key
find_primary_cache_key-named trim pre stm =
    let name = get_primary_key_name stm in
    by_if (λ v. (v ≡ []) ⊎ ((k : Bytes) × (v ≡ primary_cache_key pre stm.table (id_text name k))))
      (is_empty name) _ _ (λ _. inl refl) (λ _. under stm.wheres)
  where
    key :
        (f : Found)
        → FirstKey (get_primary_key_name stm) f
        → (found_key pre stm.table f ≡ [])
          ⊎ ((k : Bytes) × (found_key pre stm.table f
                ≡ primary_cache_key pre stm.table (id_text (get_primary_key_name stm) k)))
    key (early v) (k, e) = inr (k, rw (found_key, e) refl)
    key (through m v) e = inl (rw (e, found_key) refl)

    under :
        (ws : Option (List Expression))
        → ((elim ws as (λ x. Bytes) [
          | none ↦ []
          | some es ↦
              found_key pre stm.table
                (find_conditions trim (get_primary_key_name stm) true es [] [])
        ])
            ≡ [])
          ⊎ ((k : Bytes) × ((elim ws as (λ x. Bytes) [
            | none ↦ []
            | some es ↦
                found_key pre stm.table
                  (find_conditions trim (get_primary_key_name stm) true es [] [])
          ])
                ≡ primary_cache_key pre stm.table (id_text (get_primary_key_name stm) k)))
    under none = inl refl
    under (some es) = key _ (find_conditions-FirstKey trim (get_primary_key_name stm) es [])

-- A write on the table: of the rows only that may change which the code takes for the written one, if it
-- takes any.
pub record IsWrite (b : Backend) (v : View b) (pre table name : Bytes) (db db' : b.Db)
    (stm : Statement) (dest : b.Row) : Type 0 where
  pub same_table : stm.table ≡ table
  pub same_name : get_primary_key_name stm ≡ name
  pub by_condition :
      (k id : Bytes)
      → find_primary_cache_key b.trim_space pre stm true
        ≡ primary_cache_key pre table (id_text name k)
      → (k ≡ id) ⊎ (v.row_by db' id ≡ v.row_by db id)
  pub by_dest :
      (k id : Bytes)
      → find_primary_cache_key b.trim_space pre stm true ≡ []
      → b.primary_value dest ≡ some k
      → (k ≡ id) ⊎ (v.row_by db' id ≡ v.row_by db id)

module _ (b : Backend) (v : View b) (st : CacheStore) (sl : IsCacheStore st)
    (pre table name : Bytes) (ttl : ℤ) (db db' : b.Db) where
  -- The rows' entries agree with the new database.
  abbrev Rows : st.State → Type 0
  Rows s =
      (later : ℤ) (id w : Bytes)
      → (st.get_data later (primary_cache_key pre table (id_text name id)) s).0 ≡ some w
      → RowEntry b v pre table name (v.row_by db' id) w

  -- A search's entry is gone.
  abbrev NoSearch : st.State → Type 0
  NoSearch s =
      (later : ℤ) (sq w : Bytes)
      → (st.get_data later (search_cache_key pre table sq) s).0 ≡ some w
      → ⊥

  drop_all-Rows : (s : st.State) → Rows (st.drop_prefix_data (primary_key_prefix pre table ∷ []) s)
  drop_all-Rows s later id w e =
      let (apart, _) = sl.get-drop later (primary_key_prefix pre table ∷ []) _ w s e in
      absurd (ground (arith, primary_covered pre table (id_text name id)))

  del-Rows :
      (k : Bytes) (s : st.State)
      → ((id : Bytes) → (k ≡ id) ⊎ (v.row_by db' id ≡ v.row_by db id))
      → IsCoherent b v pre table name st db s
      → Rows (st.del_data (primary_cache_key pre table (id_text name k)) s)
  del-Rows k s only h later id w e =
      let key = primary_cache_key pre table (id_text name k) in
      let (apart, before) = sl.get-del later key _ w s e in
      elim (only id) [
        | inl same ↦ absurd (
            ground (
              arith,
              ===_self key,
              ap (λ x. key === primary_cache_key pre table (id_text name x)) same,
            ))
        | inr kept ↦ rw kept (h.rows later id w before)
      ]

  drop_searches-NoSearch :
      (s : st.State) → NoSearch (st.drop_prefix_data (search_key_prefix pre table ∷ []) s)
  drop_searches-NoSearch s later sq w e =
      let (apart, _) = sl.get-drop later (search_key_prefix pre table ∷ []) _ w s e in
      absurd (ground (arith, search_covered pre table sq))

  drop-IsCoherent :
      (ps : List Bytes) (s : st.State)
      → IsCoherent b v pre table name st db s
      → IsCoherent b v pre table name st db (st.drop_prefix_data ps s)
  drop-IsCoherent ps s h = record {
    rows = λ later id w e. h.rows later id w (sl.get-drop later ps _ w s e).1;
    searches = λ later sq w e. h.searches later sq w (sl.get-drop later ps _ w s e).1;
  }

  -- The end of `afterDelete` as a choice of the entry to delete.
  drop_rows-Rows :
      (stm : Statement) (dest : b.Row) (s : st.State)
      → IsWrite b v pre table name db db' stm dest
      → NoSearch s
      → IsCoherent b v pre table name st db s
      → Rows (drop_rows b st pre ttl stm dest s) × NoSearch (drop_rows b st pre ttl stm dest s)
  unfolding drop_rows
  drop_rows-Rows stm dest s u gone h =
      by_if {A = st.State} Good
        (not stm.has_schema || (not stm.model_is_struct || not stm.reflect_is_struct)) _ _
        (λ _. all_rows)
        (λ _. elim (find_primary_cache_key-named b.trim_space pre stm) [
          | inr (k, e) ↦
              by_if {A = st.State} Good (not (is_empty pk)) _ _
                (λ _.
                  subst (λ x. Good (st.del_data x s)) (sym (e ∙ full k))
                    (deleted k (λ id. u.by_condition k id (e ∙ full k))))
                (λ empty. absurd (
                  ground
                    (arith, ap is_empty (e ∙ full k), primary-ne-nil pre table (id_text name k))))
          | inl e ↦
              by_if {A = st.State} Good (not (is_empty pk)) _ _
                (λ found. absurd (ground (arith, ap is_empty e)))
                (λ _.
                  by_if {A = st.State} Good (is_empty (get_primary_key_name stm)) _ _
                    (λ _. all_rows) (λ _. by_value e (b.primary_value dest) refl))
        ])
    where
      Good : st.State → Type 0
      Good x = Rows x × NoSearch x

      pk : Bytes
      pk = find_primary_cache_key b.trim_space pre stm true

      full :
          (k : Bytes)
          → primary_cache_key pre stm.table (id_text (get_primary_key_name stm) k)
            ≡ primary_cache_key pre table (id_text name k)
      full k =
          ap (λ t. primary_cache_key pre t (id_text (get_primary_key_name stm) k)) u.same_table
          ∙ ap (λ n. primary_cache_key pre table (id_text n k)) u.same_name

      all_rows : Good (st.drop_prefix_data (primary_key_prefix pre stm.table ∷ []) s)
      all_rows = (
        subst (λ t. Rows (st.drop_prefix_data (primary_key_prefix pre t ∷ []) s)) (sym u.same_table)
            (drop_all-Rows s),
        λ later sq w e.
            gone later sq w (sl.get-drop later (primary_key_prefix pre stm.table ∷ []) _ w s e).1,
      )

      deleted :
          (k : Bytes)
          → ((id : Bytes) → (k ≡ id) ⊎ (v.row_by db' id ≡ v.row_by db id))
          → Good (st.del_data (primary_cache_key pre table (id_text name k)) s)
      deleted k only = (
        del-Rows k s only h,
        λ later sq w e.
            gone later sq w
              (sl.get-del later (primary_cache_key pre table (id_text name k)) _ w s e).1,
      )

      by_value :
          pk ≡ []
          → (x : Option Bytes) → b.primary_value dest ≡ x
          → Good (elim x as (λ x. st.State) [
            | none ↦ st.drop_prefix_data (primary_key_prefix pre stm.table ∷ []) s
            | some id ↦
                st.del_data
                  (primary_cache_key pre stm.table (id_text (get_primary_key_name stm) id))
                  s
          ])
      by_value e none given = all_rows
      by_value e (some k) given =
          subst (λ x. Good (st.del_data x s)) (sym (full k))
            (deleted k (λ id. u.by_dest k id e given))

-- After a create, an update or a delete the cache agrees with the new database, if it agreed with the
-- old one and of the rows only the one changed that the write's conditions or its target name, where
-- they name one.
pub after_delete-IsCoherent :
    (b : Backend) (v : View b) (st : CacheStore) (sl : IsCacheStore st) (pre table name : Bytes)
    (ttl : ℤ) (db db' : b.Db) (stm : Statement) (dest : b.Row) (p : Plugin st)
    → IsWrite b v pre table name db db' stm dest
    → IsCoherent b v pre table name st db p.store
    → IsCoherent b v pre table name st db' (after_delete b st pre ttl stm dest p).store
unfolding after_delete
after_delete-IsCoherent b v st sl pre table name ttl db db' stm dest p u h =
    let s = st.drop_prefix_data (search_key_prefix pre stm.table ∷ []) p.store in
    let (rows, gone) =
      drop_rows-Rows b v st sl pre table name ttl db db' stm dest s u
        (subst
          (λ t.
            NoSearch b v st sl pre table name ttl db db'
              (st.drop_prefix_data (search_key_prefix pre t ∷ []) p.store))
          (sym u.same_table) (drop_searches-NoSearch b v st sl pre table name ttl db db' p.store))
        (drop-IsCoherent b v st sl pre table name ttl db db' _ p.store h) in
    record { rows = rows; searches = λ later sq w e. absurd (gone later sq w e) }
