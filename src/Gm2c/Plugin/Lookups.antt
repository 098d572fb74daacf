-- ===== src/Gm2c/Plugin/Lookups.antt =====
-- mdb/gm2c.go: what the reads of the cache, `getCache` and its parts, find is what the database says.
use glibs.Base.{
  by_if, ◌≡◌, refl, sym, ap, subst, ◌∙◌, ◌⊎◌, inl, inr, Bool, true, false, Option, none, some, List,
  [], arith, list_eq, ◌==◌,
}
use glibs.Base.Int.{ℤ}
use glibs.Base.Bytes.{Bytes}
use glibs.Gm2c.{
  Statement, primary_cache_key, search_cache_key, find_primary_cache_key, get_primary_key_name,
  id_text, is_empty,
}
use glibs.Gm2c.Store.{CacheStore, IsCacheStore}
use glibs.Gm2c.Plugin.{
  Answer, Backend, record_not_found, Plugin, get_cache_key, count_primary_miss, count_primary_hit,
  count_search_miss, count_search_hit, read_row, use_primary, miss_primary, query_cache_pk,
  use_search, miss_search, follow_key, search_cache, get_cache,
}
use glibs.Gm2c.Plugin.Keys.{
  primary_cache_key_inj, search_cache_key_inj, keys_apart, id_text_inj, primary-ne-nil,
  search-ne-nil,
}
use glibs.Gm2c.Plugin.Coherence.{View, IsBackend, IsRead, RowEntry, SearchEntry, IsCoherent}

module _ (b : Backend) (v : View b) (bl : IsBackend b v) (st : CacheStore) (sl : IsCacheStore st)
    (pre table name : Bytes) (ttl : ℤ) (db : b.Db) where
  abbrev Ans : Type 0
  Ans = Answer b.Row

  abbrev C : st.State → Type 0
  C s = IsCoherent b v pre table name st db s

  pub get-IsCoherent : (now : ℤ) (k : Bytes) (s : st.State) → C s → C (st.get_data now k s).1
  get-IsCoherent now k s h = record {
    rows = λ later id w e. h.rows later id w (sl.get-get now later k _ w s e);
    searches = λ later sq w e. h.searches later sq w (sl.get-get now later k _ w s e);
  }

  pub set_row-IsCoherent :
      (now : ℤ) (id d : Bytes) (t : List ℤ) (s : st.State)
      → C s
      → RowEntry b v pre table name (v.row_by db id) d
      → C (st.set_data now (primary_cache_key pre table (id_text name id)) d t s)
  set_row-IsCoherent now id d t s h entry = record {
    rows = λ later j w e. elim (sl.get-set now later _ d t _ w s e) [
      | inr old ↦ h.rows later j w old
      | inl (same, written) ↦
          moved j w (id_text_inj name id j (primary_cache_key_inj pre table _ _ same)) written
    ];
    searches = λ later sq w e. elim (sl.get-set now later _ d t _ w s e) [
      | inr old ↦ h.searches later sq w old
      | inl (same, _) ↦ absurd (keys_apart pre table _ sq same)
    ];
  }
    where
      moved : (j w : Bytes) → id ≡ j → w ≡ d → RowEntry b v pre table name (v.row_by db j) w
      moved j w p e =
          subst (λ x. RowEntry b v pre table name (v.row_by db x) w) p
            (subst (λ x. RowEntry b v pre table name (v.row_by db id) x) (sym e) entry)

  pub set_search-IsCoherent :
      (now : ℤ) (sq d : Bytes) (t : List ℤ) (s : st.State)
      → C s
      → SearchEntry b v pre table name (v.search_by db sq) d
      → C (st.set_data now (search_cache_key pre table sq) d t s)
  set_search-IsCoherent now sq d t s h entry = record {
    rows = λ later j w e. elim (sl.get-set now later _ d t _ w s e) [
      | inr old ↦ h.rows later j w old
      | inl (same, _) ↦ absurd (keys_apart pre table _ sq (sym same))
    ];
    searches = λ later sq2 w e. elim (sl.get-set now later _ d t _ w s e) [
      | inr old ↦ h.searches later sq2 w old
      | inl (same, written) ↦ moved sq2 w (search_cache_key_inj pre table _ _ same) written
    ];
  }
    where
      moved : (j w : Bytes) → sq ≡ j → w ≡ d → SearchEntry b v pre table name (v.search_by db j) w
      moved j w p e =
          subst (λ x. SearchEntry b v pre table name (v.search_by db x) w) p
            (subst (λ x. SearchEntry b v pre table name (v.search_by db sq) x) (sym e) entry)

  -- What a hit leaves in the target.
  abbrev pub Shows : Option b.Row → Ans → Type 0
  Shows none q = q.error ≡ some record_not_found
  Shows (some r) q = (q.error ≡ none) × (q.dest ≡ r)

  -- A miss leaves the target as it was.
  abbrev pub Looked : Ans → Option b.Row → Bool × Ans → Type 0
  Looked q o (hit, q') = ((hit ≡ false) × (q' ≡ q)) ⊎ ((hit ≡ true) × Shows o q')

  use_primary-Looked :
      (o : Option b.Row) (got : Option Bytes) (q : Ans)
      → q.error ≡ none
      → ((d : Bytes) → got ≡ some d → RowEntry b v pre table name o d)
      → Looked q o (use_primary b st pre ttl got q)
  unfolding use_primary read_row
  use_primary-Looked o none q clear h = inl (refl, refl)
  use_primary-Looked none (some d) q clear h = rw (h d refl) (inr (refl, refl))
  use_primary-Looked (some r) (some d) q clear h =
      rw (bl.marshal-ne-null r d (h d refl), bl.unmarshal-marshal r q.dest d (h d refl))
        (inr (refl, (clear, refl)))

  abbrev pub LookedUp : Ans → Option b.Row → Bool × Ans × Plugin st → Type 0
  LookedUp q o (hit, q', p') = Looked q o (hit, q') × C p'.store

  miss_primary-store :
      (o : Option Bytes) (p : Plugin st) → (miss_primary b st pre ttl o p).store ≡ p.store
  unfolding miss_primary count_primary_miss
  miss_primary-store none p = refl
  miss_primary-store (some d) p = refl

  miss_search-store :
      (o : Option Bytes) (p : Plugin st) → (miss_search b st pre ttl o p).store ≡ p.store
  unfolding miss_search count_search_miss
  miss_search-store none p = refl
  miss_search-store (some d) p = refl

  primary_hit-store :
      (x : Bool) (p : Plugin st) → (count_primary_hit b st pre ttl x p).store ≡ p.store
  unfolding count_primary_hit
  primary_hit-store false p = refl
  primary_hit-store true p = refl

  search_hit-store :
      (x : Bool) (p : Plugin st) → (count_search_hit b st pre ttl x p).store ≡ p.store
  unfolding count_search_hit
  search_hit-store false p = refl
  search_hit-store true p = refl

  -- The row of a key is looked up truly.
  pub follow_key-LookedUp :
      (now : ℤ) (id : Bytes) (hit : Bool) (q : Ans) (p : Plugin st)
      → q.error ≡ none
      → C p.store
      → LookedUp q
          (v.row_by db id)
          (follow_key b st pre ttl now (primary_cache_key pre table (id_text name id)) hit q p)
  unfolding follow_key query_cache_pk
  follow_key-LookedUp now id hit q p clear h =
      let key = primary_cache_key pre table (id_text name id) in
      let read = st.get_data now key p.store in
      let used = use_primary b st pre ttl read.0 q in
      let q3 = miss_primary b st pre ttl read.0 (record p { store = read.1 }) in
      rw (primary-ne-nil pre table (id_text name id)) (
        use_primary-Looked (v.row_by db id) read.0 q clear (λ d e. h.rows now id d e),
        subst C (sym (primary_hit-store used.0 q3 ∙ miss_primary-store read.0 _))
            (get-IsCoherent now key p.store h),
      )

  -- What the entry of a search leads to: nothing further to read, or the key of the row.
  abbrev Led : Ans → Option b.Row → Bytes × Bool × Ans → Type 0
  Led q o (pk, hit, q') =
      ((pk ≡ []) × Looked q o (hit, q'))
      ⊎ ((id : Bytes) × (pk ≡ primary_cache_key pre table (id_text name id))
          × (q' ≡ q)
          × (v.row_by db id ≡ o))

  use_search-Led :
      (stm : Statement) (o : Option b.Row) (got : Option Bytes) (q : Ans)
      → stm.table ≡ table
      → get_primary_key_name stm ≡ name
      → v.search_by db stm.sql ≡ o
      → q.error ≡ none
      → ((d : Bytes) → got ≡ some d → SearchEntry b v pre table name o d)
      → Led q o (use_search b st pre ttl stm got q)
  unfolding use_search
  use_search-Led stm o none q et en es clear h = inl (refl, inl (refl, refl))
  use_search-Led stm none (some d) q et en es clear h = rw (h d refl) (inl (refl, inr (refl, refl)))
  use_search-Led stm (some r) (some d) q et en es clear h =
      let n = b.cast_to_uint64 d in
      rw (bl.primary-ne-null r d (h d refl)) (
        by_if (λ x. Led q (some r) x) (n == 0) _ _ (λ _. inl (refl, inl (refl, refl)))
          (λ e.
            by_if (λ x. Led q (some r) x) (is_empty (get_primary_key_name stm)) _ _
              (λ _. inl (refl, inl (refl, refl)))
              (λ _. inr (d, key e, refl, bl.search-row db stm.sql r d es (h d refl)))))
    where
      key :
          (b.cast_to_uint64 d == 0) ≡ false
          → primary_cache_key pre stm.table
              (id_text (get_primary_key_name stm) (b.decimal (b.cast_to_uint64 d)))
            ≡ primary_cache_key pre table (id_text name d)
      key e = rw (et, en, bl.decimal-cast r d (h d refl) (ground arith)) refl

  follow_key-Led :
      (now : ℤ) (o : Option b.Row) (q : Ans) (u : Bytes × Bool × Ans) (p : Plugin st)
      → q.error ≡ none
      → Led q o u
      → C p.store
      → LookedUp q o (follow_key b st pre ttl now u.0 u.1 u.2 p)
  unfolding follow_key
  follow_key-Led now o q (pk, hit, q') p clear (inl (e, looked)) h = rw e (looked, h)
  follow_key-Led now o q (pk, hit, q') p clear (inr (id, e, same, found)) h =
      subst (λ x. LookedUp q x (follow_key b st pre ttl now pk hit q' p)) found
        (rw (e, same) (follow_key-LookedUp now id hit q p clear h))

  search_cache-LookedUp :
      (now later : ℤ) (stm : Statement) (o : Option b.Row) (q : Ans) (p : Plugin st)
      → stm.table ≡ table
      → get_primary_key_name stm ≡ name
      → v.search_by db stm.sql ≡ o
      → q.error ≡ none
      → C p.store
      → LookedUp q o
          (search_cache b st pre ttl now later stm (search_cache_key pre table stm.sql) q p)
  unfolding search_cache
  search_cache-LookedUp now later stm o q p et en es clear h =
      let key = search_cache_key pre table stm.sql in
      let read = st.get_data now key p.store in
      let u = use_search b st pre ttl stm read.0 q in
      let missed = miss_search b st pre ttl read.0 (record p { store = read.1 }) in
      follow_key-Led later o q u (count_search_hit b st pre ttl u.1 missed) clear
        (use_search-Led stm o read.0 q et en es clear
          (λ d e. subst (λ x. SearchEntry b v pre table name x d) es (h.searches now stm.sql d e)))
        (subst C (sym (search_hit-store u.1 missed ∙ miss_search-store read.0 _))
          (get-IsCoherent now key p.store h))

  pub get_cache_key-primary :
      (stm : Statement) (id : Bytes)
      → find_primary_cache_key b.trim_space pre stm false
        ≡ primary_cache_key pre table (id_text name id)
      → get_cache_key b st pre ttl stm ≡ (primary_cache_key pre table (id_text name id), true)
  unfolding get_cache_key
  get_cache_key-primary stm id e = rw (e, primary-ne-nil pre table (id_text name id)) refl

  pub get_cache_key-search :
      (stm : Statement)
      → stm.table ≡ table
      → find_primary_cache_key b.trim_space pre stm false ≡ []
      → get_cache_key b st pre ttl stm ≡ (search_cache_key pre table stm.sql, false)
  unfolding get_cache_key
  get_cache_key-search stm t e = rw e (ap (λ x. (search_cache_key pre x stm.sql, false)) t)

  pub get_cache-LookedUp :
      (now later : ℤ) (stm : Statement) (o : Option b.Row) (q : Ans) (p : Plugin st)
      → IsRead b v pre table name db stm o
      → q.error ≡ none
      → C p.store
      → LookedUp q o (get_cache b st pre ttl now later stm q p)
  unfolding get_cache
  get_cache-LookedUp now later stm o q p r clear h = elim r.by_key [
    | inl (id, e, found) ↦
        rw (get_cache_key-primary stm id e, primary-ne-nil pre table (id_text name id))
          (subst
            (λ x. LookedUp q x (
              follow_key b st pre ttl now (primary_cache_key pre table (id_text name id)) false q
                p))
            found (follow_key-LookedUp now id false q p clear h))
    | inr (e, found) ↦
        rw (get_cache_key-search stm r.same_table e, search-ne-nil pre table stm.sql)
          (search_cache-LookedUp now later stm o q p r.same_table r.same_name found clear h)
  ]
