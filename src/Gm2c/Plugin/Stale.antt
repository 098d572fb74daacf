-- ===== src/Gm2c/Plugin/Stale.antt =====
-- mdb/gm2c.go: conditions that the key of a row's entry does not tell apart.
use glibs.Base.{◌≡◌, refl, false, some, [], ◌∷◌, ===_self, list_eq}
use glibs.Base.Bytes.{Bytes}
use glibs.Gm2c.{
  Statement, Expression, eq_value, primary_cache_key, find_primary_cache_key, find_conditions,
  found_key, through, clause_find_primary_cache_key, clause_id, get_primary_key_name, id_text,
  is_empty,
}
use glibs.Gm2c.Plugin.Writes.{id_text-ne-nil}

eq_value-key :
    (trim : Bytes → Bytes) (name i : Bytes)
    → is_empty i ≡ false
    → clause_find_primary_cache_key trim (eq_value (some name) i) name ≡ id_text name i
unfolding clause_find_primary_cache_key clause_id
eq_value-key trim name i given = rw (===_self name, given) refl

mixed_conditions :
    (trim : Bytes → Bytes) (name i : Bytes) (e : Expression)
    → is_empty i ≡ false
    → clause_find_primary_cache_key trim e name ≡ []
    → find_conditions trim name false (eq_value (some name) i ∷ e ∷ []) [] []
      ≡ through (id_text name i ∷ []) []
unfolding find_conditions
mixed_conditions trim name i e given other =
    rw (eq_value-key trim name i given, id_text-ne-nil name i, other) refl

-- A statement with a condition on the primary key and then another, which names no key, has the same
-- entry for every id: its key ends without the id.
pub mixed_where_key :
    (trim : Bytes → Bytes) (pre i : Bytes) (e : Expression) (stm : Statement)
    → is_empty (get_primary_key_name stm) ≡ false
    → is_empty i ≡ false
    → clause_find_primary_cache_key trim e (get_primary_key_name stm) ≡ []
    → find_primary_cache_key trim pre
        (record stm { wheres = some (eq_value (some (get_primary_key_name stm)) i ∷ e ∷ []) })
        false
      ≡ primary_cache_key pre stm.table []
unfolding find_primary_cache_key
mixed_where_key trim pre i e stm named given other =
    rw (named, mixed_conditions trim (get_primary_key_name stm) i e given other, found_key) refl
