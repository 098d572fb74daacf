-- ===== src/Gm2c.antt =====
-- mdb/gm2c.go: the database plugin that keeps the rows of a query in a cache. Keys and the reading
-- of a statement's conditions; the queries and writes are in `Gm2c/Plugin`.
pub mod Store
pub mod Plugin
use glibs.Base.{
  ℕ, suc, drop, Bool, true, false, not, ◌&&◌, ◌||◌, Option, none, some, List, [], ◌∷◌, ◌++◌,
  if◌then◌else◌, length, ◌==◌, leb, all, ◌===◌, list_eq,
}
use glibs.Base.Bytes.{Bytes, codes, has_prefix}
use glibs.Base.Dict.{elem}
use glibs.Base.Split.{split, join, has_part}

abbrev pub global_prefix : Bytes
global_prefix = codes "gm2c"

abbrev pub separator : Bytes
separator = codes ":sep:"

abbrev pub null_value : Bytes
null_value = codes "null"

unfoldable pub primary_key_prefix : Bytes → Bytes → Bytes
primary_key_prefix pre table = global_prefix ++ (b':' ∷ (pre ++ (codes ":p:" ++ table)))

unfoldable pub primary_cache_key : Bytes → Bytes → Bytes → Bytes
unfolding primary_key_prefix
primary_cache_key pre table id = primary_key_prefix pre table ++ (separator ++ id)

unfoldable pub search_key_prefix : Bytes → Bytes → Bytes
search_key_prefix pre table = global_prefix ++ (b':' ∷ (pre ++ (codes ":s:" ++ table)))

unfoldable pub search_cache_key : Bytes → Bytes → Bytes → Bytes
unfolding search_key_prefix
search_cache_key pre table sq =
    search_key_prefix pre table ++ (separator ++ (b'[' ∷ (sq ++ b']' ∷ [])))

-- A condition, with its values as `cast.ToString` writes them.
pub data Expression : Type 0 where
  -- `clause.IN`, and whether its column is `clause.PrimaryColumn`.
  in_list : Bool → List Bytes → Expression
  -- `clause.Eq`, with the name of its column if it is a `clause.Column`.
  eq_value : Option Bytes → Bytes → Expression
  -- `clause.Expr`: the text and the values of its variables.
  raw_expr : Bytes → List Bytes → Expression
  other_expr : Expression

-- `strings.Replace(s, old, new, -1)`.
abbrev pub replace_all : Bytes → Bytes → Bytes → Bytes
replace_all s old by = join by (split old s)

abbrev is_digit : ℕ → Bool
is_digit c = leb 48 c && leb c 57

abbrev pub is_empty {ℓ} : {A : Type ℓ} → List A → Bool
is_empty [] = true
is_empty (x ∷ xs) = false

-- The second of exactly two parts.
abbrev second_part : List Bytes → Bytes
second_part [] = []
second_part (a ∷ []) = []
second_part (a ∷ b ∷ []) = b
second_part (a ∷ b ∷ c ∷ s) = []

-- The match of `^name=\d+$`, for a name without pattern characters.
pub is_id_test : Bytes → Bytes → Bool
is_id_test name sq =
    let digits = drop (suc (length name)) sq in
    has_prefix (name ++ b'=' ∷ []) sq && (not (is_empty digits) && all is_digit digits)

-- The text of a raw condition, with its variable put in and without blanks.
pub raw_text : (Bytes → Bytes) → Bytes → List Bytes → Bytes
raw_text trim_space sql vars =
    let sq = trim_space sql in
    replace_all
      (elim vars [
        | [] ↦ sq
        | v ∷ vs ↦
            if has_part (b'?' ∷ []) sq && is_empty vs then replace_all sq (b'?' ∷ []) v else sq
      ])
      (b' ' ∷ []) []

-- The id of a condition on the primary key, empty if it is none.
pub clause_id : (Bytes → Bytes) → Expression → Bytes → Bytes
unfolding raw_text is_id_test
clause_id trim_space (in_list primary (v ∷ [])) name = if primary then v else []
clause_id trim_space (in_list primary []) name = []
clause_id trim_space (in_list primary (v ∷ w ∷ vs)) name = []
clause_id trim_space (eq_value none v) name = []
clause_id trim_space (eq_value (some column) v) name = if column === name then v else []
clause_id trim_space (raw_expr sql vars) name =
    let sq = raw_text trim_space sql vars in
    if is_id_test name sq then second_part (split (b'=' ∷ []) sq) else []
clause_id trim_space other_expr name = []

-- A condition on the primary key as the end of a cache key.
abbrev pub id_text : Bytes → Bytes → Bytes
id_text name id = name ++ (b'=' ∷ id)

pub clause_find_primary_cache_key : (Bytes → Bytes) → Expression → Bytes → Bytes
unfolding clause_id
clause_find_primary_cache_key trim_space expr name =
    let id = clause_id trim_space expr name in if is_empty id then [] else id_text name id

-- What a statement says, with its text as `ToSQL` builds it.
pub record Statement : Type 0 where
  pub has_schema : Bool
  pub model_is_struct : Bool
  pub reflect_is_struct : Bool
  pub table : Bytes
  pub primary_fields : List Bytes
  -- The conditions of `WHERE`, if it has such a clause.
  pub wheres : Option (List Expression)
  pub sql : Bytes
  pub no_cache : Bool

pub get_primary_key_name : Statement → Bytes
get_primary_key_name stm =
    if not stm.has_schema
    then []
    else elim stm.primary_fields [ [] ↦ [] | f ∷ fs ↦ elim fs [ [] ↦ f | g ∷ gs ↦ [] ] ]

-- The loop over the conditions: the distinct ids found, and the last condition's. With `just_has` the
-- first id ends it.
pub data Found : Type 0 where
  early : Bytes → Found
  through : List Bytes → Bytes → Found

pub find_conditions : (Bytes → Bytes) → Bytes → Bool → List Expression → List Bytes → Bytes → Found
unfolding clause_find_primary_cache_key
find_conditions trim_space name just_has [] m v = through m v
find_conditions trim_space name just_has (e ∷ es) m v0 =
    let v = clause_find_primary_cache_key trim_space e name in
    let rest =
      find_conditions trim_space name just_has es
        (if is_empty v then m else if elem v m then m else v ∷ m) v in
    if not (is_empty v) && just_has then early v else rest

pub found_key : Bytes → Bytes → Found → Bytes
unfolding primary_cache_key
found_key pre table (early v) = primary_cache_key pre table v
found_key pre table (through [] v) = []
found_key pre table (through (a ∷ []) v) = primary_cache_key pre table v
found_key pre table (through (a ∷ b ∷ m) v) = []

pub find_primary_cache_key : (Bytes → Bytes) → Bytes → Statement → Bool → Bytes
unfolding get_primary_key_name find_conditions found_key
find_primary_cache_key trim_space pre stm just_has =
    let name = get_primary_key_name stm in
    if is_empty name then [] else elim stm.wheres [
      | none ↦ []
      | some es ↦ found_key pre stm.table (find_conditions trim_space name just_has es [] [])
    ]
