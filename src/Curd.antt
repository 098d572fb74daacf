-- ===== src/Curd.antt =====
-- mdb/curd.go: creating, updating and deleting a row by its id, finding one, and finding a page of rows. gorm
-- and reflection are parameters. The object `DB` is passed as the state of the database.
pub mod Paging
pub mod Changes
mod Tests
use glibs.Base.{
  ℕ, ◌⊎◌, inl, inr, suc, ◌+◌, ◌-◌, ◌*◌, ◌/◌, ◌%◌, ◌==◌, Bool, true, false, not, ◌&&◌, Option, none,
  some, List, [], ◌∷◌, ◌++◌, if◌then◌else◌, list_eq, map, ltb,
}
use glibs.Base.Int.{ℤ, pos, negsuc, ltb_ℤ, ◌-ℤ◌, ◌*ℤ◌, wrap64}
use glibs.Base.Dict.{Dict, lookup, erase}
use glibs.Base.Bytes.{Bytes, codes}
use glibs.Rpc.{Try, value, failed}
use glibs.J2rpc.{CallError, new_error, plain_error}

abbrev pub default_page_size : ℕ
default_page_size = 10

abbrev pub max_page_size : ℕ
max_page_size = 100

abbrev pub and_text : Bytes
and_text = codes " AND "

-- `AddWhereCondition`, for the condition that is there and another.
unfoldable pub add_where_condition : (Bytes → Bytes) → Bytes → Bytes → Bytes
add_where_condition trim_space old where_text = elim (trim_space old) [
  | [] ↦ where_text
  | x ∷ s ↦ (x ∷ s) ++ (and_text ++ where_text)
]

-- `AppendEqCondition`.
unfoldable pub append_eq_condition : Bytes → Bytes → Bytes
append_eq_condition [] str = str
append_eq_condition (x ∷ s) str = (x ∷ s) ++ (and_text ++ str)

-- What the code calls: beans by reflection, and gorm. A change of the database is a transaction, whose
-- error leaves the database as it was.
pub record CurdLib : Type 1 where
  pub Bean : Type 0
  pub Val : Type 0
  pub Db : Type 0
  pub get_find_model : Bytes → Try Bean
  pub to_bean : Dict Bytes Val → Bean → Try Bean
  pub new_value : Bean → Bean
  pub merge_bean : Bean → Bean → Try Bean
  -- The new bean with the old one's version, if it has one.
  pub keep_version : Bean → Bean → Option Bean
  pub to_uint64 : Val → ℕ
  pub is_true : Val → Bool
  -- Whether the row is not found is said by `none`.
  pub take_row : Bytes → ℕ → Bean → Db → Try (Option Bean)
  pub create_row : Bean → Db → Try Db
  pub delete_row : Bytes → ℕ → Bean → Db → Try Db
  pub update_fields : Bytes → List Bytes → Bean → Db → Try Db
  pub update_all : Bytes → Bean → Db → Try Db
  pub result_after_find : Bean → Option (Db → Option CallError)

abbrev pub not_found_text : Bytes
not_found_text = codes "record not found"

-- The texts for an id that is not given, and for a row that is not there.
abbrev pub no_id_text : Bytes
no_id_text = codes "id" ++ (230 ∷ 156 ∷ 170 ∷ 230 ∷ 140 ∷ 135 ∷ 229 ∷ 174 ∷ 154 ∷ [])

abbrev pub no_row_text : Bytes
no_row_text =
    230 ∷ 149 ∷ 176 ∷ 230 ∷ 141 ∷ 174 ∷ 228 ∷ 184 ∷ 141 ∷ 229 ∷ 173 ∷ 152 ∷ 229 ∷ 156 ∷ 168 ∷ []

module _ (l : CurdLib) where
  open l use {Bean, Val, Db}

  pub record CurdParams : Type 0 where
    pub table_name : Bytes
    pub values : Dict Bytes Val
    pub where_text : Bytes
    pub model : Option Bean
    pub before_call : Option (Bean → Bean)
    pub check : Option (Bean → Option CallError)
    pub check_before_update : Option (Bean → Bean → Option CallError)

  -- The error of an operation, and the database behind it.
  abbrev pub Outcome : Type 0
  Outcome = Option CallError × Db

  unfoldable pub id_of : Option Val → ℕ × Bool
  id_of none = (0, false)
  id_of (some idv) = (l.to_uint64 idv, not (l.to_uint64 idv == 0))

  -- The id of a map, and whether it is there and not 0.
  unfoldable pub value_id_uint64 : Dict Bytes Val → ℕ × Bool
  unfolding id_of
  value_id_uint64 val = id_of (lookup (codes "id") val)

  unfoldable pub model_of : CurdParams → Try Bean
  model_of c = elim c.model [ some bean ↦ value bean | none ↦ l.get_find_model c.table_name ]

  unfoldable pub called_before : CurdParams → Bean → Bean
  called_before c bean = elim c.before_call [ none ↦ bean | some f ↦ f bean ]

  unfoldable pub transaction : Try Db → Db → Outcome
  transaction (failed text) db = (some (plain_error text), db)
  transaction (value db') db = (none, db')

  -- A step that may fail, and what follows it.
  unfoldable pub try_then :
      {A : Type 0} → Try A → (Bytes → CallError) → (A → Db → Outcome) → Db → Outcome
  try_then (failed text) e k db = (some (e text), db)
  try_then (value a) e k db = k a db

  unfoldable pub check_then : Option CallError → (Db → Outcome) → Db → Outcome
  check_then (some er) k db = (some er, db)
  check_then none k db = k db

  abbrev pub checked : Option (Bean → Option CallError) → Bean → Option CallError
  checked none bean = none
  checked (some f) bean = f bean

  unfoldable pub create : CurdParams → Db → Outcome
  unfolding model_of called_before try_then check_then transaction
  create c = try_then (model_of c) plain_error (λ model.
      try_then (l.to_bean c.values model) plain_error (λ made.
        let bean = called_before c made in
        check_then (checked c.check bean) (λ db. transaction (l.create_row bean db) db)))

  abbrev pub bad_request : Bytes → CallError
  bad_request text = new_error (pos 400) text

  unfoldable pub found_then : (Bean → Db → Outcome) → Option Bean → Db → Outcome
  found_then k none db = (some (bad_request not_found_text), db)
  found_then k (some row) db = k row db

  -- A row that is read by its id and must be there.
  unfoldable pub take_then : ℕ → Bean → (Bean → Db → Outcome) → Db → Outcome
  unfolding try_then found_then
  take_then idv bean k db = try_then (l.take_row [] idv bean db) bad_request (found_then k) db

  unfoldable pub delete : CurdParams → Db → Outcome
  unfolding value_id_uint64 model_of called_before try_then take_then check_then transaction
  delete c db =
      let (idv, ok) = value_id_uint64 c.values in
      if not ok
      then (some (bad_request no_id_text), db)
      else try_then (model_of c) plain_error
          (λ model. try_then (l.to_bean c.values model) plain_error (λ made.
            take_then idv made (λ row.
              let bean = called_before c row in
              check_then (checked c.check bean)
                (λ db. transaction (l.delete_row c.where_text idv bean db) db))))
          db

  abbrev names : Dict Bytes Val → List Bytes
  names [] = []
  names ((k, v) ∷ m) = k ∷ names m

  -- The update of the fields that the map names, and of the version with the old one.
  unfoldable pub force_update : CurdParams → Bean → Bean → Db → Outcome
  unfolding transaction
  force_update c old new db =
      let fields = names (erase (codes "force_update") (erase (codes "id") c.values)) in
      elim (l.keep_version old new) [
        | none ↦ transaction (l.update_fields c.where_text fields new db) db
        | some kept ↦
            transaction (l.update_fields c.where_text (codes "version" ∷ fields) kept db) db
      ]

  unfoldable pub is_forced : Dict Bytes Val → Bool
  is_forced val = elim (lookup (codes "force_update") val) [ none ↦ false | some v ↦ l.is_true v ]

  abbrev pub checked_update : CurdParams → Bean → Bean → Option CallError
  checked_update c old new = elim c.check_before_update [ none ↦ none | some f ↦ f old new ]

  unfoldable pub update : CurdParams → Db → Outcome
  unfolding value_id_uint64 model_of called_before try_then take_then check_then transaction
      force_update is_forced
  update c db =
      let (idv, ok) = value_id_uint64 c.values in
      if not ok
      then (some (bad_request no_id_text), db)
      else try_then (model_of c) plain_error
          (λ model. take_then idv (l.new_value model) (λ old.
            try_then (l.to_bean c.values (l.new_value model)) plain_error (λ made.
              let new = called_before c made in
              check_then (checked_update c old new) (λ db.
                if is_forced c.values
                then force_update c old new db
                else try_then (l.merge_bean old new) plain_error
                    (λ merged db. transaction (l.update_all c.where_text merged db) db) db))))
          db

  -- `FindByID`, with the table, the id and the condition.
  unfoldable pub row_found : Db → Option Bean → CallError ⊎ Bean
  row_found db none = inl (new_error (pos 404) no_row_text)
  row_found db (some bean) = elim (l.result_after_find bean) [
    | none ↦ inr bean
    | some hook ↦ elim (hook db) [ some er ↦ inl er | none ↦ inr bean ]
  ]

  unfoldable pub find_by_id : Bytes → ℕ → Bytes → Option Bean → Db → CallError ⊎ Bean
  unfolding row_found
  find_by_id table id condition dest db =
      elim (elim dest as (λ x. Try Bean) [
        | some bean ↦ value bean
        | none ↦ l.get_find_model table
      ]) [
        | failed text ↦ inl (plain_error text)
        | value bean ↦ elim (l.take_row condition id bean db) [
          | failed text ↦ inl (plain_error text)
          | value found ↦ row_found db found
        ]
      ]
