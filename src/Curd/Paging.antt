-- ===== src/Curd/Paging.antt =====
-- mdb/curd.go: `FindResultWithModel`, a page of a table's rows.
pub mod Pages
use glibs.Base.{
  ℕ, ◌⊎◌, inl, inr, suc, ◌+◌, ◌-◌, ◌*◌, ◌/◌, ◌%◌, ◌==◌, Bool, true, false, not, ◌&&◌, Option, none,
  some, List, [], ◌∷◌, ◌++◌, if◌then◌else◌, list_eq, ltb, ◌===◌,
}
use glibs.Base.Int.{ℤ, pos, negsuc, ltb_ℤ, leb_ℤ, ◌-ℤ◌, ◌*ℤ◌, wrap64}
use glibs.Base.Bytes.{Bytes, codes}
use glibs.Rpc.{Try, value, failed}
use glibs.J2rpc.{CallError, plain_error}
use glibs.Curd.{default_page_size, max_page_size}

pub record FindParams : Type 0 where
  pub table : Bytes
  pub condition : Bytes
  pub order : Bytes
  pub page_index : ℤ
  pub page_size : ℤ

pub record Pagination : Type 0 where
  pub total : ℕ
  pub size : ℕ
  pub index : ℤ
  pub pages : ℕ

-- A query of gorm, as far as it is built here.
pub record Query : Type 0 where
  pub of_table : Bytes
  pub where_text : Bytes
  pub ordered : Bytes
  pub offset : Option ℤ
  pub limit : Option ℕ

-- The size of a page, as `prepareTx` leaves it.
unfoldable pub clamped_size : ℤ → ℕ
clamped_size (negsuc n) = default_page_size
clamped_size (pos n) =
    let given = if n == 0 then default_page_size else n in
    if ltb max_page_size given then max_page_size else given

abbrev or_newest : Bytes → Bytes
or_newest [] = codes "id DESC"
or_newest (x ∷ s) = x ∷ s

-- `prepareTx`.
unfoldable pub prepare_tx : FindParams → Query
prepare_tx f = record {
  of_table = f.table;
  where_text = f.condition;
  ordered = [];
  offset = none;
  limit = none;
}

-- The number of pages.
unfoldable pub pages_of : ℕ → ℕ → ℕ
pages_of total size =
    if ltb 0 total then total / size + (if ltb 0 (total % size) then 1 else 0) else 0

-- The page's index, and the offset of its first row, if it is not the first page.
unfoldable pub index_of : ℤ → ℕ → ℤ × Option ℤ
index_of page_index size =
    if ltb_ℤ (pos 1) page_index
    then (page_index, some (wrap64 ((page_index -ℤ pos 1) *ℤ pos size)))
    else (pos 1, none)

-- gorm, the registered models, and the hook of a row.
pub record PageLib : Type 1 where
  pub Row : Type 0
  pub Model : Type 0
  pub get_find_model : Bytes → Try Model
  pub count : Query → Try ℕ
  pub find_records : Query → Model → Try (List Row)
  pub result_after_find : Row → Option CallError

module _ (l : PageLib) where
  -- The hooks of the rows, up to the first error.
  unfoldable pub after_find : List l.Row → Option CallError
  after_find [] = none
  after_find (r ∷ rows) =
      let rest = after_find rows in elim (l.result_after_find r) [ some e ↦ some e | none ↦ rest ]

  unfoldable pub hooked_rows : List l.Row → Pagination → CallError ⊎ (List l.Row × Pagination)
  unfolding after_find
  hooked_rows rows p = elim (after_find rows) [ some e ↦ inl e | none ↦ inr (rows, p) ]

  unfoldable pub find_page : FindParams → l.Model → CallError ⊎ (List l.Row × Pagination)
  unfolding prepare_tx clamped_size pages_of index_of hooked_rows
  find_page f model =
      let size = clamped_size f.page_size in
      let tx = prepare_tx f in
      elim (l.count tx) [
        | failed text ↦ inl (plain_error text)
        | value total ↦
            let (index, offset) = index_of f.page_index size in
            elim (l.find_records
              (record tx { ordered = or_newest f.order; offset = offset; limit = some size })
              model) [
                | failed text ↦ inl (plain_error text)
                | value rows ↦ hooked_rows rows (record {
                  total = total;
                  size = size;
                  index = index;
                  pages = pages_of total size;
                })
              ]
      ]

  -- `FindResultWithModel`.
  unfoldable pub find_result_with_model :
      FindParams → Option l.Model → CallError ⊎ (List l.Row × Pagination)
  unfolding find_page
  find_result_with_model f dest =
      if f.table === [] then inl (plain_error (codes "params.Table is empty")) else elim dest [
        | some model ↦ find_page f model
        | none ↦ elim (l.get_find_model f.table) [
          | failed text ↦ inl (plain_error text)
          | value model ↦ find_page f model
        ]
      ]
