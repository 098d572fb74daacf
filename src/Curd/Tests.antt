-- ===== src/Curd/Tests.antt =====
-- mdb/curd.go: changes of a table with one row, and a page of many rows.
use glibs.Base.{
  ℕ, ◌+◌, ◌≤◌, ◌<◌, ◌≡◌, refl, Bool, true, false, none, some, List, [], ◌∷◌, arith, if◌then◌else◌,
  ◌==◌, list_eq,
}
use glibs.Base.Int.{pos, negsuc}
use glibs.Base.Bytes.{codes}
use glibs.Rpc.{value}
use glibs.Curd.{CurdLib, CurdParams, delete, update, add_where_condition}
use glibs.Curd.Changes.{Done, Deleted, Updated, delete_lem, update_lem}
use glibs.Curd.Paging.{clamped_size, pages_of, index_of}
use glibs.Curd.Paging.Pages.{first_row, page_of_row}

-- A row is its number; the table has the numbers of a list.
abbrev has : ℕ → List ℕ → Bool
has n [] = false
has n (m ∷ ms) = if n == m then true else has n ms

abbrev numbers : CurdLib
numbers = record {
  Bean = ℕ;
  Val = ℕ;
  Db = List ℕ;
  get_find_model = λ t. value 0;
  to_bean = λ m b. value b;
  new_value = λ b. b;
  merge_bean = λ a b. value a;
  keep_version = λ a b. none;
  to_uint64 = λ n. n;
  is_true = λ n. n == 1;
  take_row = λ c id b db. value (if has id db then some id else none);
  create_row = λ b db. value (b ∷ db);
  delete_row = λ w id b db. value [];
  update_fields = λ w fs b db. value (b ∷ []);
  update_all = λ w b db. value (b ∷ []);
  result_after_find = λ b. none;
}

abbrev seven : CurdParams numbers
seven = record {
  table_name = codes "t";
  values = (codes "id", 7) ∷ [];
  where_text = [];
  model = none;
  before_call = none;
  check = none;
  check_before_update = none;
}

delete_lem_example :
    Done numbers (Deleted numbers seven (7 ∷ [])) (7 ∷ []) (delete numbers seven (7 ∷ []))
delete_lem_example = delete_lem numbers seven (7 ∷ [])

update_lem_example :
    Done numbers (Updated numbers seven (7 ∷ [])) (7 ∷ []) (update numbers seven (7 ∷ []))
update_lem_example = update_lem numbers seven (7 ∷ [])

page_of_row_example :
    (p : ℕ) × (1 ≤ p)
    × (p ≤ pages_of 25 (clamped_size (negsuc 0)))
    × ((start : ℕ) × (first_row (index_of (pos p) (clamped_size (negsuc 0))) ≡ pos start)
        × (start ≤ 24)
        × (24 < start + clamped_size (negsuc 0)))
    × (1 ≤ clamped_size (negsuc 0))
    × (clamped_size (negsuc 0) ≤ 100)
page_of_row_example = page_of_row 25 24 (negsuc 0) (omega arith) (omega arith)

-- A condition is appended without brackets.
user_condition :
    add_where_condition (λ s. s) (codes "a = 1 OR b = 2") (codes "user_id = 5")
    ≡ codes "a = 1 OR b = 2 AND user_id = 5"
unfolding add_where_condition
user_condition = refl
