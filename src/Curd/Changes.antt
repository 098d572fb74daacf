-- ===== src/Curd/Changes.antt =====
-- mdb/curd.go: what a change of a row that fails leaves, and what one that succeeds has done.
use glibs.Base.{
  ℕ, ◌<◌, ◌≡◌, refl, ap, ◌∙◌, ◌⊎◌, inl, inr, true, false, not, Option, none, some, List, [], ◌∷◌,
  arith, by_if, list_eq,
}
use glibs.Base.Dict.{Dict, lookup, erase}
use glibs.Base.Bytes.{Bytes, codes}
use glibs.Rpc.{Try, value, failed}
use glibs.J2rpc.{CallError}
use glibs.Curd.{
  CurdLib, CurdParams, Outcome, value_id_uint64, model_of, called_before, transaction, try_then,
  check_then, checked, take_then, found_then, bad_request, id_of, delete, names, force_update,
  is_forced, checked_update, update,
}

module _ (l : CurdLib) where
  open l use {Bean, Val, Db}

  -- An error and the database as it was, or no error and a database of which something holds.
  abbrev pub Done : (Db → Type 0) → Db → Option CallError × Db → Type 0
  Done R db o = ((er : CallError) × (o ≡ (some er, db))) ⊎ ((o.0 ≡ none) × R o.1)

  module _ (R : Db → Type 0) (db : Db) where
    transaction-Done :
        (t : Try Db) → ((db' : Db) → t ≡ value db' → R db') → Done R db (transaction l t db)
    unfolding transaction
    transaction-Done (failed text) h = inl (_, refl)
    transaction-Done (value db') h = inr (refl, h db' refl)

    try_then-Done :
        {A : Type 0} (t : Try A) (e : Bytes → CallError) (k : A → Db → Option CallError × Db)
        → ((a : A) → t ≡ value a → Done R db (k a db))
        → Done R db (try_then l t e k db)
    unfolding try_then
    try_then-Done (failed text) e k h = inl (_, refl)
    try_then-Done (value a) e k h = h a refl

    check_then-Done :
        (c : Option CallError) (k : Db → Option CallError × Db)
        → (c ≡ none → Done R db (k db))
        → Done R db (check_then l c k db)
    unfolding check_then
    check_then-Done (some er) k h = inl (er, refl)
    check_then-Done none k h = h refl

    found_then-Done :
        (k : Bean → Db → Option CallError × Db) (r : Option Bean)
        → ((row : Bean) → r ≡ some row → Done R db (k row db))
        → Done R db (found_then l k r db)
    unfolding found_then
    found_then-Done k none h = inl (_, refl)
    found_then-Done k (some row) h = h row refl

    take_then-Done :
        (idv : ℕ) (bean : Bean) (k : Bean → Db → Option CallError × Db)
        → ((row : Bean) → l.take_row [] idv bean db ≡ value (some row) → Done R db (k row db))
        → Done R db (take_then l idv bean k db)
    unfolding take_then
    take_then-Done idv bean k h =
        try_then-Done (l.take_row [] idv bean db) (bad_request l) (found_then l k)
          (λ r e. found_then-Done k r (λ row same. h row (e ∙ ap value same)))

  -- The id that a change is made by.
  abbrev pub HasId : Dict Bytes Val → ℕ → Type 0
  HasId values idv =
      (v : Val) × (lookup (codes "id") values ≡ some v) × (l.to_uint64 v ≡ idv) × (0 < idv)

  id_of-HasId :
      (values : Dict Bytes Val) (o : Option Val)
      → lookup (codes "id") values ≡ o
      → not (id_of l o).1 ≡ false
      → HasId values (id_of l o).0
  unfolding id_of
  id_of-HasId values none e h = absurd (ground (arith, h))
  id_of-HasId values (some v) e h = (v, e, refl, ground (arith, h))

  value_id_uint64-HasId :
      (values : Dict Bytes Val)
      → not (value_id_uint64 l values).1 ≡ false
      → HasId values (value_id_uint64 l values).0
  unfolding value_id_uint64
  value_id_uint64-HasId values h = id_of-HasId values (lookup (codes "id") values) refl h

  -- The bean of the model that the map fills.
  abbrev FilledBean : CurdParams l → Bean → Bean → Type 0
  FilledBean c start made = l.to_bean c.values start ≡ value made

  -- What a successful deletion has done: the row of the id was read into the filled bean, and it is that
  -- row, behind `BeforeCall`, that was checked and is deleted.
  abbrev pub Deleted : CurdParams l → Db → Db → Type 0
  Deleted c db db' =
      (idv : ℕ) × (model : Bean) × (made : Bean) × (row : Bean) × HasId c.values idv
      × (model_of l c ≡ value model)
      × FilledBean c model made
      × (l.take_row [] idv made db ≡ value (some row))
      × (checked l c.check (called_before l c row) ≡ none)
      × (l.delete_row c.where_text idv (called_before l c row) db ≡ value db')

  -- A deletion ends in an error and leaves the database as it was, or it has deleted by the id of the
  -- map, which is not 0, under the condition, after it has found the row of that id. It is the row that
  -- was found, as `BeforeCall` leaves it, that the check, if there is one, has let pass, and that is
  -- handed to the deletion.
  pub delete_lem : (c : CurdParams l) (db : Db) → Done (Deleted c db) db (delete l c db)
  unfolding delete
  delete_lem c db =
      let n = value_id_uint64 l c.values in
      by_if {A = Outcome l} (Done (Deleted c db) db) (not n.1) _ _ (λ e. inl (_, refl))
        (λ ok. try_then-Done (Deleted c db) db (model_of l c) _ _ (λ model m.
          try_then-Done (Deleted c db) db (l.to_bean c.values model) _ _ (λ made f.
            take_then-Done (Deleted c db) db n.0 made _ (λ row there.
              check_then-Done (Deleted c db) db (checked l c.check (called_before l c row)) _
                (λ passed.
                  transaction-Done (Deleted c db) db
                    (l.delete_row c.where_text n.0 (called_before l c row) db)
                    (λ db' done. (
                      n.0,
                      model,
                      made,
                      row,
                      value_id_uint64-HasId c.values ok,
                      m,
                      f,
                      there,
                      passed,
                      done,
                    )))))))

  -- The names of the map but for `id` and `force_update`.
  abbrev named_fields : CurdParams l → List Bytes
  named_fields c = names l (erase (codes "force_update") (erase (codes "id") c.values))

  -- The new values of the named fields were written, with the version of the old row if it has one.
  abbrev Forced : CurdParams l → Bean → Bean → Db → Db → Type 0
  Forced c old new db db' =
      (is_forced l c.values ≡ true) × (elim (l.keep_version old new) as (λ x. Type 0) [
        | none ↦ l.update_fields c.where_text (named_fields c) new db ≡ value db'
        | some kept ↦
            l.update_fields c.where_text (codes "version" ∷ named_fields c) kept db ≡ value db'
      ])

  abbrev Merged : CurdParams l → Bean → Bean → Db → Db → Type 0
  Merged c old new db db' =
      (is_forced l c.values ≡ false)
      × ((merged : Bean) × (l.merge_bean old new ≡ value merged)
          × (l.update_all c.where_text merged db ≡ value db'))

  abbrev pub Updated : CurdParams l → Db → Db → Type 0
  Updated c db db' =
      (idv : ℕ) × (model : Bean) × (made : Bean) × (old : Bean) × HasId c.values idv
      × (model_of l c ≡ value model)
      × FilledBean c (l.new_value model) made
      × (l.take_row [] idv (l.new_value model) db ≡ value (some old))
      × (checked_update l c old (called_before l c made) ≡ none)
      × (Forced c old (called_before l c made) db db'
          ⊎ Merged c old (called_before l c made) db db')

  force_update-Done :
      (R : Db → Type 0) (c : CurdParams l) (old new : Bean) (db : Db)
      → is_forced l c.values ≡ true
      → ((db' : Db) → Forced c old new db db' → R db')
      → Done R db (force_update l c old new db)
  unfolding force_update
  force_update-Done R c old new db forced h =
      kept (l.keep_version old new) (λ db' w. h db' (forced, w))
    where
      kept :
          (v : Option Bean)
          → ((db' : Db)
              → (elim v as (λ x. Type 0) [
                | none ↦ l.update_fields c.where_text (named_fields c) new db ≡ value db'
                | some k ↦
                    l.update_fields c.where_text (codes "version" ∷ named_fields c) k db ≡ value db'
              ])
              → R db')
          → Done R db (elim v as (λ x. Option CallError × Db) [
            | none ↦ transaction l (l.update_fields c.where_text (named_fields c) new db) db
            | some k ↦
                transaction l
                  (l.update_fields c.where_text (codes "version" ∷ named_fields c) k db)
                  db
          ])
      kept none h = transaction-Done R db (l.update_fields c.where_text (named_fields c) new db) h
      kept (some k) h =
          transaction-Done R db
            (l.update_fields c.where_text (codes "version" ∷ named_fields c) k db) h

  -- An update ends in an error and leaves the database as it was, or it has found a row of the map's id,
  -- which is not 0, and the check of that row and of the new values, if there is one, has let them pass.
  -- The new values are the model's new bean filled from the map, as `BeforeCall` leaves it. If the map
  -- forces it, what was written under the condition are their fields that the map names, with the
  -- version of the old row if it has one; else the old row merged with them.
  pub update_lem : (c : CurdParams l) (db : Db) → Done (Updated c db) db (update l c db)
  unfolding update
  update_lem c db =
      let n = value_id_uint64 l c.values in
      by_if {A = Outcome l} (Done (Updated c db) db) (not n.1) _ _ (λ e. inl (_, refl))
        (λ ok. try_then-Done (Updated c db) db (model_of l c) _ _ (λ model m.
          take_then-Done (Updated c db) db n.0 (l.new_value model) _ (λ old there.
            try_then-Done (Updated c db) db (l.to_bean c.values (l.new_value model)) _ _ (λ made f.
              let new = called_before l c made in
              let id = value_id_uint64-HasId c.values ok in
              check_then-Done (Updated c db) db (checked_update l c old new) _ (λ passed.
                let done : (db' : Db)
                    → (Forced c old new db db' ⊎ Merged c old new db db')
                    → Updated c db db' =
                  λ db' w. (n.0, model, made, old, id, m, f, there, passed, w) in
                by_if {A = Outcome l} (Done (Updated c db) db) (is_forced l c.values) _ _
                  (λ forced.
                    force_update-Done (Updated c db) c old new db forced
                      (λ db' w. done db' (inl w)))
                  (λ unforced.
                    try_then-Done (Updated c db) db (l.merge_bean old new) _ _ (λ merged e.
                      transaction-Done (Updated c db) db (l.update_all c.where_text merged db)
                        (λ db' w. done db' (inr (unforced, (merged, e, w)))))))))))
