-- ===== src/J2rpc/Registry/Signatures.antt =====
-- j2rpc/callback.go: which types a method may have.
use glibs.Base.{
  ℕ, ◌≡◌, ◌≤◌, ◌⊎◌, refl, inl, inr, Bool, true, false, Option, none, some, List, [], ◌∷◌, ◌++◌,
  arith, length, Bool-cases, by_if, All, take, ◌<◌,
}
use glibs.J2rpc.Registry.{FuncType, Shape, TypeLib, err_pos_of, split_ctx, make_arg_types}

module _ {Ty : Type 0} (t : TypeLib Ty) where
  -- An error type among the results, and where it may stand.
  abbrev pub ErrorAt : List Ty → Option ℕ → Type 0
  ErrorAt outs none = (outs ≡ []) ⊎ ((a : Ty) × (outs ≡ a ∷ []) × (t.is_error_type a ≡ false))
  ErrorAt outs (some i) =
      (before : List Ty) × (e : Ty) × (outs ≡ before ++ e ∷ [])
      × (length before ≡ i)
      × (length before ≤ 1)
      × (t.is_error_type e ≡ true)
      × All (λ a. t.is_error_type a ≡ false) before

  -- Results that do not fit.
  abbrev pub Unfit : List Ty → Type 0
  Unfit outs =
      (2 < length outs)
      ⊎ ((a : Ty) × (b : Ty) × (outs ≡ a ∷ b ∷ [])
          × ((t.is_error_type a ≡ true) ⊎ (t.is_error_type b ≡ false)))

  abbrev Judged : List Ty → Option (Option ℕ) → Type 0
  Judged outs none = Unfit outs
  Judged outs (some pos) = ErrorAt outs pos

  err_pos_of-Judged : (outs : List Ty) → Judged outs (err_pos_of t outs)
  unfolding err_pos_of
  err_pos_of-Judged [] = inl refl
  err_pos_of-Judged (a ∷ []) =
      by_if {A = Option (Option ℕ)} (Judged (a ∷ [])) (t.is_error_type a) _ _
        (λ e. ([], a, refl, refl, omega arith, e, tt)) (λ e. inr (a, refl, e))
  err_pos_of-Judged (a ∷ b ∷ []) = elim (Bool-cases (t.is_error_type a)) [
    | inl first ↦ rw first (inr (a, b, refl, inl first))
    | inr plain ↦ elim (Bool-cases (t.is_error_type b)) [
      | inr missing ↦ rw (plain, missing) (inr (a, b, refl, inr missing))
      | inl last ↦ rw (plain, last) (a ∷ [], b, refl, refl, omega arith, last, (plain, tt))
    ]
  ]
  err_pos_of-Judged (a ∷ b ∷ c ∷ outs) = inl (omega arith)

  -- The parameters: all of them, or a context and all behind it.
  abbrev pub Parameters : List Ty → Bool × List Ty → Type 0
  Parameters ins (false, arg_types) =
      (arg_types ≡ ins) × All (λ a. t.implements_context a ≡ false) (take 1 ins)
  Parameters ins (true, arg_types) =
      (a : Ty) × (ins ≡ a ∷ arg_types) × (t.implements_context a ≡ true)

  split_ctx-Parameters : (ins : List Ty) → Parameters ins (split_ctx t ins)
  unfolding split_ctx
  split_ctx-Parameters [] = (refl, tt)
  split_ctx-Parameters (a ∷ ins) =
      by_if {A = Bool × List Ty} (Parameters (a ∷ ins)) (t.implements_context a) _ _
        (λ e. (a, refl, e)) (λ e. (refl, (e, tt)))

  abbrev pub Shaped : FuncType Ty → Option (Shape Ty) → Type 0
  Shaped f none = Unfit f.outs
  Shaped f (some s) = ErrorAt f.outs s.err_pos × Parameters f.ins (s.has_ctx, s.arg_types)

  -- A method is refused for its results only: for more than two, or for two of which the first is an
  -- error or the second is none. Else its error is its last result, the only one of such a type, and
  -- a call needs all its parameters but a context in the first place.
  pub make_arg_types_lem : (f : FuncType Ty) → Shaped f (make_arg_types t f)
  unfolding make_arg_types
  make_arg_types_lem f = judged (err_pos_of t f.outs) (err_pos_of-Judged f.outs)
    where
      judged :
          (pos : Option (Option ℕ))
          → Judged f.outs pos
          → Shaped f (elim pos as (λ x. Option (Shape Ty)) [
            | none ↦ none
            | some pos ↦
                let (has_ctx, arg_types) = split_ctx t f.ins in
                some (record { arg_types = arg_types; has_ctx = has_ctx; err_pos = pos })
          ])
      judged none h = h
      judged (some pos) h = (h, split_ctx-Parameters f.ins)
