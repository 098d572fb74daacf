-- ===== src/Rpc/Router/Wiring.antt =====
-- j2rpc2: what the registrations of functions and types keep.
use glibs.Base.{
  ◌≡◌, ◌≢◌, refl, sym, ap, ◌∙◌, inl, inr, Bool, true, false, Option, none, some, List, [], ◌∷◌,
  ◌++◌, if◌then◌else◌, ◌===◌, ===_cases, list_eq, arith, Option-cases, append_assoc, append-nil,
  subst, All,
}
use glibs.Base.Dict.{Dict, lookup, insert, lookup-insert_self, lookup-insert_ne}
use glibs.Base.Bytes.{Bytes}
use glibs.Rpc.{Decoding}
use glibs.Rpc.Router.{
  FuncInfo, Handler, call_handler, Registry, MethodType, Bean, get_or_new_group, use_group,
  add_func, register_func, register_methods, register_type,
}

abbrev Groups : (d : Decoding) → Type 0 → Type 0 → Type 0
Groups d F M = Dict Bytes (List (Handler d F M))

-- The group of a path, among whose handlers is one that calls the function.
abbrev Serves : {d : Decoding} {F M : Type 0} → Groups d F M → Bytes → FuncInfo d F → Type 0
Serves {d} {F} {M} gs k f =
    (pre : List (Handler d F M)) × (post : List (Handler d F M)) × (lookup k gs
      ≡ some (pre ++ call_handler f ∷ post))

All-inserted :
    {V : Type 0} (P : Bytes × V → Type 0) (k : Bytes) (f : V) (fs : Dict Bytes (V))
    → P (k, f)
    → All P fs
    → All P (insert k f fs)
All-inserted P k f [] p h = (p, tt)
All-inserted P k f ((j, g) ∷ fs) p (h, hs) = by_test (j === k) (All-inserted P k f fs p hs)
  where
    by_test :
        (b : Bool)
        → All P (insert k f fs)
        → All P (if b then (k, f) ∷ fs else (j, g) ∷ insert k f fs)
    by_test true rest = (p, hs)
    by_test false rest = (h, rest)

module _ {d : Decoding} {F M : Type 0} where
  -- Every function of the router has its own name, and is served by the group of that name.
  unfoldable pub IsWired : Registry d F M → Type 0
  IsWired s = All (λ e. (e.1.name ≡ e.0) × Serves s.groups e.0 e.1) s.funcs

  use_group-funcs :
      (path : Bytes) (hs : List (Handler d F M)) (s : Registry d F M)
      → (use_group path hs s).funcs ≡ s.funcs
  unfolding use_group get_or_new_group
  use_group-funcs path hs s = elim (Option-cases (lookup path s.groups)) [
    | inl absent ↦ ground arith
    | inr (old, found) ↦ ground arith
  ]

  use_group-found :
      (path : Bytes) (hs old : List (Handler d F M)) (s : Registry d F M)
      → lookup path s.groups ≡ some old
      → (use_group path hs s).groups ≡ insert path (old ++ hs) s.groups
  unfolding use_group get_or_new_group
  use_group-found path hs old s h = ground arith

  use_group-new :
      (path : Bytes) (hs : List (Handler d F M)) (s : Registry d F M)
      → lookup path s.groups ≡ none
      → (use_group path hs s).groups ≡ insert path hs (insert path [] s.groups)
  unfolding use_group get_or_new_group
  use_group-new path hs s h = ground arith

  -- The handlers of a group are only ever extended.
  use_group-lookup :
      (path : Bytes) (hs : List (Handler d F M)) (s : Registry d F M) (k : Bytes)
      (xs : List (Handler d F M))
      → lookup k s.groups ≡ some xs
      → (ys : List (Handler d F M)) × (lookup k (use_group path hs s).groups ≡ some (xs ++ ys))
  use_group-lookup path hs s k xs h = elim (===_cases path k) [
    | inl (same, _) ↦ (
      hs,
      ap (lookup k) (use_group-found path hs xs s (ap (λ x. lookup x s.groups) same ∙ h))
          ∙ (ap (λ x. lookup x (insert path (xs ++ hs) s.groups)) (sym same)
              ∙ lookup-insert_self path (xs ++ hs) s.groups),
    )
    | inr (ne, _) ↦ ([], apart (lookup path s.groups) refl ne ∙ (h ∙ ap some (sym (append-nil xs))))
  ]
    where
      apart :
          (o : Option (List (Handler d F M)))
          → lookup path s.groups ≡ o
          → path ≢ k
          → lookup k (use_group path hs s).groups ≡ lookup k s.groups
      apart none e ne =
          ap (lookup k) (use_group-new path hs s e)
          ∙ (lookup-insert_ne path k hs (insert path [] s.groups) ne
              ∙ lookup-insert_ne path k [] s.groups ne)
      apart (some old) e ne =
          ap (lookup k) (use_group-found path hs old s e)
          ∙ lookup-insert_ne path k (old ++ hs) s.groups ne

  use_group-served :
      (path : Bytes) (hs : List (Handler d F M)) (s : Registry d F M)
      → (pre : List (Handler d F M)) × (lookup path (use_group path hs s).groups ≡ some (pre ++ hs))
  use_group-served path hs s = elim (Option-cases (lookup path s.groups)) [
    | inl absent ↦ (
      [],
      ap (lookup path) (use_group-new path hs s absent)
          ∙ lookup-insert_self path hs (insert path [] s.groups),
    )
    | inr (old, found) ↦ (
      old,
      ap (lookup path) (use_group-found path hs old s found)
          ∙ lookup-insert_self path (old ++ hs) s.groups,
    )
  ]

  grown :
      (path : Bytes) (hs : List (Handler d F M)) (s : Registry d F M) (k : Bytes) (f : FuncInfo d F)
      → Serves s.groups k f
      → Serves (use_group path hs s).groups k f
  grown path hs s k f (pre, post, h) =
      let (ys, e) = use_group-lookup path hs s k (pre ++ call_handler f ∷ post) h in
      (pre, post ++ ys, e ∙ ap some (append_assoc pre (call_handler f ∷ post) ys))

  All-grown :
      (path : Bytes) (hs : List (Handler d F M)) (s : Registry d F M)
      (fs : Dict Bytes (FuncInfo d F))
      → All (λ e. (e.1.name ≡ e.0) × Serves s.groups e.0 e.1) fs
      → All (λ e. (e.1.name ≡ e.0) × Serves (use_group path hs s).groups e.0 e.1) fs
  All-grown path hs s [] h = tt
  All-grown path hs s ((k, f) ∷ fs) (h, hs') =
      ((h.0, grown path hs s k f h.1), All-grown path hs s fs hs')

  use_group-IsWired :
      (path : Bytes) (hs : List (Handler d F M)) (s : Registry d F M)
      → IsWired s
      → IsWired (use_group path hs s)
  unfolding IsWired
  use_group-IsWired path hs s h =
      subst (λ fs. All (λ e. (e.1.name ≡ e.0) × Serves (use_group path hs s).groups e.0 e.1) fs)
        (sym (use_group-funcs path hs s)) (All-grown path hs s s.funcs h)

  add_func-IsWired :
      (info : FuncInfo d F) (s : Registry d F M) → IsWired s → IsWired (add_func info s)
  unfolding add_func IsWired
  add_func-IsWired info s h = by_name (lookup info.name s.funcs)
    where
      listed : Registry d F M
      listed = record s { funcs = insert info.name info s.funcs }

      by_name :
          (o : Option (FuncInfo d F))
          → IsWired
              (elim o [ some old ↦ s | none ↦ use_group info.name (call_handler info ∷ []) listed ])
      by_name (some old) = h
      by_name none =
          let (pre, e) = use_group-served info.name (call_handler info ∷ []) listed in
          subst
            (λ fs.
              All
                (λ e.
                  (e.1.name ≡ e.0)
                  × Serves (use_group info.name (call_handler info ∷ []) listed).groups e.0 e.1)
                fs)
            (sym (use_group-funcs info.name (call_handler info ∷ []) listed))
            (All-inserted _ info.name info s.funcs (refl, (pre, [], e))
              (All-grown info.name (call_handler info ∷ []) listed s.funcs h))

  add_func-keeps :
      (info : FuncInfo d F) (s : Registry d F M) (k : Bytes) (f : FuncInfo d F)
      → lookup k s.funcs ≡ some f
      → lookup k (add_func info s).funcs ≡ some f
  unfolding add_func
  add_func-keeps info s k f h = elim (Option-cases (lookup info.name s.funcs)) [
    | inr (old, found) ↦ ground arith
    | inl absent ↦
        ap (lookup k) (listed absent)
        ∙ (lookup-insert_ne info.name k info s.funcs (distinct absent) ∙ h)
  ]
    where
      listed :
          lookup info.name s.funcs ≡ none → (add_func info s).funcs ≡ insert info.name info s.funcs
      listed absent =
          rw (absent, add_func)
            (use_group-funcs info.name (call_handler info ∷ [])
              (record s { funcs = insert info.name info s.funcs }))

      clash : some f ≡ none → ⊥
      clash e = absurd (ground arith)

      distinct : lookup info.name s.funcs ≡ none → info.name ≢ k
      distinct absent same = clash (sym h ∙ (sym (ap (λ x. lookup x s.funcs) same) ∙ absent))

  register_methods-IsWired :
      (p : Bytes → Bytes) (b : Bean d F) (name : Bytes) (ms : List (MethodType d F))
      (s : Registry d F M)
      → IsWired s
      → IsWired (register_methods p b name ms s)
  unfolding register_methods
  register_methods-IsWired p b name [] s h = h
  register_methods-IsWired p b name (m ∷ ms) s h =
      register_methods-IsWired p b name ms _ (add_func-IsWired _ s h)

  register_methods-keeps :
      (p : Bytes → Bytes) (b : Bean d F) (name : Bytes) (ms : List (MethodType d F))
      (s : Registry d F M) (k : Bytes) (f : FuncInfo d F)
      → lookup k s.funcs ≡ some f
      → lookup k (register_methods p b name ms s).funcs ≡ some f
  unfolding register_methods
  register_methods-keeps p b name [] s k f h = h
  register_methods-keeps p b name (m ∷ ms) s k f h =
      register_methods-keeps p b name ms _ k f (add_func-keeps _ s k f h)

  -- Registering a type, registering a function and adding handlers to a group keep the router and the
  -- groups in step: every registered function stands under its own name, and its call is among the
  -- handlers of the group of that name.
  pub register-IsWired :
      (p : Bytes → Bytes) (b : Bean d F) (m : MethodType d F) (name : Bytes)
      (hs : List (Handler d F M)) (s : Registry d F M)
      → IsWired s
      → IsWired (register_type p b name s)
        × IsWired (register_func p m name s)
        × IsWired (use_group name hs s)
  unfolding register_type register_func
  register-IsWired p b m name hs s h = (
    register_methods-IsWired p b _ b.methods s h,
    add_func-IsWired _ s h,
    use_group-IsWired name hs s h,
  )

  -- The first registration of a name stands: neither a type nor a function replaces a function that is
  -- there under a name.
  pub register-keeps :
      (p : Bytes → Bytes) (b : Bean d F) (m : MethodType d F) (name : Bytes) (s : Registry d F M)
      (k : Bytes) (f : FuncInfo d F)
      → lookup k s.funcs ≡ some f
      → (lookup k (register_type p b name s).funcs ≡ some f)
        × (lookup k (register_func p m name s).funcs ≡ some f)
  unfolding register_type register_func
  register-keeps p b m name s k f h =
      (register_methods-keeps p b _ b.methods s k f h, add_func-keeps _ s k f h)
