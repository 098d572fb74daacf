-- ===== src/J2rpc/Messages.antt =====
-- j2rpc/handler.go and j2rpc/message.go: the list of handlers, and a method's two parts.
use glibs.Base.{
  by_if, ◌≡◌, ◌⊎◌, refl, sym, subst, ◌∙◌, true, false, none, some, List, [], ◌∷◌, ◌++◌, arith,
  if◌then◌else◌, inl, inr, ◌===◌, list_eq, ===_self, ===_cases, Option-cases, All, ◌≢◌,
  append_assoc, append-nil,
}
use glibs.Base.Bytes.{Bytes}
use glibs.Base.Split.{cut, cut-append, cut-before, has_part}
use glibs.Rpc.{RpcMessage}
use glibs.J2rpc.{methods, split_method_separator, is_duplicate, upsert_handlers}

module _ {H : Type 0} (func_name_full : H → Bytes) where
  -- No two handlers have one name.
  abbrev pub IsUnique : List H → Type 0
  IsUnique [] = Unit {0}
  IsUnique (h ∷ hs) = (is_duplicate func_name_full (func_name_full h) hs ≡ false) × IsUnique hs

  is_duplicate-append :
      (fn : Bytes) (xs ys : List H)
      → is_duplicate func_name_full fn (xs ++ ys)
        ≡ (if is_duplicate func_name_full fn xs then true else is_duplicate func_name_full fn ys)
  unfolding is_duplicate
  is_duplicate-append fn [] ys = refl
  is_duplicate-append fn (x ∷ xs) ys = ground (arith, is_duplicate-append fn xs ys)

  is_duplicate-grown :
      (fn : Bytes) (xs ys : List H)
      → is_duplicate func_name_full fn xs ≡ true
      → is_duplicate func_name_full fn (xs ++ ys) ≡ true
  is_duplicate-grown fn xs ys h = is_duplicate-append fn xs ys ∙ rw h refl

  push-IsUnique :
      (h : H) (hs : List H)
      → IsUnique hs
      → is_duplicate func_name_full (func_name_full h) hs ≡ false
      → IsUnique (hs ++ h ∷ [])
  unfolding is_duplicate
  push-IsUnique h [] u new = (refl, tt)
  push-IsUnique h (x ∷ xs) (first, u) new = elim (===_cases (func_name_full h) (func_name_full x)) [
    | inl (_, same) ↦ absurd (ground arith)
    | inr (_, apart) ↦ (
      is_duplicate-append (func_name_full x) xs (h ∷ [])
          ∙ rw first (other (===_cases (func_name_full x) (func_name_full h))),
      push-IsUnique h xs u (ground arith),
    )
  ]
    where
      other :
          ((func_name_full x ≡ func_name_full h) × ((func_name_full x === func_name_full h) ≡ true))
            ⊎ ((func_name_full x ≢ func_name_full h)
                × ((func_name_full x === func_name_full h) ≡ false))
          → (if func_name_full x === func_name_full h then true else false) ≡ false
      other (inr (_, e)) = rw e refl
      other (inl (p, e)) = absurd (
          ground (
            arith,
            new,
            subst (λ n. (func_name_full h === n) ≡ true) (sym p) (===_self (func_name_full h)),
          ))

  abbrev Kept : List H → List H → List H → Type 0
  Kept handlers new_handlers out =
      IsUnique out
      × ((more : List H) × (out ≡ handlers ++ more))
      × All (λ h. is_duplicate func_name_full (func_name_full h) out ≡ true) new_handlers

  -- `Use` keeps the handlers that are there, in their order and before the others; no two handlers have
  -- one name behind it, if none had before, and each new handler's name is among them.
  pub upsert_handlers-IsUnique :
      (handlers new_handlers : List H)
      → IsUnique handlers
      → IsUnique (upsert_handlers func_name_full handlers new_handlers)
        × ((more : List H) × (upsert_handlers func_name_full handlers new_handlers
              ≡ handlers ++ more))
        × All
            (λ h.
              is_duplicate func_name_full
                (func_name_full h)
                (upsert_handlers func_name_full handlers new_handlers)
              ≡ true)
            new_handlers
  unfolding upsert_handlers
  upsert_handlers-IsUnique handlers [] u = (u, ([], sym (append-nil handlers)), tt)
  upsert_handlers-IsUnique handlers (h ∷ new_handlers) u =
      by_if {A = List H}
        (λ x. Kept handlers (h ∷ new_handlers) (upsert_handlers func_name_full x new_handlers))
        (is_duplicate func_name_full (func_name_full h) handlers) _ _
        (λ old.
          let (v, (more, e), all) = upsert_handlers-IsUnique handlers new_handlers u in
          (
            v,
            (more, e),
            (
              subst (Named h) (sym e) (is_duplicate-grown (func_name_full h) handlers more old),
              all,
            ),
          ))
        (λ new.
          let pushed = push-IsUnique h handlers u new in
          let (v, (more, e), all) =
            upsert_handlers-IsUnique (handlers ++ h ∷ []) new_handlers pushed in
          let here =
            is_duplicate-append (func_name_full h) handlers (h ∷ [])
            ∙ rw (new, is_duplicate, ===_self (func_name_full h)) refl in
          (
            v,
            (h ∷ more, e ∙ append_assoc handlers (h ∷ []) more),
            (
              subst (Named h) (sym e)
                  (is_duplicate-grown (func_name_full h) (handlers ++ h ∷ []) more here),
              all,
            ),
          ))
    where
      Named : H → List H → Type 0
      Named h out = is_duplicate func_name_full (func_name_full h) out ≡ true

-- A method is its namespace, a dot and its name, the namespace being what stands before the first dot;
-- without a dot it has neither.
pub methods_lem :
    (r : RpcMessage)
    → ((methods r ≡ none) × (has_part split_method_separator r.method ≡ false))
      ⊎ ((a : Bytes) × (b : Bytes) × (methods r ≡ some (a, b))
          × (r.method ≡ a ++ (split_method_separator ++ b))
          × (has_part split_method_separator a ≡ false))
unfolding methods has_part
methods_lem r = elim (Option-cases (cut split_method_separator r.method)) [
  | inl missing ↦ inl (missing, rw (has_part, missing) refl)
  | inr ((a, b), found) ↦ inr (
    a,
    b,
    found,
    cut-append split_method_separator r.method a b found,
    rw (has_part, cut-before split_method_separator r.method a b (omega arith) found) refl,
  )
]
