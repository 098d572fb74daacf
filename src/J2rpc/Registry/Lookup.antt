-- ===== src/J2rpc/Registry/Lookup.antt =====
-- j2rpc/j2rpc.go: what can be called behind a registration.
use glibs.Base.{
  ◌≡◌, refl, sym, ap, subst, ◌∙◌, ◌⊎◌, inl, inr, Bool, true, false, not, Option, none, some, List,
  [], ◌∷◌, ◌++◌, arith, by_if, append_assoc, ===_cases, list_eq,
}
use glibs.Base.Bytes.{Bytes, codes}
use glibs.Base.Dict.{Dict, lookup, insert, elem, lookup-insert_self, lookup-insert_ne}
use glibs.J2rpc.{CallError, new_error, err_no_method}
use glibs.J2rpc.Registry.{
  Shape, TypeLib, make_arg_types, Method, Receiver, Callback, Service, Services, skipped_names,
  format_name, append_method, append_methods, suitable_callbacks, service_name, register,
  callback_in, get_call_back,
}

some_inj : {A : Type 0} (a b : A) → some a ≡ some b → a ≡ b
some_inj {A} a b e = ap inside e
  where
    inside : Option A → A
    inside none = a
    inside (some x) = x

module _ {Ty F : Type 0} (t : TypeLib Ty) where
  -- A callback is that of an exported method that is not skipped and whose type fits, under its name.
  abbrev pub IsOffer : Bool → List Bytes → Method Ty F → Bytes → Callback Ty F → Type 0
  IsOffer snake skips m k cb =
      (format_name snake m.name ≡ k)
      × (m.exported ≡ true)
      × (elem m.name skips ≡ false)
      × (make_arg_types t m.fn_type ≡ some cb.shape)
      × (cb.method_name ≡ m.name)
      × (cb.fn ≡ m.fn)

  -- One of the methods is offered.
  abbrev pub Offered : Bool → List Bytes → List (Method Ty F) → Bytes → Callback Ty F → Type 0
  Offered snake skips ms k cb =
      (before : List (Method Ty F)) × (m : Method Ty F) × (behind : List (Method Ty F)) × (ms
        ≡ before ++ m ∷ behind)
      × IsOffer snake skips m k cb

  append_method-lookup :
      (snake : Bool) (skips : List Bytes) (m : Method Ty F) (cs : Dict Bytes (Callback Ty F))
      (k : Bytes) (cb : Callback Ty F)
      → lookup k (append_method t snake skips m cs) ≡ some cb
      → (lookup k cs ≡ some cb) ⊎ Offered snake skips (m ∷ []) k cb
  unfolding append_method
  append_method-lookup snake skips m cs k cb =
      by_if {A = Dict Bytes (Callback Ty F)} Found (not m.exported) _ _ (λ e h. inl h)
        (λ e.
          by_if {A = Dict Bytes (Callback Ty F)} Found (elem m.name skips) _ _ (λ e h. inl h)
            (λ kept. offered (ground (arith, e)) kept (make_arg_types t m.fn_type) refl))
    where
      Found : Dict Bytes (Callback Ty F) → Type 0
      Found x = lookup k x ≡ some cb → (lookup k cs ≡ some cb) ⊎ Offered snake skips (m ∷ []) k cb

      name : Bytes
      name = format_name snake m.name

      put : Shape Ty → Callback Ty F
      put shape = record { method_name = m.name; fn = m.fn; shape = shape }

      offered :
          m.exported ≡ true
          → elem m.name skips ≡ false
          → (s : Option (Shape Ty)) → make_arg_types t m.fn_type ≡ s
          → Found (elim s as (λ x. Dict Bytes (Callback Ty F)) [
            | none ↦ cs
            | some shape ↦ insert name (put shape) cs
          ])
      offered exported kept none fits h = inl h
      offered exported kept (some shape) fits h = elim (===_cases name k) [
        | inr (apart, _) ↦ inl (sym (lookup-insert_ne name k (put shape) cs apart) ∙ h)
        | inl (same, _) ↦
            let c : put shape ≡ cb = some_inj (put shape) cb (
              sym (lookup-insert_self k (put shape) cs)
              ∙ (ap (λ x. lookup k (insert x (put shape) cs)) (sym same) ∙ h)) in
            inr (
              [],
              m,
              [],
              refl,
              (
                same,
                exported,
                kept,
                fits ∙ ap (λ x. some x.shape) c,
                ap (λ x. x.method_name) (sym c),
                ap (λ x. x.fn) (sym c),
              ),
            )
      ]

  append_methods-lookup :
      (snake : Bool) (skips : List Bytes) (ms : List (Method Ty F))
      (cs : Dict Bytes (Callback Ty F)) (k : Bytes) (cb : Callback Ty F)
      → lookup k (append_methods t snake skips ms cs) ≡ some cb
      → (lookup k cs ≡ some cb) ⊎ Offered snake skips ms k cb
  unfolding append_methods
  append_methods-lookup snake skips [] cs k cb h = inl h
  append_methods-lookup snake skips (m ∷ ms) cs k cb h =
      elim (append_methods-lookup snake skips ms (append_method t snake skips m cs) k cb h) [
        | inr (before, x, behind, e, rest) ↦ inr (m ∷ before, x, behind, ap (λ r. m ∷ r) e, rest)
        | inl old ↦ elim (append_method-lookup snake skips m cs k cb old) [
          | inl older ↦ inl older
          | inr (before, x, behind, e, rest) ↦ inr (
            before,
            x,
            behind ++ ms,
            ap (λ r. r ++ ms) e ∙ append_assoc before (x ∷ behind) ms,
            rest,
          )
        ]
      ]

  abbrev pub skips_of : Services Ty F → Receiver Ty F → List Bytes
  skips_of s r = skipped_names ++ (s.exclude_methods ++ r.exclude_method)

  -- What a registration leaves that succeeds.
  register-cases :
      (r : Receiver Ty F) (names : List Bytes) (s s' : Services Ty F)
      → register t r names s ≡ some s'
      → (s ≡ s')
        ⊎ ((lookup (service_name s r names) s.services ≡ none)
            × ((cs : Dict Bytes (Callback Ty F)) × (suitable_callbacks t s r ≡ cs)
                × (s'.services
                    ≡ insert
                        (service_name s r names)
                        (record { name = service_name s r names; receiver = r; callbacks = cs })
                        s.services)))
  unfolding register
  register-cases r names s s' h =
      by_callbacks (suitable_callbacks t s r) refl (lookup name s.services) refl h
    where
      name : Bytes
      name = service_name s r names

      added : Dict Bytes (Callback Ty F) → Services Ty F
      added cs = record s {
        services = insert name (record { name = name; receiver = r; callbacks = cs }) s.services;
      }

      by_callbacks :
          (cs : Dict Bytes (Callback Ty F))
          → suitable_callbacks t s r ≡ cs
          → (old : Option (Service Ty F)) → lookup name s.services ≡ old
          → (elim cs as (λ x. Option (Services Ty F)) [
            | [] ↦ some s
            | c ∷ cs ↦ elim old [ some x ↦ none | none ↦ some (added (c ∷ cs)) ]
          ])
            ≡ some s'
          → (s ≡ s')
            ⊎ ((lookup name s.services ≡ none)
                × ((cs : Dict Bytes (Callback Ty F)) × (suitable_callbacks t s r ≡ cs)
                    × (s'.services ≡ (added cs).services)))
      by_callbacks [] e old found h = inl (some_inj s s' h)
      by_callbacks (c ∷ cs) e (some x) found h = absurd (ground arith)
      by_callbacks (c ∷ cs) e none found h =
          inr (found, (c ∷ cs, e, ap (λ x. x.services) (sym (some_inj (added (c ∷ cs)) s' h))))

  callback_in-callbacks :
      (svs : Service Ty F) (m : Bytes) (cb : Callback Ty F)
      → callback_in (some svs) m ≡ inr cb
      → lookup m svs.callbacks ≡ some cb
  unfolding callback_in
  callback_in-callbacks svs m cb h = given (lookup m svs.callbacks) h
    where
      given :
          (o : Option (Callback Ty F))
          → (elim o as (λ x. CallError ⊎ Callback Ty F) [
            | none ↦ inl (new_error err_no_method (codes "no method"))
            | some cbk ↦ inr cbk
          ])
            ≡ inr cb
          → o ≡ some cb
      given none h = absurd (ground arith)
      given (some x) h = ap (λ y. some (inside y)) h
        where
          inside : CallError ⊎ Callback Ty F → Callback Ty F
          inside (inl e) = x
          inside (inr y) = y

  offers :
      (s : Services Ty F) (r : Receiver Ty F) (m : Bytes) (cb : Callback Ty F)
      → lookup m (suitable_callbacks t s r) ≡ some cb
      → Offered s.snake_namespace (skips_of s r) r.all_methods m cb
  unfolding suitable_callbacks
  offers s r m cb h =
      elim (append_methods-lookup s.snake_namespace (skips_of s r) r.all_methods [] m cb h) [
        | inl e ↦ absurd (ground (arith, e))
        | inr offered ↦ offered
      ]

  -- A method that is found behind a registration was found before, or is an offer of the receiver under
  -- the receiver's namespace.
  pub register_sound :
      (r : Receiver Ty F) (names : List Bytes) (s s' : Services Ty F) (ns m : Bytes)
      (cb : Callback Ty F)
      → register t r names s ≡ some s'
      → get_call_back s' ns m ≡ inr cb
      → (get_call_back s ns m ≡ inr cb)
        ⊎ ((service_name s r names ≡ ns)
            × Offered s.snake_namespace (skips_of s r) r.all_methods m cb)
  unfolding get_call_back
  register_sound r names s s' ns m cb done h = elim (register-cases r names s s' done) [
    | inl same ↦ inl (subst (λ x. callback_in (lookup ns x.services) m ≡ inr cb) (sym same) h)
    | inr (fresh, (cs, fits, grown)) ↦
        let svc : Service Ty F = record {
          name = service_name s r names;
          receiver = r;
          callbacks = cs;
        } in
        let h' = subst (λ x. callback_in (lookup ns x) m ≡ inr cb) grown h in
        elim (===_cases (service_name s r names) ns) [
          | inr (apart, _) ↦ inl (
              subst (λ x. callback_in x m ≡ inr cb)
                (lookup-insert_ne (service_name s r names) ns svc s.services apart) h')
          | inl (p, _) ↦
              let own : lookup ns (insert (service_name s r names) svc s.services) ≡ some svc =
                ap (λ x. lookup x (insert (service_name s r names) svc s.services)) (sym p)
                ∙ lookup-insert_self (service_name s r names) svc s.services in
              let listed =
                callback_in-callbacks svc m cb (subst (λ x. callback_in x m ≡ inr cb) own h') in
              inr (p, offers s r m cb (ap (λ x. lookup m x) fits ∙ listed))
        ]
  ]

  callback_in-none : (m : Bytes) (cb : Callback Ty F) → callback_in none m ≡ inr cb → ⊥
  unfolding callback_in
  callback_in-none m cb e = absurd (ground (arith, e))

  -- A registration loses no method that could be called.
  pub register_keeps :
      (r : Receiver Ty F) (names : List Bytes) (s s' : Services Ty F) (ns m : Bytes)
      (cb : Callback Ty F)
      → register t r names s ≡ some s'
      → get_call_back s ns m ≡ inr cb
      → get_call_back s' ns m ≡ inr cb
  unfolding get_call_back
  register_keeps r names s s' ns m cb done h = elim (register-cases r names s s' done) [
    | inl same ↦ subst (λ x. callback_in (lookup ns x.services) m ≡ inr cb) same h
    | inr (fresh, (cs, fits, grown)) ↦
        let svc : Service Ty F = record {
          name = service_name s r names;
          receiver = r;
          callbacks = cs;
        } in
        subst (λ x. callback_in (lookup ns x) m ≡ inr cb) (sym grown)
          (elim (===_cases (service_name s r names) ns) [
            | inr (apart, _) ↦
                subst (λ x. callback_in x m ≡ inr cb)
                  (sym (lookup-insert_ne (service_name s r names) ns svc s.services apart)) h
            | inl (p, _) ↦ absurd (
                callback_in-none m cb (
                  subst (λ x. callback_in x m ≡ inr cb)
                    (ap (λ x. lookup x s.services) (sym p) ∙ fresh) h))
          ])
  ]
