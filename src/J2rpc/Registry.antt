-- ===== src/J2rpc/Registry.antt =====
-- j2rpc/j2rpc.go and j2rpc/callback.go: the registration of a receiver's methods. Reflection is a
-- parameter: what it says of a receiver is the record `Receiver`. `Constructor` is user code and is
-- left out, as is `RegisterForApp`, which registers an object's fields one by one.
pub mod Signatures
pub mod Lookup
use glibs.Base.{
  ℕ, ◌⊎◌, inl, inr, Bool, true, false, not, ◌&&◌, ◌||◌, Option, none, some, List, [], ◌∷◌, ◌++◌,
  if◌then◌else◌, ◌===◌, list_eq,
}
use glibs.Base.Bytes.{Bytes, codes}
use glibs.Base.Dict.{Dict, lookup, insert, elem}
use glibs.Collections.{snake_string}
use glibs.J2rpc.{CallError, new_error, err_no_method}

-- A method's type: its parameters behind the receiver, and its results.
pub record FuncType (Ty : Type 0) : Type 0 where
  pub ins : List Ty
  pub outs : List Ty

-- What `makeArgTypes` finds: -1 for the position of the error is `none`.
pub record Shape (Ty : Type 0) : Type 0 where
  pub arg_types : List Ty
  pub has_ctx : Bool
  pub err_pos : Option ℕ

-- What reflection says of types.
pub record TypeLib (Ty : Type 0) : Type 0 where
  pub is_error_type : Ty → Bool
  pub implements_context : Ty → Bool

module _ {Ty : Type 0} (t : TypeLib Ty) where
  -- The position of the error among the results, or that they do not fit.
  unfoldable pub err_pos_of : List Ty → Option (Option ℕ)
  err_pos_of [] = some none
  err_pos_of (a ∷ []) = if t.is_error_type a then some (some 0) else some none
  err_pos_of (a ∷ b ∷ []) =
      if t.is_error_type a || not (t.is_error_type b) then none else some (some 1)
  err_pos_of (a ∷ b ∷ c ∷ outs) = none

  -- The parameters behind a context in the first place.
  unfoldable pub split_ctx : List Ty → Bool × List Ty
  split_ctx [] = (false, [])
  split_ctx (a ∷ ins) = if t.implements_context a then (true, ins) else (false, a ∷ ins)

  unfoldable pub make_arg_types : FuncType Ty → Option (Shape Ty)
  unfolding err_pos_of split_ctx
  make_arg_types f = elim (err_pos_of f.outs) [
    | none ↦ none
    | some pos ↦
        let (has_ctx, arg_types) = split_ctx f.ins in
        some (record { arg_types = arg_types; has_ctx = has_ctx; err_pos = pos })
  ]

-- A method of a receiver; `exported` is an empty `PkgPath`.
pub record Method (Ty F : Type 0) : Type 0 where
  pub name : Bytes
  pub exported : Bool
  pub fn_type : FuncType Ty
  pub fn : F

pub record Receiver (Ty F : Type 0) : Type 0 where
  pub type_name : Bytes
  -- `J2rpcNamespaceName` and `ExcludeMethod`, where it has them.
  pub namespace_name : Option Bytes
  pub exclude_method : List Bytes
  pub all_methods : List (Method Ty F)

pub record Callback (Ty F : Type 0) : Type 0 where
  pub method_name : Bytes
  pub fn : F
  pub shape : Shape Ty

pub record Service (Ty F : Type 0) : Type 0 where
  pub name : Bytes
  pub receiver : Receiver Ty F
  pub callbacks : Dict Bytes (Callback Ty F)

pub record Services (Ty F : Type 0) : Type 0 where
  pub snake_namespace : Bool
  pub exclude_methods : List Bytes
  pub services : Dict Bytes (Service Ty F)

abbrev pub skipped_names : List Bytes
skipped_names =
    codes "Constructor" ∷ codes "ExcludeMethod" ∷ codes "BeforeCall" ∷ codes "AfterCall" ∷ []

unfoldable pub format_name : Bool → Bytes → Bytes
format_name snake_namespace name = if snake_namespace then snake_string name else name

abbrev or_else : Bytes → Bytes → Bytes
or_else [] other = other
or_else (x ∷ xs) other = x ∷ xs

module _ {Ty F : Type 0} where
  -- One method put among the callbacks, if it fits.
  unfoldable pub append_method :
      TypeLib Ty
      → Bool
      → List Bytes
      → Method Ty F
      → Dict Bytes (Callback Ty F)
      → Dict Bytes (Callback Ty F)
  unfolding make_arg_types format_name
  append_method t snake skips m callbacks =
      if not m.exported
      then callbacks
      else if elem m.name skips
      then callbacks
      else elim (make_arg_types t m.fn_type) [
        | none ↦ callbacks
        | some shape ↦
            insert (format_name snake m.name)
              (record { method_name = m.name; fn = m.fn; shape = shape }) callbacks
      ]

  unfoldable pub append_methods :
      TypeLib Ty
      → Bool
      → List Bytes
      → List (Method Ty F)
      → Dict Bytes (Callback Ty F)
      → Dict Bytes (Callback Ty F)
  unfolding append_method
  append_methods t snake skips [] callbacks = callbacks
  append_methods t snake skips (m ∷ ms) callbacks =
      append_methods t snake skips ms (append_method t snake skips m callbacks)

  unfoldable pub suitable_callbacks :
      TypeLib Ty → Services Ty F → Receiver Ty F → Dict Bytes (Callback Ty F)
  unfolding append_methods
  suitable_callbacks t s r =
      append_methods t s.snake_namespace (skipped_names ++ (s.exclude_methods ++ r.exclude_method))
        r.all_methods []

  -- The name of the namespace: its own, else the given one, else the type's.
  unfoldable pub service_name : Services Ty F → Receiver Ty F → List Bytes → Bytes
  unfolding format_name
  service_name s r names =
      or_else
        (elim r.namespace_name [ some own ↦ own | none ↦ elim names [ [] ↦ [] | n ∷ ns ↦ n ] ])
        (format_name s.snake_namespace r.type_name)

  -- `Register`; a name that is taken is a panic, `none`.
  unfoldable pub register :
      TypeLib Ty → Receiver Ty F → List Bytes → Services Ty F → Option (Services Ty F)
  unfolding suitable_callbacks service_name
  register t r names s =
      let name = service_name s r names in
      elim (suitable_callbacks t s r) [
        | [] ↦ some s
        | c ∷ cs ↦ elim (lookup name s.services) [
          | some old ↦ none
          | none ↦ some (record s {
            services =
                insert name (record { name = name; receiver = r; callbacks = c ∷ cs }) s.services;
          })
        ]
      ]

  unfoldable pub callback_in : Option (Service Ty F) → Bytes → CallError ⊎ Callback Ty F
  callback_in none method = inl (new_error err_no_method (codes "no namespace"))
  callback_in (some svs) method = elim (lookup method svs.callbacks) [
    | none ↦ inl (new_error err_no_method (codes "no method"))
    | some cbk ↦ inr cbk
  ]

  -- `getCallBack`, for a namespace and a method.
  unfoldable pub get_call_back : Services Ty F → Bytes → Bytes → CallError ⊎ Callback Ty F
  unfolding callback_in
  get_call_back s namespace method = callback_in (lookup namespace s.services) method
