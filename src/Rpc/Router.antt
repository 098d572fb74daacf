-- ===== src/Rpc/Router.antt =====
-- j2rpc2/router.go, group.go and the registration of server.go: functions by method name, and the
-- groups of handlers. Names that the runtime or a user's type gives are arguments.
pub mod Wiring
use glibs.Base.{
  ℕ, ◌≡◌, refl, ◌⊎◌, inl, inr, Bool, true, false, Option, none, some, List, [], ◌∷◌, ◌++◌,
  if◌then◌else◌, ◌===◌, ===_self, ===_cases, list_eq, arith, Option-cases, append_assoc,
}
use glibs.Base.Dict.{Dict, lookup, insert}
use glibs.Base.Bytes.{Bytes, codes, has_prefix}
use glibs.Rpc.{Decoding}

-- `funcInfo`: for a method of a type, the receiver is the first argument.
pub record FuncInfo (d : Decoding) (F : Type 0) : Type 0 where
  pub is_type : Bool
  pub name : Bytes
  pub fn : F
  pub args : List d.Value
  pub arg_ts : List d.Ty

pub data Handler (d : Decoding) (F M : Type 0) : Type 0 where
  read_body_handler : Handler d F M
  call_handler : FuncInfo d F → Handler d F M
  user_handler : M → Handler d F M

-- The groups and the router of a server.
pub record Registry (d : Decoding) (F M : Type 0) : Type 0 where
  pub groups : Dict Bytes (List (Handler d F M))
  pub funcs : Dict Bytes (FuncInfo d F)

-- A function or a method as reflection shows it: its parameters, without a receiver.
pub record MethodType (d : Decoding) (F : Type 0) : Type 0 where
  pub name : Bytes
  pub fn : F
  pub in_ts : List d.Ty

-- A value whose methods are registered, and the two interfaces it may implement.
pub record Bean (d : Decoding) (F : Type 0) : Type 0 where
  pub receiver : d.Value
  pub receiver_t : d.Ty
  pub type_name : Bytes
  pub methods : List (MethodType d F)
  pub rpc_type_name : Option Bytes
  pub rpc_method_provider : Option (Bytes → Bytes)

abbrev pub separator : Bytes
separator = b'.' ∷ []

abbrev pub zeros : (d : Decoding) → List d.Ty → List d.Value
zeros d [] = []
zeros d (t ∷ ts) = d.zero_value t ∷ zeros d ts

module _ {d : Decoding} {F : Type 0} (method_name_provider : Bytes → Bytes) where
  pub type_name_of : Bean d F → Bytes → Bytes
  type_name_of b name = elim b.rpc_type_name [
    | some n ↦ n
    | none ↦ method_name_provider (elim name [ [] ↦ b.type_name | x ∷ xs ↦ x ∷ xs ])
  ]

  pub method_name_of : Bean d F → Bytes → MethodType d F → Bytes
  method_name_of b type_name m = elim b.rpc_method_provider [
    | some f ↦ f m.name
    | none ↦ type_name ++ (separator ++ method_name_provider m.name)
  ]

module _ {d : Decoding} {F M : Type 0} where
  -- `getOrNewGroup`, with the handlers of the group.
  pub get_or_new_group : Bytes → Registry d F M → List (Handler d F M) × Registry d F M
  get_or_new_group path s = elim (lookup path s.groups) [
    | some hs ↦ (hs, s)
    | none ↦ ([], record s { groups = insert path [] s.groups })
  ]

  unfoldable pub use_group : Bytes → List (Handler d F M) → Registry d F M → Registry d F M
  unfolding get_or_new_group
  use_group path hs s =
      let (old, s') = get_or_new_group path s in
      record s' { groups = insert path (old ++ hs) s'.groups }

  -- The end of a registration: a name that is there is skipped.
  unfoldable pub add_func : FuncInfo d F → Registry d F M → Registry d F M
  unfolding use_group
  add_func info s = elim (lookup info.name s.funcs) [
    | some old ↦ s
    | none ↦
        use_group info.name (call_handler info ∷ [])
          (record s { funcs = insert info.name info s.funcs })
  ]

  module _ (method_name_provider : Bytes → Bytes) where
    -- A function whose name the runtime gives, when none is asked for.
    pub register_func : MethodType d F → Bytes → Registry d F M → Registry d F M
    unfolding add_func
    register_func m name s =
        add_func
          (record {
            is_type = false;
            name = elim name [ [] ↦ method_name_provider m.name | x ∷ xs ↦ x ∷ xs ];
            fn = m.fn;
            args = zeros d m.in_ts;
            arg_ts = m.in_ts;
          })
          s

    pub register_methods :
        Bean d F → Bytes → List (MethodType d F) → Registry d F M → Registry d F M
    unfolding add_func method_name_of
    register_methods b type_name [] s = s
    register_methods b type_name (m ∷ ms) s = register_methods b type_name ms (
        add_func
          (record {
            is_type = true;
            name = method_name_of method_name_provider b type_name m;
            fn = m.fn;
            args = b.receiver ∷ zeros d m.in_ts;
            arg_ts = b.receiver_t ∷ m.in_ts;
          })
          s)

    pub register_type : Bean d F → Bytes → Registry d F M → Registry d F M
    unfolding register_methods type_name_of
    register_type b name s =
        register_methods b (type_name_of method_name_provider b name) b.methods s
