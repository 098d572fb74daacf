-- ===== src/Rpc.antt =====
-- j2rpc2: a JSON-RPC server over HTTP. Messages and errors (message.go) and the checks of a request
-- and of its arguments (functions.go).
pub mod Context
pub mod Server
pub mod Router
pub mod Arguments
pub mod Response
mod Tests
use glibs.Base.{
  ℕ, ◌+◌, length, Bool, true, false, not, ◌&&◌, Option, none, some, List, [], ◌∷◌, ◌++◌,
  if◌then◌else◌, ◌==◌, ◌===◌, list_eq,
}
use glibs.Base.Int.{ℤ, pos, negsuc, ltb_ℤ}
use glibs.Base.Bytes.{Bytes, codes}

-- A value with an error as its other way to end.
pub data Try (A : Type 0) : Type 0 where
  value : A → Try A
  failed : Bytes → Try A

pub record RpcError : Type 0 where
  pub code : ℤ
  pub message : Bytes
  pub data_of : Option Bytes

abbrev pub err_no_method : ℤ
err_no_method = negsuc 32_600

abbrev pub err_bad_params : ℤ
err_bad_params = negsuc 32_601

abbrev pub err_internal : ℤ
err_internal = negsuc 32_602

pub new_error : ℤ → Bytes → List (Option Bytes) → RpcError
new_error code msg [] = record { code = code; message = msg; data_of = none }
new_error code msg (d ∷ ds) = record { code = code; message = msg; data_of = d }

-- `RPCMessage`; a nil `RawMessage` is `none`.
pub record RpcMessage : Type 0 where
  pub id : Option Bytes
  pub version : Bytes
  pub method : Bytes
  pub params : Option Bytes
  pub result : Option Bytes
  pub error : Option RpcError

-- The id is there, and is neither an object nor an array.
pub has_valid_id : RpcMessage → Bool
has_valid_id m = elim m.id [
  | none ↦ false
  | some bs ↦ elim bs [ [] ↦ false | x ∷ xs ↦ not (x == b'{') && not (x == b'[') ]
]

pub record HttpRequest : Type 0 where
  pub verb : Bytes
  pub content_length : ℤ
  -- What reading the body gives, if there is one.
  pub body : Option (Try Bytes)

abbrev pub max_request_content_length : ℤ
max_request_content_length = pos 5_242_880

-- The status and the text of a refusal, or none.
pub get_validate_request_status : (ℤ → Bytes) → HttpRequest → Option (ℕ × Bytes)
get_validate_request_status too_large q =
    if q.verb === codes "OPTIONS"
    then none
    else (if not (q.verb === codes "POST")
        then some (405, codes "method isn't allowed")
        else (if ltb_ℤ max_request_content_length q.content_length
            then some (413, too_large q.content_length)
            else none))

-- The JSON decoder, over a stream of tokens, and the values that reflection builds.
pub data Tok : Type 0 where
  null_tok array_tok other_tok eof_tok : Tok
  bad_tok : Bytes → Tok

pub record Decoding : Type 1 where
  pub Decoder : Type 0
  pub Ty : Type 0
  pub Value : Type 0
  pub new_decoder : Bytes → Decoder
  pub more : Decoder → Bool
  pub token : Decoder → Tok × Decoder
  pub decode : Ty → Decoder → Try Value × Decoder
  pub zero_value : Ty → Value
  pub bad_argument : ℕ → Bytes → Bytes
  pub too_many : ℕ → Bytes

module _ (d : Decoding) where
  open d use {Decoder, Ty, Value, more, token, decode}

  -- The end of `parseArgumentArray`: the closing bracket.
  pub close_array : List Value → Tok → Try (List Value)
  close_array args null_tok = value args
  close_array args array_tok = value args
  close_array args other_tok = value args
  close_array args eof_tok = failed (codes "EOF")
  close_array args (bad_tok e) = failed e

  -- The loop, over the types that are left. The test for a nil argument, on the pointer that
  -- `reflect.New` returned, is never true.
  pub parse_argument_array : ℕ → ℕ → List Value → List Ty → Decoder → Try (List Value)
  unfolding close_array
  parse_argument_array n i args [] dec =
      if more dec then failed (d.too_many n) else close_array args (token dec).0
  parse_argument_array n i args (t ∷ ts) dec =
      let (v, dec') = decode t dec in
      elim (more dec) [
        | false ↦ close_array args (token dec).0
        | true ↦ elim v [
          | failed e ↦ failed (d.bad_argument i e)
          | value x ↦ parse_argument_array n (i + 1) (args ++ x ∷ []) ts dec'
        ]
      ]

  -- The zero values for the types behind the first arguments.
  pub pad : List Value → List Ty → List Value
  pad [] [] = []
  pad [] (t ∷ ts) = d.zero_value t ∷ pad [] ts
  pad (v ∷ vs) [] = v ∷ vs
  pad (v ∷ vs) (t ∷ ts) = v ∷ pad vs ts

  pub padded : List Ty → Try (List Value) → Try (List Value)
  unfolding pad
  padded ts (failed e) = failed e
  padded ts (value args) = value (pad args ts)

  pub parse_positional_arguments : Bytes → List Ty → Try (List Value)
  unfolding padded parse_argument_array
  parse_positional_arguments raw ts =
      let (tok, dec) = token (d.new_decoder raw) in
      elim tok [
        | eof_tok ↦ padded ts (value [])
        | null_tok ↦ padded ts (value [])
        | bad_tok e ↦ failed e
        | array_tok ↦ padded ts (parse_argument_array (length ts) 0 [] ts dec)
        | other_tok ↦ failed (codes "non-array args")
      ]
