-- ===== src/Rpc/Context.antt =====
-- j2rpc2/context.go: the context of one request. What handlers do with it goes through the interface
-- `Context`: a handler is a script of its calls, which may look at the context in between. A nil
-- body is not modelled.
use glibs.Base.{
  ℕ, Bool, true, false, Option, none, some, List, [], ◌∷◌, ◌++◌, if◌then◌else◌, not, list_eq,
}
use glibs.Base.Int.{ℤ}
use glibs.Base.Dict.{Dict, insert}
use glibs.Base.Bytes.{Bytes, codes}
use glibs.Rpc.{
  Try, value, failed, RpcError, new_error, RpcMessage, has_valid_id, HttpRequest,
  get_validate_request_status, err_internal,
}

-- One call of the response's `WriteHeader` and `Write`, with the two headers of JSON or without.
pub record Reply : Type 0 where
  pub json : Bool
  pub status : ℕ
  pub body : Bytes

pub data StoreValue : Type 0 where
  body_value : Bytes → StoreValue
  time_value : ℤ → StoreValue
  user_value : ℕ → StoreValue

-- What `WriteResponse` tells apart among its arguments.
pub data ResponseArg : Type 0 where
  rpc_error_arg : RpcError → ResponseArg
  error_arg : Bytes → ResponseArg
  bytes_arg : Option Bytes → ResponseArg
  other_arg : ResponseArg

-- The JSON text of "Success", as the encoder writes it.
abbrev pub success : Bytes
success = 34 ∷ (codes "Success" ++ 34 ∷ 10 ∷ [])

-- The libraries a context calls: JSON and text, and the two functions of `ServerOption`.
pub record RpcLib : Type 0 where
  pub json_encode : RpcMessage → Try Bytes
  pub json_decode : Bytes → Try RpcMessage
  pub trim_space : Bytes → Bytes
  pub too_large : ℤ → Bytes
  pub caller_after_read_body : Option (Bytes → Try Bytes)
  pub caller_before_write : Option (Bytes → Try Bytes)

abbrev pub body_context_key : Bytes
body_context_key = codes "___j2rpc.body"

-- `rpcContext`, over the handlers `H`. The server is known to the handlers.
pub record RpcContext (H : Type 0) : Type 0 where
  pub handlers : List H
  pub hid : ℕ
  pub replies : List Reply
  pub req : HttpRequest
  pub store : Dict Bytes StoreValue
  pub msg : Option RpcMessage
  pub abort : Bool
  pub wrote : Bool

abbrev pub no_msg : RpcMessage
no_msg = record {
  id = some (48 ∷ []);
  version = [];
  method = [];
  params = none;
  result = none;
  error = none;
}

-- The response's message, for the arguments in order.
unfoldable pub with_arg : ResponseArg → RpcMessage → RpcMessage
with_arg (rpc_error_arg e) m = record m {
  error = some (new_error e.code e.message (e.data_of ∷ []));
}
with_arg (error_arg text) m = record m { error = some (new_error err_internal text []) }
with_arg (bytes_arg b) m = record m { result = b }
with_arg other_arg m = m

unfoldable pub with_args : List ResponseArg → RpcMessage → RpcMessage
unfolding with_arg
with_args [] m = m
with_args (a ∷ rest) m = with_args rest (with_arg a m)

-- An answer without error and result is a success; an error drops the result.
unfoldable pub settled : RpcMessage → RpcMessage
settled m = elim m.error [
  | some e ↦ record m { result = none }
  | none ↦ elim m.result [ none ↦ record m { result = some success } | some b ↦ m ]
]

abbrev pub answer : List ResponseArg → RpcMessage → RpcMessage
answer args m = settled (with_args args m)

-- `omitempty` of the encoding: an empty text is left out, as one that is nil.
abbrev pub omit_empty : Option Bytes → Option Bytes
omit_empty none = none
omit_empty (some []) = none
omit_empty (some (x ∷ b)) = some (x ∷ b)

-- What goes to the wire of an answer.
unfoldable pub wire : RpcMessage → RpcMessage
wire m = record m { id = omit_empty m.id; method = []; params = none; result = omit_empty m.result }

module _ (lib : RpcLib) where
  pub before_write : Try Bytes → Try Bytes
  before_write (failed e) = failed e
  before_write (value b) = elim lib.caller_before_write [
    | none ↦ value b
    | some f ↦ f (lib.trim_space b)
  ]

  -- The body that is decoded: what `CallerAfterReadBody` makes of it.
  pub after_read : Try Bytes → Try Bytes
  after_read (failed e) = failed e
  after_read (value b) = elim lib.caller_after_read_body [
    | none ↦ value b
    | some f ↦ f (lib.trim_space b)
  ]

module _ {H : Type 0} where
  unfoldable pub new_rpc_context : HttpRequest → RpcContext H
  new_rpc_context q = record {
    handlers = [];
    hid = 0;
    replies = [];
    req = q;
    store = [];
    msg = none;
    abort = false;
    wrote = false;
  }

  unfoldable pub abort_now : RpcContext H → RpcContext H
  abort_now c = record c { abort = true }

  unfoldable pub add_handler : List H → RpcContext H → RpcContext H
  add_handler hs c = record c { handlers = c.handlers ++ hs }

  unfoldable pub msg_of : RpcContext H → RpcMessage
  msg_of c = elim c.msg [ none ↦ no_msg | some m ↦ m ]

  unfoldable pub set_msg : RpcMessage → RpcContext H → RpcContext H
  set_msg m c = record c { msg = some m }

  unfoldable pub set_value : Bytes → StoreValue → RpcContext H → RpcContext H
  set_value key v c = record c { store = insert key v c.store }

  unfoldable pub stop_write_string_status : ℕ → Bytes → RpcContext H → RpcContext H
  unfolding abort_now
  stop_write_string_status status str c =
      if c.wrote
      then c
      else (let c' = abort_now c in
          record c' {
            replies = c'.replies ++ record { json = false; status = status; body = str } ∷ [];
            wrote = true;
          })

  -- The end of `WriteResponse`.
  unfoldable pub write_data : Try Bytes → RpcContext H → RpcContext H
  unfolding stop_write_string_status
  write_data (failed e) c = stop_write_string_status 500 e c
  write_data (value b) c = record c {
    replies = c.replies ++ record { json = true; status = 200; body = b } ∷ [];
    wrote = true;
  }

  module _ (lib : RpcLib) where
    unfoldable pub write_response : List ResponseArg → RpcContext H → RpcContext H
    unfolding with_args settled wire msg_of set_msg before_write write_data
    write_response args c =
        if c.wrote
        then c
        else (let m = answer args (msg_of c) in
            write_data (before_write lib (lib.json_encode (wire m))) (set_msg m c))

    -- Both refusals leave the error of the decoding, which is nil.
    unfoldable pub take_named : RpcMessage → Bytes → RpcContext H → Bool × RpcContext H
    unfolding stop_write_string_status set_msg
    take_named m [] c = (true, stop_write_string_status 400 (codes "missing method") c)
    take_named m (x ∷ xs) c = (true, set_msg (record m { method = x ∷ xs }) c)

    unfoldable pub take_message : Try RpcMessage → RpcContext H → Bool × RpcContext H
    unfolding has_valid_id take_named
    take_message (failed e) c = (false, stop_write_string_status 400 e c)
    take_message (value m) c =
        if not (has_valid_id m)
        then (true, stop_write_string_status 400 (codes "invalid request id") c)
        else take_named m (lib.trim_space m.method) c

    unfoldable pub take_body : Try Bytes → RpcContext H → Bool × RpcContext H
    unfolding take_message set_value
    take_body (failed e) c = (false, stop_write_string_status 400 e c)
    take_body (value body) c =
        take_message (lib.json_decode body) (set_value body_context_key (body_value body) c)

    -- The refusal of the request, if there is one, comes first.
    unfoldable pub read_request :
        Option (ℕ × Bytes) → Option (Try Bytes) → RpcContext H → Bool × RpcContext H
    unfolding after_read take_body
    read_request (some (status, text)) b c = (false, stop_write_string_status status text c)
    read_request none none c = (true, stop_write_string_status 400 (codes "missing request body") c)
    read_request none (some b) c = take_body (after_read lib b) c

    unfoldable pub read_unless : Option RpcMessage → RpcContext H → Bool × RpcContext H
    unfolding get_validate_request_status read_request
    read_unless (some m) c = (true, c)
    read_unless none c = read_request (get_validate_request_status lib.too_large c.req) c.req.body c

    -- `ReadBody`, with whether its error is nil. A message that is there is kept.
    unfoldable pub read_body : RpcContext H → Bool × RpcContext H
    unfolding read_unless
    read_body c = read_unless c.msg c
