-- ===== src/Rpc/Server.antt =====
-- j2rpc2/server.go: the handlers of a server, and the run of the handlers of a request. A panic of a
-- user's function, and so `Recover` of middleware.go, are not modelled.
pub mod Once
use glibs.Base.{
  ℕ, zero, suc, ◌+◌, ◌%◌, Bool, true, false, not, ◌&&◌, Option, none, some, List, [], ◌∷◌, ◌++◌,
  if◌then◌else◌, get_elem?, ◌===◌, list_eq,
}
use glibs.Base.Int.{ℤ}
use glibs.Base.Dict.{Dict, lookup}
use glibs.Base.Bytes.{Bytes, codes, has_prefix}
use glibs.Rpc.{
  Try, value, failed, RpcMessage, HttpRequest, Decoding, parse_positional_arguments, new_error,
  err_no_method, err_bad_params, err_internal,
}
use glibs.Rpc.Context.{
  Reply, RpcContext, RpcLib, ResponseArg, rpc_error_arg, error_arg, bytes_arg, StoreValue,
  time_value, new_rpc_context, abort_now, add_handler, set_value, stop_write_string_status,
  write_response, read_body, msg_of,
}
use glibs.Rpc.Router.{
  FuncInfo, Handler, read_body_handler, call_handler, user_handler, Registry, separator, use_group,
  get_or_new_group,
}

-- A result of a call, as far as the server looks at it.
pub record ReturnValue : Type 0 where
  pub is_error_type : Bool
  pub is_nil : Bool
  -- What its interface or pointer says when it is taken as an error.
  pub as_error : ResponseArg
  pub encoded : Try Bytes

-- The calls of a context that change it, and a write to the response that it hands out (`Writer`).
pub data Act (H : Type 0) : Type 0 where
  abort_act next_act : Act H
  add_act : List H → Act H
  set_act : Bytes → StoreValue → Act H
  stop_act : ℕ → Bytes → Act H
  write_act : List ResponseArg → Act H
  writer_act : Reply → Act H

-- What user code does with a context, and returns.
pub data Script (H A : Type 0) : Type 0 where
  ret : A → Script H A
  act : Act H → Script H A → Script H A
  look : (RpcContext H → Script H A) → Script H A

-- The user's code: handlers, functions, and the values that a call gets for a context. `is_context`
-- is true of types that implement `context.Context`, `is_rpc_context` of those that implement the
-- package's `Context`.
pub record UserCode (d : Decoding) (F M : Type 0) : Type 0 where
  pub handler : M → Script (Handler d F M) Unit
  pub call : F → List d.Value → Script (Handler d F M) (List ReturnValue)
  pub is_context : d.Ty → Bool
  pub is_rpc_context : d.Ty → Bool
  pub rpc_context_value : d.Value
  pub context_value : d.Value

-- What a request finds: the libraries, the user's code, the groups, and the clock.
pub record Env (d : Decoding) (F M : Type 0) : Type 0 where
  pub lib : RpcLib
  pub code : UserCode d F M
  pub groups : Dict Bytes (List (Handler d F M))
  pub now : ℤ

abbrev pub time_begin_context_key : Bytes
time_begin_context_key = codes "___j2rpc.timeBegin"

module _ {d : Decoding} {F M : Type 0} where
  -- The handlers of the groups whose path is a proper prefix of the method, up to a separator. The
  -- order among groups is that of the map.
  pub prefix_handlers : Bytes → Dict Bytes (List (Handler d F M)) → List (Handler d F M)
  prefix_handlers method [] = []
  prefix_handlers method ((key, hs) ∷ groups) =
      let rest = prefix_handlers method groups in
      if not (key === []) && (not (method === key) && has_prefix (key ++ separator) method)
      then hs ++ rest
      else rest

module _ {d : Decoding} {F M : Type 0} (e : Env d F M) where
  abbrev Ctx : Type 0
  Ctx = RpcContext (Handler d F M)

  -- The end of `handleReadBody`, for a body that was read.
  pub select_group : Ctx → Ctx
  unfolding set_value msg_of write_response add_handler prefix_handlers
  select_group c =
      let c' = set_value time_begin_context_key (time_value e.now) c in
      let method = (msg_of c').method in
      elim (lookup method e.groups) [
        | none ↦
            write_response e.lib
              (rpc_error_arg (new_error err_no_method (codes "wrong method") []) ∷ []) c'
        | some hs ↦ add_handler (prefix_handlers method e.groups ++ hs) c'
      ]

  -- The handler of the group "", before the deferred `Next`.
  pub handle_read_body : Ctx → Ctx
  unfolding read_body select_group
  handle_read_body c =
      let (fine, c') = read_body e.lib c in
      if not fine then c' else (if c'.wrote then c' else select_group c')

  -- The leading values of a call, and the types whose values the request gives.
  pub leading : FuncInfo d F → List d.Value × List d.Ty
  leading f = with_context (receiver f.is_type f.args f.arg_ts)
    where
      receiver : Bool → List d.Value → List d.Ty → List d.Value × List d.Ty
      receiver true (v ∷ vs) (t ∷ ts) = (v ∷ [], ts)
      receiver true [] ts = ([], [])
      receiver true (v ∷ vs) [] = ([], [])
      receiver false vs ts = ([], ts)

      with_context : List d.Value × List d.Ty → List d.Value × List d.Ty
      with_context (vs, []) = (vs, [])
      with_context (vs, t ∷ ts) =
          if e.code.is_context t
          then (
            vs
                ++ (if e.code.is_rpc_context t
                    then e.code.rpc_context_value
                    else e.code.context_value)
                  ∷ [],
            ts,
          )
          else (vs, t ∷ ts)

  -- Without results, or with a nil as the first one, the answer is a success.
  pub first_arg : List ReturnValue → List ResponseArg
  first_arg [] = []
  first_arg (v ∷ vs) = if v.is_nil then [] else elim v.encoded [
    | failed text ↦ rpc_error_arg (new_error err_internal text []) ∷ []
    | value b ↦ bytes_arg (some b) ∷ []
  ]

  -- The arguments of the answer to a call: the last result is its error, if it has such a type.
  pub result_args : List ReturnValue → List ReturnValue → List ResponseArg
  unfolding first_arg
  result_args seen [] = first_arg seen
  result_args seen (v ∷ []) =
      if v.is_error_type
      then (if v.is_nil then first_arg seen else v.as_error ∷ [])
      else first_arg (seen ++ v ∷ [])
  result_args seen (v ∷ w ∷ vs) = result_args (seen ++ v ∷ []) (w ∷ vs)

  module _ (next : Ctx → Ctx) where
    pub do_act : Act (Handler d F M) → Ctx → Ctx
    unfolding abort_now add_handler set_value stop_write_string_status write_response
    do_act abort_act c = abort_now c
    do_act next_act c = next c
    do_act (add_act hs) c = add_handler hs c
    do_act (set_act key v) c = set_value key v c
    do_act (stop_act status str) c = stop_write_string_status status str c
    do_act (write_act args) c = write_response e.lib args c
    do_act (writer_act r) c = record c { replies = c.replies ++ r ∷ [] }

    pub exec : {A : Type 0} → Script (Handler d F M) A → Ctx → A × Ctx
    unfolding do_act
    exec (ret a) c = (a, c)
    exec (act a k) c = exec k (do_act a c)
    exec (look k) c = exec (k c) c

    -- `handleCallFunc`, before the deferred `Next`.
    pub handle_call_func : FuncInfo d F → Ctx → Ctx
    unfolding leading exec result_args write_response msg_of parse_positional_arguments
    handle_call_func f c =
        if c.wrote
        then c
        else (let (vs, ts) = leading f in
            elim (parse_positional_arguments d (elim (msg_of c).params [ none ↦ [] | some b ↦ b ])
              ts) [
                | failed text ↦
                    write_response e.lib (rpc_error_arg (new_error err_bad_params text []) ∷ []) c
                | value args ↦
                    let (results, c') = exec (e.code.call f.fn (vs ++ args)) c in
                    write_response e.lib (result_args [] results) c'
              ])

    pub handle : Handler d F M → Ctx → Ctx
    unfolding handle_read_body handle_call_func exec
    handle read_body_handler c = next (handle_read_body c)
    handle (call_handler f) c = next (handle_call_func f c)
    handle (user_handler m) c = (exec (e.code.handler m) c).1

  -- `Next`: the handler at the index, which is moved on first. The fuel bounds the depth of calls.
  pub next : ℕ → Ctx → Ctx
  unfolding handle
  next zero c = c
  next (suc n) c = if c.abort then c else elim (get_elem? c.handlers c.hid) [
    | none ↦ c
    | some h ↦ handle (next n) h (record c { hid = (c.hid + 1) % 4_294_967_296 })
  ]

  -- `Handler`: the handlers of the group "", and the first call of `Next`.
  pub server_handler : ℕ → Ctx → Ctx
  unfolding next add_handler
  server_handler n c =
      next n (add_handler (elim (lookup [] e.groups) [ none ↦ [] | some hs ↦ hs ]) c)

  -- `ServeHTTP`.
  pub serve_http : ℕ → HttpRequest → Ctx
  unfolding server_handler new_rpc_context
  serve_http n q = server_handler n (new_rpc_context q)

module _ {d : Decoding} {F M : Type 0} where
  -- The registry of `NewServer`.
  unfoldable pub new_server : Registry d F M
  unfolding use_group
  new_server = use_group [] (read_body_handler ∷ []) (record { groups = []; funcs = [] })
