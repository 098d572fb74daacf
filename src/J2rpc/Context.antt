-- ===== src/J2rpc/Context.antt =====
-- j2rpc/context.go and j2rpc/handler.go: the context of a request and the chain of its handlers. A handler,
-- a hook or a method is a script of what it does with the context. A panic of a handler, and a handler's
-- own call of `Do`, `BeginRequest` or `SetMsg`, are not modelled.
pub mod Chain
use glibs.Base.{
  ℕ, zero, suc, ◌+◌, ◌⊎◌, inl, inr, Bool, true, false, not, ◌&&◌, ◌||◌, Option, none, some, List,
  [], ◌∷◌, ◌++◌, if◌then◌else◌, get_elem?, ◌===◌, list_eq, leb, length,
}
use glibs.Base.Int.{ℤ, pos, eqb_ℤ, ◌-ℤ◌}
use glibs.Base.Dict.{Dict, lookup, insert, erase}
use glibs.Base.Bytes.{Bytes, codes}
use glibs.Rpc.{Try, value, failed, RpcMessage, Decoding}
use glibs.J2rpc.{
  CallError, new_error, plain_error, err_parse, err_invalid_request, err_no_method, err_bad_params,
  err_internal, set_error, has_valid_id, methods, output, empty, split_method_separator, bytes_of,
}
use glibs.J2rpc.Body.{BodyLib, parse_rpc_body}
use glibs.Collections.{validate_request}
use glibs.J2rpc.Response.{
  Writer, WriterCall, write_header, http_error, set_header, has_write_header, write_response,
  ServerLib,
}
use glibs.J2rpc.Registry.{Services, Callback, Shape, get_call_back, format_name}

-- `Context`, over the handlers `M`.
pub record Context (M : Type 0) : Type 0 where
  pub is_stopped : Bool
  pub current_index : ℕ
  pub mid_handlers : List M
  pub msg : RpcMessage
  pub body : Bytes
  pub store : Dict Bytes ℤ
  pub writer : Writer

pub data Act : Type 0 where
  stop_act : Act
  store_act : Bytes → ℤ → Act
  -- A write to the message of the context, and a call of the response.
  msg_act : RpcMessage → Act
  writer_act : (Writer → Writer) → Act

-- What user code does with a context, and returns.
pub data Script (M A : Type 0) : Type 0 where
  ret : A → Script M A
  act : Act → Script M A → Script M A
  next_step : (Option CallError → Script M A) → Script M A
  look : (Context M → Script M A) → Script M A

-- What user code that may panic comes to.
pub data Ended (A : Type 0) : Type 0 where
  returned : A → Ended A
  panicked : Bytes → Ended A

-- A result of a method, as far as the server looks at it.
pub record ReturnValue : Type 0 where
  pub is_error_type : Bool
  pub is_valid : Bool
  pub is_zero : Bool
  pub as_error : CallError
  pub encoded : Try Bytes

-- The user's code: the handlers, the methods, and the hooks of the server and of a method's receiver.
pub record UserCode (M F V : Type 0) : Type 0 where
  pub handler : M → Script M (Option CallError)
  pub call : F → List V → Script M (Ended (List ReturnValue))
  pub call_before : Option (Bytes → List V → Script M (Ended (Option CallError)))
  pub before_call : F → Option (Bytes → List V → Script M (Ended (Option CallError)))
  pub after_call :
      F → Option (Bytes → List V → List ReturnValue → Script M (Ended (Option CallError)))
  pub call_after : Option (Bytes → List V → List ReturnValue → Script M (Ended (Option CallError)))

-- `server`, with what it gets from outside. The clock is read at three places of a request.
pub record Env (M F : Type 0) (d : Decoding) : Type 0 where
  pub lib : ServerLib
  pub code : UserCode M F d.Value
  pub crypto_key : Bytes
  pub run : Bool
  pub services : Services d.Ty F
  pub mid_handlers : List M
  pub is_pointer : d.Ty → Bool
  pub new_value : d.Ty → d.Value
  pub context_value : d.Value
  pub now : ℤ
  pub call_ended : ℤ

module _ {M : Type 0} where
  unfoldable pub do_act : Act → Context M → Context M
  do_act stop_act c = record c { is_stopped = true }
  do_act (store_act key v) c = record c { store = insert key v c.store }
  do_act (msg_act m) c = record c { msg = m }
  do_act (writer_act f) c = record c { writer = f c.writer }

  module _ (next : Context M → Option CallError × Context M) where
    unfoldable pub exec : {A : Type 0} → Script M A → Context M → A × Context M
    unfolding do_act
    exec (ret a) c = (a, c)
    exec (act a k) c = exec k (do_act a c)
    exec (next_step k) c = let (e, c') = next c in exec (k e) c'
    exec (look k) c = exec (k c) c

module _ {M : Type 0} where
  unfoldable pub begin_request : Writer → Context M → Context M
  begin_request w c = record c { writer = w; is_stopped = false; current_index = 0 }

  -- `ContextPool.Release`: the context that the pool keeps.
  unfoldable pub release : Context M → Context M
  release c = record c { msg = empty }

module _ {M F : Type 0} {d : Decoding} (e : Env M F d) where
  abbrev Ctx : Type 0
  Ctx = Context M

  -- The handler at an index, if there is one.
  unfoldable pub run_at : (Ctx → Option CallError × Ctx) → Option M → Ctx → Option CallError × Ctx
  unfolding exec
  run_at next none c = (none, c)
  run_at next (some h) c = exec next (e.code.handler h) c

  -- `Next`. The fuel bounds the depth of calls.
  unfoldable pub next : ℕ → Ctx → Option CallError × Ctx
  unfolding run_at
  next zero c = (none, c)
  next (suc n) c =
      if c.is_stopped
      then (none, c)
      else (let c' = record c { current_index = c.current_index + 1 } in
          run_at (next n) (get_elem? c'.mid_handlers c'.current_index) c')

  -- `Do`, with the server's handlers.
  unfoldable pub do_handlers : ℕ → Ctx → Option CallError × Ctx
  unfolding exec next
  do_handlers n c = elim e.mid_handlers [
    | [] ↦ (none, c)
    | h ∷ hs ↦ exec (next n) (e.code.handler h) (record c { mid_handlers = h ∷ hs })
  ]

-- `newContext`.
unfoldable pub new_context : {M : Type 0} → Context M
new_context = record {
  is_stopped = false;
  current_index = 0;
  mid_handlers = [];
  msg = empty;
  body = [];
  store = [];
  writer = record { headers = []; calls = [] };
}
