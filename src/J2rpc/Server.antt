-- ===== src/J2rpc/Server.antt =====
-- j2rpc/j2rpc.go: the life of a request. The log is left out.
pub mod Answers
use glibs.Base.{
  ℕ, zero, suc, ◌+◌, ◌⊎◌, inl, inr, Bool, true, false, not, ◌&&◌, ◌||◌, Option, none, some, List,
  [], ◌∷◌, ◌++◌, if◌then◌else◌, get_elem?, ◌===◌, list_eq, leb, length,
}
use glibs.Base.Int.{ℤ, pos, eqb_ℤ, ◌-ℤ◌}
use glibs.Base.Dict.{Dict, lookup, insert, erase}
use glibs.Base.Bytes.{Bytes, codes}
use glibs.Rpc.{Try, value, failed, RpcMessage, Decoding}
use glibs.J2rpc.{
  CallError, new_error, plain_error, err_parse, err_invalid_request, err_no_method, err_bad_params,
  err_internal, set_error, has_valid_id, methods, output, empty, split_method_separator, bytes_of,
}
use glibs.J2rpc.Body.{BodyLib, parse_rpc_body}
use glibs.Collections.{validate_request}
use glibs.J2rpc.Response.{
  Writer, WriterCall, write_header, http_error, set_header, has_write_header, write_response,
  ServerLib,
}
use glibs.J2rpc.Context.{
  Context, Script, Ended, returned, panicked, ReturnValue, UserCode, Env, exec, next, do_handlers,
  begin_request, release,
}
use glibs.J2rpc.Call.{parse_positional_arguments, call, set_result, start_time_key}
use glibs.J2rpc.Registry.{Services, Callback, Shape, get_call_back, format_name}

pub record HttpRequest : Type 0 where
  pub verb : Bytes
  pub content_length : ℤ
  pub raw_query : Bytes
  pub body : Try Bytes

-- The bytes of the Chinese text of a bad request.
abbrev pub parse_error_text : Bytes
parse_error_text = 232 ∷ 175 ∷ 183 ∷ 230 ∷ 177 ∷ 130 ∷ 233 ∷ 148 ∷ 153 ∷ 232 ∷ 175 ∷ 175 ∷ []

module _ {M F : Type 0} {d : Decoding} (e : Env M F d) where
  abbrev Ctx : Type 0
  Ctx = Context M

  -- The end of `handle`, behind the handlers.
  unfoldable pub run_callback :
      ℕ → Bytes → Callback d.Ty F → Option CallError × Ctx → Option CallError × Ctx
  unfolding call set_result parse_positional_arguments
  run_callback n method cb (some er, c) = (some er, c)
  run_callback n method cb (none, c) =
      if c.is_stopped
      then (none, c)
      else elim (parse_positional_arguments d e.is_pointer e.new_value (bytes_of c.msg.params)
          cb.shape.arg_types) [
            | failed text ↦ (some (new_error err_bad_params text), c)
            | value args ↦ set_result e (call e n method cb args c)
          ]

  -- The callback that was found, behind the handlers, or the error of the search.
  unfoldable pub run_found : ℕ → Bytes → CallError ⊎ Callback d.Ty F → Ctx → Option CallError × Ctx
  unfolding do_handlers run_callback
  run_found n method (inl er) c = (some er, c)
  run_found n method (inr cb) c = run_callback n method cb (do_handlers e n c)

  -- The namespace and the method, in the case of the registry.
  unfoldable pub run_named : ℕ → Option (Bytes × Bytes) → Ctx → Option CallError × Ctx
  unfolding format_name get_call_back run_found
  run_named n none c = (some (new_error err_no_method (codes "wrong method")), c)
  run_named n (some (namespace, name)) c =
      let ns = format_name e.services.snake_namespace namespace in
      let m = format_name e.services.snake_namespace name in
      let method = ns ++ (split_method_separator ++ m) in
      run_found n method (get_call_back e.services ns m)
        (record c { msg = record (c.msg) { method = method } })

  -- The part of `handle` that finds the method.
  unfoldable pub route : ℕ → Ctx → Option CallError × Ctx
  unfolding methods run_named has_valid_id
  route n c =
      if not (has_valid_id c.msg)
      then (some (new_error err_invalid_request (codes "id is invalid")), c)
      else run_named n (methods c.msg) c

  -- The message of a body.
  unfoldable pub take_body : ℕ → Try Bytes → Ctx → Option CallError × Ctx
  unfolding route
  take_body n (failed text) c = (some (plain_error text), c)
  take_body n (value b) c =
      let (fine, m) = e.lib.json_decode b c.msg in
      let c' = record c { body = b; store = insert start_time_key e.now c.store; msg = m } in
      if fine then route n c' else (some (new_error err_parse parse_error_text), c')

  -- `handle`, for what reading the body gives.
  unfoldable pub handle : ℕ → Try Bytes → Ctx → Option CallError × Ctx
  unfolding take_body parse_rpc_body
  handle n (failed text) c = (some (plain_error text), c)
  handle n (value b) c = take_body n (parse_rpc_body e.lib.body e.crypto_key b true) c

  -- The end of `Handler`.
  unfoldable pub reply : Option CallError × Ctx → Ctx
  unfolding set_error output write_response
  reply (er, c) =
      let m = output (set_error er c.msg) in
      record c { msg = m; writer = write_response e.lib e.crypto_key m c.writer }

  -- `Handler`, but for the release of the context.
  unfoldable pub server_handler : ℕ → HttpRequest → Ctx → Ctx
  unfolding has_write_header set_header validate_request handle reply
  server_handler n r c =
      if not e.run
      then c
      else (let (claimed, w) = has_write_header c.writer in
          let c' = record c { writer = w } in
          if claimed then c' else elim (validate_request e.lib.too_large r.verb r.content_length) [
            | some (code, text) ↦ record c {
              writer = record w { calls = w.calls ++ http_error code text ∷ [] };
            }
            | none ↦
                let c2 = record c {
                  writer = set_header (codes "x-content-type-options") (codes "nosniff") w;
                } in
                reply (handle n r.body c2)
          ])

  -- `ServeHTTP` with a context of the pool: the response, and the context that goes back.
  unfoldable pub serve_http : ℕ → HttpRequest → Ctx → Writer × Ctx
  unfolding begin_request server_handler release
  serve_http n r c =
      let w : Writer = record { headers = []; calls = [] } in
      if (r.verb === codes "GET") && (eqb_ℤ r.content_length (pos 0) && (r.raw_query === []))
      then (record w { calls = write_header 200 ∷ [] }, c)
      else (let c' = server_handler n r (begin_request w c) in (c'.writer, release c'))
