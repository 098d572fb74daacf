-- ===== src/Rpc/Server/Once.antt =====
-- j2rpc2: a request is answered at most once.
use glibs.Base.{
  by_if, ℕ, zero, suc, ◌+◌, ◌%◌, ◌≡◌, refl, ◌⊎◌, inl, inr, Bool, true, false, Option, none, some,
  List, [], ◌∷◌, ◌++◌, arith, length, get_elem?, list_eq, not,
}
use glibs.Base.Dict.{lookup}
use glibs.Base.Bytes.{Bytes, codes}
use glibs.Rpc.{
  Try, value, failed, RpcMessage, HttpRequest, Decoding, parse_positional_arguments,
  get_validate_request_status, has_valid_id, new_error, err_no_method, err_bad_params,
}
use glibs.Rpc.Context.{
  Reply, ResponseArg, RpcContext, RpcLib, abort_now, add_handler, set_value, StoreValue, take_named,
  take_body, read_request, read_unless, stop_write_string_status, write_response, write_data,
  read_body, take_message, set_msg, time_value, rpc_error_arg, new_rpc_context, after_read, answer,
  msg_of,
}
use glibs.Rpc.Router.{Handler, read_body_handler, call_handler, user_handler, FuncInfo}
use glibs.Rpc.Server.{
  Act, Script, Env, select_group, handle_read_body, do_act, exec, handle_call_func, handle, next,
  serve_http, server_handler, ret, act, look, abort_act, next_act, add_act, set_act, stop_act,
  write_act, writer_act, UserCode, leading, result_args, time_begin_context_key, prefix_handlers,
}

-- Before the answer nothing was written; behind it there is one reply, and never another.
unfoldable pub IsAnswered : {H : Type 0} → RpcContext H → Type 0
IsAnswered c = ((c.wrote ≡ false) × (c.replies ≡ [])) ⊎ ((c.wrote ≡ true) × (length c.replies ≡ 1))

module _ {H : Type 0} where
  first_reply :
      (c : RpcContext H)
      → IsAnswered c
      → c.wrote ≡ false
      → (a : Bool) (m : Option RpcMessage) (r : Reply)
      → IsAnswered (record c { abort = a; msg = m; replies = c.replies ++ r ∷ []; wrote = true })
  unfolding IsAnswered
  first_reply c (inl (w, e)) f a m r = inr (refl, rw e refl)
  first_reply c (inr (w, e)) f a m r = absurd (ground arith)

  stop-IsAnswered :
      (status : ℕ) (str : Bytes) (c : RpcContext H)
      → IsAnswered c
      → IsAnswered (stop_write_string_status status str c)
  unfolding stop_write_string_status abort_now
  stop-IsAnswered status str c h = by_if IsAnswered c.wrote c _ (λ w. h) (λ w. fresh h w)
    where
      fresh :
          IsAnswered c
          → c.wrote ≡ false
          → IsAnswered (record c {
            abort = true;
            replies = c.replies ++ record { json = false; status = status; body = str } ∷ [];
            wrote = true;
          })
      fresh h w =
          first_reply c h w true c.msg (record { json = false; status = status; body = str })

  write_data-IsAnswered :
      (o : Try Bytes) (c : RpcContext H)
      → IsAnswered c
      → c.wrote ≡ false
      → IsAnswered (write_data o c)
  unfolding write_data
  write_data-IsAnswered (failed e) c h f = stop-IsAnswered 500 e c h
  write_data-IsAnswered (value b) c h f = first_reply c h f c.abort c.msg _

  -- The message is no part of the property.
  set_msg-IsAnswered : (m : RpcMessage) (c : RpcContext H) → IsAnswered c → IsAnswered (set_msg m c)
  unfolding set_msg IsAnswered
  set_msg-IsAnswered m c h = h

  pub write_response-IsAnswered :
      (lib : RpcLib) (args : List ResponseArg) (c : RpcContext H)
      → IsAnswered c
      → IsAnswered (write_response lib args c)
  unfolding write_response
  write_response-IsAnswered lib args c h =
      by_if IsAnswered c.wrote c _ (λ w. h)
        (λ w.
          write_data-IsAnswered _ (set_msg (answer args (msg_of c)) c) (set_msg-IsAnswered _ c h)
            (kept w))
    where
      kept : c.wrote ≡ false → (set_msg (answer args (msg_of c)) c).wrote ≡ false
      kept w = w

  set_value-IsAnswered :
      (k : Bytes) (v : StoreValue) (c : RpcContext H) → IsAnswered c → IsAnswered (set_value k v c)
  unfolding set_value IsAnswered
  set_value-IsAnswered k v c h = h

  add_handler-IsAnswered :
      (hs : List H) (c : RpcContext H) → IsAnswered c → IsAnswered (add_handler hs c)
  unfolding add_handler IsAnswered
  add_handler-IsAnswered hs c h = h

  with_method :
      (lib : RpcLib) (m : RpcMessage) (name : Bytes) (c : RpcContext H)
      → IsAnswered c
      → IsAnswered (take_named lib m name c).1
  unfolding take_named
  with_method lib m [] c h = stop-IsAnswered 400 (codes "missing method") c h
  with_method lib m (x ∷ xs) c h = set_msg-IsAnswered _ c h

  take_message-IsAnswered :
      (lib : RpcLib) (m : Try RpcMessage) (c : RpcContext H)
      → IsAnswered c
      → IsAnswered (take_message lib m c).1
  unfolding take_message
  take_message-IsAnswered lib (failed e) c h = stop-IsAnswered 400 e c h
  take_message-IsAnswered lib (value m) c h =
      by_if (λ (p : Bool × RpcContext H). IsAnswered p.1) (not (has_valid_id m)) _ _
        (λ w. stop-IsAnswered 400 (codes "invalid request id") c h)
        (λ w. with_method lib m (lib.trim_space m.method) c h)

  take_body-IsAnswered :
      (lib : RpcLib) (o : Try Bytes) (c : RpcContext H)
      → IsAnswered c
      → IsAnswered (take_body lib o c).1
  unfolding take_body
  take_body-IsAnswered lib (failed e) c h = stop-IsAnswered 400 e c h
  take_body-IsAnswered lib (value b) c h =
      take_message-IsAnswered lib (lib.json_decode b) _ (set_value-IsAnswered _ _ c h)

  read_request-IsAnswered :
      (lib : RpcLib) (o : Option (ℕ × Bytes)) (b : Option (Try Bytes)) (c : RpcContext H)
      → IsAnswered c
      → IsAnswered (read_request lib o b c).1
  unfolding read_request
  read_request-IsAnswered lib (some (status, text)) b c h = stop-IsAnswered status text c h
  read_request-IsAnswered lib none none c h = stop-IsAnswered 400 _ c h
  read_request-IsAnswered lib none (some b) c h = take_body-IsAnswered lib (after_read lib b) c h

  read_unless-IsAnswered :
      (lib : RpcLib) (o : Option RpcMessage) (c : RpcContext H)
      → IsAnswered c
      → IsAnswered (read_unless lib o c).1
  unfolding read_unless
  read_unless-IsAnswered lib (some m) c h = h
  read_unless-IsAnswered lib none c h =
      read_request-IsAnswered lib (get_validate_request_status lib.too_large c.req) c.req.body c h

  read_body-IsAnswered :
      (lib : RpcLib) (c : RpcContext H) → IsAnswered c → IsAnswered (read_body lib c).1
  unfolding read_body
  read_body-IsAnswered lib c h = read_unless-IsAnswered lib c.msg c h

-- A script makes no write to the response but through the context.
abbrev LeavesWriter : {H : Type 0} → Act H → Type 0
LeavesWriter (writer_act r) = ⊥
LeavesWriter abort_act = Unit {0}
LeavesWriter next_act = Unit {0}
LeavesWriter (add_act hs) = Unit {0}
LeavesWriter (set_act key v) = Unit {0}
LeavesWriter (stop_act status str) = Unit {0}
LeavesWriter (write_act args) = Unit {0}

abbrev pub IsContained : {H A : Type 0} → Script H A → Type 0
IsContained (ret a) = Unit {0}
IsContained (act a k) = LeavesWriter a × IsContained k
IsContained {H} (look k) = (c : RpcContext H) → IsContained (k c)

pub record IsContainedCode {d : Decoding} {F M : Type 0} (u : UserCode d F M) : Type 0 where
  pub handlers : (m : M) → IsContained (u.handler m)
  pub calls : (f : F) (args : List d.Value) → IsContained (u.call f args)

module _ {d : Decoding} {F M : Type 0} (e : Env d F M) (contained : IsContainedCode e.code) where
  abbrev Ctx : Type 0
  Ctx = RpcContext (Handler d F M)

  select_group-IsAnswered : (c : Ctx) → IsAnswered c → IsAnswered (select_group e c)
  unfolding select_group
  select_group-IsAnswered c h =
      group (lookup (msg_of (started c)).method e.groups)
        (set_value-IsAnswered time_begin_context_key (time_value e.now) c h)
    where
      started : Ctx → Ctx
      started c = set_value time_begin_context_key (time_value e.now) c

      group :
          (o : Option (List (Handler d F M)))
          → IsAnswered (started c)
          → IsAnswered (elim o [
            | none ↦
                write_response e.lib
                  (rpc_error_arg (new_error err_no_method (codes "wrong method") []) ∷ [])
                  (started c)
            | some hs ↦
                add_handler (prefix_handlers (msg_of (started c)).method e.groups ++ hs) (started c)
          ])
      group none h =
          write_response-IsAnswered e.lib
            (rpc_error_arg (new_error err_no_method (codes "wrong method") []) ∷ []) (started c) h
      group (some hs) h =
          add_handler-IsAnswered (prefix_handlers (msg_of (started c)).method e.groups ++ hs)
            (started c) h

  handle_read_body-IsAnswered : (c : Ctx) → IsAnswered c → IsAnswered (handle_read_body e c)
  unfolding handle_read_body
  handle_read_body-IsAnswered c h =
      let h' = read_body-IsAnswered e.lib c h in
      by_if IsAnswered (not (read_body e.lib c).0) _ _ (λ w. h')
        (λ w.
          by_if IsAnswered (read_body e.lib c).1.wrote _ _ (λ w'. h')
            (λ w'. select_group-IsAnswered (read_body e.lib c).1 h'))

  module _ (next' : Ctx → Ctx) (keeps : (c : Ctx) → IsAnswered c → IsAnswered (next' c)) where
    do_act-IsAnswered :
        (a : Act (Handler d F M)) (c : Ctx)
        → LeavesWriter a
        → IsAnswered c
        → IsAnswered (do_act e next' a c)
    unfolding do_act abort_now IsAnswered
    do_act-IsAnswered abort_act c l h = h
    do_act-IsAnswered next_act c l h = keeps c h
    do_act-IsAnswered (add_act hs) c l h = add_handler-IsAnswered hs c h
    do_act-IsAnswered (set_act key v) c l h = set_value-IsAnswered key v c h
    do_act-IsAnswered (stop_act status str) c l h = stop-IsAnswered status str c h
    do_act-IsAnswered (write_act args) c l h = write_response-IsAnswered e.lib args c h
    do_act-IsAnswered (writer_act r) c l h = absurd l

    exec-IsAnswered :
        {A : Type 0}
        → (s : Script (Handler d F M) A) (c : Ctx) → IsContained s
        → IsAnswered c
        → IsAnswered (exec e next' s c).1
    unfolding exec
    exec-IsAnswered (ret a) c l h = h
    exec-IsAnswered (act a k) c l h =
        exec-IsAnswered k (do_act e next' a c) l.1 (do_act-IsAnswered a c l.0 h)
    exec-IsAnswered (look k) c l h = exec-IsAnswered (k c) c (l c) h

    handle_call_func-IsAnswered :
        (f : FuncInfo d F) (c : Ctx) → IsAnswered c → IsAnswered (handle_call_func e next' f c)
    unfolding handle_call_func
    handle_call_func-IsAnswered f c h =
        by_if IsAnswered c.wrote c _ (λ w. h)
          (λ w. call (
            parse_positional_arguments d (elim (msg_of c).params [ none ↦ [] | some b ↦ b ])
              (leading e f).1))
      where
        call :
            (o : Try (List d.Value))
            → IsAnswered (elim o [
              | failed text ↦
                  write_response e.lib (rpc_error_arg (new_error err_bad_params text []) ∷ []) c
              | value args ↦
                  let (results, c') = exec e next' (e.code.call f.fn ((leading e f).0 ++ args)) c in
                  write_response e.lib (result_args e [] results) c'
            ])
        call (failed text) =
            write_response-IsAnswered e.lib (rpc_error_arg (new_error err_bad_params text []) ∷ [])
              c h
        call (value args) =
            (let s = e.code.call f.fn ((leading e f).0 ++ args) in
              write_response-IsAnswered e.lib (result_args e [] (exec e next' s c).0)
                (exec e next' s c).1 (exec-IsAnswered s c (contained.calls f.fn _) h))

    handle-IsAnswered :
        (x : Handler d F M) (c : Ctx) → IsAnswered c → IsAnswered (handle e next' x c)
    unfolding handle
    handle-IsAnswered read_body_handler c h =
        keeps (handle_read_body e c) (handle_read_body-IsAnswered c h)
    handle-IsAnswered (call_handler f) c h =
        keeps (handle_call_func e next' f c) (handle_call_func-IsAnswered f c h)
    handle-IsAnswered (user_handler m) c h =
        exec-IsAnswered (e.code.handler m) c (contained.handlers m) h

  moved : (c : Ctx) → IsAnswered c → (n : ℕ) → IsAnswered (record c { hid = n })
  unfolding IsAnswered
  moved c h n = h

  next-IsAnswered : (n : ℕ) (c : Ctx) → IsAnswered c → IsAnswered (next e n c)
  unfolding next
  next-IsAnswered zero c h = h
  next-IsAnswered (suc n) c h =
      by_if IsAnswered c.abort c _ (λ w. h)
        (λ w. at (next-IsAnswered n) (get_elem? c.handlers c.hid))
    where
      at :
          ((c : Ctx) → IsAnswered c → IsAnswered (next e n c))
          → (o : Option (Handler d F M))
          → IsAnswered (elim o [
            | none ↦ c
            | some x ↦ handle e (next e n) x (record c { hid = (c.hid + 1) % 4_294_967_296 })
          ])
      at keeps none = h
      at keeps (some x) =
          handle-IsAnswered (next e n) keeps x (record c { hid = (c.hid + 1) % 4_294_967_296 })
            (moved c h ((c.hid + 1) % 4_294_967_296))

  -- Whatever the groups are, and whatever the user's handlers and functions do with a context, one call
  -- after the other, but for writes to the response that `Writer` hands out, and however deep their
  -- calls nest: a request gets no reply while nothing is marked as written, and one reply, never two,
  -- behind that.
  pub serve_http-IsAnswered : (n : ℕ) (q : HttpRequest) → IsAnswered (serve_http e n q)
  unfolding serve_http server_handler new_rpc_context add_handler IsAnswered
  serve_http-IsAnswered n q = next-IsAnswered n _ (inl (refl, refl))
