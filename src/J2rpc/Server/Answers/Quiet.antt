-- ===== src/J2rpc/Server/Answers/Quiet.antt =====
-- j2rpc/j2rpc.go: user code that makes no call of the response leaves it to the server.
use glibs.Base.{
  by_if, ℕ, zero, suc, ◌+◌, ◌≡◌, refl, ap, ◌∙◌, ◌⊎◌, inl, inr, Bool, true, false, not, Option, none,
  some, List, [], ◌∷◌, if◌then◌else◌, get_elem?, arith, list_eq,
}
use glibs.Base.Bytes.{Bytes}
use glibs.Rpc.{Try, value, failed, Decoding}
use glibs.Base.Dict.{insert}
use glibs.J2rpc.{CallError, new_error, plain_error, err_bad_params, bytes_of, has_valid_id, methods}
use glibs.J2rpc.Body.{parse_rpc_body}
use glibs.J2rpc.Registry.{Callback}
use glibs.J2rpc.Response.{Writer}
use glibs.J2rpc.Context.{
  Context, Act, stop_act, store_act, msg_act, writer_act, Script, ret, act, next_step, look, Ended,
  returned, panicked, ReturnValue, Env, do_act, exec, run_at, next, do_handlers,
}
use glibs.J2rpc.Call.{
  parse_positional_arguments, applied, hook_ended, run_hook, and_then, hooked, store_times,
  after_method, call, set_result, start_time_key,
}
use glibs.J2rpc.Server.{run_callback, run_found, run_named, route, take_body, handle}

abbrev is_write : Act → Bool
is_write stop_act = false
is_write (store_act key v) = false
is_write (msg_act m) = false
is_write (writer_act f) = true

-- A script that makes no call of the response, whatever it gets back.
abbrev pub Quiet : {M A : Type 0} → Script M A → Type 0
Quiet (ret a) = Unit {0}
Quiet (act a k) = (is_write a ≡ false) × Quiet k
Quiet {M} (next_step k) = (e : Option CallError) → Quiet (k e)
Quiet {M} (look k) = (c : Context M) → Quiet (k c)

abbrev pub QuietHook : {M A : Type 0} → Option (Script M A) → Type 0
QuietHook none = Unit {0}
QuietHook (some s) = Quiet s

-- The handlers, methods and hooks make no call of the response.
pub record QuietCode {M F : Type 0} {d : Decoding} (e : Env M F d) : Type 0 where
  pub handlers : (h : M) → Quiet (e.code.handler h)
  pub calls : (f : F) (args : List d.Value) → Quiet (e.code.call f args)
  pub first_hook :
      (m : Bytes) (args : List d.Value) → QuietHook (applied (λ f. f m args) e.code.call_before)
  pub before :
      (f : F) (m : Bytes) (args : List d.Value)
      → QuietHook (applied (λ h. h m args) (e.code.before_call f))
  pub after :
      (f : F) (m : Bytes) (args : List d.Value) (rs : List ReturnValue)
      → QuietHook (applied (λ h. h m args rs) (e.code.after_call f))
  pub last_hook :
      (m : Bytes) (args : List d.Value) (rs : List ReturnValue)
      → QuietHook (applied (λ f. f m args rs) e.code.call_after)

module _ {M : Type 0} where
  do_act-writer : (a : Act) (c : Context M) → is_write a ≡ false → (do_act a c).writer ≡ c.writer
  unfolding do_act
  do_act-writer stop_act c h = refl
  do_act-writer (store_act key v) c h = refl
  do_act-writer (msg_act m) c h = refl
  do_act-writer (writer_act f) c h = absurd (ground (arith, h))

  exec-writer :
      (f : Context M → Option CallError × Context M)
      → ((c : Context M) → (f c).1.writer ≡ c.writer)
      → {A : Type 0} (s : Script M A) (c : Context M) → Quiet s
      → (exec f s c).1.writer ≡ c.writer
  unfolding exec
  exec-writer f h (ret a) c q = refl
  exec-writer f h (act a k) c (still, q) =
      exec-writer f h k (do_act a c) q ∙ do_act-writer a c still
  exec-writer f h (next_step k) c q = exec-writer f h (k (f c).0) (f c).1 (q (f c).0) ∙ h c
  exec-writer f h (look k) c q = exec-writer f h (k c) c (q c)

module _ {M F : Type 0} {d : Decoding} (e : Env M F d) (quiet : QuietCode e) where
  run_at-writer :
      (f : Context M → Option CallError × Context M)
      → ((c : Context M) → (f c).1.writer ≡ c.writer)
      → (h : Option M) (c : Context M) → (run_at e f h c).1.writer ≡ c.writer
  unfolding run_at
  run_at-writer f k none c = refl
  run_at-writer f k (some h) c = exec-writer f k (e.code.handler h) c (quiet.handlers h)

  next-writer : (n : ℕ) (c : Context M) → (next e n c).1.writer ≡ c.writer
  unfolding next
  next-writer zero c = refl
  next-writer (suc n) c =
      by_if {A = Option CallError × Context M} (λ x. x.1.writer ≡ c.writer) c.is_stopped _ _
        (λ _. refl)
        (λ _.
          run_at-writer (next e n) (next-writer n) (get_elem? c.mid_handlers (c.current_index + 1))
            (record c { current_index = c.current_index + 1 }))

  do_handlers-writer : (n : ℕ) (c : Context M) → (do_handlers e n c).1.writer ≡ c.writer
  unfolding do_handlers
  do_handlers-writer n c = started e.mid_handlers
    where
      started :
          (hs : List M)
          → (elim hs as (λ x. Option CallError × Context M) [
            | [] ↦ (none, c)
            | h ∷ hs ↦ exec (next e n) (e.code.handler h) (record c { mid_handlers = h ∷ hs })
          ]).1.writer
            ≡ c.writer
      started [] = refl
      started (h ∷ hs) =
          exec-writer (next e n) (next-writer n) (e.code.handler h)
            (record c { mid_handlers = h ∷ hs }) (quiet.handlers h)

  hook_ended-context :
      (method : Bytes) (r : Ended (Option CallError) × Context M) → (hook_ended e method r).1 ≡ r.1
  unfolding hook_ended
  hook_ended-context method (returned x, c) = refl
  hook_ended-context method (panicked p, c) = refl

  run_hook-writer :
      (n : ℕ) (method : Bytes) (s : Option (Script M (Ended (Option CallError)))) (c : Context M)
      → QuietHook s
      → (run_hook e n method s c).1.writer ≡ c.writer
  unfolding run_hook
  run_hook-writer n method none c q = refl
  run_hook-writer n method (some s) c q =
      ap (λ x. x.writer) (hook_ended-context method (exec (next e n) s c))
      ∙ exec-writer (next e n) (next-writer n) s c q

  abbrev Outcome : Type 0
  Outcome = (Option CallError × Option ReturnValue) × Context M

  and_then-writer :
      (w : Writer) (r : Option CallError × Context M) (k : Context M → Outcome)
      → r.1.writer ≡ w
      → ((c : Context M) → c.writer ≡ w → (k c).1.writer ≡ w)
      → (and_then e r k).1.writer ≡ w
  unfolding and_then
  and_then-writer w (some er, c) k h next_one = h
  and_then-writer w (none, c) k h next_one = next_one c h

  hooked-writer :
      (w : Writer) (n : ℕ) (method : Bytes) (s : Option (Script M (Ended (Option CallError))))
      (c : Context M) (k : Context M → Outcome)
      → QuietHook s
      → c.writer ≡ w
      → ((c : Context M) → c.writer ≡ w → (k c).1.writer ≡ w)
      → (hooked e n method s c k).1.writer ≡ w
  unfolding hooked
  hooked-writer w n method s c k q h next_one =
      and_then-writer w (run_hook e n method s c) k (run_hook-writer n method s c q ∙ h) next_one

  after_method-writer :
      (w : Writer) (n : ℕ) (method : Bytes) (cb : Callback d.Ty F) (args : List d.Value)
      (r : Ended (List ReturnValue) × Context M)
      → r.1.writer ≡ w
      → (after_method e n method cb args r).1.writer ≡ w
  unfolding after_method store_times
  after_method-writer w n method cb args (panicked p, c) h = h
  after_method-writer w n method cb args (returned rs, c) h =
      hooked-writer w n method _ _ _ (quiet.after cb.fn method args rs) h
        (λ c h. hooked-writer w n method _ c _ (quiet.last_hook method args rs) h (λ c h. h))

  call-writer :
      (w : Writer) (n : ℕ) (method : Bytes) (cb : Callback d.Ty F) (args : List d.Value)
      (c : Context M)
      → c.writer ≡ w
      → (call e n method cb args c).1.writer ≡ w
  unfolding call
  call-writer w n method cb args c h =
      let full = if cb.shape.has_ctx then e.context_value ∷ args else args in
      hooked-writer w n method _ c _ (quiet.first_hook method args) h (λ c h.
        hooked-writer w n method _ c _ (quiet.before cb.fn method args) h (λ c h.
          after_method-writer w n method cb args (exec (next e n) (e.code.call cb.fn full) c) (
            exec-writer (next e n) (next-writer n) (e.code.call cb.fn full) c
              (quiet.calls cb.fn full)
            ∙ h)))

  set_result-writer : (w : Writer) (o : Outcome) → o.1.writer ≡ w → (set_result e o).1.writer ≡ w
  unfolding set_result
  set_result-writer w ((some er, v), c) h = h
  set_result-writer w ((none, none), c) h = h
  set_result-writer w ((none, some v), c) h = encoded v.is_zero v.encoded
    where
      encoded :
          (z : Bool) (b : Try Bytes)
          → (if z then (none, c) else elim b as (λ x. Option CallError × Context M) [
            | failed text ↦ (some (plain_error text), c)
            | value b ↦ (none, record c { msg = record (c.msg) { result = some b } })
          ]).1.writer
            ≡ w
      encoded true b = h
      encoded false (failed text) = h
      encoded false (value b) = h

  run_callback-writer :
      (w : Writer) (n : ℕ) (method : Bytes) (cb : Callback d.Ty F)
      (r : Option CallError × Context M)
      → r.1.writer ≡ w
      → (run_callback e n method cb r).1.writer ≡ w
  unfolding run_callback
  run_callback-writer w n method cb (some er, c) h = h
  run_callback-writer w n method cb (none, c) h =
      by_if {A = Option CallError × Context M} (λ x. x.1.writer ≡ w) c.is_stopped _ _ (λ _. h)
        (λ _. parsed (
          parse_positional_arguments d e.is_pointer e.new_value (bytes_of c.msg.params)
            cb.shape.arg_types))
    where
      parsed :
          (t : Try (List d.Value))
          → (elim t as (λ x. Option CallError × Context M) [
            | failed text ↦ (some (new_error err_bad_params text), c)
            | value args ↦ set_result e (call e n method cb args c)
          ]).1.writer
            ≡ w
      parsed (failed text) = h
      parsed (value args) =
          set_result-writer w (call e n method cb args c) (call-writer w n method cb args c h)

  run_found-writer :
      (n : ℕ) (method : Bytes) (f : CallError ⊎ Callback d.Ty F) (c : Context M)
      → (run_found e n method f c).1.writer ≡ c.writer
  unfolding run_found
  run_found-writer n method (inl er) c = refl
  run_found-writer n method (inr cb) c =
      run_callback-writer c.writer n method cb (do_handlers e n c) (do_handlers-writer n c)

  run_named-writer :
      (n : ℕ) (m : Option (Bytes × Bytes)) (c : Context M) → (run_named e n m c).1.writer ≡ c.writer
  unfolding run_named
  run_named-writer n none c = refl
  run_named-writer n (some (namespace, name)) c =
      run_found-writer n _ _ (record c { msg = record (c.msg) { method = _ } })

  route-writer : (n : ℕ) (c : Context M) → (route e n c).1.writer ≡ c.writer
  unfolding route
  route-writer n c =
      by_if {A = Option CallError × Context M} (λ x. x.1.writer ≡ c.writer)
        (not (has_valid_id c.msg)) _ _ (λ _. refl) (λ _. run_named-writer n (methods c.msg) c)

  take_body-writer :
      (n : ℕ) (b : Try Bytes) (c : Context M) → (take_body e n b c).1.writer ≡ c.writer
  unfolding take_body
  take_body-writer n (failed text) c = refl
  take_body-writer n (value b) c =
      let m = e.lib.json_decode b c.msg in
      by_if {A = Option CallError × Context M} (λ x. x.1.writer ≡ c.writer) m.0 _ _
        (λ _.
          route-writer n
            (record c { body = b; store = insert start_time_key e.now c.store; msg = m.1 }))
        (λ _. refl)

  -- Up to its answer, a request makes no call of the response.
  pub handle-writer : (n : ℕ) (b : Try Bytes) (c : Context M) → (handle e n b c).1.writer ≡ c.writer
  unfolding handle
  handle-writer n (failed text) c = refl
  handle-writer n (value b) c = take_body-writer n (parse_rpc_body e.lib.body e.crypto_key b true) c
