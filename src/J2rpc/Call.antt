-- ===== src/J2rpc/Call.antt =====
-- j2rpc/callback.go: the call of a method, with the hooks before and behind it.
use glibs.Base.{
  Bool, ℕ, not, ◌||◌, Option, none, some, List, [], ◌∷◌, ◌++◌, if◌then◌else◌, get_elem?, list_eq,
}
use glibs.Base.Int.{◌-ℤ◌}
use glibs.Base.Dict.{lookup, insert}
use glibs.Base.Bytes.{Bytes, codes}
use glibs.Rpc.{Try, value, failed, Decoding}
use glibs.Rpc
use glibs.J2rpc.{CallError, new_error, plain_error, err_internal}
use glibs.J2rpc.Context.{Context, Script, Ended, returned, panicked, ReturnValue, Env, exec, next}
use glibs.J2rpc.Registry.{Callback}

abbrev pub start_time_key : Bytes
start_time_key = codes "__j2rpc_startTimeKey"

abbrev pub end_time_key : Bytes
end_time_key = codes "__j2rpc_endTimeKey"

abbrev pub time_used_key : Bytes
time_used_key = codes "__j2rpc_timeUsedKey"

abbrev pub applied : {A B : Type 0} → (A → B) → Option A → Option B
applied f none = none
applied f (some x) = some (f x)

-- `ParsePositionalArguments`: the loop is that of the second version; a missing pointer is one to a new
-- value.
unfoldable pub parse_positional_arguments :
    (d : Decoding) → (d.Ty → Bool) → (d.Ty → d.Value) → Bytes → List d.Ty → Try (List d.Value)
parse_positional_arguments d is_pointer new_value raw_args types =
    Rpc.parse_positional_arguments
      (record d { zero_value = λ t. if is_pointer t then new_value t else d.zero_value t }) raw_args
      types

module _ {M F : Type 0} {d : Decoding} (e : Env M F d) where
  abbrev Ctx : Type 0
  Ctx = Context M

  -- What a panic becomes.
  unfoldable pub stack : Bytes → Bytes → CallError
  stack method p = new_error err_internal (method ++ (codes ": " ++ p))

  unfoldable pub hook_ended : Bytes → Ended (Option CallError) × Ctx → Option CallError × Ctx
  unfolding stack
  hook_ended method (returned r, c) = (r, c)
  hook_ended method (panicked p, c) = (some (stack method p), c)

  -- A hook, if there is one, with the error that it ends the call with.
  unfoldable pub run_hook :
      ℕ → Bytes → Option (Script M (Ended (Option CallError))) → Ctx → Option CallError × Ctx
  unfolding exec next hook_ended
  run_hook n method none c = (none, c)
  run_hook n method (some s) c = hook_ended method (exec (next e n) s c)

  unfoldable pub value2err : ReturnValue → Option CallError
  value2err v =
      if not v.is_error_type || (not v.is_valid || v.is_zero) then none else some v.as_error

  -- The error among the results.
  unfoldable pub error_at : Option ℕ → List ReturnValue → Option CallError
  unfolding value2err
  error_at none rs = none
  error_at (some i) rs = elim (get_elem? rs i) [ none ↦ none | some v ↦ value2err v ]

  -- The error and the value of a call that has come to its end.
  unfoldable pub take_results : Option ℕ → List ReturnValue → Option CallError × Option ReturnValue
  unfolding error_at
  take_results err_pos [] = (none, none)
  take_results err_pos (r ∷ rs) = elim (error_at err_pos (r ∷ rs)) [
    | some er ↦ (some er, none)
    | none ↦ (none, if r.is_valid then some r else none)
  ]

  abbrev Outcome : Type 0
  Outcome = (Option CallError × Option ReturnValue) × Ctx

  unfoldable pub and_then : Option CallError × Ctx → (Ctx → Outcome) → Outcome
  and_then (some er, c) k = ((some er, none), c)
  and_then (none, c) k = k c

  -- A hook, and what follows if it gives no error.
  unfoldable pub hooked :
      ℕ → Bytes → Option (Script M (Ended (Option CallError))) → Ctx → (Ctx → Outcome) → Outcome
  unfolding run_hook and_then
  hooked n method s c k = and_then (run_hook n method s c) k

  -- The times of a call in the context's store.
  unfoldable pub store_times : Ctx → Ctx
  store_times c =
      let ended = insert end_time_key e.call_ended c.store in
      record c {
        store = elim (lookup start_time_key ended) [
          | none ↦ ended
          | some t ↦ insert time_used_key (e.call_ended -ℤ t) ended
        ];
      }

  -- The end of `call`, behind the method.
  unfoldable pub after_method :
      ℕ → Bytes → Callback d.Ty F → List d.Value → Ended (List ReturnValue) × Ctx → Outcome
  unfolding hooked store_times take_results stack
  after_method n method cb args (panicked p, c) = ((some (stack method p), none), c)
  after_method n method cb args (returned rs, c) =
      hooked n method (applied (λ f. f method args rs) (e.code.after_call cb.fn)) (store_times c)
        (λ c.
          hooked n method (applied (λ f. f method args rs) e.code.call_after) c
            (λ c. (take_results cb.shape.err_pos rs, c)))

  -- `callback.call`.
  unfoldable pub call : ℕ → Bytes → Callback d.Ty F → List d.Value → Ctx → Outcome
  unfolding hooked after_method exec next
  call n method cb args c =
      hooked n method (applied (λ f. f method args) e.code.call_before) c (λ c.
        hooked n method (applied (λ f. f method args) (e.code.before_call cb.fn)) c (λ c.
          after_method n method cb args (
            exec (next e n)
              (e.code.call cb.fn (if cb.shape.has_ctx then e.context_value ∷ args else args)) c)))

  -- The value as the message's result, if it is not zero.
  unfoldable pub set_result : Outcome → Option CallError × Ctx
  set_result ((some er, v), c) = (some er, c)
  set_result ((none, none), c) = (none, c)
  set_result ((none, some v), c) = if v.is_zero then (none, c) else elim v.encoded [
    | failed text ↦ (some (plain_error text), c)
    | value b ↦ (none, record c { msg = record (c.msg) { result = some b } })
  ]
