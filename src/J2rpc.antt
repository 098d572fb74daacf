-- ===== src/J2rpc.antt =====
-- j2rpc: the first version of the JSON-RPC server. Errors (error.go), messages (message.go) and the
-- list of handlers (handler.go).
pub mod Body
pub mod Registry
pub mod Response
pub mod Context
pub mod Call
pub mod Server
mod Messages
mod Tests
use glibs.Base.{
  ℕ, Bool, true, false, not, ◌&&◌, Option, none, some, List, [], ◌∷◌, ◌++◌, if◌then◌else◌, ◌==◌,
  ◌===◌, list_eq,
}
use glibs.Base.Int.{ℤ, pos, negsuc}
use glibs.Base.Bytes.{Bytes, codes}
use glibs.Base.Split.{cut}
use glibs.Rpc.{RpcError, RpcMessage}

abbrev pub err_parse : ℤ
err_parse = negsuc 32_699

abbrev pub err_invalid_request : ℤ
err_invalid_request = negsuc 32_599

abbrev pub err_no_method : ℤ
err_no_method = negsuc 32_600

abbrev pub err_bad_params : ℤ
err_bad_params = negsuc 32_601

abbrev pub err_internal : ℤ
err_internal = negsuc 32_602

abbrev pub err_authorization : ℤ
err_authorization = pos 401

abbrev pub err_forbidden : ℤ
err_forbidden = pos 403

-- The text that separates a namespace from a method.
abbrev pub split_method_separator : Bytes
split_method_separator = codes "."

abbrev pub vsn : Bytes
vsn = codes "2.0"

-- An error, by the first interface or type that `setError` finds it to have.
pub data CallError : Type 0 where
  -- `ItfJ2rpcError`, which `*Error` is too.
  coded_error : ℤ → Bytes → Option Bytes → CallError
  -- `IRPCError`, with what it gives.
  held_error : RpcError → CallError
  token_error forbidden_error plain_error : Bytes → CallError

-- `NewError` without data, as an error.
abbrev pub new_error : ℤ → Bytes → CallError
new_error code msg = coded_error code msg none

-- The error that `setError` stores.
unfoldable pub error_of : CallError → RpcError
error_of (coded_error code msg data_of) = record { code = code; message = msg; data_of = data_of }
error_of (held_error e) = e
error_of (token_error msg) = record { code = err_authorization; message = msg; data_of = none }
error_of (forbidden_error msg) = record { code = err_forbidden; message = msg; data_of = none }
error_of (plain_error msg) = record { code = err_internal; message = msg; data_of = none }

unfoldable pub set_error : Option CallError → RpcMessage → RpcMessage
unfolding error_of
set_error none r = r
set_error (some e) r = record r { error = some (error_of e) }

abbrev pub empty : RpcMessage
empty = record { id = none; version = []; method = []; params = none; result = none; error = none }

abbrev pub bytes_of : Option Bytes → Bytes
bytes_of none = []
bytes_of (some b) = b

abbrev id_starts : Bytes → Bool
id_starts [] = false
id_starts (x ∷ xs) = not (x == b'{') && not (x == b'[')

unfoldable pub has_valid_id : RpcMessage → Bool
has_valid_id r = id_starts (bytes_of r.id)

-- The namespace and the method, or that there is no separator.
unfoldable pub methods : RpcMessage → Option (Bytes × Bytes)
methods r = cut split_method_separator r.method

abbrev pub filled_id : Bytes → Bytes
filled_id [] = b'1' ∷ []
filled_id (x ∷ xs) = x ∷ xs

-- What is written of a message.
unfoldable pub output : RpcMessage → RpcMessage
output r = record r {
  id = some (filled_id (bytes_of r.id));
  version = vsn;
  method = [];
  params = none;
}

-- `UpsertHandlers`, where a handler is known by its full name.
module _ {H : Type 0} (func_name_full : H → Bytes) where
  unfoldable pub is_duplicate : Bytes → List H → Bool
  is_duplicate fn1 [] = false
  is_duplicate fn1 (nh ∷ handlers) =
      if fn1 === func_name_full nh then true else is_duplicate fn1 handlers

  unfoldable pub upsert_handlers : List H → List H → List H
  unfolding is_duplicate
  upsert_handlers handlers [] = handlers
  upsert_handlers handlers (h ∷ new_handlers) =
      upsert_handlers
        (if is_duplicate (func_name_full h) handlers then handlers else handlers ++ h ∷ [])
        new_handlers
