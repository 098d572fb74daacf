-- ===== src/J2rpc/Response.antt =====
-- j2rpc/message.go and j2rpc/functions.go: the writing of a response, as the calls of the response that are
-- made for it, in order.
use glibs.Base.{
  ℕ, Bool, false, Option, none, some, List, [], ◌∷◌, ◌++◌, if◌then◌else◌, ◌===◌, list_eq, leb,
  length,
}
use glibs.Base.Int.{ℤ}
use glibs.Base.Dict.{Dict, lookup, insert, erase}
use glibs.Base.Bytes.{Bytes, codes}
use glibs.Rpc.{Try, value, failed, RpcMessage}
use glibs.J2rpc.Body.{BodyLib, parse_rpc_body}

-- A call of the response.
pub data WriterCall : Type 0 where
  header_set : Bytes → Bytes → WriterCall
  header_del : Bytes → WriterCall
  write_header : ℕ → WriterCall
  write_body : Bytes → WriterCall
  -- net/http's `Error`.
  http_error : ℕ → Bytes → WriterCall

-- The response: its headers, and the calls so far.
pub record Writer : Type 0 where
  pub headers : Dict Bytes Bytes
  pub calls : List WriterCall

abbrev called : WriterCall → Writer → Writer
called x w = record w { calls = w.calls ++ x ∷ [] }

unfoldable pub set_header : Bytes → Bytes → Writer → Writer
set_header k v w = record { headers = insert k v w.headers; calls = w.calls ++ header_set k v ∷ [] }

unfoldable pub del_header : Bytes → Writer → Writer
del_header k w = record { headers = erase k w.headers; calls = w.calls ++ header_del k ∷ [] }

abbrev pub status_written : Bytes
status_written = codes "Status-Written"

abbrev is_one : Option Bytes → Bool
is_one none = false
is_one (some v) = v === codes "1"

-- `HasWriteHeader`, which takes the mark away.
unfoldable pub has_write_header : Writer → Bool × Writer
unfolding del_header
has_write_header w = (is_one (lookup status_written w.headers), del_header status_written w)

unfoldable pub set_write_header : Writer → Writer
unfolding set_header
set_write_header w = set_header status_written (codes "1") w

abbrev pub content_type : Bytes
content_type = codes "Content-Type"

unfoldable pub write_error : ℕ → Bytes → Writer → Writer
unfolding set_header set_write_header
write_error status msg w = called (write_body msg) (
    set_write_header (
      called (write_header status) (set_header content_type (codes "text/plain; charset=utf-8") w)))

-- JSON, and the numbers of a text; a decoder fills the message it gets, also when it fails.
pub record ServerLib : Type 0 where
  pub body : BodyLib
  pub json_encode : RpcMessage → Try Bytes
  pub json_decode : Bytes → RpcMessage → Bool × RpcMessage
  pub too_large : ℤ → Bytes

module _ (lib : ServerLib) (crypto_key : Bytes) where
  unfoldable pub write_bytes : Try Bytes → Writer → Writer
  unfolding write_error set_header
  write_bytes (failed e) w = write_error 500 e w
  write_bytes (value b) w =
      let json = set_header content_type (codes "application/json; charset=utf-8") w in
      called (write_body b) (
        if leb 16 (length crypto_key)
        then set_header content_type (codes "text/plain") json
        else json)

  unfoldable pub write_encoded : Try Bytes → Writer → Writer
  unfolding write_error write_bytes parse_rpc_body
  write_encoded (failed e) w = write_error 500 e w
  write_encoded (value b) w =
      write_bytes (parse_rpc_body lib.body crypto_key b false) (called (write_header 200) w)

  -- `writeResponse`.
  unfoldable pub write_response : RpcMessage → Writer → Writer
  unfolding has_write_header write_encoded
  write_response r w =
      let (claimed, w') = has_write_header w in
      if claimed then w' else write_encoded (lib.json_encode r) w'
