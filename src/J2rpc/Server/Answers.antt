-- ===== src/J2rpc/Server/Answers.antt =====
-- j2rpc/j2rpc.go: a request is answered once. The user's code here leaves the response alone.
pub mod Quiet
use glibs.Base.{
  ℕ, ◌+◌, ◌≤◌, ◌≡◌, ◌⊎◌, refl, sym, ap, subst, ◌∙◌, Bool, true, false, not, ◌&&◌, ◌||◌, Option,
  none, some, List, [], ◌∷◌, ◌++◌, arith, if◌then◌else◌, Bool-cases, inl, inr, ◌===◌, list_eq,
  length, leb,
}
use glibs.Base.Int.{ℤ, pos, eqb_ℤ}
use glibs.Base.Bytes.{Bytes, codes}
use glibs.Rpc.{Try, value, failed, RpcMessage, RpcError, Decoding}
use glibs.Collections.{validate_request}
use glibs.J2rpc.{CallError, error_of, set_error, output, vsn, bytes_of, filled_id}
use glibs.J2rpc.Body.{parse_rpc_body, IsBodyLib}
use glibs.J2rpc.Body.Roundtrip.{parse_rpc_body_roundtrip}
use glibs.J2rpc.Response.{
  Writer, WriterCall, header_set, header_del, write_header, write_body, http_error, ServerLib,
  write_bytes, write_encoded, write_response, write_error, set_write_header, has_write_header,
  set_header, del_header,
}
use glibs.J2rpc.Context.{Context, Env, begin_request, release}
use glibs.J2rpc.Server.{HttpRequest, handle, reply, server_handler, serve_http}
use glibs.J2rpc.Server.Answers.Quiet.{QuietCode, handle-writer}

-- The statuses and the bodies that are sent, in order.
abbrev pub statuses : List WriterCall → List ℕ
statuses [] = []
statuses (write_header status ∷ cs) = status ∷ statuses cs
statuses (http_error status text ∷ cs) = status ∷ statuses cs
statuses (header_set k v ∷ cs) = statuses cs
statuses (header_del k ∷ cs) = statuses cs
statuses (write_body b ∷ cs) = statuses cs

abbrev pub bodies : List WriterCall → List Bytes
bodies [] = []
bodies (write_body b ∷ cs) = b ∷ bodies cs
bodies (http_error status text ∷ cs) = text ∷ bodies cs
bodies (header_set k v ∷ cs) = bodies cs
bodies (header_del k ∷ cs) = bodies cs
bodies (write_header status ∷ cs) = bodies cs

-- The answer shows the error of the handling, and else that of the message.
abbrev pub Shows : Option CallError → RpcMessage → RpcMessage → Type 0
Shows none q m = m.error ≡ q.error
Shows (some e) q m = m.error ≡ some (error_of e)

-- An answer's id is that of the message, or 1 where that is empty.
abbrev pub HasIdOf : RpcMessage → RpcMessage → Type 0
HasIdOf q m =
    ((x : ℕ) × (id : Bytes) × (q.id ≡ some (x ∷ id)) × (m.id ≡ q.id))
    ⊎ ((bytes_of q.id ≡ []) × (m.id ≡ some (codes "1")))

-- The answer `m` to a message `q`: its id and its result, the error, the version, and neither a method
-- nor parameters.
abbrev pub IsReply : Option CallError → RpcMessage → RpcMessage → Type 0
IsReply er q m =
    (m.version ≡ codes "2.0")
    × (m.method ≡ [])
    × (m.params ≡ none)
    × (m.result ≡ q.result)
    × HasIdOf q m
    × Shows er q m

filled :
    (o : Option Bytes)
    → ((x : ℕ) × (id : Bytes) × (o ≡ some (x ∷ id)) × (some (filled_id (bytes_of o)) ≡ o))
      ⊎ ((bytes_of o ≡ []) × (some (filled_id (bytes_of o)) ≡ some (codes "1")))
filled none = inr (refl, refl)
filled (some []) = inr (refl, refl)
filled (some (x ∷ id)) = inl (x, id, refl, refl)

output-IsReply : (e : Option CallError) (q : RpcMessage) → IsReply e q (output (set_error e q))
unfolding output set_error
output-IsReply none q = (refl, refl, refl, refl, filled q.id, refl)
output-IsReply (some e) q = (refl, refl, refl, refl, filled q.id, refl)

module _ {M F : Type 0} {d : Decoding} (e : Env M F d) where
  -- One reply: the encoded and encrypted answer, or the error of its encoding.
  abbrev pub Sent : Option CallError → RpcMessage → Writer → Type 0
  Sent er q w =
      (m : RpcMessage) × IsReply er q m
      × (((b : Bytes) × (out : Bytes) × (e.lib.json_encode m ≡ value b)
            × (parse_rpc_body e.lib.body e.crypto_key b false ≡ value out)
            × (statuses w.calls ≡ 200 ∷ [])
            × (bodies w.calls ≡ out ∷ []))
          ⊎ ((text : Bytes) × (e.lib.json_encode m ≡ failed text)
              × (statuses w.calls ≡ 500 ∷ [])
              × (bodies w.calls ≡ text ∷ [])))

  -- The response before its answer is written.
  abbrev begun : Writer
  begun = record {
    headers = (codes "x-content-type-options", codes "nosniff") ∷ [];
    calls =
        header_del (codes "Status-Written")
        ∷ header_set (codes "x-content-type-options") (codes "nosniff")
        ∷ [];
  }

  -- The context with which a request is handled.
  abbrev pub ready : Context M → Context M
  ready c = record c { writer = begun; is_stopped = false; current_index = 0 }

module _ {M F : Type 0} {d : Decoding} (e : Env M F d) (quiet : QuietCode e)
    (laws : IsBodyLib e.lib.body) where
  write_response-Sent :
      (m : RpcMessage) (b out : Bytes)
      → e.lib.json_encode m ≡ value b
      → parse_rpc_body e.lib.body e.crypto_key b false ≡ value out
      → (statuses (write_response e.lib e.crypto_key m (begun e)).calls ≡ 200 ∷ [])
        × (bodies (write_response e.lib e.crypto_key m (begun e)).calls ≡ out ∷ [])
  unfolding write_response has_write_header del_header write_encoded write_bytes set_header
  write_response-Sent m b out enc sent = elim (Bool-cases (leb 16 (length e.crypto_key))) [
    | inl long ↦ rw (enc, sent, long) (refl, refl)
    | inr short ↦ rw (enc, sent, short) (refl, refl)
  ]

  write_response-failed :
      (m : RpcMessage) (text : Bytes)
      → e.lib.json_encode m ≡ failed text
      → (statuses (write_response e.lib e.crypto_key m (begun e)).calls ≡ 500 ∷ [])
        × (bodies (write_response e.lib e.crypto_key m (begun e)).calls ≡ text ∷ [])
  unfolding write_response has_write_header del_header write_encoded write_error set_write_header
      set_header
  write_response-failed m text enc = rw enc (refl, refl)

  written-Sent :
      (er : Option CallError) (q m : RpcMessage) (t : Try Bytes)
      → IsReply er q m
      → e.lib.json_encode m ≡ t
      → Sent e er q (write_response e.lib e.crypto_key m (begun e))
  written-Sent er q m (failed text) good enc =
      let (one, body) = write_response-failed m text enc in (m, good, inr (text, enc, one, body))
  written-Sent er q m (value b) good enc =
      let (out, sent, back) = parse_rpc_body_roundtrip e.lib.body laws e.crypto_key b in
      let (one, body) = write_response-Sent m b out enc sent in
      (m, good, inl (b, out, enc, sent, one, body))

  reply-Sent :
      (r : Option CallError × Context M)
      → r.1.writer ≡ begun e
      → Sent e r.0 r.1.msg (reply e r).writer
  unfolding reply
  reply-Sent (er, c) same =
      let m = output (set_error er c.msg) in
      subst (λ w. Sent e er c.msg (write_response e.lib e.crypto_key m w)) (sym same)
        (written-Sent er c.msg m (e.lib.json_encode m) (output-IsReply er c.msg) refl)

  -- A running server answers a request that it does not refuse, and that is no empty health check, with
  -- one reply, whatever its handlers, its hooks and the method do or return, a panic of a hook or of the
  -- method included, as long as they leave the response alone. The answer has the version, the message's
  -- id (or 1 where that is empty), its result, and the error of the handling or else that of the message.
  -- What is sent is, with the status 200, the answer encoded and encrypted, or, with the status 500, the
  -- text of the encoding's error. The cipher decrypts what it encrypts, for keys of its three lengths.
  pub serve_http-answers :
      (n : ℕ) (r : HttpRequest) (c : Context M)
      → e.run ≡ true
      → ((r.verb === codes "GET") && (eqb_ℤ r.content_length (pos 0) && (r.raw_query === [])))
        ≡ false
      → validate_request e.lib.too_large r.verb r.content_length ≡ none
      → Sent e
          (handle e n r.body (ready e c)).0
          (handle e n r.body (ready e c)).1.msg
          (serve_http e n r c).0
  unfolding serve_http server_handler begin_request has_write_header del_header set_header
  serve_http-answers n r c on real fine =
      rw (real, on, fine)
        (reply-Sent (handle e n r.body (ready e c)) (handle-writer e quiet n r.body (ready e c)))
