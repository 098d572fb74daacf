-- ===== src/Rpc/Response.antt =====
-- j2rpc2/context.go: what `WriteResponse` answers.
use glibs.Base.{◌≡◌, refl, ap, ◌∙◌, ◌⊎◌, inl, inr, Option, none, some, List, [], ◌∷◌, arith}
use glibs.Base.Bytes.{Bytes}
use glibs.Rpc.{RpcMessage, RpcError}
use glibs.Rpc.Context.{
  ResponseArg, rpc_error_arg, error_arg, bytes_arg, other_arg, with_arg, with_args, settled, wire,
  omit_empty, answer, success,
}

-- One of the two is there: JSON-RPC's answer is a result or an error.
unfoldable pub HasOne : RpcMessage → Type 0
HasOne m =
    ((e : RpcError) × ((m.error ≡ some e) × (m.result ≡ none)))
    ⊎ ((b : Bytes) × ((m.error ≡ none) × (m.result ≡ some b)))

-- A result that is there but empty, of which nothing is sent.
abbrev pub SendsNeither : RpcMessage → Type 0
SendsNeither m =
    (m.error ≡ none) × (m.result ≡ some []) × ((wire m).error ≡ none) × ((wire m).result ≡ none)

settled-HasOne : (m : RpcMessage) → HasOne (settled m)
unfolding HasOne settled
settled-HasOne m = by_error m.error m.result refl refl
  where
    by_error :
        (e : Option RpcError) (r : Option Bytes) → m.error ≡ e → m.result ≡ r → HasOne (settled m)
    by_error (some e) r p q = inl (e, (ground arith, ground arith))
    by_error none none p q = inr (success, (ground arith, ground arith))
    by_error none (some b) p q = inr (b, (ground arith, ground arith))

with_args-id : (args : List ResponseArg) (m : RpcMessage) → (with_args args m).id ≡ m.id
unfolding with_args with_arg
with_args-id [] m = refl
with_args-id (rpc_error_arg e ∷ rest) m = with_args-id rest (with_arg (rpc_error_arg e) m)
with_args-id (error_arg text ∷ rest) m = with_args-id rest (with_arg (error_arg text) m)
with_args-id (bytes_arg b ∷ rest) m = with_args-id rest (with_arg (bytes_arg b) m)
with_args-id (other_arg ∷ rest) m = with_args-id rest (with_arg other_arg m)

settled-id : (m : RpcMessage) → (settled m).id ≡ m.id
unfolding settled
settled-id m = by_error m.error m.result refl refl
  where
    by_error :
        (e : Option RpcError) (r : Option Bytes)
        → m.error ≡ e
        → m.result ≡ r
        → (settled m).id ≡ m.id
    by_error (some e) r p q = ground arith
    by_error none none p q = ground arith
    by_error none (some b) p q = ground arith

-- What is sent of an answer that has one of the two, which may be an empty result.
wire-HasOne : (m : RpcMessage) → HasOne m → HasOne (wire m) ⊎ SendsNeither m
unfolding wire HasOne
wire-HasOne m (inl (e, (p, q))) = inl (inl (e, (p, rw q refl)))
wire-HasOne m (inr ([], (p, q))) = inr (p, q, p, rw q refl)
wire-HasOne m (inr (x ∷ b, (p, q))) = inl (inr (x ∷ b, (p, rw q refl)))

-- Whatever it is called with and whatever answer the context had before, `WriteResponse` sends a result
-- or an error, and never both; it sends neither of them only for a result that is an empty text and no
-- error. What it sends has the same id, unless that is empty, and carries neither the method nor the
-- parameters.
pub answer-HasOne :
    (args : List ResponseArg) (m : RpcMessage)
    → (HasOne (wire (answer args m)) ⊎ SendsNeither (answer args m))
      × ((wire (answer args m)).id ≡ omit_empty m.id)
      × ((wire (answer args m)).method ≡ [])
      × ((wire (answer args m)).params ≡ none)
unfolding wire
answer-HasOne args m = (
  wire-HasOne (answer args m) (settled-HasOne (with_args args m)),
  ap omit_empty (settled-id (with_args args m) ∙ with_args-id args m),
  refl,
  refl,
)
