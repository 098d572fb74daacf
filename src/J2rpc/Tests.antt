-- ===== src/J2rpc/Tests.antt =====
-- j2rpc: the properties of the first version of the server, on a small one.
use glibs.Base.{
  ℕ, ◌≡◌, ◌⊎◌, inr, refl, Bool, true, false, none, some, List, [], ◌∷◌, ◌++◌, length, list_eq, ◌==◌,
  arith, All, inl, ◌||◌, if◌then◌else◌,
}
use glibs.Base.Dict.{insert}
use glibs.Base.Int.{pos}
use glibs.Base.Bytes.{Bytes, codes}
use glibs.Collections.{validate_request, snake_string, snake_from, lower_ascii}
use glibs.Rpc.{Try, value, failed, Decoding, Tok, array_tok, eof_tok}
use glibs.J2rpc.{token_error, upsert_handlers, is_duplicate, bytes_of, empty}
use glibs.J2rpc.Body.{BodyLib, IsKeyLength, IsBodyLib, parse_rpc_body, parse_handler_crypto}
use glibs.J2rpc.Body.Roundtrip.{parse_rpc_body_roundtrip}
use glibs.J2rpc.Messages.{IsUnique, upsert_handlers-IsUnique}
use glibs.J2rpc.Registry.{
  TypeLib, Method, Receiver, Callback, Services, register, get_call_back, service_name,
  make_arg_types,
}
use glibs.J2rpc.Registry.Lookup.{register_sound, register_keeps, Offered, skips_of}
use glibs.J2rpc.Context.{
  ret, act, next_step, store_act, returned, ReturnValue, UserCode, Env, do_handlers, new_context,
  release, begin_request,
}
use glibs.J2rpc.Context.Chain.{do_handlers-enough}
use glibs.J2rpc.Response.{
  ServerLib, Writer, write_response, header_del, header_set, write_header, write_body,
  has_write_header, del_header, write_encoded, write_bytes, set_header,
}
use glibs.J2rpc.Registry.Signatures.{Shaped, make_arg_types_lem}
use glibs.J2rpc.Server.{HttpRequest, handle, serve_http}
use glibs.J2rpc.Server.Answers.{Sent, ready, serve_http-answers}
use glibs.J2rpc.Server.Answers.Quiet.{QuietCode}

-- Arguments are single bytes, in an array whose bracket is the first byte.
abbrev first_token : Bytes → Tok × Bytes
first_token [] = (eof_tok, [])
first_token (x ∷ xs) = (array_tok, xs)

abbrev has_more : Bytes → Bool
has_more [] = false
has_more (x ∷ xs) = true

abbrev take_one : Bytes → Try ℕ × Bytes
take_one [] = (failed [], [])
take_one (x ∷ xs) = (value x, xs)

abbrev byte_args : Decoding
byte_args = record {
  Decoder = Bytes;
  Ty = ℕ;
  Value = ℕ;
  new_decoder = λ b. b;
  more = has_more;
  token = first_token;
  decode = λ t. take_one;
  zero_value = λ t. 0;
  bad_argument = λ i e. e;
  too_many = λ n. [];
}

-- A cipher that puts a byte before the text, and wants a key of one of the three lengths.
abbrev unwrap : Bytes → Try Bytes
unwrap [] = failed []
unwrap (x ∷ b) = value b

abbrev is_key_length : ℕ → Bool
is_key_length n = (n == 16) || ((n == 24) || (n == 32))

abbrev marked : BodyLib
marked = record {
  aes_cbc_encrypt = λ key b base64. 1 ∷ b;
  aes_cbc_decrypt = λ key b base64. if is_key_length (length key) then unwrap b else failed [];
  to_upper = λ b. b;
  to_lower = λ b. b;
}

is_key_length_lem : (n : ℕ) → IsKeyLength n → is_key_length n ≡ true
is_key_length_lem n (inl e) = rw e refl
is_key_length_lem n (inr (inl e)) = rw e refl
is_key_length_lem n (inr (inr e)) = rw e refl

marked-decrypt :
    (key body : Bytes) (b : Bool)
    → IsKeyLength (length key)
    → marked.aes_cbc_decrypt key (marked.aes_cbc_encrypt key body b) b ≡ value body
marked-decrypt key body b h = rw (is_key_length_lem (length key) h) refl

marked-IsBodyLib : IsBodyLib marked
marked-IsBodyLib = record {
  decrypt-encrypt = marked-decrypt;
  lower-upper = λ key body. refl;
  encrypt-ne-nil = λ key body b. ground arith;
  length-upper = λ s. refl;
}

parse_rpc_body_roundtrip_example :
    (out : Bytes) × (parse_rpc_body marked (codes "base64:0123456789abcdef") (codes "hi") false
      ≡ value out)
    × (parse_rpc_body marked (codes "base64:0123456789abcdef") out true ≡ value (codes "hi"))
parse_rpc_body_roundtrip_example =
    parse_rpc_body_roundtrip marked marked-IsBodyLib (codes "base64:0123456789abcdef") (codes "hi")

-- Handlers that are their own names.
upsert_handlers-IsUnique_example :
    IsUnique (λ h. h) (upsert_handlers (λ h. h) (codes "a" ∷ []) (codes "b" ∷ codes "a" ∷ []))
    × ((more : List Bytes) × (upsert_handlers (λ h. h) (codes "a" ∷ []) (codes "b" ∷ codes "a" ∷ [])
          ≡ (codes "a" ∷ []) ++ more))
    × All
        (λ h.
          is_duplicate
            (λ h. h)
            h
            (upsert_handlers (λ h. h) (codes "a" ∷ []) (codes "b" ∷ codes "a" ∷ []))
          ≡ true)
        (codes "b" ∷ codes "a" ∷ [])
unfolding is_duplicate
upsert_handlers-IsUnique_example =
    upsert_handlers-IsUnique (λ h. h) (codes "a" ∷ []) (codes "b" ∷ codes "a" ∷ []) (refl, tt)

-- The type 9 is the error's, 8 the context's.
abbrev types : TypeLib ℕ
types = record { is_error_type = λ t. t == 9; implements_context = λ t. t == 8 }

abbrev add : Method ℕ ℕ
add = record {
  name = codes "add";
  exported = true;
  fn_type = record { ins = 8 ∷ 0 ∷ 0 ∷ []; outs = 0 ∷ 9 ∷ [] };
  fn = 1;
}

abbrev calc : Receiver ℕ ℕ
calc = record {
  type_name = codes "calc";
  namespace_name = none;
  exclude_method = [];
  all_methods = add ∷ [];
}

abbrev none_yet : Services ℕ ℕ
none_yet = record { snake_namespace = true; exclude_methods = []; services = [] }

abbrev add_callback : Callback ℕ ℕ
add_callback = record {
  method_name = codes "add";
  fn = 1;
  shape = record { arg_types = 0 ∷ 0 ∷ []; has_ctx = true; err_pos = some 1 };
}

abbrev with_calc : Services ℕ ℕ
with_calc = record none_yet {
  services =
      (
        codes "calc",
        record {
          name = codes "calc";
          receiver = calc;
          callbacks = (codes "add", add_callback) ∷ [];
        },
      )
      ∷ [];
}

calc_is_there : register types calc [] none_yet ≡ some with_calc
unfolding register snake_string snake_from lower_ascii
calc_is_there = refl

add_is_found : get_call_back with_calc (codes "calc") (codes "add") ≡ inr add_callback
unfolding get_call_back
add_is_found = refl

abbrev with_other : Services ℕ ℕ
with_other = record none_yet {
  services =
      insert (codes "other")
        (record {
          name = codes "other";
          receiver = calc;
          callbacks = (codes "add", add_callback) ∷ [];
        })
        with_calc.services;
}

other_is_there : register types calc (codes "other" ∷ []) with_calc ≡ some with_other
unfolding register snake_string snake_from lower_ascii
other_is_there = refl

register_sound_example :
    (get_call_back none_yet (codes "calc") (codes "add") ≡ inr add_callback)
    ⊎ ((service_name none_yet calc [] ≡ codes "calc")
        × Offered types true (skips_of types none_yet calc) (add ∷ []) (codes "add") add_callback)
register_sound_example =
    register_sound types calc [] none_yet with_calc (codes "calc") (codes "add") add_callback
      calc_is_there add_is_found

register_keeps_example : get_call_back with_other (codes "calc") (codes "add") ≡ inr add_callback
register_keeps_example =
    register_keeps types calc (codes "other" ∷ []) with_calc with_other (codes "calc") (codes "add")
      add_callback other_is_there add_is_found

-- A server with the calculator and two handlers.
abbrev lib : ServerLib
lib = record {
  body = marked;
  json_encode = λ m. value (91 ∷ bytes_of m.id);
  json_decode =
      λ b m. (true, record m { id = some (49 ∷ []); method = codes "calc.add"; params = some b });
  too_large = λ n. codes "large";
}

abbrev three : ReturnValue
three = record {
  is_error_type = false;
  is_valid = true;
  is_zero = false;
  as_error = token_error [];
  encoded = value (51 ∷ []);
}

abbrev code : UserCode ℕ ℕ ℕ
code = record {
  handler = λ h. act (store_act (codes "seen") (pos h)) (next_step (λ e. ret e));
  call = λ f args. ret (returned (three ∷ []));
  call_before = none;
  before_call = λ f. none;
  after_call = λ f. none;
  call_after = none;
}

abbrev server : Env ℕ ℕ byte_args
server = record {
  lib = lib;
  code = code;
  crypto_key = codes "0123456789abcdef";
  run = true;
  services = with_calc;
  mid_handlers = 1 ∷ 2 ∷ [];
  is_pointer = λ t. false;
  new_value = λ t. 0;
  context_value = 5;
  now = pos 10;
  call_ended = pos 12;
}

server-QuietCode : QuietCode server
server-QuietCode = record {
  handlers = λ h. (refl, λ e. tt);
  calls = λ f args. tt;
  first_hook = λ m args. tt;
  before = λ f m args. tt;
  after = λ f m args rs. tt;
  last_hook = λ m args rs. tt;
}

do_handlers-enough_example :
    do_handlers server 7 new_context ≡ do_handlers server (length server.mid_handlers) new_context
do_handlers-enough_example = do_handlers-enough server 7 new_context (omega arith)

abbrev request : HttpRequest
request = record {
  verb = codes "POST";
  content_length = pos 4;
  raw_query = [];
  body = value (1 ∷ 91 ∷ 4 ∷ 5 ∷ []);
}

serve_http-answers_example :
    Sent server
      (handle server 3 request.body (ready server new_context)).0
      (handle server 3 request.body (ready server new_context)).1.msg
      (serve_http server 3 request new_context).0
unfolding validate_request
serve_http-answers_example =
    serve_http-answers server server-QuietCode marked-IsBodyLib 3 request new_context refl refl refl

make_arg_types_lem_example : Shaped types add.fn_type (make_arg_types types add.fn_type)
make_arg_types_lem_example = make_arg_types_lem types add.fn_type

abbrev late : Writer
late = record { headers = []; calls = [] }

-- A request's values are still there when the pool's context serves the next.
store_left :
    (begin_request late
      (release (record (new_context {M = ℕ}) { store = (codes "seen", pos 1) ∷ [] }))).store
    ≡ (codes "seen", pos 1) ∷ []
unfolding begin_request release
store_left = refl

-- The type of the content is set when the status has been written.
late_type :
    (write_response lib [] empty (record { headers = []; calls = [] })).calls
    ≡ header_del (codes "Status-Written")
      ∷ write_header 200
      ∷ header_set (codes "Content-Type") (codes "application/json; charset=utf-8")
      ∷ write_body (91 ∷ [])
      ∷ []
unfolding write_response has_write_header del_header write_encoded write_bytes set_header
    parse_rpc_body parse_handler_crypto
late_type = refl
