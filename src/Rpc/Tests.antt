-- ===== src/Rpc/Tests.antt =====
-- j2rpc2: the properties of the server on small servers and requests.
use glibs.Base.{◌⊎◌, ℕ, ◌≡◌, refl, Bool, true, false, none, some, List, [], ◌∷◌, length, list_eq}
use glibs.Base.Int.{pos}
use glibs.Base.Bytes.{Bytes, codes}
use glibs.Base.Dict.{lookup}
use glibs.Rpc.{
  Try, value, failed, HttpRequest, Decoding, Tok, array_tok, eof_tok, parse_positional_arguments,
}
use glibs.Rpc.Context.{error_arg, bytes_arg, answer, wire, no_msg}
use glibs.Rpc.Arguments.{Values, parse_positional_arguments-length}
use glibs.Rpc.Response.{HasOne, SendsNeither, answer-HasOne}
use glibs.Rpc.Router.{
  FuncInfo, Handler, Registry, MethodType, Bean, register_func, register_type, use_group,
}
use glibs.Rpc.Router.Wiring.{IsWired, register-IsWired, register-keeps}
use glibs.Rpc.Server.{
  Env, Script, ret, act, write_act, next_act, ReturnValue, serve_http, new_server,
}
use glibs.Rpc.Server.Once.{IsAnswered, IsContainedCode, serve_http-IsAnswered}

-- Arguments are single bytes, in an array whose bracket is the first byte.
abbrev first_token : Bytes → Tok × Bytes
first_token [] = (eof_tok, [])
first_token (x ∷ xs) = (array_tok, xs)

abbrev has_more : Bytes → Bool
has_more [] = false
has_more (x ∷ xs) = true

abbrev take_one : Bytes → Try ℕ × Bytes
take_one [] = (failed [], [])
take_one (x ∷ xs) = (value x, xs)

abbrev byte_args : Decoding
byte_args = record {
  Decoder = Bytes;
  Ty = ℕ;
  Value = ℕ;
  new_decoder = λ b. b;
  more = has_more;
  token = first_token;
  decode = λ t. take_one;
  zero_value = λ t. 0;
  bad_argument = λ i e. e;
  too_many = λ n. [];
}

parse_positional_arguments-length_example :
    Values
      (λ args. length args ≡ 3)
      (parse_positional_arguments byte_args (91 ∷ 7 ∷ []) (0 ∷ 0 ∷ 0 ∷ []))
parse_positional_arguments-length_example =
    parse_positional_arguments-length byte_args (91 ∷ 7 ∷ []) (0 ∷ 0 ∷ 0 ∷ [])

answer-HasOne_example :
    (HasOne (wire (answer (error_arg (codes "no") ∷ bytes_arg (some []) ∷ []) no_msg))
      ⊎ SendsNeither (answer (error_arg (codes "no") ∷ bytes_arg (some []) ∷ []) no_msg))
    × ((wire (answer (error_arg (codes "no") ∷ bytes_arg (some []) ∷ []) no_msg)).id
        ≡ some (48 ∷ []))
    × ((wire (answer (error_arg (codes "no") ∷ bytes_arg (some []) ∷ []) no_msg)).method ≡ [])
    × ((wire (answer (error_arg (codes "no") ∷ bytes_arg (some []) ∷ []) no_msg)).params ≡ none)
answer-HasOne_example = answer-HasOne (error_arg (codes "no") ∷ bytes_arg (some []) ∷ []) no_msg

abbrev ping : MethodType byte_args ℕ
ping = record { name = codes "ping"; fn = 1; in_ts = 0 ∷ [] }

abbrev service : Bean byte_args ℕ
service = record {
  receiver = 9;
  receiver_t = 0;
  type_name = codes "service";
  methods = ping ∷ [];
  rpc_type_name = none;
  rpc_method_provider = none;
}

abbrev empty_registry : Registry byte_args ℕ ℕ
empty_registry = record { groups = []; funcs = [] }

empty-IsWired : IsWired empty_registry
unfolding IsWired
empty-IsWired = tt

register-IsWired_example :
    IsWired (register_type (λ b. b) service [] empty_registry)
    × IsWired (register_func (λ b. b) ping [] empty_registry)
    × IsWired (use_group [] [] empty_registry)
register-IsWired_example = register-IsWired (λ b. b) service ping [] [] empty_registry empty-IsWired

abbrev ping_info : FuncInfo byte_args ℕ
ping_info = record { is_type = false; name = codes "ping"; fn = 5; args = []; arg_ts = [] }

abbrev with_ping : Registry byte_args ℕ ℕ
with_ping = record { groups = []; funcs = (codes "ping", ping_info) ∷ [] }

register-keeps_example :
    (lookup (codes "ping") (register_type (λ b. b) service [] with_ping).funcs ≡ some ping_info)
    × (lookup (codes "ping") (register_func (λ b. b) ping [] with_ping).funcs ≡ some ping_info)
register-keeps_example =
    register-keeps (λ b. b) service ping [] with_ping (codes "ping") ping_info refl

-- A handler that answers twice and goes on.
abbrev twice : ℕ → Script (Handler byte_args ℕ ℕ) (Unit {0})
twice m = act (write_act []) (act (write_act []) (act next_act (ret tt)))

abbrev calls : ℕ → List ℕ → Script (Handler byte_args ℕ ℕ) (List ReturnValue)
calls f args = ret []

abbrev env : Env byte_args ℕ ℕ
env = record {
  lib = record {
    json_encode = λ m. value (codes "{}");
    json_decode = λ b. value (record no_msg { method = b });
    trim_space = λ b. b;
    too_large = λ n. [];
    caller_after_read_body = none;
    caller_before_write = none;
  };
  code = record {
    handler = twice;
    call = calls;
    is_context = λ t. false;
    is_rpc_context = λ t. false;
    rpc_context_value = 0;
    context_value = 0;
  };
  groups = (use_group (codes "ping") [] new_server).groups;
  now = pos 1;
}

abbrev ping_request : HttpRequest
ping_request = record {
  verb = codes "POST";
  content_length = pos 4;
  body = some (value (codes "ping"));
}

env-IsContainedCode : IsContainedCode env.code
env-IsContainedCode = record { handlers = λ m. (tt, (tt, (tt, tt))); calls = λ f args. tt }

serve_http-IsAnswered_example : IsAnswered (serve_http env 5 ping_request)
serve_http-IsAnswered_example = serve_http-IsAnswered env env-IsContainedCode 5 ping_request
