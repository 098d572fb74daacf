-- ===== src/Jwt/Tests.antt =====
-- jwt: the properties of tokens with the store in memory, and of the stores.
use glibs.Base.{
  list_eq, ℕ, zero, suc, ◌++◌, take, drop, take-append, drop-append, ◌≡◌, refl, false, Option, none,
  some, [], ◌∷◌, length, if◌then◌else◌, sym, ap, ◌∙◌,
}
use glibs.Base.Int.{ℤ, pos, negsuc, ◌+ℤ◌, ◌-ℤ◌, quot, wrap64, ltb_ℤ}
use glibs.Base.Bytes.{Bytes, codes}
use glibs.Crypto.Tests.{
  plain_cipher, plain_cipher-IsCipher, vector, vector-IsBytes, word, word-IsBytes,
}
use glibs.Storage.Memory.{
  memory_redis, memory_redis-IsRedis, memory_cache, memory_cache-IsFreeCache,
}
use glibs.Jwt.{
  Token, Request, request_token, CallResult, user, Verdict, denied, verified, expired,
  not_valid_yet, get_jwt_key, is_token_expired, is_empty, get_id_from_token, after_login, logout,
  refresh_token, verify, strip_bearer, lazy_init_expire, generate_token,
}
use glibs.Jwt.Session.{
  IsTokenStore, verify_sound, verify-logout, verify-after_login, refresh_token_lem,
  generate_token_roundtrip,
}
use glibs.Base.Split.{split, join, cut}
use glibs.Crypto.{aes_cbc_encrypt}
use glibs.Crypto.Base64.{base64_encode, sextet_char}
use glibs.Crypto.Cbc.{cbc_encrypt, xor_bytes}
use glibs.Jwt.Stores.{
  default_token_store, TokenCodec, RedisTokens, redis_token_store, redis_set_token, redis_get_token,
  redis_clear_expired_token,
}
use glibs.Jwt.Stores.Default.{default_token_store-IsTokenStore}
use glibs.Jwt.Stores.Redis.{IsTokenCodec, redis_token_store-IsTokenStore, redis_clear-set}

abbrev call : Bytes → CallResult ℕ
call id = user 7

abbrev week : ℤ
week = lazy_init_expire (pos 0)

-- A login of the user at 100, and what a request with its token carries.
abbrev logged_in : Token × default_token_store.State
logged_in = after_login plain_cipher default_token_store (pos 50) (pos 100) (some vector) word []

abbrev card : Token
card = record { id = word; expires_at = pos 150; token = codes "t" }

abbrev with_header : Bytes → Request
with_header t = record { authorization = []; url_token = []; header_token = t }

refresh_token_lem_example :
    (default_token_store.get_token (pos 130) (get_jwt_key word) (
      refresh_token plain_cipher default_token_store
        (pos 50)
        (pos 130)
        (pos 131)
        card
        ((get_jwt_key word, card) ∷ []))).0
    ≡ some (record card {
      expires_at =
          if ltb_ℤ (quot (pos 50) 2) (wrap64 (pos 150 -ℤ pos 130))
          then pos 150
          else wrap64 (pos 131 +ℤ pos 50);
    })
unfolding get_jwt_key
refresh_token_lem_example =
    refresh_token_lem plain_cipher default_token_store (pos 50) call
      default_token_store-IsTokenStore (pos 130) (pos 131) (pos 130) card
      ((get_jwt_key word, card) ∷ []) refl

abbrev token_text : Bytes
token_text = codes "AQIDBAUGBwgJCgsMDQ4P_0AC_AkICwoFBAcGAQADAvI"

abbrev visit : Request
visit = with_header token_text

generated : generate_token plain_cipher (some vector) word ≡ token_text
unfolding generate_token aes_cbc_encrypt base64_encode cbc_encrypt xor_bytes sextet_char
generated = refl

carried : request_token visit ≡ token_text
unfolding request_token strip_bearer split join cut
carried = refl

carried_of_login :
    request_token visit
    ≡ (after_login plain_cipher default_token_store
        (pos 50)
        (pos 100)
        (some vector)
        word
        []).0.token
unfolding after_login
carried_of_login = carried ∙ sym generated

id_of_visit : get_id_from_token plain_cipher (request_token visit) ≡ word
id_of_visit =
    ap (get_id_from_token plain_cipher) (carried ∙ sym generated)
    ∙ generate_token_roundtrip plain_cipher plain_cipher-IsCipher vector word refl refl
        vector-IsBytes word-IsBytes

not_empty : is_empty (request_token visit) ≡ false
not_empty = ap is_empty carried

verify-after_login_example :
    (verify plain_cipher default_token_store
      (pos 50)
      call
      (pos 120)
      (pos 121)
      (pos 122)
      visit
      (after_login plain_cipher default_token_store (pos 50) (pos 100) (some vector) word []).1).0
    ≡ (if ltb_ℤ (wrap64 (pos 100 +ℤ pos 50)) (pos 120) then denied expired else verified 7)
verify-after_login_example =
    verify-after_login plain_cipher default_token_store (pos 50) call
      default_token_store-IsTokenStore plain_cipher-IsCipher refl vector word (pos 100) (pos 120)
      (pos 121) (pos 122) visit [] 7 refl vector-IsBytes word-IsBytes refl not_empty
      carried_of_login refl

abbrev seven : Verdict ℕ
seven = verified 7

in_time : (if ltb_ℤ (wrap64 (pos 100 +ℤ pos 50)) (pos 120) then denied expired else seven) ≡ seven
unfolding wrap64 ◌+ℤ◌
in_time = refl

verify_sound_example :
    (t : Token) × ((default_token_store.get_token
        (pos 120)
        (get_jwt_key (get_id_from_token plain_cipher (request_token visit)))
        (after_login plain_cipher default_token_store (pos 50) (pos 100) (some vector) word []).1).0
      ≡ some t)
    × (t.token ≡ request_token visit)
    × (is_token_expired (pos 120) t ≡ false)
    × (call t.id ≡ user 7)
verify_sound_example =
    verify_sound plain_cipher default_token_store (pos 50) call (pos 120) (pos 121) (pos 122) visit
      (after_login plain_cipher default_token_store (pos 50) (pos 100) (some vector) word []).1 7
      (verify-after_login plain_cipher default_token_store (pos 50) call
          default_token_store-IsTokenStore plain_cipher-IsCipher refl vector word (pos 100)
          (pos 120) (pos 121) (pos 122) visit [] 7 refl vector-IsBytes word-IsBytes refl not_empty
          carried_of_login refl
        ∙ in_time)

verify-logout_example :
    (verify plain_cipher default_token_store
      (pos 50)
      call
      (pos 120)
      (pos 121)
      (pos 122)
      visit
      (logout plain_cipher default_token_store (pos 50) word [])).0
    ≡ denied not_valid_yet
verify-logout_example =
    verify-logout plain_cipher default_token_store (pos 50) call default_token_store-IsTokenStore
      (pos 120) (pos 121) (pos 122) visit [] word not_empty refl id_of_visit

-- The JSON of a token: the sizes of its parts, and the parts.
abbrev encode_token : Token → Bytes
encode_token t = elim t.expires_at [
  | pos n ↦ 0 ∷ n ∷ length t.id ∷ (t.id ++ t.token)
  | negsuc n ↦ 1 ∷ n ∷ length t.id ∷ (t.id ++ t.token)
]

abbrev decode_token : Bytes → Option Token
decode_token (zero ∷ n ∷ k ∷ b) =
    some (record { id = take k b; expires_at = pos n; token = drop k b })
decode_token (suc x ∷ n ∷ k ∷ b) =
    some (record { id = take k b; expires_at = negsuc n; token = drop k b })
decode_token (x ∷ n ∷ []) = none
decode_token (x ∷ []) = none
decode_token [] = none

abbrev codec : TokenCodec
codec = record { encode_token = encode_token; decode_token = decode_token }

decode_parts :
    (i k : Bytes) (e : ℤ)
    → decode_token (encode_token (record { id = i; expires_at = e; token = k }))
      ≡ some (record { id = i; expires_at = e; token = k })
decode_parts i k (pos n) = rw (take-append i k, drop-append i k)
decode_parts i k (negsuc n) = rw (take-append i k, drop-append i k)

marshals :
    (t : Token) (e : ℤ)
    → (b : Bytes) × (memory_redis.marshal (record { val = encode_token t; expire_at = e }) ≡ some b)
marshals t (pos n) = (0 ∷ n ∷ encode_token t, refl)
marshals t (negsuc n) = (1 ∷ n ∷ encode_token t, refl)

codec-IsTokenCodec : IsTokenCodec codec memory_redis
codec-IsTokenCodec = record {
  decode-encode = λ t. decode_parts t.id t.token t.expires_at;
  decode-compact = λ t. decode_parts t.id t.token t.expires_at;
  accepted = marshals;
}

redis_token_store-IsTokenStore_example :
    IsTokenStore (redis_token_store codec memory_redis memory_cache)
redis_token_store-IsTokenStore_example =
    redis_token_store-IsTokenStore codec memory_redis memory_cache memory_redis-IsRedis
      memory_cache-IsFreeCache codec-IsTokenCodec

abbrev nothing : RedisTokens memory_redis memory_cache
nothing = record { store = []; mem = [] }

redis_clear-set_example :
    (redis_get_token codec memory_redis memory_cache (pos 900) (get_jwt_key word) (
      redis_clear_expired_token codec memory_redis memory_cache (pos 800) (
        redis_set_token codec memory_redis memory_cache
          (pos 100)
          (get_jwt_key word)
          card
          nothing))).0
    ≡ some card
redis_clear-set_example =
    redis_clear-set codec memory_redis memory_cache memory_redis-IsRedis memory_cache-IsFreeCache
      codec-IsTokenCodec (pos 100) (pos 800) (pos 900) word card nothing

-- A token that expires at 90, before the one that lasts until 150.
abbrev old_card : Token
old_card = record card { expires_at = pos 90 }
