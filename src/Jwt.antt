-- ===== src/Jwt.antt =====
-- jwt/jwt.go: login tokens over a token store. The store is an interface (`ItfTokenStore`); the two
-- stores of jwt/store.go are in `Jwt/Stores`. Times are Unix seconds.
pub mod Stores
pub mod Session
mod Tests
use glibs.Base.{
  ℕ, Bool, true, false, ◌&&◌, Option, none, some, List, [], ◌∷◌, ◌++◌, if◌then◌else◌, length, ◌==◌,
  ◌===◌, list_eq,
}
use glibs.Base.Int.{ℤ, pos, ◌+ℤ◌, ◌-ℤ◌, quot, wrap64, ltb_ℤ, eqb_ℤ}
use glibs.Base.Bytes.{Bytes, codes}
use glibs.Base.Split.{split, join}
use glibs.Crypto.{Result, ok, err, aes_cbc_encrypt, aes_cbc_decrypt}
use glibs.Crypto.Cbc.{BlockCipher}

pub record Token : Type 0 where
  pub id : Bytes
  pub expires_at : ℤ
  pub token : Bytes

-- `ItfTokenStore`. A read may change the state of a store.
pub record TokenStore : Type 1 where
  pub State : Type 0
  pub set_token : ℤ → Bytes → Token → State → State
  pub get_token : ℤ → Bytes → State → Option Token × State
  pub del_token : Bytes → State → State
  pub clear_expired_token : ℤ → State → State

-- The messages of the constants `ErrorToken…`, by name.
pub data TokenError : Type 0 where
  missing malformed not_valid_yet expired invalid : TokenError
  refused : Bytes → TokenError

abbrev pub inner_jwt_key : Bytes
inner_jwt_key = codes "glib:jwt"

abbrev pub inner_jwt_crypto_key : Bytes
inner_jwt_crypto_key = codes "FUXqWKtBONoR85Eb"

unfoldable pub get_jwt_key : Bytes → Bytes
get_jwt_key id = inner_jwt_key ++ (codes ":" ++ id)

unfoldable pub is_token_expired : ℤ → Token → Bool
is_token_expired now t = ltb_ℤ t.expires_at now

-- `strings.Replace(token, "Bearer ", "", -1)`.
pub strip_bearer : Bytes → Bytes
strip_bearer token = join [] (split (codes "Bearer ") token)

-- Where a request may carry its token.
pub record Request : Type 0 where
  pub authorization : Bytes
  pub url_token : Bytes
  pub header_token : Bytes

abbrev pub is_empty : Bytes → Bool
is_empty [] = true
is_empty (x ∷ xs) = false

pub request_token : Request → Bytes
unfolding strip_bearer
request_token q = strip_bearer (
    if is_empty q.authorization
    then (if is_empty q.url_token then q.header_token else q.url_token)
    else q.authorization)

-- An error of the encryption or decryption is ignored, and leaves no bytes.
pub or_empty : Result Bytes → Bytes
or_empty (ok v) = v
or_empty (err e) = []

-- The lifetime of `lazyInit`: a week if none is given.
pub lazy_init_expire : ℤ → ℤ
lazy_init_expire expire = if eqb_ℤ expire (pos 0) then pos 604_800 else expire

-- What the caller's function says of a user id.
pub data CallResult (U : Type 0) : Type 0 where
  user : U → CallResult U
  failure : Bytes → CallResult U

-- How `Verify` ends: its error or the user put into the context.
pub data Verdict (U : Type 0) : Type 0 where
  denied : TokenError → Verdict U
  verified : U → Verdict U

module _ (c : BlockCipher) where
  pub generate_token : Option Bytes → Bytes → Bytes
  unfolding or_empty
  generate_token random id = or_empty (aes_cbc_encrypt c random inner_jwt_crypto_key id (true ∷ []))

  pub get_id_from_token : Bytes → Bytes
  unfolding or_empty
  get_id_from_token token = or_empty (aes_cbc_decrypt c inner_jwt_crypto_key token (true ∷ []))

module _ (c : BlockCipher) (st : TokenStore) (expire : ℤ) where
  open st use {State, set_token, get_token, del_token}

  pub after_login : ℤ → Option Bytes → Bytes → State → Token × State
  unfolding generate_token get_jwt_key
  after_login now random id s =
      let t : Token = record {
        id = id;
        expires_at = wrap64 (now +ℤ expire);
        token = generate_token c random id;
      } in
      (t, set_token now (get_jwt_key id) t s)

  pub logout : Bytes → State → State
  unfolding get_jwt_key
  logout id s = del_token (get_jwt_key id) s

  -- The clock is read for the test and again for the new expiry.
  pub refresh_token : ℤ → ℤ → Token → State → State
  unfolding get_jwt_key
  refresh_token now later t s =
      if ltb_ℤ (quot expire 2) (wrap64 (t.expires_at -ℤ now))
      then s
      else set_token later (get_jwt_key t.id) (record t { expires_at = wrap64 (later +ℤ expire) }) s

  module _ {U : Type 0} (call : Bytes → CallResult U) where
    -- The end of `Verify`, behind the caller's function.
    pub accept : ℤ → ℤ → Token → CallResult U → State → Verdict U × State
    unfolding refresh_token
    accept now later t (failure e) s = (denied (refused e), s)
    accept now later t (user u) s = (verified u, refresh_token now later t s)

    -- The tests on a token that the store has for the id.
    pub verify_stored : ℤ → ℤ → ℤ → Bytes → Option Token → State → Verdict U × State
    unfolding accept is_token_expired
    verify_stored now now' later token none s = (denied not_valid_yet, s)
    verify_stored now now' later token (some t) s =
        if is_token_expired now t
        then (denied expired, s)
        else if t.token === token
        then accept now' later t (call t.id) s
        else (denied invalid, s)

    -- `Verify`, with the readings of the clock at the test of the expiry and in `refreshToken`. The
    -- token is put into the request's context unless it is empty.
    pub verify : ℤ → ℤ → ℤ → Request → State → Verdict U × State
    unfolding request_token get_id_from_token get_jwt_key verify_stored
    verify now now' later q s =
        let token = request_token q in
        if is_empty token
        then (denied missing, s)
        else (let id = get_id_from_token c token in
            if is_empty id
            then (denied malformed, s)
            else (let (t, s') = get_token now (get_jwt_key id) s in
                verify_stored now now' later token t s'))
