-- ===== src/Jwt/Session.antt =====
-- jwt/jwt.go: what `AfterLogin`, `Verify`, `Logout` and `refreshToken` promise over a token store.
use glibs.Base.{
  ◌≡◌, refl, ap, ◌∙◌, inl, inr, true, false, Option, none, some, [], ◌∷◌, arith, Bool-cases,
  if◌then◌else◌, ◌===◌, ===_iff, ===_self, list_eq, length,
}
use glibs.Base.Int.{ℤ, ◌+ℤ◌, ◌-ℤ◌, quot, wrap64, ltb_ℤ}
use glibs.Base.Bytes.{Bytes, IsBytes}
use glibs.Crypto.Cbc.{BlockCipher, IsCipher}
use glibs.Crypto.Roundtrip.{aes_cbc_roundtrip}
use glibs.Jwt.{
  Token, TokenStore, not_valid_yet, expired, Request, request_token, CallResult, user, failure,
  Verdict, denied, verified, is_empty, or_empty, get_jwt_key, inner_jwt_crypto_key,
  is_token_expired, generate_token, get_id_from_token, after_login, logout, refresh_token, accept,
  verify_stored, verify,
}

-- What the code relies on in a token store: a read of a key gives what was last written, or nothing
-- behind a deletion.
pub record IsTokenStore (st : TokenStore) : Type 0 where
  pub get-set_self :
      (now later : ℤ) (id : Bytes) (t : Token) (s : st.State)
      → (st.get_token later (get_jwt_key id) (st.set_token now (get_jwt_key id) t s)).0 ≡ some t
  pub get-del_self :
      (later : ℤ) (id : Bytes) (s : st.State)
      → (st.get_token later (get_jwt_key id) (st.del_token (get_jwt_key id) s)).0 ≡ none

-- The id that a generated token stands for can be read from it, and the token is not empty.
pub generate_token_roundtrip :
    (c : BlockCipher)
    → IsCipher c
    → (iv id : Bytes) → c.key_ok inner_jwt_crypto_key ≡ true
    → length iv ≡ 16
    → IsBytes iv
    → IsBytes id
    → get_id_from_token c (generate_token c (some iv) id) ≡ id
unfolding generate_token get_id_from_token or_empty
generate_token_roundtrip c laws iv id good size iv_bytes bytes =
    let (t, e, d) =
      aes_cbc_roundtrip c laws inner_jwt_crypto_key iv id (true ∷ []) good size iv_bytes bytes in
    rw (e, d)

module _ (c : BlockCipher) (st : TokenStore) (expire : ℤ) {U : Type 0}
    (call : Bytes → CallResult U) where
  open st use {State, get_token, set_token}

  verify_stored-verified :
      (now now' later : ℤ) (token : Bytes) (o : Option Token) (s : State) (u : U)
      → (verify_stored c st expire call now now' later token o s).0 ≡ verified u
      → (t : Token) × (o ≡ some t)
        × (t.token ≡ token)
        × (is_token_expired now t ≡ false)
        × (call t.id ≡ user u)
  unfolding verify_stored
  verify_stored-verified now now' later token none s u e = absurd (ground arith)
  verify_stored-verified now now' later token (some t) s u e =
      elim (Bool-cases (is_token_expired now t)) [
        | inl old ↦ absurd (ground arith)
        | inr fresh ↦ elim (Bool-cases (t.token === token)) [
          | inr other ↦ absurd (ground arith)
          | inl same ↦ (
            t,
            refl,
            (===_iff t.token token).0 same,
            fresh,
            accepted (call t.id) refl (rw (fresh, same) at e),
          )
        ]
      ]
    where
      accepted :
          (r : CallResult U)
          → call t.id ≡ r
          → (accept c st expire call now' later t r s).0 ≡ verified u
          → call t.id ≡ user u
      accepted (failure m) er e = absurd (ground arith)
      accepted (user v) er e = er ∙ ground arith

  -- A request that is verified carried a token that is, byte for byte, the one stored for the id
  -- that it decrypts to, which had not expired; and the user is what the caller's function gave for
  -- the stored id.
  pub verify_sound :
      (now now' later : ℤ) (q : Request) (s : State) (u : U)
      → (verify c st expire call now now' later q s).0 ≡ verified u
      → (t : Token) × ((get_token now (get_jwt_key (get_id_from_token c (request_token q))) s).0
          ≡ some t)
        × (t.token ≡ request_token q)
        × (is_token_expired now t ≡ false)
        × (call t.id ≡ user u)
  unfolding verify
  verify_sound now now' later q s u e =
      let token = request_token q in
      elim (Bool-cases (is_empty token)) [
        | inl empty ↦ absurd (ground arith)
        | inr given ↦ elim (Bool-cases (is_empty (get_id_from_token c token))) [
          | inl bad ↦ absurd (ground arith)
          | inr good ↦
              let (o, s') = get_token now (get_jwt_key (get_id_from_token c token)) s in
              verify_stored-verified now now' later token o s' u (rw (given, good) at e)
        ]
      ]

  -- A request whose token decrypts to an id is decided by what the store has for that id.
  verify-verify_stored :
      (now now' later : ℤ) (q : Request) (s : State) (id : Bytes)
      → is_empty (request_token q) ≡ false
      → is_empty id ≡ false
      → get_id_from_token c (request_token q) ≡ id
      → verify c st expire call now now' later q s ≡ (
          let r = get_token now (get_jwt_key id) s in
          verify_stored c st expire call now now' later (request_token q) r.0 r.1)
  unfolding verify
  verify-verify_stored now now' later q s id given good e = rw (given, e, good)

  module _ (laws : IsTokenStore st) where
    -- After a logout the id's tokens are no longer accepted, whatever the state was.
    pub verify-logout :
        (now now' later : ℤ) (q : Request) (s : State) (id : Bytes)
        → is_empty (request_token q) ≡ false
        → is_empty id ≡ false
        → get_id_from_token c (request_token q) ≡ id
        → (verify c st expire call now now' later q (logout c st expire id s)).0
          ≡ denied not_valid_yet
    unfolding logout verify_stored
    verify-logout now now' later q s id given good e =
        ap (λ (p : Verdict U × State). p.0)
          (verify-verify_stored now now' later q (logout c st expire id s) id given good e)
        ∙ rw (laws.get-del_self now id s)

    -- The token of a login is accepted by the next request that carries it while it has not
    -- expired, if the caller's function knows the id; and refused as expired behind that.
    pub verify-after_login :
        IsCipher c
        → c.key_ok inner_jwt_crypto_key ≡ true
        → (iv id : Bytes) (start now now' later : ℤ) (q : Request) (s : State) (u : U)
        → length iv ≡ 16
        → IsBytes iv
        → IsBytes id
        → is_empty id ≡ false
        → is_empty (request_token q) ≡ false
        → request_token q ≡ (after_login c st expire start (some iv) id s).0.token
        → call id ≡ user u
        → (verify c st expire call now now' later q
            (after_login c st expire start (some iv) id s).1).0
          ≡ (if ltb_ℤ (wrap64 (start +ℤ expire)) now then denied expired else verified u)
    unfolding after_login verify_stored accept is_token_expired
    verify-after_login cipher good iv id start now now' later q s u size iv_bytes bytes named given
          carried known =
        let t = (after_login c st expire start (some iv) id s).0 in
        let s' = (after_login c st expire start (some iv) id s).1 in
        let read : get_id_from_token c (request_token q) ≡ id =
          ap (get_id_from_token c) carried
          ∙ generate_token_roundtrip c cipher iv id good size iv_bytes bytes in
        let same : (t.token === request_token q) ≡ true = rw carried (===_self t.token) in
        ap (λ (p : Verdict U × State). p.0)
          (verify-verify_stored now now' later q s' id given named read)
        ∙ rw (laws.get-set_self start now id t s) (ground (arith, same, known))

    -- Behind a refresh the store has the id's token with its text unchanged, and either it had more
    -- than half of the lifetime left and kept its expiry, or it expires a whole lifetime after the
    -- second reading of the clock.
    pub refresh_token_lem :
        (now later at : ℤ) (t : Token) (s : State)
        → (get_token at (get_jwt_key t.id) s).0 ≡ some t
        → (get_token at (get_jwt_key t.id) (refresh_token c st expire now later t s)).0
          ≡ some (record t {
            expires_at =
                if ltb_ℤ (quot expire 2) (wrap64 (t.expires_at -ℤ now))
                then t.expires_at
                else wrap64 (later +ℤ expire);
          })
    unfolding refresh_token
    refresh_token_lem now later at t s h =
        elim (Bool-cases (ltb_ℤ (quot expire 2) (wrap64 (t.expires_at -ℤ now)))) [
          | inl long ↦ rw long h
          | inr short ↦ rw short (
              laws.get-set_self later at t.id (record t { expires_at = wrap64 (later +ℤ expire) })
                s)
        ]
