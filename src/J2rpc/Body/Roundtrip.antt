-- ===== src/J2rpc/Body/Roundtrip.antt =====
-- j2rpc/option.go: a body that is encrypted is read back.
use glibs.Base.{
  ◌≡◌, ◌≤◌, refl, ◌∙◌, Bool, true, false, Option, none, some, [], ◌∷◌, arith, ltb, length,
  length-take, Bool-cases, inl, inr,
}
use glibs.Base.Bytes.{Bytes}
use glibs.Rpc.{Try, value}
use glibs.J2rpc.Body.{
  HandlerCrypto, BodyLib, IsKeyLength, IsBodyLib, cut_key, with_crypto, parse_handler_crypto,
  parse_rpc_body,
}

cut_key-length : (k : Bytes) → 16 ≤ length k → IsKeyLength (length (cut_key k))
unfolding cut_key
cut_key-length k h = elim (Bool-cases (ltb (length k) 24)) [
  | inl small ↦ rw small (inl (omega (arith, length-take 16 k)))
  | inr more ↦ elim (Bool-cases (ltb (length k) 32)) [
    | inl middle ↦ rw (more, middle) (inr (inl (ground (arith, length-take 24 k))))
    | inr large ↦ rw (more, large) (inr (inr (ground (arith, length-take 32 k))))
  ]
]

module _ (l : BodyLib) (laws : IsBodyLib l) where
  -- What is sent for a body is not empty, and is read back.
  abbrev Reads : HandlerCrypto → Bytes → Bytes → Type 0
  Reads co body out =
      (with_crypto l co false body ≡ value out)
      × (ltb 0 (length out) ≡ true)
      × (with_crypto l co true out ≡ value body)

  with_crypto_roundtrip :
      (key : Bytes) (b : Bool) (body : Bytes)
      → ltb 0 (length body) ≡ true
      → (out : Bytes) × Reads (record { key = key; use_base64 = b }) body out
  unfolding with_crypto
  with_crypto_roundtrip key b body full = elim (Bool-cases (ltb (length key) 16)) [
    | inl short ↦ (body, (rw short refl, full, rw short refl))
    | inr long ↦ with_key b long
  ]
    where
      with_key :
          (b : Bool)
          → ltb (length key) 16 ≡ false
          → (out : Bytes) × Reads (record { key = key; use_base64 = b }) body out
      with_key true long = (
        l.aes_cbc_encrypt (cut_key key) body true,
        (
          rw long refl,
          laws.encrypt-ne-nil (cut_key key) body true,
          rw long
              (laws.decrypt-encrypt (cut_key key) body true (cut_key-length key (ground arith))),
        ),
      )
      with_key false long =
          let text = l.aes_cbc_encrypt (cut_key key) body false in
          (
            l.to_upper text,
            (
              rw long refl,
              rw (laws.length-upper text) (laws.encrypt-ne-nil (cut_key key) body false),
              rw (long, laws.lower-upper (cut_key key) body)
                  (laws.decrypt-encrypt (cut_key key) body false
                    (cut_key-length key (ground arith))),
            ),
          )

  full_body :
      (crypto_key body : Bytes) (b : Bool)
      → ltb 0 (length body) ≡ true
      → parse_rpc_body l crypto_key body b
        ≡ (elim (parse_handler_crypto crypto_key) as (λ x. Try Bytes) [
          | none ↦ value body
          | some co ↦ with_crypto l co b body
        ])
  unfolding parse_rpc_body
  full_body crypto_key body b full = rw full refl

  -- Whatever the crypto key is, a body is encrypted without an error, and what comes of it is decrypted
  -- to the body. The library decrypts what it encrypts for a key of 16, 24 or 32 bytes, and its
  -- hexadecimal text survives the change of case.
  pub parse_rpc_body_roundtrip :
      (crypto_key body : Bytes)
      → (out : Bytes) × (parse_rpc_body l crypto_key body false ≡ value out)
        × (parse_rpc_body l crypto_key out true ≡ value body)
  unfolding parse_rpc_body
  parse_rpc_body_roundtrip crypto_key [] = ([], refl, refl)
  parse_rpc_body_roundtrip crypto_key (x ∷ body) = handled (parse_handler_crypto crypto_key) refl
    where
      handled :
          (h : Option HandlerCrypto)
          → parse_handler_crypto crypto_key ≡ h
          → (out : Bytes) × (parse_rpc_body l crypto_key (x ∷ body) false ≡ value out)
            × (parse_rpc_body l crypto_key out true ≡ value (x ∷ body))
      handled none e = (
        x ∷ body,
        full_body crypto_key (x ∷ body) false (ground arith) ∙ rw e refl,
        full_body crypto_key (x ∷ body) true (ground arith) ∙ rw e refl,
      )
      handled (some co) e =
          let (out, (sent, full, read)) =
            with_crypto_roundtrip co.key co.use_base64 (x ∷ body) (ground arith) in
          (
            out,
            full_body crypto_key (x ∷ body) false (ground arith) ∙ (rw e sent),
            full_body crypto_key out true full ∙ (rw e read),
          )
