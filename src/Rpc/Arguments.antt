-- ===== src/Rpc/Arguments.antt =====
-- j2rpc2/functions.go: a call gets one value for each of its parameters.
use glibs.Base.{
  ℕ, suc, ◌+◌, ◌≤◌, ◌≡◌, refl, ap, inl, inr, Bool, true, false, List, [], ◌∷◌, ◌++◌, arith, length,
  length-append, Bool-cases,
}
use glibs.Base.Bytes.{Bytes, codes}
use glibs.Rpc.{
  Try, value, failed, Decoding, Tok, null_tok, array_tok, other_tok, eof_tok, bad_tok, close_array,
  parse_argument_array, pad, padded, parse_positional_arguments,
}

module _ (d : Decoding) where
  open d use {Ty, Value}

  pad-length :
      (args : List Value) (ts : List Ty)
      → length args ≤ length ts
      → length (pad d args ts) ≡ length ts
  unfolding pad
  pad-length [] [] h = refl
  pad-length [] (t ∷ ts) h = ap suc (pad-length [] ts (omega arith))
  pad-length (v ∷ vs) [] h = absurd (omega arith)
  pad-length (v ∷ vs) (t ∷ ts) h = ap suc (pad-length vs ts (omega arith))

-- The values, when there are any, satisfy a property.
unfoldable pub Values : {A : Type 0} → (A → Type 0) → Try A → Type 0
Values P (value x) = P x
Values P (failed e) = Unit {0}

module _ (d : Decoding) where
  open d use {Ty, Value}

  close_array-Values :
      (P : List Value → Type 0) (args : List Value) (t : Tok)
      → P args
      → Values P (close_array d args t)
  unfolding Values close_array
  close_array-Values P args null_tok h = h
  close_array-Values P args array_tok h = h
  close_array-Values P args other_tok h = h
  close_array-Values P args eof_tok h = tt
  close_array-Values P args (bad_tok e) h = tt

  -- No more values are read than there are types.
  array_bound :
      (n i : ℕ) (args : List Value) (ts : List Ty) (dec : d.Decoder) (k : ℕ)
      → length args + length ts ≤ k
      → Values (λ out. length out ≤ k) (parse_argument_array d n i args ts dec)
  unfolding parse_argument_array Values
  array_bound n i args [] dec k h = elim (Bool-cases (d.more dec)) [
    | inl e ↦ rw e tt
    | inr e ↦ rw e (close_array-Values (λ out. length out ≤ k) args (d.token dec).0 (omega arith))
  ]
  array_bound n i args (t ∷ ts) dec k h = element (d.more dec) (d.decode t dec).0 (λ x.
      array_bound n (i + 1) (args ++ x ∷ []) ts (d.decode t dec).1 k
        (omega (arith, length-append args (x ∷ []))))
    where
      element :
          (b : Bool) (v : Try Value)
          → ((x : Value)
              → Values
                  (λ out. length out ≤ k)
                  (parse_argument_array d n (i + 1) (args ++ x ∷ []) ts (d.decode t dec).1))
          → Values
              (λ out. length out ≤ k)
              (elim b [
                | false ↦ close_array d args (d.token dec).0
                | true ↦ elim v [
                  | failed e ↦ failed (d.bad_argument i e)
                  | value x ↦
                      parse_argument_array d n (i + 1) (args ++ x ∷ []) ts (d.decode t dec).1
                ]
              ])
      element false v f =
          close_array-Values (λ out. length out ≤ k) args (d.token dec).0 (omega arith)
      element true (failed e) f = tt
      element true (value x) f = f x

  padded-Values :
      (ts : List Ty) (o : Try (List Value))
      → Values (λ out. length out ≤ length ts) o
      → Values (λ out. length out ≡ length ts) (padded d ts o)
  unfolding padded Values
  padded-Values ts (failed e) h = tt
  padded-Values ts (value args) h = pad-length d args ts h

  -- When the parameters of a request can be read, they are as many values as the function has
  -- parameters: neither a longer array nor a shorter one changes the number of arguments of a call.
  pub parse_positional_arguments-length :
      (raw : Bytes) (ts : List Ty)
      → Values (λ args. length args ≡ length ts) (parse_positional_arguments d raw ts)
  unfolding parse_positional_arguments Values
  parse_positional_arguments-length raw ts = first (d.token (d.new_decoder raw)).0
    where
      first :
          (t : Tok)
          → Values
              (λ args. length args ≡ length ts)
              (elim t [
                | eof_tok ↦ padded d ts (value [])
                | null_tok ↦ padded d ts (value [])
                | bad_tok e ↦ failed e
                | array_tok ↦
                    padded d ts
                      (parse_argument_array d (length ts) 0 [] ts (d.token (d.new_decoder raw)).1)
                | other_tok ↦ failed (codes "non-array args")
              ])
      first eof_tok = padded-Values ts (value []) (omega arith)
      first null_tok = padded-Values ts (value []) (omega arith)
      first (bad_tok e) = tt
      first other_tok = tt
      first array_tok =
          padded-Values ts
            (parse_argument_array d (length ts) 0 [] ts (d.token (d.new_decoder raw)).1)
            (array_bound (length ts) 0 [] ts (d.token (d.new_decoder raw)).1 (length ts)
              (omega arith))
