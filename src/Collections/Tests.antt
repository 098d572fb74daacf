-- ===== src/Collections/Tests.antt =====
-- util/slice.go, util/singleton.go and j2rpc/functions.go: at concrete slices, keys and names.
use glibs.Base.{ℕ, ◌≡◌, ◌≢◌, refl, List, [], ◌∷◌, some, Bool, true, ltb, arith, nat_eq, list_eq}
use glibs.Base.Int.{pos}
use glibs.Base.Bytes.{codes}
use glibs.Collections.{
  camel_string, validate_request, slice_string_contains_prefix, contains, snake_string,
}

abbrev big : ℕ → ℕ → Bool
big x i = ltb 5 x

abbrev digits : List ℕ
digits = 3 ∷ 8 ∷ []

contained : contains digits 8 ≡ true
unfolding contains
contained = refl

apart : codes "a" ≢ codes "b"
apart e = absurd (ground arith)

snake_case : snake_string (codes "UserName") ≡ codes "user_name"
unfolding snake_string
snake_case = refl

camel_case : camel_string (codes "user_name") ≡ codes "UserName"
unfolding camel_string
camel_case = refl

refused : validate_request (λ n. []) (codes "PUT") (pos 3) ≡ some (405, codes "method not allowed")
unfolding validate_request
refused = refl

prefixed : slice_string_contains_prefix (codes "text/plain" ∷ codes "ab" ∷ []) (codes "a") ≡ true
unfolding slice_string_contains_prefix
prefixed = refl
