-- ===== src/Base/Bytes.antt =====
-- Byte strings, Go's `string` and `[]byte`, with the parts of `strings` that the code calls
-- written as their documentation says.
use Prim.Native.Nat.{ℕ, ◌<◌}
use Prim.Native.Char.{code}
use Prim.Native.String.{String}
use mathlib.Core.Bool.{Bool, true, false, ◌&&◌}
use mathlib.Core.List.{List, [], ◌∷◌}
use glibs.Base.Lists.{All}
use glibs.Base.Tests.{◌==◌}

abbrev pub Bytes : Type 0
Bytes = List ℕ

-- The bytes of an ASCII text.
abbrev pub codes : String → Bytes
codes String.[] = []
codes (String.◌∷◌ c s) = code c ∷ codes s

-- `strings.HasPrefix(s, p)`, with the prefix first.
abbrev pub has_prefix : Bytes → Bytes → Bool
has_prefix [] s = true
has_prefix (x ∷ p) [] = false
has_prefix (x ∷ p) (y ∷ s) = (x == y) && has_prefix p s

-- Every element is a byte.
abbrev pub IsBytes : Bytes → Type 0
IsBytes = All (λ b. b < 256)
