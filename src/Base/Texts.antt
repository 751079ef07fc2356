-- ===== src/Base/Texts.antt =====
-- Operations of the package `strings` on texts.
use Prim.Native.Char.{code}
use Prim.Native.Nat.{ℕ, ◌-◌}
use Prim.Native.String.{String, [], ◌∷◌}
use mathlib.Core.Bool.{Bool, true, false, ◌&&◌, ◌||◌}
use goapp.Base.Tests.{leb, ◌==◌, if◌then◌else◌}

abbrev pub is_prefix : String → String → Bool
is_prefix [] t = true
is_prefix (c ∷ s) [] = false
is_prefix (c ∷ s) (d ∷ t) = code c == code d && is_prefix s t

-- `strings.Index(t, sub) >= 0`
unfoldable pub contains : String → String → Bool
contains sub [] = is_prefix sub []
contains sub (c ∷ t) = is_prefix sub (c ∷ t) || contains sub t

-- The code of a letter of ASCII in upper case; others keep theirs.
abbrev pub upper_code : ℕ → ℕ
upper_code n = if leb 97 n && leb n 122 then n - 32 else n

-- Whether `strings.ToUpper(t)` is a text of ASCII letters in upper case; letters outside of ASCII are
-- taken as they are.
unfoldable pub upper_is : String → String → Bool
upper_is [] [] = true
upper_is [] (d ∷ t) = false
upper_is (c ∷ s) [] = false
upper_is (c ∷ s) (d ∷ t) = upper_code (code c) == code d && upper_is s t
