-- ===== src/HttpService/Text.antt =====
-- pkg/common/httpservice/httpservice.go: `substrRune`, and the characters that a header must not have.
use goapp.Base.{
  ℕ, ℤ, pos, negsuc, ◌-◌, Option, none, some, List, [], ◌∷◌, map, length, take, drop, leb, ltz,
  is_neg, ◌==◌, ◌||◌, ◌&&◌, if◌then◌else◌,
}

unfoldable pub from_pos : ℕ → ℤ → ℤ
from_pos n from =
    let a = if is_neg from then pos 0 else from in if ltz (pos n) a then pos (n - 1) else a

unfoldable pub to_pos : ℕ → ℤ → ℤ → ℤ
to_pos n from_pos to =
    let b = if ltz (pos n) to then pos (n - 1) else to in if ltz b from_pos then from_pos else b

module _ {A : Type 0} where
  -- `xs[from:to]`, which panics if the bounds are out of range.
  abbrev pub slice : List A → ℤ → ℤ → Option (List A)
  slice xs (pos a) (pos b) =
      if leb a b && leb b (length xs) then some (take (b - a) (drop a xs)) else none
  slice xs (pos a) (negsuc b) = none
  slice xs (negsuc a) to = none

  -- `substrRune`; none is a panic.
  unfoldable pub substr_rune : List A → ℤ → ℤ → Option (List A)
  unfolding from_pos to_pos
  substr_rune [] from to = some []
  substr_rune (x ∷ xs) from to =
      let n = length (x ∷ xs) in let a = from_pos n from in slice (x ∷ xs) a (to_pos n a to)

-- `headerReplacer`: line feed, carriage return and NUL become a blank.
abbrev pub header_char : ℕ → ℕ
header_char c = if c == 10 || c == 13 || c == 0 then 32 else c

abbrev pub header_replace : List ℕ → List ℕ
header_replace = map header_char
