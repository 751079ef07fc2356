-- ===== src/Errors/Text.antt =====
-- pkg/common/error/error.go, `GetArgsString`: the operations on texts that it uses.
use Prim.Native.Char.{Char}
use Prim.Native.String.{String, [], ◌∷◌, ◌++◌}
use goapp.Base.{Bool, ◌||◌, str_eq, if◌then◌else◌}

is_cut : Char → Bool
is_cut c = str_eq (c ∷ []) "," || str_eq (c ∷ []) " "

trim_char : Char → String → String
unfolding is_cut
trim_char c [] = if is_cut c then [] else c ∷ []
trim_char c (d ∷ s) = c ∷ d ∷ s

-- `strings.TrimRight(s, ", ")`: without the commas and blanks at its end.
unfoldable pub trim_right : String → String
unfolding trim_char
trim_right [] = []
trim_right (c ∷ s) = trim_char c (trim_right s)

-- `fmt.Sprintf("'%v', ", arg)`, before what follows it.
abbrev pub with_arg : String → String → String
with_arg a rest = "'" ++ (a ++ ("', " ++ rest))
