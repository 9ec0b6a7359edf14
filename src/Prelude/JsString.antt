-- ===== src/Prelude/JsString.antt =====
-- What the program asks of JavaScript's strings.
use Prim.Native.Char.{Char, code}
use Prim.Native.String
use Prim.Native.String.{String, [], ◌∷◌}
use mathlib.Core.Option.{Option, none, some}
use atraport_api.Prelude.Tests.{nat_eq, if◌then◌else◌}

-- `a + b`, and the parts of a template literal.
infixr 65 ◌<>◌
abbrev pub ◌<>◌ : String → String → String
a <> b = String.◌++◌ a b

-- A value that is undefined or empty fails `if (s)`.
abbrev pub truthy : Option String → Option String
truthy none = none
truthy (some []) = none
truthy (some (c ∷ s)) = some (c ∷ s)

translate : Char → String → String → Char
translate c [] to = c
translate c (a ∷ from) [] = c
translate c (a ∷ from) (b ∷ to) = if nat_eq (code c) (code a) then b else translate c from to

-- `s.toUpperCase()`, for ASCII text.
unfoldable pub to_upper_case : String → String
unfolding translate
to_upper_case [] = []
to_upper_case (c ∷ s) =
    translate c "abcdefghijklmnopqrstuvwxyz" "ABCDEFGHIJKLMNOPQRSTUVWXYZ" ∷ to_upper_case s

-- `s.toLowerCase()`, for ASCII text.
unfoldable pub to_lower_case : String → String
unfolding translate
to_lower_case [] = []
to_lower_case (c ∷ s) =
    translate c "ABCDEFGHIJKLMNOPQRSTUVWXYZ" "abcdefghijklmnopqrstuvwxyz" ∷ to_lower_case s

-- `s.split(sep)[0]`, for a separator of one character.
unfoldable pub before : Char → String → String
before sep [] = []
before sep (c ∷ s) = if nat_eq (code c) (code sep) then [] else c ∷ before sep s

prepend : Char → Option String → Option String
prepend c none = none
prepend c (some s) = some (c ∷ s)

-- `s.slice(0, -1)`, if `s.endsWith(last)`, for a `last` of one character.
unfoldable pub without_last : Char → String → Option String
unfolding prepend
without_last last [] = none
without_last last (c ∷ []) = if nat_eq (code c) (code last) then some [] else none
without_last last (c ∷ (d ∷ s)) = prepend c (without_last last (d ∷ s))
