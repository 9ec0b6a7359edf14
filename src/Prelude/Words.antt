-- ===== src/Prelude/Words.antt =====
-- Splitting and trimming text as JavaScript does, for ASCII white space.
use Prim.Native.Char.{Char, code}
use Prim.Native.String.{String}
use mathlib.Core.Bool.{Bool, ◌&&◌, ◌||◌}
use mathlib.Core.List.{List, [], ◌∷◌}
use atraport_api.Prelude.Tests.{nat_eq, leb, if◌then◌else◌}

abbrev pub is_char : Char → Char → Bool
is_char c d = nat_eq (code c) (code d)

abbrev pub first_piece : Char → List String → List String
first_piece c [] = String.◌∷◌ c "" ∷ []
first_piece c (piece ∷ pieces) = String.◌∷◌ c piece ∷ pieces

-- `s.split(sep)`, for a separator of one character.
unfoldable pub split : Char → String → List String
split sep String.[] = "" ∷ []
split sep (String.◌∷◌ c s) =
    let pieces = split sep s in if is_char c sep then "" ∷ pieces else first_piece c pieces

-- The ASCII white space.
unfoldable pub is_space : Char → Bool
is_space c = leb 9 (code c) && leb (code c) 13 || nat_eq (code c) 32

unfoldable pub trim_start : String → String
trim_start String.[] = ""
trim_start (String.◌∷◌ c s) = let rest = trim_start s in if is_space c then rest else String.◌∷◌ c s

abbrev pub unless_space : Char → String → String
unless_space c String.[] = if is_space c then "" else String.◌∷◌ c ""
unless_space c (String.◌∷◌ d s) = String.◌∷◌ c (String.◌∷◌ d s)

unfoldable pub trim_end : String → String
trim_end String.[] = ""
trim_end (String.◌∷◌ c s) = unless_space c (trim_end s)

unfoldable pub trim : String → String
trim s = trim_end (trim_start s)
