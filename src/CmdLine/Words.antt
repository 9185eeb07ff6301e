-- ===== src/CmdLine/Words.antt =====
-- `SetCmdLine` and `GetCmdLine` of src/CmdLineParser.cpp, and `split` of src/Utils.cpp: a line and its
-- words, as bytes.
pub mod Laws
use Prim.Native.Char.{code}
use Prim.Native.String.{String}
use ritex.Base.{ℕ, ◌+◌, List, [], ◌∷◌, ◌++◌, ◌==◌, if◌then◌else◌}

abbrev pub Word : Type 0
Word = List ℕ

-- The bytes of a literal.
abbrev pub bytes_of : String → Word
bytes_of String.[] = []
bytes_of (String.◌∷◌ c s) = code c ∷ bytes_of s

abbrev pub space : ℕ
space = 32

-- A byte in front of the first word that is still to come.
abbrev pub in_front : ℕ → List Word → List Word
in_front c [] = (c ∷ []) ∷ []
in_front c (word ∷ words) = (c ∷ word) ∷ words

-- The words that calls of `getline` give until one fails: a call fails where nothing is left, so that a
-- delimiter at the end of the line ends the last word and begins none.
unfoldable pub split : ℕ → List ℕ → List Word
split delim [] = []
split delim (c ∷ s) = let rest = split delim s in if c == delim then [] ∷ rest else in_front c rest

unfoldable pub set_cmd_line : List ℕ → List Word
set_cmd_line line = split space line

-- A space follows every argument but the last.
unfoldable pub get_cmd_line : List Word → List ℕ
get_cmd_line [] = []
get_cmd_line (arg ∷ []) = arg
get_cmd_line (arg ∷ (next ∷ args)) = arg ++ (space ∷ get_cmd_line (next ∷ args))
