-- ===== src/Base/Texts.antt =====
-- The comparison of two texts, `strcmp(...) == 0`.
use Prim.Native.String.{String}
use mathlib.Core.Bool.{Bool}
use text.Mathlib.Text.{◌==◌}

abbrev pub same_text : String → String → Bool
same_text a b = a == b
