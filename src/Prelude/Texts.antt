-- ===== src/Prelude/Texts.antt =====
-- Constant texts, written as literals.
use Prim.Native.Char.{code}
use Prim.Native.String.{String}
use mathlib.Core.List.{[], ◌∷◌}
use cat_graphrag.Prelude.Keys.{Str}

-- The code points of a literal.
abbrev pub codes : String → Str
codes String.[] = []
codes (String.◌∷◌ c s) = code c ∷ codes s
