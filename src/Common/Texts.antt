-- ===== src/Common/Texts.antt =====
-- Literals of the source as sequences of bytes.
use Prim.Native.String.{String}
use Prim.Native.Char.{code}
use mathlib.Core.List.{[], ◌∷◌}
use barren_engine.Common.Bits.{Bytes}

-- The bytes of a literal that is ASCII.
abbrev pub characters : String → Bytes
characters String.[] = []
characters (String.◌∷◌ c text) = code c ∷ characters text
