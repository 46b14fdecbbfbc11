-- ===== src/Base/Texts.antt =====
-- The bytes of an ASCII literal.
use media_engine.Base.{[], ◌∷◌}
use media_engine.Base.Bytes.{Bytes}
use Prim.Native.Char.{code}
use Prim.Native.String.{String}

abbrev pub codes : String → Bytes
codes String.[] = []
codes (String.◌∷◌ c s) = code c ∷ codes s
