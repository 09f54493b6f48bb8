-- ===== src/Prelude/Texts.antt =====
-- Concatenation of texts, which an f-string is made of.
use Prim.Native.String.{String, ◌++◌}

unfoldable pub append_text : String → String → String
append_text a b = a ++ b
