-- ===== src/Prelude/Texts.antt =====
-- `hmac.compare_digest` of two texts.
use Prim.Native.Char.{code}
use Prim.Native.String.{String, [], ◌∷◌}
use mathlib.Core.Bool.{Bool, true, ◌&&◌}
use mathlib.Core.Option.{Option, none, some}
use text.Mathlib.Text.{◌==◌ as str_eq}
use reana_server.Prelude.Tests.{ltb, if◌then◌else◌}

abbrev pub is_ascii : String → Bool
is_ascii [] = true
is_ascii (c ∷ t) = ltb (code c) 128 && is_ascii t

-- `none` is the TypeError for a text with other characters than those of ASCII.
unfoldable pub compare_digest : String → String → Option Bool
compare_digest t u = if is_ascii t && is_ascii u then some (str_eq t u) else none
