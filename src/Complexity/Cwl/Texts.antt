-- ===== src/Complexity/Cwl/Texts.antt =====
-- The methods `replace` and `split` of texts that reana_server/complexity.py uses on CWL sources.
use Prim.Native.Char.{Char, code}
use Prim.Native.String.{count as size, [] as nil, ◌∷◌ as ◌cons◌}
use text.Mathlib.Text.{starts_with}
use reana_server.Prelude.{ℕ, zero, suc, ◌-◌, String, if◌then◌else◌, ◌==◌, List, [], ◌∷◌}

-- `text.replace(pattern, "")` of a pattern that is not empty: the first characters, as many as the
-- number says, belong to an occurrence that has been found.
unfoldable pub removed : ℕ → String → String → String
removed n pattern nil = nil
removed (suc n) pattern (c cons text) = removed n pattern text
removed zero pattern (c cons text) =
    let after = removed (size pattern - 1) pattern text in
    let next = removed zero pattern text in
    if starts_with (c cons text) pattern then after else c cons next

abbrev at_first : Char → List String → List String
at_first c [] = (c cons nil) ∷ []
at_first c (t ∷ ts) = (c cons t) ∷ ts

-- `text.split("/")`
unfoldable pub split : String → List String
split nil = nil ∷ []
split (c cons text) =
    let parts = split text in if code c == 47 then nil ∷ parts else at_first c parts

-- `parts[0:-1]`
abbrev pub but_last : List String → List String
but_last [] = []
but_last (t ∷ []) = []
but_last (t ∷ u ∷ ts) = t ∷ but_last (u ∷ ts)

-- `parts.pop()`, where the parts are never empty
abbrev pub last_of : List String → String
last_of [] = nil
last_of (t ∷ []) = t
last_of (t ∷ u ∷ ts) = last_of (u ∷ ts)
