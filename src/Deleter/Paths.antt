-- ===== src/Deleter/Paths.antt =====
-- The paths of pathlib that reana_server/deleter.py and `is_relative_to` of reana_server/utils.py
-- compare.
use Prim.Native.Char.{Char, code}
use Prim.Native.String.{[] as nil, ◌∷◌ as ◌cons◌}
use reana_server.Prelude.{
  ℕ, String, Bool, true, false, ◌&&◌, ◌||◌, not, if◌then◌else◌, str_eq, List, [], ◌∷◌, ◌==◌,
}

-- A pure POSIX path: the number of slashes of its root (0, 1 or 2) and its parts.
pub record FilePath : Type 0 where
  pub root : ℕ
  pub parts : List String

abbrev is_slash : Char → Bool
is_slash c = code c == 47

abbrev starts_with_slash : String → Bool
starts_with_slash nil = false
starts_with_slash (c cons t) = is_slash c

abbrev after_first : String → String
after_first nil = nil
after_first (c cons t) = t

-- Exactly two leading slashes are a root of their own.
abbrev root_of : String → ℕ
root_of t =
    let second = starts_with_slash (after_first t) in
    let third = starts_with_slash (after_first (after_first t)) in
    if not (starts_with_slash t) then 0 else if second && not third then 2 else 1

abbrev with_char : Char → List String → List String
with_char c [] = (c cons nil) ∷ []
with_char c (piece ∷ pieces) = (c cons piece) ∷ pieces

abbrev pieces_of : String → List String
pieces_of nil = nil ∷ []
pieces_of (c cons t) = let rest = pieces_of t in if is_slash c then nil ∷ rest else with_char c rest

abbrev without_dots : List String → List String
without_dots [] = []
without_dots (piece ∷ pieces) =
    let others = without_dots pieces in
    if str_eq piece "" || str_eq piece "." then others else piece ∷ others

-- `Path(t)`
unfoldable pub path_of : String → FilePath
path_of t = record { root = root_of t; parts = without_dots (pieces_of t) }

abbrev is_prefix : List String → List String → Bool
is_prefix [] qs = true
is_prefix (p ∷ ps) [] = false
is_prefix (p ∷ ps) (q ∷ qs) = str_eq p q && is_prefix ps qs

-- `is_relative_to`
unfoldable pub is_relative_to : FilePath → FilePath → Bool
is_relative_to path base = path.root == base.root && is_prefix base.parts path.parts

abbrev pub same_parts : List String → List String → Bool
same_parts [] [] = true
same_parts [] (q ∷ qs) = false
same_parts (p ∷ ps) [] = false
same_parts (p ∷ ps) (q ∷ qs) = str_eq p q && same_parts ps qs

-- `path == other`
unfoldable pub same_path : FilePath → FilePath → Bool
same_path path other = path.root == other.root && same_parts path.parts other.parts
