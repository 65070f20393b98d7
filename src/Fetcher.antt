-- ===== src/Fetcher.antt =====
-- reana_server/fetcher.py: the names of the entries of a ZIP archive.
pub mod Validating
pub mod Accepted
pub mod Extracting
pub mod Refining
pub mod Written
pub mod Inside
mod Tests
use Prim.Native.Char.{Char, code}
use Prim.Native.String.{[] as nil, ◌∷◌ as ◌cons◌, ◌++◌ as append}
use reana_server.Prelude.{
  ℕ, zero, suc, ◌+◌, ◌/◌, ◌%◌, String, Bool, true, false, ◌&&◌, ◌||◌, not, if◌then◌else◌, str_eq,
  List, [], ◌∷◌, ◌++◌, ◌==◌,
}

-- A `ZipInfo`. What reading it gives is a list of the lengths of the chunks, and whether the reading
-- comes to the end of the file without an error.
pub record Entry : Type 0 where
  pub filename : String
  pub external_attr : ℕ
  pub flag_bits : ℕ
  pub file_size : ℕ
  pub chunks : List ℕ
  pub is_whole : Bool

abbrev at_first : Char → List String → List String
at_first c [] = (c cons nil) ∷ []
at_first c (t ∷ ts) = (c cons t) ∷ ts

-- `name.split("/")`
unfoldable pub split : String → List String
split nil = nil ∷ []
split (c cons text) =
    let parts = split text in if code c == 47 then nil ∷ parts else at_first c parts

-- `"/".join(parts)`
unfoldable pub join : List String → String
join [] = ""
join (t ∷ []) = t
join (t ∷ u ∷ ts) = append t (append "/" (join (u ∷ ts)))

-- `name.rstrip("/")`
unfoldable pub rstrip : String → String
rstrip nil = nil
rstrip (c cons text) =
    let rest = rstrip text in if code c == 47 && str_eq rest "" then "" else c cons rest

abbrev pub ends_with_slash : String → Bool
ends_with_slash nil = false
ends_with_slash (c cons nil) = code c == 47
ends_with_slash (c cons (d cons text)) = ends_with_slash (d cons text)

-- `entry.is_dir()`
abbrev pub is_dir : Entry → Bool
is_dir e = ends_with_slash e.filename

abbrev but_first : List String → List String
but_first [] = []
but_first (k ∷ ks) = ks

abbrev may_go_up : List String → Bool
may_go_up [] = true
may_go_up (k ∷ ks) = str_eq k ".."

-- The parts that posixpath.normpath keeps of a relative path, the last first.
unfoldable pub kept_parts : List String → List String → List String
kept_parts kept [] = kept
kept_parts kept (t ∷ ts) =
    let skipped = kept_parts kept ts in
    let added = kept_parts (t ∷ kept) ts in
    let dropped = kept_parts (but_first kept) ts in
    if str_eq t "" || str_eq t "."
    then skipped
    else (if not (str_eq t "..") || may_go_up kept then added else dropped)

abbrev reversed : List String → List String → List String
reversed done [] = done
reversed done (t ∷ ts) = reversed (t ∷ done) ts

abbrev or_dot : String → String
or_dot t = if str_eq t "" then "." else t

-- `posixpath.normpath(name)` of a name that does not start with a slash
unfoldable pub normpath : String → String
normpath name = or_dot (join (reversed [] (kept_parts [] (split name))))

-- `"/".join(components[:index])` for each index from 1 to the last but one, after the parts before
abbrev parents_from : List String → List String → List String
parents_from before [] = []
parents_from before (t ∷ []) = []
parents_from before (t ∷ u ∷ ts) =
    join (before ++ t ∷ []) ∷ parents_from (before ++ t ∷ []) (u ∷ ts)

unfoldable pub parents : List String → List String
parents components = parents_from [] components
