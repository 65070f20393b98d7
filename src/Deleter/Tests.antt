-- ===== src/Deleter/Tests.antt =====
-- reana_server/deleter.py on a small workspace.
use reana_server.Prelude.{
  ℕ, String, ◌≡◌, refl, ◌≢◌, ◌&&◌, not, Bool, true, false, if◌then◌else◌, str_eq, List, [], ◌∷◌,
  arith, All, eq_iff, Bool-cases, inl, inr, ◌∙◌, ◌||◌, ◌<◌, subst,
}
use reana_server.Deleter.Paths.{FilePath, path_of, same_path, same_parts, is_relative_to}
use reana_server.Deleter.{
  inputs, outputs, nothing, Specification, is_input_output_check, is_preserved, Workspace, Reply,
  value, raised, file_not_found, not_empty, not_a_directory, done, too_deep, delete_files,
}
use reana_server.Deleter.Keeping.{delete_files-keeps}
use reana_server.Deleter.Ending.{IsNested, delete_files-ends}

abbrev spec : Specification
spec = record {
  input_files = "./data//in.csv" ∷ [];
  input_directories = "code" ∷ [];
  output_files = [];
  output_directories = [];
}

path_tests :
    (same_path (path_of "./data//in.csv") (path_of "data/in.csv") ≡ true)
    × (is_relative_to (path_of "code/a/b.py") (path_of "code/") ≡ true)
    × (is_relative_to (path_of "codes/b.py") (path_of "code") ≡ false)
    × (is_relative_to (path_of "/code/b.py") (path_of "code") ≡ false)
    × (is_preserved spec inputs "data/in.csv" ≡ true)
    × (is_preserved spec outputs "data/in.csv" ≡ false)
unfolding path_of same_path is_relative_to is_preserved is_input_output_check
path_tests = (refl, refl, refl, refl, refl, refl)

same_parts→eq : (ps qs : List String) → same_parts ps qs ≡ true → ps ≡ qs
same_parts→eq [] [] h = refl
same_parts→eq [] (q ∷ qs) h = ground (arith, h)
same_parts→eq (p ∷ ps) [] h = ground (arith, h)
same_parts→eq (p ∷ ps) (q ∷ qs) h = ground (arith, same_parts→eq ps qs, eq_iff p q)

same_path→eq : (x y : FilePath) → same_path x y ≡ true → x ≡ y
unfolding same_path
same_path→eq x y h = ground (arith, same_parts→eq x.parts y.parts, h)

-- A workspace with a directory, two files in it; the directory goes when the files are gone.
abbrev stored : FilePath → List FilePath → Bool
stored x [] = false
stored x (y ∷ ys) = same_path y x || stored x ys

abbrev removed : FilePath → List FilePath → List FilePath
removed x [] = []
removed x (y ∷ ys) = let others = removed x ys in if same_path x y then others else y ∷ others

abbrev erased : String → List FilePath → Reply (Unit {0}) × List FilePath
erased p s =
    if not (stored (path_of p) s)
    then (raised file_not_found, s)
    else if str_eq p "data" && stored (path_of "data/in.csv") s
    then (raised not_empty, s)
    else (value tt, removed (path_of p) s)

stored-removed : (x y : FilePath) (s : List FilePath) → x ≢ y → stored y (removed x s) ≡ stored y s
stored-removed x y [] h = refl
stored-removed x y (z ∷ s) h = elim (Bool-cases (same_path x z)) [
  | inr other ↦ rw other (ground (arith, stored-removed x y s h))
  | inl same ↦ elim (Bool-cases (same_path z y)) [
    | inr differs ↦ rw same (rw differs (stored-removed x y s h))
    | inl alike ↦ absurd (h (same_path→eq x z same ∙ same_path→eq z y alike))
  ]
]

stored-erased :
    (p : String) (x : FilePath) (s : List FilePath)
    → path_of p ≢ x
    → stored x (erased p s).1 ≡ stored x s
stored-erased p x s h = ground (arith, stored-removed (path_of p) x s h)

abbrev listing : String → Reply (List String)
listing p =
    if str_eq p "data" then value ("data/in.csv" ∷ "data/out.csv" ∷ []) else raised not_a_directory

abbrev small : Workspace
small = record {
  State = List FilePath;
  present = stored;
  is_directory = λ p s. value (str_eq p "data");
  iterdir = λ p s. listing p;
  delete = erased;
  present-delete = stored-erased;
}

abbrev full : List FilePath
full = path_of "data" ∷ path_of "data/in.csv" ∷ path_of "data/out.csv" ∷ []

deleter_tests :
    (delete_files small spec inputs 2 "data" full
      ≡ (done, path_of "data" ∷ path_of "data/in.csv" ∷ []))
    × (delete_files small spec nothing 2 "data" full ≡ (done, []))
    × ((delete_files small spec nothing 1 "data" full).0 ≡ too_deep)
unfolding path_tests delete_files
deleter_tests = (refl, refl, refl)

delete_files-keeps_example :
    stored (path_of "data/in.csv") (delete_files small spec inputs 2 "data" full).1
    ≡ stored (path_of "data/in.csv") full
unfolding deleter_tests
delete_files-keeps_example =
    delete_files-keeps small spec inputs (path_of "data/in.csv") 2 "data" "data/in.csv" full refl
      refl

abbrev height : String → ℕ
height p = if str_eq p "data" then 1 else 0

nested : IsNested small spec nothing height
nested p s ps h = elim (Bool-cases (str_eq p "data")) [
  | inl same ↦
      let e : ("data/in.csv" ∷ "data/out.csv" ∷ []) ≡ ps = ground (arith, same, h) in
      rw same (subst (λ l. All (λ c. height c < 1) l) e (omega arith, (omega arith, tt)))
  | inr other ↦ absurd (ground (arith, other, h))
]

delete_files-ends_example : (delete_files small spec nothing 2 "data" full).0 ≢ too_deep
delete_files-ends_example =
    delete_files-ends small spec nothing height 2 "data" full nested (omega arith)
