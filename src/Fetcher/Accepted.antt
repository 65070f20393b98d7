-- ===== src/Fetcher/Accepted.antt =====
-- reana_server/fetcher.py: what a validated archive looks like.
use reana_server.Prelude.{
  String, ◌≡◌, ◌≢◌, refl, sym, subst, ap, ◌∙◌, Bool, true, false, ◌||◌, if◌then◌else◌, str_eq, List,
  [], ◌∷◌, contains, arith, eq_iff, eq_refl, Bool-cases, inl, inr, ◌⊎◌,
}
use reana_server.Fetcher.{Entry, split, rstrip, is_dir, normpath, parents}
use reana_server.Fetcher.Validating.{
  Limits, Fault, Seen, Checked, passed, rejected, is_unsafe, add_directories, maximum_directories,
  with_name, check_kind, check_name, check_entry, check_entries, any_in, any_nested, nothing_seen,
  validate_archive_entries,
}

abbrev pub name_of : Entry → String
name_of e = rstrip e.filename

abbrev pub names_of : List Entry → List String
names_of [] = []
names_of (e ∷ es) = name_of e ∷ names_of es

-- The names are distinct, no file stands above an entry, and `files` has the names of the files.
abbrev pub IsSound : List String → List Entry → Type 0
IsSound files [] = Unit
IsSound files (e ∷ es) =
    (contains (names_of es) (name_of e) ≡ false)
    × (any_in (parents (split (name_of e))) files ≡ false)
    × (is_dir e ≡ false → contains files (name_of e) ≡ true)
    × IsSound files es

pub safe-normpath : (name : String) → is_unsafe name ≡ false → normpath name ≡ rstrip name
unfolding is_unsafe
safe-normpath name h = ground (arith, h, eq_iff (normpath name) (rstrip name))

abbrev file_names_after : Entry → Seen → List String
file_names_after e seen = if is_dir e then seen.file_names else name_of e ∷ seen.file_names

check_kind-passed :
    (limits : Limits) (e : Entry) (name : String) (seen s : Seen)
    → check_kind limits e name seen ≡ passed s
    → (s.names ≡ seen.names)
      × (s.file_names ≡ (if is_dir e then seen.file_names else name ∷ seen.file_names))
check_kind-passed limits e name seen s h = ground (arith, h)

check_name-passed :
    (limits : Limits) (e : Entry) (name : String) (seen s : Seen)
    (directories : Checked (List String))
    → check_name limits e name seen directories ≡ passed s
    → (contains seen.names name ≡ false)
      × (s.names ≡ name ∷ seen.names)
      × (s.file_names ≡ (if is_dir e then seen.file_names else name ∷ seen.file_names))
check_name-passed limits e name seen s (rejected fault) h = ground (arith, h)
check_name-passed limits e name seen s (passed directories) h =
    elim (Bool-cases (contains seen.names name)) [
      | inl twice ↦ ground (arith, h, twice)
      | inr once ↦
          ground
            (arith, h, once, check_kind-passed limits e name (with_name name seen directories) s)
    ]

check_entry-passed :
    (limits : Limits) (e : Entry) (seen s : Seen)
    → check_entry limits e seen ≡ passed s
    → (contains seen.names (name_of e) ≡ false)
      × (s.names ≡ name_of e ∷ seen.names)
      × (s.file_names ≡ file_names_after e seen)
unfolding check_entry
check_entry-passed limits e seen s h = elim (Bool-cases (is_unsafe e.filename)) [
  | inl bad ↦ ground (arith, h, bad)
  | inr safe ↦
      let name = normpath e.filename in
      let directories =
        add_directories (maximum_directories limits) (parents (split name)) seen.directories in
      let checked : check_name limits e name seen directories ≡ passed s =
        ground (arith, h, safe) in
      subst
        (λ n.
          (contains seen.names n ≡ false)
          × (s.names ≡ n ∷ seen.names)
          × (s.file_names ≡ (if is_dir e then seen.file_names else n ∷ seen.file_names)))
        (safe-normpath e.filename safe) (check_name-passed limits e name seen s directories checked)
]

-- The names that come first are not those that come later.
abbrev Apart : List String → List Entry → Type 0
Apart names es = (n : String) → contains names n ≡ true → contains (names_of es) n ≡ false

abbrev Distinct : List Entry → Type 0
Distinct [] = Unit
Distinct (e ∷ es) = (contains (names_of es) (name_of e) ≡ false) × Distinct es

abbrev Grows : List String → List Entry → List String → Type 0
Grows names es later =
    (n : String) → (contains names n || contains (names_of es) n) ≡ true → contains later n ≡ true

abbrev FilesIn : List String → List Entry → Type 0
FilesIn files [] = Unit
FilesIn files (e ∷ es) = (is_dir e ≡ false → contains files (name_of e) ≡ true) × FilesIn files es

abbrev Kept : List String → List String → Type 0
Kept files later = (n : String) → contains files n ≡ true → contains later n ≡ true

abbrev Facts : List Entry → Seen → Seen → Type 0
Facts es seen s =
    Apart seen.names es
    × Distinct es
    × Grows seen.names es s.names
    × FilesIn s.file_names es
    × Kept seen.file_names s.file_names

grows_contains :
    (x : String) (xs names : List String) (n : String)
    → names ≡ x ∷ xs
    → contains names n ≡ (str_eq x n || contains xs n)
grows_contains x xs names n e =
    subst (λ l. contains l n ≡ (str_eq x n || contains xs n)) (sym e) refl

if_contains :
    (b : Bool) (x : String) (xs : List String) (n : String)
    → contains (if b then xs else x ∷ xs) n
      ≡ (if b then contains xs n else (str_eq x n || contains xs n))
if_contains true x xs n = refl
if_contains false x xs n = refl

add_entry-Facts :
    (x : Entry) (es : List Entry) (seen m s : Seen)
    → contains seen.names (name_of x) ≡ false
    → m.names ≡ name_of x ∷ seen.names
    → m.file_names ≡ file_names_after x seen
    → Facts es m s
    → Facts (x ∷ es) seen s
add_entry-Facts x es seen m s new names files (apart, distinct, grows, files_in, kept) =
    let kept_m : (n : String)
        → contains m.file_names n ≡ (
            if is_dir x
            then contains seen.file_names n
            else (str_eq (name_of x) n || contains seen.file_names n)) =
      λ n. ap (λ l. contains l n) files ∙ if_contains (is_dir x) (name_of x) seen.file_names n in
    (
      (λ n h. ground (
        arith,
        h,
        new,
        apart n,
        grows_contains (name_of x) seen.names m.names n names,
        eq_iff (name_of x) n,
      )),
      (
        ground (
          arith,
          apart (name_of x),
          grows_contains (name_of x) seen.names m.names (name_of x) names,
          eq_refl (name_of x),
        ),
        distinct,
      ),
      (λ n h. ground (arith, h, grows n, grows_contains (name_of x) seen.names m.names n names)),
      (
        (λ f. ground (arith, f, kept (name_of x), kept_m (name_of x), eq_refl (name_of x))),
        files_in,
      ),
      (λ n h. ground (arith, h, kept n, kept_m n)),
    )

pub Checked-cases :
    (c : Checked Seen) → ((m : Seen) × (c ≡ passed m)) ⊎ ((fault : Fault) × (c ≡ rejected fault))
Checked-cases (passed m) = inl (m, refl)
Checked-cases (rejected fault) = inr (fault, refl)

pub rejected-passed :
    (limits : Limits) (es : List Entry) (fault : Fault) (s : Seen)
    → check_entries limits es (rejected fault) ≢ passed s
unfolding check_entries
rejected-passed limits [] fault s h = ground (arith, h)
rejected-passed limits (e ∷ es) fault s h = ground (arith, h)

check_entries-passed :
    (limits : Limits) (es : List Entry) (seen s : Seen)
    → check_entries limits es (passed seen) ≡ passed s
    → Facts es seen s
unfolding check_entries
check_entries-passed limits [] seen s h =
    let same : seen ≡ s = ground (arith, h) in
    subst (λ t. Facts [] seen t) same
      ((λ n k. refl), tt, (λ n k. ground (arith, k)), tt, (λ n k. k))
check_entries-passed limits (x ∷ es) seen s h = elim (Checked-cases (check_entry limits x seen)) [
  | inl (m, e) ↦
      let (new, names, files) = check_entry-passed limits x seen m e in
      add_entry-Facts x es seen m s new names files
        (check_entries-passed limits es m s (subst (λ c. check_entries limits es c ≡ passed s) e h))
  | inr (fault, e) ↦
      absurd
        (rejected-passed limits es fault s (subst (λ c. check_entries limits es c ≡ passed s) e h))
]

nested-apart :
    (names files : List String) (n : String)
    → any_nested names files ≡ false
    → contains names n ≡ true
    → any_in (parents (split n)) files ≡ false
nested-apart [] files n h c = ground (arith, c)
nested-apart (m ∷ names) files n h c = elim (Bool-cases (str_eq m n)) [
  | inl here ↦
      let same : m ≡ n = ground (arith, here, eq_iff m n) in
      subst (λ t. any_in (parents (split t)) files ≡ false) same (ground (arith, h))
  | inr later ↦ nested-apart names files n (ground (arith, h)) (ground (arith, c, later))
]

IsSound-from :
    (es : List Entry) (files names : List String)
    → any_nested names files ≡ false
    → Distinct es
    → FilesIn files es
    → ((n : String) → contains (names_of es) n ≡ true → contains names n ≡ true)
    → IsSound files es
IsSound-from [] files names h d f g = tt
IsSound-from (e ∷ es) files names h (d, ds) (f, fs) g = (
  d,
  nested-apart names files (name_of e) h (g (name_of e) (ground (arith, eq_refl (name_of e)))),
  f,
  IsSound-from es files names h ds fs (λ n c. g n (ground (arith, c))),
)

-- The names of a validated archive are distinct, none stands below a file, and the names of its files
-- are those that the validation has noted.
pub validate-IsSound :
    (limits : Limits) (es : List Entry) (s : Seen)
    → validate_archive_entries limits es ≡ passed s
    → IsSound s.file_names es
unfolding validate_archive_entries
validate-IsSound limits es s h =
    elim (Checked-cases (check_entries limits es (passed nothing_seen))) [
      | inr (fault, e) ↦ ground (arith, h, e)
      | inl (m, e) ↦
          let same : m ≡ s = ground (arith, h, e) in
          let flat : any_nested m.names m.file_names ≡ false = ground (arith, h, e) in
          let (apart, distinct, grows, files_in, kept) =
            check_entries-passed limits es nothing_seen m e in
          subst (λ t. IsSound t.file_names es) same
            (IsSound-from es m.file_names m.names flat distinct files_in (λ n c. grows n c))
    ]
