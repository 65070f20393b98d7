-- ===== src/Fetcher/Validating.antt =====
-- reana_server/fetcher.py: `_validate_archive_entries`.
use Prim.Native.Char.{code}
use Prim.Native.String.{len, [] as nil, ◌∷◌ as ◌cons◌}
use reana_server.Prelude.{
  ℕ, ◌+◌, ◌*◌, ◌/◌, ◌%◌, String, Bool, false, ◌||◌, not, if◌then◌else◌, str_eq, List, [], ◌∷◌, ◌==◌,
  ltb, length, contains,
}
use reana_server.Fetcher.{Entry, split, rstrip, is_dir, normpath, parents}

-- The limits of the configuration and of reana-commons.
pub record Limits : Type 0 where
  pub maximum_files : ℕ
  pub maximum_extracted_size : ℕ
  pub max_path_bytes : ℕ
  pub max_depth : ℕ

-- `_FETCHER_MAXIMUM_DIRECTORIES`
abbrev pub maximum_directories : Limits → ℕ
maximum_directories limits = limits.maximum_files * 2 + 1024

-- The REANAFetcherErrors, by their messages.
pub data Fault : Type 0 where
  too_many_entries : Fault
  unsafe_path : Fault
  path_limits : Fault
  too_many_directories : Fault
  duplicate_path : Fault
  not_directory : Fault
  encrypted : Fault
  not_regular : Fault
  size_exceeded : Fault
  nested_below_file : Fault

abbrev pub has_code : ℕ → String → Bool
has_code n nil = false
has_code n (c cons text) = code c == n || has_code n text

abbrev pub starts_with_code : ℕ → String → Bool
starts_with_code n nil = false
starts_with_code n (c cons text) = code c == n

abbrev pub after_first : String → String
after_first nil = nil
after_first (c cons text) = text

abbrev pub is_special : String → Bool
is_special part = str_eq part "" || str_eq part "." || str_eq part ".."

abbrev pub any_special : List String → Bool
any_special [] = false
any_special (part ∷ parts) = is_special part || any_special parts

-- The condition of "unsafe path": NUL, a backslash, a leading slash, a drive, or parts that are
-- not plain names
unfoldable pub is_unsafe : String → Bool
is_unsafe name =
    str_eq name ""
    || has_code 0 name
    || has_code 92 name
    || starts_with_code 47 name
    || starts_with_code 58 (after_first name)
    || str_eq (normpath name) "."
    || str_eq (normpath name) ".."
    || not (str_eq (normpath name) (rstrip name))
    || any_special (split (normpath name))

abbrev pub add_to_set : String → List String → List String
add_to_set t ts = if contains ts t then ts else t ∷ ts

-- What has been seen: `names`, `file_names`, `directories` and `declared_size`.
pub record Seen : Type 0 where
  pub names : List String
  pub file_names : List String
  pub directories : List String
  pub declared_size : ℕ

pub data Checked (A : Type 0) : Type 0 where
  passed : A → Checked A
  rejected : Fault → Checked A

-- The loop over the parents of a path.
unfoldable pub add_directories : ℕ → List String → List String → Checked (List String)
add_directories maximum [] directories = passed directories
add_directories maximum (parent ∷ parents) directories =
    let added = add_to_set parent directories in
    let later = add_directories maximum parents added in
    if ltb maximum (length added) then rejected too_many_directories else later

-- `stat.S_IFMT(mode)`, in units of 4096: 4 is a directory and 8 a regular file.
abbrev pub file_type : Entry → ℕ
file_type e = (e.external_attr / 268435456) % 16

abbrev pub with_name : String → Seen → List String → Seen
with_name name seen directories = record {
  names = name ∷ seen.names;
  file_names = seen.file_names;
  directories = directories;
  declared_size = seen.declared_size;
}

abbrev pub with_file : String → ℕ → Seen → Seen
with_file name size seen = record {
  names = seen.names;
  file_names = name ∷ seen.file_names;
  directories = seen.directories;
  declared_size = seen.declared_size + size;
}

-- The end of the body, for a file.
abbrev pub check_file : Limits → Entry → String → Seen → Checked Seen
check_file limits e name seen =
    if e.flag_bits % 2 == 1
    then rejected encrypted
    else (if not (file_type e == 0 || file_type e == 8)
        then rejected not_regular
        else (if ltb limits.maximum_extracted_size (seen.declared_size + e.file_size)
            then rejected size_exceeded
            else passed (with_file name e.file_size seen)))

abbrev pub check_kind : Limits → Entry → String → Seen → Checked Seen
check_kind limits e name seen =
    if is_dir e
    then (if file_type e == 0 || file_type e == 4 then passed seen else rejected not_directory)
    else check_file limits e name seen

abbrev pub check_name : Limits → Entry → String → Seen → Checked (List String) → Checked Seen
check_name limits e name seen (rejected fault) = rejected fault
check_name limits e name seen (passed directories) =
    let checked = check_kind limits e name (with_name name seen directories) in
    if contains seen.names name then rejected duplicate_path else checked

-- The body of the loop over the entries.
unfoldable pub check_entry : Limits → Entry → Seen → Checked Seen
check_entry limits e seen =
    let name = normpath e.filename in
    let components = split name in
    let checked =
      check_name limits e name seen
        (add_directories (maximum_directories limits) (parents components) seen.directories) in
    if is_unsafe e.filename
    then rejected unsafe_path
    else (if ltb limits.max_path_bytes (len e.filename) || ltb limits.max_depth (length components)
        then rejected path_limits
        else checked)

-- The loop over the entries.
unfoldable pub check_entries : Limits → List Entry → Checked Seen → Checked Seen
check_entries limits es (rejected fault) = rejected fault
check_entries limits [] (passed seen) = passed seen
check_entries limits (e ∷ es) (passed seen) = check_entries limits es (check_entry limits e seen)

abbrev pub any_in : List String → List String → Bool
any_in [] ts = false
any_in (p ∷ ps) ts = contains ts p || any_in ps ts

-- The last loop, which looks for names below a file.
abbrev pub any_nested : List String → List String → Bool
any_nested [] files = false
any_nested (name ∷ names) files = any_in (parents (split name)) files || any_nested names files

abbrev pub check_nesting : Checked Seen → Checked Seen
check_nesting (rejected fault) = rejected fault
check_nesting (passed seen) =
    if any_nested seen.names seen.file_names then rejected nested_below_file else passed seen

abbrev pub nothing_seen : Seen
nothing_seen = record { names = []; file_names = []; directories = []; declared_size = 0 }

-- `_validate_archive_entries`
unfoldable pub validate_archive_entries : Limits → List Entry → Checked Seen
validate_archive_entries limits es =
    let checked = check_nesting (check_entries limits es (passed nothing_seen)) in
    if ltb limits.maximum_files (length es) then rejected too_many_entries else checked
