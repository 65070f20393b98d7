-- ===== src/Fetcher/Tests.antt =====
-- A small archive: a directory, and a file in it.
use reana_server.Prelude.{ℕ, String, ◌≡◌, refl, ◌≤◌, true, List, [], ◌∷◌, All, arith}
use reana_server.Fetcher.{Entry, split, join, rstrip, kept_parts, normpath, parents}
use reana_server.Fetcher.Validating.{
  Limits, Seen, passed, rejected, unsafe_path, nested_below_file, is_unsafe, add_directories,
  check_entry, check_entries, validate_archive_entries,
}
use reana_server.Fetcher.Extracting.{Files, extracted, extract_entries}
use reana_server.Fetcher.Refining.{content_size, listing, nothing_there, extract_entries-refines}
use reana_server.Fetcher.Written.{sizes, extract_entries-bounded}
use reana_server.Fetcher.Inside.{IsInside, validate-IsInside}

abbrev limits : Limits
limits = record {
  maximum_files = 10;
  maximum_extracted_size = 100;
  max_path_bytes = 200;
  max_depth = 8;
}

abbrev entry : String → List ℕ → Entry
entry name chunks = record {
  filename = name;
  external_attr = 0;
  flag_bits = 0;
  file_size = 0;
  chunks = chunks;
  is_whole = true;
}

abbrev archive : List Entry
archive = entry "code/" [] ∷ entry "code/fit.py" (30 ∷ 12 ∷ []) ∷ []

abbrev noted : Seen
noted = record {
  names = "code/fit.py" ∷ "code" ∷ [];
  file_names = "code/fit.py" ∷ [];
  directories = "code" ∷ [];
  declared_size = 0;
}

archive-passed : validate_archive_entries limits archive ≡ passed noted
unfolding validate_archive_entries check_entries check_entry is_unsafe add_directories normpath
    kept_parts split join rstrip parents
archive-passed = refl

climbing-rejected :
    validate_archive_entries limits (entry "code/../../etc/passwd" [] ∷ []) ≡ rejected unsafe_path
unfolding validate_archive_entries check_entries check_entry is_unsafe add_directories normpath
    kept_parts split join rstrip parents
climbing-rejected = refl

nested-rejected :
    validate_archive_entries limits (entry "a" [] ∷ entry "a/b" [] ∷ [])
    ≡ rejected nested_below_file
unfolding validate_archive_entries check_entries check_entry is_unsafe add_directories normpath
    kept_parts split join rstrip parents
nested-rejected = refl

extract_entries-refines_example :
    (after : Files) × (extract_entries 100 archive (extracted 0, nothing_there)
      ≡ (extracted (content_size archive), after))
    × (after.files ≡ listing archive)
extract_entries-refines_example =
    extract_entries-refines limits archive noted archive-passed (refl, (refl, tt)) (omega arith)

extract_entries-bounded_example :
    sizes (extract_entries 40 archive (extracted 0, nothing_there)).1.files ≤ 40
extract_entries-bounded_example = extract_entries-bounded 40 archive

validate-IsInside_example : All IsInside archive
validate-IsInside_example = validate-IsInside limits archive noted archive-passed
