-- ===== src/Fetcher/Extracting.antt =====
-- reana_server/fetcher.py: `_extract_archive_entries`, into an output directory that only it writes.
use reana_server.Prelude.{
  ℕ, ◌+◌, String, Bool, true, false, ◌||◌, if◌then◌else◌, List, [], ◌∷◌, ◌++◌, ltb, contains,
  is_some, Dict, lookup, insert, erase,
}
use reana_server.Fetcher.{Entry, split, rstrip, is_dir, parents}

-- The regular files below the output directory, with their sizes, and the directories, by the path
-- from there.
pub record Files : Type 0 where
  pub files : Dict ℕ
  pub directories : List String

pub data Extracted : Type 0 where
  -- the size extracted so far
  extracted : ℕ → Extracted
  -- "Remote source extracted size exceeded"
  exceeded : Extracted
  -- "Could not extract remote source entry"
  broken : Extracted

-- `os.makedirs`: the directories of a path, from the top; a file in the way is an OSError.
unfoldable pub make_directories : List String → Files → Bool × Files
make_directories [] fs = (true, fs)
make_directories (path ∷ paths) fs =
    let later =
      make_directories paths record { files = fs.files; directories = path ∷ fs.directories } in
    if is_some (lookup path fs.files) then (false, fs) else later

-- The loop over the chunks: how it ends, and the size of the file.
unfoldable pub write_chunks : ℕ → Bool → List ℕ → ℕ → ℕ → Extracted × ℕ
write_chunks maximum is_whole [] total size = (if is_whole then extracted total else broken, size)
write_chunks maximum is_whole (n ∷ chunks) total size =
    let later = write_chunks maximum is_whole chunks (total + n) (size + n) in
    if ltb maximum (total + n) then (exceeded, size) else later

-- A file that was begun is kept, or it is unlinked.
abbrev pub finished : String → Extracted × ℕ → Files → Extracted × Files
finished name (extracted total, size) fs =
    (extracted total, record { files = insert name size fs.files; directories = fs.directories })
finished name (exceeded, size) fs = (exceeded, fs)
finished name (broken, size) fs = (broken, fs)

-- `os.open` with O_CREAT and O_EXCL, the writing, and the `unlink` after an error, which also takes
-- away what was there under the name before.
abbrev pub write_file : ℕ → Entry → String → ℕ → Files → Extracted × Files
write_file maximum e name total fs =
    let written = finished name (write_chunks maximum e.is_whole e.chunks total 0) fs in
    if contains fs.directories name || is_some (lookup name fs.files)
    then (broken, record { files = erase name fs.files; directories = fs.directories })
    else written

abbrev pub make_file : ℕ → Entry → String → ℕ → Bool × Files → Extracted × Files
make_file maximum e name total (false, fs) = (broken, fs)
make_file maximum e name total (true, fs) = write_file maximum e name total fs

abbrev pub make_directory : ℕ → Bool × Files → Extracted × Files
make_directory total (false, fs) = (broken, fs)
make_directory total (true, fs) = (extracted total, fs)

-- The body of the loop over the entries: the parts of a name, joined to the output directory, are the
-- path that the name without its last slashes spells.
unfoldable pub extract_entry : ℕ → Entry → ℕ → Files → Extracted × Files
extract_entry maximum e total fs =
    let name = rstrip e.filename in
    if is_dir e
    then make_directory total (make_directories (parents (split name) ++ name ∷ []) fs)
    else make_file maximum e name total (make_directories (parents (split name)) fs)

-- The loop over the entries.
unfoldable pub extract_entries : ℕ → List Entry → Extracted × Files → Extracted × Files
extract_entries maximum es (exceeded, fs) = (exceeded, fs)
extract_entries maximum es (broken, fs) = (broken, fs)
extract_entries maximum [] (extracted total, fs) = (extracted total, fs)
extract_entries maximum (e ∷ es) (extracted total, fs) =
    extract_entries maximum es (extract_entry maximum e total fs)
