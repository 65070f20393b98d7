-- ===== src/Fetcher/Written.antt =====
-- reana_server/fetcher.py: how much an extraction writes, whatever the archive says and holds.
use reana_server.Prelude.{
  ℕ, ◌+◌, ◌≤◌, String, ◌≡◌, refl, sym, subst, Bool, true, false, ◌||◌, if◌then◌else◌, List, [], ◌∷◌,
  ◌++◌, ltb, contains, arith, Bool-cases, inl, inr, is_some, Dict, lookup, insert, erase,
}
use reana_server.Fetcher.{Entry, split, rstrip, is_dir, parents}
use reana_server.Fetcher.Extracting.{
  Files, Extracted, extracted, exceeded, broken, make_directories, write_chunks, finished,
  make_file, make_directory, extract_entry, extract_entries,
}
use reana_server.Fetcher.Refining.{nothing_there}

abbrev pub sizes : Dict ℕ → ℕ
sizes [] = 0
sizes ((name, size) ∷ files) = size + sizes files

sizes-insert :
    (name : String) (size : ℕ) (files : Dict ℕ)
    → sizes (insert name size files) ≤ sizes files + size
unfolding insert
sizes-insert name size [] = omega arith
sizes-insert name size ((n, old) ∷ files) = ground (arith, sizes-insert name size files)

sizes-erase : (name : String) (files : Dict ℕ) → sizes (erase name files) ≤ sizes files
unfolding erase
sizes-erase name [] = omega arith
sizes-erase name ((n, old) ∷ files) = ground (arith, sizes-erase name files)

make_directories-files :
    (ps : List String) (fs : Files) → (make_directories ps fs).1.files ≡ fs.files
unfolding make_directories
make_directories-files [] fs = refl
make_directories-files (p ∷ ps) fs =
    ground (
      arith,
      make_directories-files ps record { files = fs.files; directories = p ∷ fs.directories },
    )

-- The sizes are within what was extracted, and that is within the maximum.
abbrev Within : ℕ → Extracted × Files → Type 0
Within maximum (extracted total, fs) = (sizes fs.files ≤ total) × (total ≤ maximum)
Within maximum (exceeded, fs) = sizes fs.files ≤ maximum
Within maximum (broken, fs) = sizes fs.files ≤ maximum

abbrev Counted : ℕ → ℕ → ℕ → Extracted × ℕ → Type 0
Counted maximum total size (extracted t, s) = (s + total ≡ size + t) × (t ≤ maximum)
Counted maximum total size (exceeded, s) = Unit
Counted maximum total size (broken, s) = Unit

Counted-if :
    (b : Bool) (maximum total size : ℕ) (x y : Extracted × ℕ)
    → Counted maximum total size x
    → Counted maximum total size y
    → Counted maximum total size (if b then x else y)
Counted-if true maximum total size x y h k = h
Counted-if false maximum total size x y h k = k

Counted-later :
    (maximum total size n : ℕ) (x : Extracted × ℕ)
    → Counted maximum (total + n) (size + n) x
    → Counted maximum total size x
Counted-later maximum total size n (extracted t, s) h = (omega (arith, h.0), h.1)
Counted-later maximum total size n (exceeded, s) h = tt
Counted-later maximum total size n (broken, s) h = tt

write_chunks-Counted :
    (maximum : ℕ) (whole : Bool) (chunks : List ℕ) (total size : ℕ)
    → total ≤ maximum
    → Counted maximum total size (write_chunks maximum whole chunks total size)
unfolding write_chunks
write_chunks-Counted maximum true [] total size h = (omega arith, h)
write_chunks-Counted maximum false [] total size h = tt
write_chunks-Counted maximum whole (n ∷ chunks) total size h =
    elim (Bool-cases (ltb maximum (total + n))) [
      | inl over ↦ rw over tt
      | inr fits ↦ rw fits (
          Counted-later maximum total size n _ (
            write_chunks-Counted maximum whole chunks (total + n) (size + n)
              (ground (arith, fits))))
    ]

finished-Within :
    (maximum total : ℕ) (name : String) (x : Extracted × ℕ) (fs : Files)
    → sizes fs.files ≤ total
    → total ≤ maximum
    → Counted maximum total 0 x
    → Within maximum (finished name x fs)
finished-Within maximum total name (extracted t, s) fs h k c =
    (omega (arith, h, c.0, sizes-insert name s fs.files), c.1)
finished-Within maximum total name (exceeded, s) fs h k c = omega (arith, h, k)
finished-Within maximum total name (broken, s) fs h k c = omega (arith, h, k)

make_file-Within :
    (maximum : ℕ) (e : Entry) (name : String) (total : ℕ) (made : Bool × Files)
    → sizes made.1.files ≤ total
    → total ≤ maximum
    → Within maximum (make_file maximum e name total made)
make_file-Within maximum e name total (false, fs) h k = omega (arith, h, k)
make_file-Within maximum e name total (true, fs) h k =
    elim (Bool-cases (contains fs.directories name || is_some (lookup name fs.files))) [
      | inl taken ↦ rw taken (omega (arith, h, k, sizes-erase name fs.files))
      | inr free ↦ rw free (
          finished-Within maximum total name _ fs h k
            (write_chunks-Counted maximum e.is_whole e.chunks total 0 k))
    ]

make_directory-Within :
    (maximum total : ℕ) (made : Bool × Files)
    → sizes made.1.files ≤ total
    → total ≤ maximum
    → Within maximum (make_directory total made)
make_directory-Within maximum total (false, fs) h k = omega (arith, h, k)
make_directory-Within maximum total (true, fs) h k = (h, k)

extract_entry-Within :
    (maximum : ℕ) (e : Entry) (total : ℕ) (fs : Files)
    → sizes fs.files ≤ total
    → total ≤ maximum
    → Within maximum (extract_entry maximum e total fs)
unfolding extract_entry
extract_entry-Within maximum e total fs h k =
    let name = rstrip e.filename in
    let same : (ps : List String) → sizes (make_directories ps fs).1.files ≤ total =
      λ ps. subst (λ f. sizes f ≤ total) (sym (make_directories-files ps fs)) h in
    elim (Bool-cases (is_dir e)) [
      | inl d ↦ rw d (
          make_directory-Within maximum total
            (make_directories (parents (split name) ++ name ∷ []) fs) (same _) k)
      | inr f ↦ rw f (
          make_file-Within maximum e name total (make_directories (parents (split name)) fs)
            (same _) k)
    ]

extract_entries-Within :
    (maximum : ℕ) (es : List Entry) (x : Extracted × Files)
    → Within maximum x
    → Within maximum (extract_entries maximum es x)
unfolding extract_entries
extract_entries-Within maximum [] (extracted total, fs) h = h
extract_entries-Within maximum [] (exceeded, fs) h = h
extract_entries-Within maximum [] (broken, fs) h = h
extract_entries-Within maximum (e ∷ es) (extracted total, fs) h =
    extract_entries-Within maximum es _ (extract_entry-Within maximum e total fs h.0 h.1)
extract_entries-Within maximum (e ∷ es) (exceeded, fs) h = h
extract_entries-Within maximum (e ∷ es) (broken, fs) h = h

Within-maximum :
    (maximum : ℕ) (x : Extracted × Files) → Within maximum x → sizes x.1.files ≤ maximum
Within-maximum maximum (extracted total, fs) h = omega (arith, h.0, h.1)
Within-maximum maximum (exceeded, fs) h = h
Within-maximum maximum (broken, fs) h = h

-- The files of an extraction into an empty directory are never larger in total than the limit, also when
-- the archive declares other sizes than it holds, and when the extraction stops with an error.
pub extract_entries-bounded :
    (maximum : ℕ) (es : List Entry)
    → sizes (extract_entries maximum es (extracted 0, nothing_there)).1.files ≤ maximum
extract_entries-bounded maximum es =
    Within-maximum maximum (extract_entries maximum es (extracted 0, nothing_there))
      (extract_entries-Within maximum es (extracted 0, nothing_there) (omega arith, omega arith))
