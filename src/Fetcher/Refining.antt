-- ===== src/Fetcher/Refining.antt =====
-- reana_server/fetcher.py: the extraction of a validated archive gives what the archive lists.
use mathlib.Core.List.{append_assoc, append-nil}
use reana_server.Prelude.{
  contains-append, ℕ, ◌+◌, ◌≤◌, String, ◌≡◌, refl, sym, subst, ap, ◌∙◌, true, false, ◌||◌,
  if◌then◌else◌, str_eq, List, [], ◌∷◌, ◌++◌, contains, All, All-append, arith, eq_iff, eq_refl,
  Bool-cases, inl, inr, none, is_some, Dict, lookup, insert, lookup-insert,
}
use reana_server.Fetcher.{Entry, split, is_dir, parents}
use reana_server.Fetcher.Validating.{Limits, Seen, passed, any_in, validate_archive_entries}
use reana_server.Fetcher.Accepted.{name_of, names_of, IsSound, validate-IsSound}
use reana_server.Fetcher.Extracting.{
  Files, extracted, make_directories, write_chunks, extract_entry, extract_entries,
}

abbrev pub total_of : List ℕ → ℕ
total_of [] = 0
total_of (n ∷ ns) = n + total_of ns

-- What an archive lists: its files, with the sizes of their contents.
abbrev pub listing : List Entry → Dict ℕ
listing [] = []
listing (e ∷ es) =
    let later = listing es in if is_dir e then later else (name_of e, total_of e.chunks) ∷ later

-- The size of all contents.
abbrev pub content_size : List Entry → ℕ
content_size [] = 0
content_size (e ∷ es) =
    let later = content_size es in if is_dir e then later else total_of e.chunks + later

-- Every file can be read to its end.
abbrev pub IsReadable : Entry → Type 0
IsReadable e = e.is_whole ≡ true

write_chunks-whole :
    (maximum : ℕ) (chunks : List ℕ) (total size : ℕ)
    → total + total_of chunks ≤ maximum
    → write_chunks maximum true chunks total size
      ≡ (extracted (total + total_of chunks), size + total_of chunks)
unfolding write_chunks
write_chunks-whole maximum [] total size h = ground arith
write_chunks-whole maximum (n ∷ chunks) total size h =
    ground (arith, h, write_chunks-whole maximum chunks (total + n) (size + n))

insert-fresh :
    (key : String) (size : ℕ) (files : Dict ℕ)
    → lookup key files ≡ none
    → insert key size files ≡ files ++ (key, size) ∷ []
unfolding lookup insert
insert-fresh key size [] h = refl
insert-fresh key size ((name, old) ∷ files) h = ground (arith, h, insert-fresh key size files)

abbrev file_names_of : List Entry → List String
file_names_of [] = []
file_names_of (e ∷ es) =
    let later = file_names_of es in if is_dir e then later else name_of e ∷ later

later-file :
    (e : Entry) (es : List Entry) (n : String)
    → contains (file_names_of es) n ≡ true
    → contains (file_names_of (e ∷ es)) n ≡ true
later-file e es n h = elim (Bool-cases (is_dir e)) [
  | inl d ↦ rw d h
  | inr f ↦ rw f (ground (arith, h))
]

first-file :
    (e : Entry) (es : List Entry)
    → is_dir e ≡ false
    → contains (file_names_of (e ∷ es)) (name_of e) ≡ true
first-file e es f = rw f (ground (arith, eq_refl (name_of e)))

file-named :
    (es : List Entry) (n : String)
    → contains (file_names_of es) n ≡ true
    → contains (names_of es) n ≡ true
file-named [] n h = h
file-named (e ∷ es) n h = elim (Bool-cases (is_dir e)) [
  | inl d ↦ ground (arith, h, d, file-named es n)
  | inr f ↦ ground (arith, h, f, file-named es n)
]

file-known :
    (files : List String) (es : List Entry) (n : String)
    → IsSound files es
    → contains (file_names_of es) n ≡ true
    → contains files n ≡ true
file-known files [] n s h = ground (arith, h)
file-known files (e ∷ es) n (new, flat, own, s) h = elim (Bool-cases (is_dir e)) [
  | inl d ↦ ground (arith, h, d, file-known files es n s)
  | inr f ↦ elim (Bool-cases (str_eq (name_of e) n)) [
    | inl here ↦
        let same : name_of e ≡ n = ground (arith, here, eq_iff (name_of e) n) in
        subst (λ t. contains files t ≡ true) same (own f)
    | inr later ↦ ground (arith, h, f, later, file-known files es n s)
  ]
]

any_in-apart :
    (ps files : List String) (n : String)
    → any_in ps files ≡ false
    → contains files n ≡ true
    → contains ps n ≡ false
any_in-apart [] files n h c = refl
any_in-apart (p ∷ ps) files n h c = ground (arith, h, c, any_in-apart ps files n, eq_iff p n)

-- The files of the tree that is extracted do not stand in the way of the entries to come.
record IsClear (files : List String) (es : List Entry) (fs : Files) : Type 0 where
  known : (n : String) → is_some (lookup n fs.files) ≡ true → contains files n ≡ true
  fresh : (n : String) → contains (names_of es) n ≡ true → lookup n fs.files ≡ none
  apart : (n : String) → contains (file_names_of es) n ≡ true → contains fs.directories n ≡ false

abbrev Free : Files → String → Type 0
Free fs n = lookup n fs.files ≡ none

Free-parents :
    (files ps : List String) (fs : Files)
    → any_in ps files ≡ false
    → ((n : String) → is_some (lookup n fs.files) ≡ true → contains files n ≡ true)
    → All (Free fs) ps
Free-parents files [] fs h k = tt
Free-parents files (p ∷ ps) fs h k =
    (ground (arith, h, k p), Free-parents files ps fs (ground (arith, h)) k)

-- The directories of a path are made when no file is in the way.
abbrev Made : List String → Files → Type 0
Made ps fs =
    (dirs : List String) × (make_directories ps fs
      ≡ (true, record { files = fs.files; directories = dirs }))
    × ((n : String) → contains dirs n ≡ (contains ps n || contains fs.directories n))

make_directories-Made : (ps : List String) (fs : Files) → All (Free fs) ps → Made ps fs
unfolding make_directories
make_directories-Made [] fs h = (fs.directories, refl, λ n. refl)
make_directories-Made (p ∷ ps) fs (f, h) =
    let (dirs, made, inside) =
      make_directories-Made ps record { files = fs.files; directories = p ∷ fs.directories } h in
    (dirs, rw f made, λ n. ground (arith, inside n))

abbrev own_listing : Entry → Dict ℕ
own_listing e = if is_dir e then [] else (name_of e, total_of e.chunks) ∷ []

abbrev own_size : Entry → ℕ
own_size e = if is_dir e then 0 else total_of e.chunks

module _ (files : List String) (e : Entry) (es : List Entry) (sound : IsSound files (e ∷ es))
    (fs : Files) (clear : IsClear files (e ∷ es) fs) (maximum total : ℕ) where
  abbrev Step : Type 0
  Step =
      (after : Files) × (extract_entry maximum e total fs ≡ (extracted (total + own_size e), after))
      × (after.files ≡ fs.files ++ own_listing e)
      × IsClear files es after

  directory-Step : is_dir e ≡ true → Step
  unfolding extract_entry
  directory-Step d =
      let name = name_of e in
      let ps = parents (split name) in
      let here : contains (names_of (e ∷ es)) name ≡ true = ground (arith, eq_refl name) in
      let (dirs, made, inside) = make_directories-Made (ps ++ name ∷ []) fs (
        All-append (Free fs) ps (name ∷ []) (Free-parents files ps fs sound.1 clear.known)
          (clear.fresh name here, tt)) in
      (
        record { files = fs.files; directories = dirs },
        rw d (
            rw made (
              ap (λ n. (extracted n, record { files = fs.files; directories = dirs }))
                (omega arith))),
        rw d (sym (append-nil fs.files)),
        record {
          known = clear.known;
          fresh = λ n h. clear.fresh n (ground (arith, h));
          apart = λ n h. ground (
            arith,
            inside n,
            contains-append ps (name ∷ []) n,
            clear.apart n (later-file e es n h),
            any_in-apart ps files n sound.1 (file-known files es n sound.3 h),
            file-named es n h,
            sound.0,
            eq_iff name n,
          );
        },
      )

  file-Step : is_dir e ≡ false → e.is_whole ≡ true → total + total_of e.chunks ≤ maximum → Step
  unfolding extract_entry
  file-Step f whole fits =
      let name = name_of e in
      let ps = parents (split name) in
      let size = total_of e.chunks in
      let here : contains (names_of (e ∷ es)) name ≡ true = ground (arith, eq_refl name) in
      let (dirs, made, inside) =
        make_directories-Made ps fs (Free-parents files ps fs sound.1 clear.known) in
      let absent = clear.fresh name here in
      let no_dir : contains dirs name ≡ false = ground (
        arith,
        inside name,
        any_in-apart ps files name,
        sound.1,
        sound.2,
        f,
        clear.apart name,
        first-file e es f,
      ) in
      (
        record { files = insert name size fs.files; directories = dirs },
        rw f (
            rw made (
              rw no_dir (
                rw absent rw whole (
                  rw (write_chunks-whole maximum e.chunks total 0 fits) (
                    ap
                      (λ z. (
                        extracted (total + size),
                        record { files = insert name z fs.files; directories = dirs },
                      ))
                      (omega arith)))))),
        rw f (insert-fresh name size fs.files absent),
        record {
          known = λ n h. ground (
            arith,
            h,
            lookup-insert name n size fs.files,
            clear.known n,
            sound.2 f,
            eq_iff name n,
          );
          fresh = λ n h.
              ground (
                arith,
                h,
                lookup-insert name n size fs.files,
                clear.fresh n,
                sound.0,
                eq_iff name n,
              );
          apart = λ n h. ground (
            arith,
            inside n,
            clear.apart n (later-file e es n h),
            any_in-apart ps files n sound.1 (file-known files es n sound.3 h),
          );
        },
      )

listing-cons : (e : Entry) (es : List Entry) → listing (e ∷ es) ≡ own_listing e ++ listing es
listing-cons e es = elim (Bool-cases (is_dir e)) [ inl d ↦ rw d refl | inr f ↦ rw f refl ]

size-cons : (e : Entry) (es : List Entry) → content_size (e ∷ es) ≡ own_size e + content_size es
size-cons e es = elim (Bool-cases (is_dir e)) [ inl d ↦ rw d (omega arith) | inr f ↦ rw f refl ]

entry-Step :
    (files : List String) (e : Entry) (es : List Entry) (sound : IsSound files (e ∷ es))
    (fs : Files) (clear : IsClear files (e ∷ es) fs) (maximum total : ℕ)
    → e.is_whole ≡ true
    → total + own_size e ≤ maximum
    → Step files e es sound fs clear maximum total
entry-Step files e es sound fs clear maximum total whole fits = elim (Bool-cases (is_dir e)) [
  | inl d ↦ directory-Step files e es sound fs clear maximum total d
  | inr f ↦
      file-Step files e es sound fs clear maximum total f whole
        (subst (λ b. total + (if b then 0 else total_of e.chunks) ≤ maximum) f fits)
]

extract_entries-listing :
    (files : List String) (es : List Entry) (fs : Files) (maximum total : ℕ)
    → IsSound files es
    → IsClear files es fs
    → All IsReadable es
    → total + content_size es ≤ maximum
    → (after : Files) × (extract_entries maximum es (extracted total, fs)
        ≡ (extracted (total + content_size es), after))
      × (after.files ≡ fs.files ++ listing es)
unfolding extract_entries
extract_entries-listing files [] fs maximum total sound clear whole fits =
    (fs, ap (λ n. (extracted n, fs)) (omega arith), sym (append-nil fs.files))
extract_entries-listing files (e ∷ es) fs maximum total sound clear (w, whole) fits =
    let (mid, done, listed, next) =
      entry-Step files e es sound fs clear maximum total w (omega (arith, fits, size-cons e es)) in
    let (after, ended, all) =
      extract_entries-listing files es mid maximum (total + own_size e) sound.3 next whole
        (omega (arith, fits, size-cons e es)) in
    (
      after,
      ap (extract_entries maximum es) done
          ∙ ended
          ∙ ap (λ n. (extracted n, after)) (omega (arith, size-cons e es)),
      all
          ∙ ap (λ l. l ++ listing es) listed
          ∙ append_assoc fs.files (own_listing e) (listing es)
          ∙ ap (λ l. fs.files ++ l) (sym (listing-cons e es)),
    )

-- The output directory is empty at first.
abbrev pub nothing_there : Files
nothing_there = record { files = []; directories = [] }

nothing_there-IsClear : {files : List String} {es : List Entry} → IsClear files es nothing_there
unfolding lookup
nothing_there-IsClear = record {
  known = λ n h. ground (arith, h);
  fresh = λ n h. refl;
  apart = λ n h. refl;
}

-- Extraction refines the listing of the archive: if the validation accepts an archive, every entry can
-- be read to its end, and the contents of its files are not larger in total than the limit, then the
-- extraction into an empty directory ends without an error, and leaves exactly the files that the archive lists, with
-- the sizes of their contents.
pub extract_entries-refines :
    (limits : Limits) (es : List Entry) (s : Seen)
    → validate_archive_entries limits es ≡ passed s
    → All IsReadable es
    → content_size es ≤ limits.maximum_extracted_size
    → (after : Files) × (extract_entries limits.maximum_extracted_size es
          (extracted 0, nothing_there)
        ≡ (extracted (content_size es), after))
      × (after.files ≡ listing es)
extract_entries-refines limits es s valid whole fits =
    let (after, ended, all) =
      extract_entries-listing s.file_names es nothing_there limits.maximum_extracted_size 0
        (validate-IsSound limits es s valid) nothing_there-IsClear whole (omega (arith, fits)) in
    (after, ended ∙ ap (λ n. (extracted n, after)) (omega arith), all)
