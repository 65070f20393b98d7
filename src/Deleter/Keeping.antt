-- ===== src/Deleter/Keeping.antt =====
-- reana_server/deleter.py: what is to be kept is kept.
use reana_server.Prelude.{
  ℕ, zero, suc, String, ◌≡◌, refl, sym, ◌∙◌, ◌≢◌, inl, inr, true, false, List, [], ◌∷◌, arith,
  Bool-cases,
}
use reana_server.Deleter.Paths.{FilePath, path_of}
use reana_server.Deleter.{
  InOrOut, Specification, is_input_output_check, is_preserved, Workspace, Reply-cases, End, each,
  delete_files, entries,
}

is_preserved-path_of :
    (spec : Specification) (which : InOrOut) (p q : String)
    → path_of p ≡ path_of q
    → is_preserved spec which p ≡ is_preserved spec which q
unfolding is_preserved is_input_output_check
is_preserved-path_of spec which p q e = rw e refl

module _ (w : Workspace) (spec : Specification) (which : InOrOut) (x : FilePath) where
  open w use {State, present, is_directory, iterdir, delete, present-delete}

  -- A step that does not touch the path.
  abbrev Leaves : (String → State → End × State) → Type 0
  Leaves f = (p : String) (s : State) → present x (f p s).1 ≡ present x s

  each-Leaves :
      (f : String → State → End × State)
      → Leaves f
      → (ps : List String) (s : State) → present x (each f ps s).1 ≡ present x s
  each-Leaves f h [] s = refl
  each-Leaves f h (p ∷ ps) s = ground (arith, h p s, each-Leaves f h ps (f p s).1)

  entries-Leaves :
      (f : String → State → End × State) (p : String) (s : State)
      → Leaves f
      → present x (entries w spec which f (is_directory p s) p s).1 ≡ present x s
  entries-Leaves f p s h = elim (Reply-cases (is_directory p s)) [
    | inr (e, bad) ↦ rw bad refl
    | inl (false, plain) ↦ rw plain refl
    | inl (true, directory) ↦ elim (Reply-cases (iterdir p s)) [
      | inr (e, bad) ↦ rw directory (rw bad refl)
      | inl (ps, found) ↦ rw directory (rw found (each-Leaves f h ps s))
    ]
  ]

  -- A file or directory that is to be kept stays: a call of `delete_files`, on whatever path and
  -- however it ends, leaves every path that is an input or output to be kept as present as it was.
  pub delete_files-keeps :
      (depth : ℕ) (p q : String) (s : State)
      → is_preserved spec which q ≡ true
      → path_of q ≡ x
      → present x (delete_files w spec which depth p s).1 ≡ present x s
  unfolding delete_files
  delete_files-keeps zero p q s h e = refl
  delete_files-keeps (suc depth) p q s h e = elim (Bool-cases (is_preserved spec which p)) [
    | inl kept ↦ rw kept refl
    | inr lost ↦
        let other : path_of p ≢ x =
          λ same. ground (arith, h, lost, is_preserved-path_of spec which p q (same ∙ sym e)) in
        let below = entries w spec which (delete_files w spec which depth) (is_directory p s) p s in
        rw lost (
          ground (
            arith,
            entries-Leaves (delete_files w spec which depth) p s
                (λ r t. delete_files-keeps depth r q t h e),
            present-delete p x below.1 other,
          ))
  ]
