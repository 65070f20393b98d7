-- ===== src/Deleter/Ending.antt =====
-- reana_server/deleter.py: the recursion ends.
use reana_server.Prelude.{
  ℕ, zero, suc, String, ◌≡◌, ◌≢◌, ◌<◌, inl, inr, true, false, List, [], ◌∷◌, arith, Bool-cases, All,
}
use reana_server.Deleter.{
  InOrOut, Specification, is_preserved, Workspace, Reply-cases, value, End, too_deep, each,
  delete_files, entries,
}

module _ (w : Workspace) (spec : Specification) (which : InOrOut) (height : String → ℕ) where
  open w use {State, is_directory, iterdir, delete}

  -- What a directory lists is less high than the directory: no directory contains itself.
  abbrev pub IsNested : Type 0
  IsNested =
      (p : String) (s : State) (ps : List String)
      → iterdir p s ≡ value ps
      → All (λ c. height c < height p) ps

  each-ends :
      (f : String → State → End × State) (bound : ℕ)
      → ((p : String) (s : State) → height p < bound → (f p s).0 ≢ too_deep)
      → (ps : List String) (s : State) → All (λ c. height c < bound) ps
      → (each f ps s).0 ≢ too_deep
  each-ends f bound h [] s a = ground arith
  each-ends f bound h (p ∷ ps) s a = ground (arith, h p s a.0, each-ends f bound h ps (f p s).1 a.1)

  entries-ends :
      (f : String → State → End × State) (p : String) (s : State)
      → IsNested
      → ((c : String) (t : State) → height c < height p → (f c t).0 ≢ too_deep)
      → (entries w spec which f (is_directory p s) p s).0 ≢ too_deep
  entries-ends f p s nested h = elim (Reply-cases (is_directory p s)) [
    | inr (e, bad) ↦ rw bad (ground arith)
    | inl (false, plain) ↦ rw plain (ground arith)
    | inl (true, directory) ↦ elim (Reply-cases (iterdir p s)) [
      | inr (e, bad) ↦ rw directory (rw bad (ground arith))
      | inl (ps, found) ↦
          rw directory (rw found (each-ends f (height p) h ps s (nested p s ps found)))
    ]
  ]

  -- `delete_files` ends without the limit on nested calls being met, if that limit is above the
  -- height of the path, and what a directory lists is of less height than the directory, whatever
  -- else the workspace answers.
  pub delete_files-ends :
      (depth : ℕ) (p : String) (s : State)
      → IsNested
      → height p < depth
      → (delete_files w spec which depth p s).0 ≢ too_deep
  unfolding delete_files
  delete_files-ends zero p s nested h = absurd (omega (arith, h))
  delete_files-ends (suc depth) p s nested h =
      let f = delete_files w spec which depth in
      let below =
        entries-ends f p s nested
          (λ c t smaller. delete_files-ends depth c t nested (omega (arith, h, smaller))) in
      elim (Bool-cases (is_preserved spec which p)) [
        | inl kept ↦ rw kept (ground arith)
        | inr lost ↦ rw lost (ground (arith, below))
      ]
