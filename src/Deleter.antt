-- ===== src/Deleter.antt =====
-- reana_server/deleter.py: the files of a workspace are deleted, inputs and outputs kept. The
-- workspace is that of reana-commons, an interface; a call of it may raise an OSError.
pub mod Paths
pub mod Keeping
pub mod Ending
mod Tests
use reana_server.Prelude.{
  ℕ, zero, suc, String, ◌≡◌, refl, ◌≢◌, ◌⊎◌, inl, inr, Bool, true, false, ◌&&◌, ◌||◌, if◌then◌else◌,
  List, [], ◌∷◌,
}
use reana_server.Deleter.Paths.{FilePath, path_of, is_relative_to, same_path}

-- `InOrOut`
pub data InOrOut : Type 0 where
  inputs outputs inputs_outputs nothing : InOrOut

-- The `files` and `directories` of the inputs and of the outputs of a specification.
pub record Specification : Type 0 where
  pub input_files : List String
  pub input_directories : List String
  pub output_files : List String
  pub output_directories : List String

abbrev any_file : FilePath → List String → Bool
any_file p [] = false
any_file p (file ∷ files) = same_path p (path_of file) || any_file p files

abbrev any_directory : FilePath → List String → Bool
any_directory p [] = false
any_directory p (directory ∷ directories) =
    is_relative_to p (path_of directory) || any_directory p directories

abbrev among : FilePath → List String → List String → Bool
among p files directories = any_file p files || any_directory p directories

-- `is_input_output_check`
unfoldable pub is_input_output_check : Specification → InOrOut → String → Bool
is_input_output_check spec nothing file = false
is_input_output_check spec inputs file =
    among (path_of file) spec.input_files spec.input_directories
is_input_output_check spec outputs file =
    among (path_of file) spec.output_files spec.output_directories
is_input_output_check spec inputs_outputs file =
    among (path_of file) spec.input_files spec.input_directories
    || among (path_of file) spec.output_files spec.output_directories

abbrev keeps_inputs : InOrOut → Bool
keeps_inputs inputs = true
keeps_inputs inputs_outputs = true
keeps_inputs _ = false

abbrev keeps_outputs : InOrOut → Bool
keeps_outputs outputs = true
keeps_outputs inputs_outputs = true
keeps_outputs _ = false

-- The two early returns of `delete_files`, with `is_input` and `is_output`.
unfoldable pub is_preserved : Specification → InOrOut → String → Bool
is_preserved spec which file =
    (keeps_inputs which && is_input_output_check spec inputs file)
    || (keeps_outputs which && is_input_output_check spec outputs file)

-- The classes of OSError that are told apart: NotADirectoryError, FileNotFoundError, ENOTEMPTY.
pub data Fault : Type 0 where
  not_a_directory file_not_found not_empty other_error : Fault

pub data Reply {ℓ} (A : Type ℓ) : Type ℓ where
  value : A → Reply A
  raised : Fault → Reply A

pub Reply-cases {ℓ} :
    {A : Type ℓ} (r : Reply A) → ((a : A) × (r ≡ value a)) ⊎ ((e : Fault) × (r ≡ raised e))
Reply-cases (value a) = inl (a, refl)
Reply-cases (raised e) = inr (e, refl)

-- A deletion of one file or empty directory touches no other path, and looking touches none.
pub record Workspace : Type 1 where
  pub State : Type 0
  pub present : FilePath → State → Bool
  pub is_directory : String → State → Reply Bool
  pub iterdir : String → State → Reply (List String)
  pub delete : String → State → Reply (Unit {0}) × State
  pub present-delete :
      (p : String) (x : FilePath) (s : State)
      → path_of p ≢ x
      → present x (delete p s).1 ≡ present x s

-- How `delete_files` ends; `too_deep` is the recursion limit of Python.
pub data End : Type 0 where
  done too_deep : End
  failed : Fault → End

-- The loop over the entries of a directory ends with the first that fails.
abbrev pub each {ℓ} : {S : Type ℓ} → (String → S → End × S) → List String → S → End × S
each f [] s = (done, s)
each f (p ∷ ps) s = let later = each f ps in after_one later (f p s)
  where
    after_one : {S : Type ℓ} → (S → End × S) → End × S → End × S
    after_one later (done, s) = later s
    after_one later (too_deep, s) = (too_deep, s)
    after_one later (failed e, s) = (failed e, s)

module _ (w : Workspace) (spec : Specification) (which : InOrOut) where
  open w use {State, is_directory, iterdir, delete}

  abbrev listed : (String → State → End × State) → Reply (List String) → State → End × State
  listed f (value paths) s = each f paths s
  listed f (raised e) s = (failed e, s)

  -- The body of the first `try`.
  abbrev entries : (String → State → End × State) → Reply Bool → String → State → End × State
  entries f (value true) p s = listed f (iterdir p s) s
  entries f (value false) p s = (done, s)
  entries f (raised e) p s = (failed e, s)

  -- The second `try`.
  abbrev ended : Reply (Unit {0}) × State → End × State
  ended (value _, s) = (done, s)
  ended (raised file_not_found, s) = (done, s)
  ended (raised not_empty, s) = (done, s)
  ended (raised not_a_directory, s) = (failed not_a_directory, s)
  ended (raised other_error, s) = (failed other_error, s)

  -- What follows the first `try`, whose `except` takes two classes.
  abbrev after_entries : String → End × State → End × State
  after_entries p (done, s) = ended (delete p s)
  after_entries p (too_deep, s) = (too_deep, s)
  after_entries p (failed not_a_directory, s) = ended (delete p s)
  after_entries p (failed file_not_found, s) = ended (delete p s)
  after_entries p (failed not_empty, s) = (failed not_empty, s)
  after_entries p (failed other_error, s) = (failed other_error, s)

  -- `delete_files`, down to a depth of nested calls
  unfoldable pub delete_files : ℕ → String → State → End × State
  delete_files zero p s = (too_deep, s)
  delete_files (suc depth) p s =
      let below = entries (delete_files depth) (is_directory p s) p s in
      if is_preserved spec which p then (done, s) else after_entries p below
