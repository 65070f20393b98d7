-- ===== src/Locks/Keys.antt =====
-- reana_server/workspace_mutations.py: the keys that a mutation locks.
use Prim.Native.String.{◌++◌ as append}
use reana_server.Prelude.{sorted_set, String, List, [], ◌∷◌, map}

-- A mutation of workspaces, of a workflow's family of runs, or of both at a creation.
pub data Call : Type 0 where
  -- `workspace_mutation_locks`, and `workspace_mutation_lock` with one path
  workspaces : List String → Call
  -- `workflow_family_mutation_lock`
  family : (owner name : String) → Call
  -- `workflow_creation_mutation_lock`
  creation : (owner name path : String) → Call

-- `abspath` is os.path.abspath, and `hexdigest` is the SHA-256 of a text in hexadecimal.
module _ (abspath hexdigest : String → String) where
  -- `_normalise_paths`
  unfoldable pub normalise_paths : List String → List String
  normalise_paths paths = sorted_set (map abspath paths)

  -- `_workflow_family_key`
  unfoldable pub workflow_family_key : String → String → String
  workflow_family_key owner name =
      append "workflow-family:" (hexdigest (append owner (append "\0" name)))

  -- The keys given to `_mutation_locks`.
  unfoldable pub keys_of : Call → List String
  keys_of (workspaces paths) = normalise_paths paths
  keys_of (family owner name) = workflow_family_key owner name ∷ []
  keys_of (creation owner name path) = workflow_family_key owner name ∷ abspath path ∷ []
