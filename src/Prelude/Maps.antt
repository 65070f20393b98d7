-- ===== src/Prelude/Maps.antt =====
-- Dictionaries keyed by text, as association lists.
use Prim.Native.String.{String}
use Prim.Native.Nat.{◌+◌, ◌≤◌}
use mathlib.Core.Path.{◌≡◌, refl}
use mathlib.Core.Logic.{◌≢◌}
use mathlib.Core.Option.{Option, none, some}
use mathlib.Core.List.{List, [], ◌∷◌}
use native.Mathlib.Omega.{arith}
use text.Mathlib.Text.{◌==◌}
use text.Mathlib.TextEquality.{eq_iff}
use reana_server.Prelude.Lists.{length}
use reana_server.Prelude.Tests.{if◌then◌else◌}

-- A `dict` keyed by text. The last write of a key decides, whatever the order of the entries.
abbrev pub Dict {ℓ} : Type ℓ → Type ℓ
Dict V = List (String × V)

module _ {ℓ} {V : Type ℓ} where
  -- `entries.get(key)`
  unfoldable pub lookup : String → Dict V → Option V
  lookup key [] = none
  lookup key ((name, value) ∷ entries) = if name == key then some value else lookup key entries

  -- `entries.pop(key, None)`
  unfoldable pub erase : String → Dict V → Dict V
  erase key [] = []
  erase key ((name, value) ∷ entries) =
      let others = erase key entries in if name == key then others else (name, value) ∷ others

  -- `entries[key] = value`: a known key keeps its place, and a new one goes to the end
  unfoldable pub insert : String → V → Dict V → Dict V
  insert key value [] = (key, value) ∷ []
  insert key value ((name, old) ∷ entries) =
      let later = insert key value entries in
      if name == key then (name, value) ∷ entries else (name, old) ∷ later

  pub lookup-erase :
      (key other : String) (entries : Dict V)
      → lookup other (erase key entries) ≡ (if key == other then none else lookup other entries)
  unfolding lookup erase
  lookup-erase key other [] = ground arith
  lookup-erase key other ((name, value) ∷ entries) =
      ground (
        arith,
        lookup-erase key other entries,
        eq_iff name key,
        eq_iff name other,
        eq_iff key other,
      )

  pub lookup-insert :
      (key other : String) (value : V) (entries : Dict V)
      → lookup other (insert key value entries)
        ≡ (if key == other then some value else lookup other entries)
  unfolding lookup insert
  lookup-insert key other value [] = refl
  lookup-insert key other value ((name, old) ∷ entries) = ground (
    arith,
    lookup-insert key other value entries,
    eq_iff name key,
    eq_iff name other,
    eq_iff key other,
  )

  pub length-insert :
      (key : String) (value : V) (entries : Dict V)
      → length (insert key value entries) ≤ length entries + 1
  unfolding insert
  length-insert key value [] = omega arith
  length-insert key value ((name, old) ∷ entries) = ground (arith, length-insert key value entries)

  length-erase-le : (key : String) (entries : Dict V) → length (erase key entries) ≤ length entries
  unfolding erase
  length-erase-le key [] = omega arith
  length-erase-le key ((name, value) ∷ entries) = ground (arith, length-erase-le key entries)

  pub length-erase :
      (key : String) (entries : Dict V)
      → lookup key entries ≢ none
      → length (erase key entries) + 1 ≤ length entries
  unfolding lookup erase
  length-erase key [] h = absurd (h refl)
  length-erase key ((name, value) ∷ entries) h =
      ground (arith, length-erase key entries, length-erase-le key entries)
