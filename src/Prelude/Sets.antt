-- ===== src/Prelude/Sets.antt =====
-- Sets of texts, as lists without repetitions.
use Prim.Native.Nat.{ℕ, ◌+◌, Ordering}
use Prim.Native.String.{String, compare}
use mathlib.Core.Path.{◌≡◌, refl}
use mathlib.Core.Bool.{Bool, true, false}
use mathlib.Core.List.{List, [], ◌∷◌}
use native.Mathlib.Omega.{arith}
use text.Mathlib.Text.{◌==◌ as str_eq}
use text.Mathlib.TextEquality.{eq_iff}
use reana_server.Prelude.Tests.{if◌then◌else◌}
use reana_server.Prelude.Lists.{contains}

abbrev pub one_if : Bool → ℕ
one_if true = 1
one_if false = 0

-- How often a text stands in a list.
unfoldable pub count : String → List String → ℕ
count path [] = 0
count path (p ∷ paths) = one_if (str_eq p path) + count path paths

-- `set(keys)`
abbrev pub to_set : List String → List String
to_set [] = []
to_set (key ∷ keys) = let others = to_set keys in if contains keys key then others else key ∷ others

-- texts are ordered by their code points
abbrev insort : String → List String → List String
insort key [] = key ∷ []
insort key (k ∷ keys) =
    let later = insort key keys in
    elim (compare key k) [ Ordering.gt ↦ k ∷ later | _ ↦ key ∷ k ∷ keys ]

abbrev sorted : List String → List String
sorted [] = []
sorted (key ∷ keys) = insort key (sorted keys)

-- `sorted(set(keys))`
unfoldable pub sorted_set : List String → List String
sorted_set keys = sorted (to_set keys)

count-to_set : (p : String) (keys : List String) → count p (to_set keys) ≡ one_if (contains keys p)
unfolding count
count-to_set p [] = refl
count-to_set p (key ∷ keys) = ground (arith, count-to_set p keys, eq_iff key p)

count-insort :
    (p key : String) (keys : List String)
    → count p (insort key keys) ≡ one_if (str_eq key p) + count p keys
unfolding count
count-insort p key [] = refl
count-insort p key (k ∷ keys) = ground (arith, count-insort p key keys)

count-sorted : (p : String) (keys : List String) → count p (sorted keys) ≡ count p keys
unfolding count
count-sorted p [] = refl
count-sorted p (key ∷ keys) = omega (arith, count-insort p key (sorted keys), count-sorted p keys)

pub count-sorted_set :
    (p : String) (keys : List String) → count p (sorted_set keys) ≡ one_if (contains keys p)
unfolding sorted_set
count-sorted_set p keys = omega (arith, count-sorted p (to_set keys), count-to_set p keys)
