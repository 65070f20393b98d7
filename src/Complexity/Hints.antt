-- ===== src/Complexity/Hints.antt =====
-- reana_server/complexity.py: the hints of a CWL step.
use reana_server.Prelude.{
  String, Option, none, some, if◌then◌else◌, List, [], ◌∷◌, Dict, lookup, insert, is_some,
}
use reana_server.Complexity.Serial.{Step}

-- A hint with the values that are texts; `none` is a value that is null. What is no object is `none`.
abbrev pub Hint : Type 0
Hint = Option (Dict (Option String))

-- `effective.setdefault(key, value)`
abbrev setdefault : Dict (Option String) → String → Option String → Dict (Option String)
setdefault effective key value =
    if is_some (lookup key effective) then effective else insert key value effective

abbrev add_items : Dict (Option String) → Dict (Option String) → Dict (Option String)
add_items effective [] = effective
add_items effective ((key, value) ∷ items) = add_items (setdefault effective key value) items

abbrev add_hint : Dict (Option String) → Hint → Dict (Option String)
add_hint effective none = effective
add_hint effective (some items) = add_items effective items

abbrev add_hints : Dict (Option String) → List Hint → Dict (Option String)
add_hints effective [] = effective
add_hints effective (hint ∷ hints) = add_hints (add_hint effective hint) hints

-- `_get_step_hints`, of the inherited hints followed by those of the step
unfoldable pub get_step_hints : List Hint → Dict (Option String)
get_step_hints hints = add_hints [] hints

abbrev pub either {ℓ} : {A : Type ℓ} → Option A → Option A → Option A
either none later = later
either (some a) later = some a

-- The value in the first hint that declares a key.
unfoldable pub first_declared : String → List Hint → Option (Option String)
first_declared key [] = none
first_declared key (none ∷ hints) = first_declared key hints
first_declared key (some items ∷ hints) = either (lookup key items) (first_declared key hints)

abbrev joined : Option (Option String) → Option String
joined none = none
joined (some value) = value

-- The keys that are read from effective hints: `step.get(key)`.
abbrev pub to_step : Dict (Option String) → Step
to_step effective = record {
  compute_backend = joined (lookup "compute_backend" effective);
  kubernetes_memory_limit = joined (lookup "kubernetes_memory_limit" effective);
}
