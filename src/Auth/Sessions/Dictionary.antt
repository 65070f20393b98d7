-- ===== src/Auth/Sessions/Dictionary.antt =====
-- A Redis that is a dictionary, to run the sessions on.
use native.Mathlib.Decide.{ℕ_discrete}
use mathlib.Core.Bool.{false≢true}
use reana_server.Prelude.{
  ℕ, String, ◌≡◌, refl, sym, ◌∙◌, Bool, true, false, Option, none, some, if◌then◌else◌, str_eq,
  is_some, arith, eq_iff, Dict, lookup, insert, erase, lookup-insert, lookup-erase,
}
use reana_server.Auth.Sessions.{Value, Condition, allows, Redis}

pub decide_text : (a b : String) (t : Bool) → str_eq a b ≡ t → Dec (a ≡ b)
decide_text a b true e = yes ((eq_iff a b).0 e)
decide_text a b false e = no (λ p. false≢true (sym e ∙ (eq_iff a b).1 p))

unfoldable pub String-discrete : Discrete String
unfolding decide_text
String-discrete a b = decide_text a b (str_eq a b) refl

unfoldable pub Value-discrete : Discrete (Option Value)
Value-discrete = hlevel (ℕ_discrete, String-discrete)

unfoldable pub exec_delete : String → Option Value → Dict Value → Option (Option Bool) × Dict Value
exec_delete k seen s = elim (Value-discrete (lookup k s) seen) [
  | yes same ↦ (some (some (is_some seen)), erase k s)
  | no other ↦ (some none, s)
]

unfoldable pub set : String → Value → ℕ → Condition → Dict Value → Option Bool × Dict Value
set k v ex c s = if allows c (lookup k s) then (some true, insert k v s) else (some false, s)

pub content-set :
    (k j : String) (v : Value) (ex : ℕ) (c : Condition) (s : Dict Value) (b : Bool)
    → (set k v ex c s).0 ≡ some b
    → lookup j (set k v ex c s).1
      ≡ (if b then (if str_eq k j then some v else lookup j s) else lookup j s)
unfolding set
content-set k j v ex c s b h = ground (arith, lookup-insert k j v s)

pub set_not_allowed :
    (k j : String) (v : Value) (ex : ℕ) (c : Condition) (s : Dict Value)
    → allows c (lookup k s) ≡ false
    → lookup j (set k v ex c s).1 ≡ lookup j s
unfolding set
set_not_allowed k j v ex c s h = rw (set, h)

pub set-answer :
    (k : String) (v : Value) (ex : ℕ) (c : Condition) (s : Dict Value) (b : Bool)
    → (set k v ex c s).0 ≡ some b
    → b ≡ allows c (lookup k s)
unfolding set
set-answer k v ex c s b h = ground arith

pub content-exec_delete :
    (k j : String) (seen : Option Value) (s : Dict Value) (b : Bool)
    → (exec_delete k seen s).0 ≡ some (some b)
    → (lookup k s ≡ seen)
      × (lookup j (exec_delete k seen s).1 ≡ (if str_eq k j then none else lookup j s))
unfolding exec_delete
content-exec_delete k j seen s b h = ground (arith, lookup-erase k j s)

pub content-watch_error :
    (k j : String) (seen : Option Value) (s : Dict Value)
    → (exec_delete k seen s).0 ≡ some none
    → lookup j (exec_delete k seen s).1 ≡ lookup j s
unfolding exec_delete
content-watch_error k j seen s h = ground arith

pub adds_nothing : (k j : String) (s : Dict Value) → lookup j s ≡ none → lookup j (erase k s) ≡ none
adds_nothing k j s h = ground (arith, lookup-erase k j s)

pub get-answer :
    (k : String) (s : Dict Value) (o : Option Value) → some (lookup k s) ≡ some o → o ≡ lookup k s
get-answer k s o h = cc

abbrev pub redis : Redis
redis = record {
  State = Dict Value;
  content = lookup;
  get = λ k s. (some (lookup k s), s);
  set = set;
  delete = λ k s. (some (is_some (lookup k s)), erase k s);
  exec_delete = exec_delete;
  get-answer = get-answer;
  content-get = λ k j s. refl;
  set-answer = set-answer;
  content-set = content-set;
  content-delete = λ k j s b h. lookup-erase k j s;
  delete_adds_nothing = adds_nothing;
  set_not_allowed = set_not_allowed;
  content-exec_delete = content-exec_delete;
  content-watch_error = content-watch_error;
}
