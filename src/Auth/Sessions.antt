-- ===== src/Auth/Sessions.antt =====
-- reana_server/auth/sessions.py: browser sessions in Redis. Redis is an interface with the documented
-- effect of each command; what other clients do, and the passing of keys that expire, happens
-- between two commands. Times are whole seconds.
pub mod Store
pub mod Refresh
pub mod Lock
mod Tests
pub mod Dictionary
pub mod Exclusion
pub mod Renewal
pub mod Subjects
pub mod Success
use reana_server.Prelude.{
  ℕ, String, ◌≡◌, Bool, true, false, Option, none, some, if◌then◌else◌, str_eq,
}

-- The JSON object of a session. `none` is a missing key.
pub record Session : Type 0 where
  pub rt : Option String
  pub idt : Option String
  pub at : Option String
  pub iss : Option String
  pub sub : Option String
  pub cid : Option String
  pub created_at : Option ℕ

-- A stored text: a session, or a text that is no JSON object, such as the owner of a lock.
pub data Value : Type 0 where
  session : Session → Value
  text : String → Value

-- The options of SET: none, XX and NX.
pub data Condition : Type 0 where
  always if_exists if_absent : Condition

abbrev pub allows : Condition → Option Value → Bool
allows always old = true
allows if_exists none = false
allows if_exists (some v) = true
allows if_absent none = true
allows if_absent (some v) = false

-- A command answers, or fails with a RedisError (`none`); nothing is assumed of one that fails.
-- `content` is what GET finds.
pub record Redis : Type 1 where
  pub State : Type 0
  pub content : String → State → Option Value
  pub get : String → State → Option (Option Value) × State
  pub set : String → Value → ℕ → Condition → State → Option Bool × State
  pub delete : String → State → Option Bool × State
  -- EXEC of a DEL after WATCH and GET have seen a value; `some none` is a WatchError
  pub exec_delete : String → Option Value → State → Option (Option Bool) × State
  pub get-answer :
      (k : String) (s : State) (o : Option Value) → (get k s).0 ≡ some o → o ≡ content k s
  pub content-get : (k j : String) (s : State) → content j (get k s).1 ≡ content j s
  pub set-answer :
      (k : String) (v : Value) (ex : ℕ) (c : Condition) (s : State) (b : Bool)
      → (set k v ex c s).0 ≡ some b
      → b ≡ allows c (content k s)
  pub content-set :
      (k j : String) (v : Value) (ex : ℕ) (c : Condition) (s : State) (b : Bool)
      → (set k v ex c s).0 ≡ some b
      → content j (set k v ex c s).1
        ≡ (if b then (if str_eq k j then some v else content j s) else content j s)
  pub content-delete :
      (k j : String) (s : State) (b : Bool)
      → (delete k s).0 ≡ some b
      → content j (delete k s).1 ≡ (if str_eq k j then none else content j s)
  -- A DEL adds nothing, and a SET whose condition fails writes nothing, also where no answer comes.
  pub delete_adds_nothing :
      (k j : String) (s : State) → content j s ≡ none → content j (delete k s).1 ≡ none
  pub set_not_allowed :
      (k j : String) (v : Value) (ex : ℕ) (c : Condition) (s : State)
      → allows c (content k s) ≡ false
      → content j (set k v ex c s).1 ≡ content j s
  pub content-exec_delete :
      (k j : String) (seen : Option Value) (s : State) (b : Bool)
      → (exec_delete k seen s).0 ≡ some (some b)
      → (content k s ≡ seen)
        × (content j (exec_delete k seen s).1 ≡ (if str_eq k j then none else content j s))
  pub content-watch_error :
      (k j : String) (seen : Option Value) (s : State)
      → (exec_delete k seen s).0 ≡ some none
      → content j (exec_delete k seen s).1 ≡ content j s

-- The settings of `get_auth_config` that sessions read.
pub record AuthConfig : Type 0 where
  pub issuer : String
  pub web_client_id : String
  pub session_ttl : ℕ
