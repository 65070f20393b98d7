-- ===== src/Auth/Login.antt =====
-- reana_server/oauth_state.py: the signed cookie of an authorization request, and safe targets. The
-- serializer of itsdangerous is an interface. Times are whole seconds.
pub mod Callback
pub mod States
pub mod Bound
mod Tests
use Prim.Native.Char.{Char, code}
use Prim.Native.String.{[], ◌∷◌}
use reana_server.Prelude.{
  ℕ, ◌+◌, ◌≤◌, String, ◌≡◌, ◌↔◌, Bool, true, false, Option, none, some, ◌&&◌, ◌||◌, not,
  if◌then◌else◌, str_eq, ◌==◌, compare_digest,
}

-- The text does not start with "/" or "\".
abbrev plain_start : String → Bool
plain_start [] = true
plain_start (c ∷ t) = not (code c == 47) && not (code c == 92)

-- `target.startswith("/")`, and not with "//" or "/\".
abbrev pub is_local : String → Bool
is_local [] = false
is_local (c ∷ t) = code c == 47 && plain_start t

unfoldable pub safe_next_url : Option String → String
safe_next_url none = "/"
safe_next_url (some target) = if is_local target then target else "/"

-- What the cookie carries; `none` is a missing key, and so is "" in the first two fields.
pub record StateData : Type 0 where
  pub state : String
  pub flow : String
  pub verifier : Option String
  pub next : Option String
  pub nonce : Option String

-- `URLSafeTimedSerializer`: `dumps` at a time, and `loads` at a time with `max_age`. It accepts what
-- was signed, for so long.
pub record Serializer : Type 1 where
  pub Cookie : Type 0
  pub dumps : ℕ → StateData → Cookie
  pub loads : ℕ → ℕ → Cookie → Option StateData
  pub loads-signed :
      (now max_age : ℕ) (c : Cookie) (d : StateData)
      → loads now max_age c ≡ some d
      → (t : ℕ) × (c ≡ dumps t d) × (now ≤ t + max_age)
  pub loads-dumps :
      (now max_age t : ℕ) (d : StateData)
      → t ≤ now
      → now ≤ t + max_age
      → loads now max_age (dumps t d) ≡ some d

-- `STATE_MAX_AGE`
abbrev pub state_max_age : ℕ
state_max_age = 600

-- How `consume_state` ends: the data of the cookie, an InvalidOAuthState, or the TypeError of a
-- comparison with a text that has characters outside ASCII.
pub data Consumption : Type 0 where
  state_accepted : StateData → Consumption
  state_rejected : Consumption
  state_raises : Consumption

module _ (serializer : Serializer) where
  open serializer use {Cookie, dumps, loads}

  -- The cookie that `issue_state` sets, for the state that it has drawn.
  unfoldable pub issue_state : ℕ → StateData → Cookie
  issue_state now d = dumps now d

  abbrev pub compared : Option Bool → Option Bool → StateData → Consumption
  compared none of_flow d = state_raises
  compared (some false) of_flow d = state_rejected
  compared (some true) none d = state_raises
  compared (some true) (some false) d = state_rejected
  compared (some true) (some true) d = state_accepted d

  abbrev pub matching : String → String → Option StateData → Consumption
  matching param expected_flow none = state_rejected
  matching param expected_flow (some d) =
      compared (compare_digest d.state param) (compare_digest d.flow expected_flow) d

  -- `consume_state`; a cookie is `none` where it is missing or empty.
  unfoldable pub consume_state : ℕ → Option Cookie → String → String → Consumption
  unfolding compare_digest
  consume_state now none param expected_flow = state_rejected
  consume_state now (some c) param expected_flow =
      let found = matching param expected_flow (loads now state_max_age c) in
      if str_eq param "" then state_rejected else found
