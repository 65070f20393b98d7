-- ===== src/Auth/Sessions/Store.antt =====
-- reana_server/auth/sessions.py: storing, reading and deleting one session.
use Prim.Native.Nat.{min}
use Prim.Native.String
use reana_server.Prelude.{
  ℕ, ◌+◌, ◌-◌, String, Bool, false, Option, none, some, ◌&&◌, not, leb, if◌then◌else◌, str_eq,
}
use reana_server.Auth.Errors.{session_unavailable, Result, ok, err}
use reana_server.Auth.Exec.{Exec, pure, ◌>>=◌, ◌>>◌}
use reana_server.Auth.Sessions.{Session, Value, session, text, always, if_exists, Redis, AuthConfig}

abbrev pub session_key : String → String
session_key sid = String.◌++◌ "reana:bff:session:" sid

abbrev pub lock_key : String → String
lock_key sid = String.◌++◌ (session_key sid) ":lock"

-- A text of Python that is there and not empty.
abbrev pub given : Option String → Bool
given none = false
given (some t) = not (str_eq t "")

abbrev pub same : Option String → String → Bool
same none t = false
same (some u) t = str_eq u t

abbrev pub reply {ℓ} : {A : Type ℓ} → Option A → Result A
reply none = err session_unavailable
reply (some a) = ok a

-- A command of Redis; its RedisError becomes a SessionUnavailableError.
abbrev pub command {ℓ} : {S A : Type ℓ} → (S → Option A × S) → Exec S A
command c s = (reply (c s).0, (c s).1)

module _ (redis : Redis) where
  open redis use {State, get, set, delete}

  unfoldable pub delete_session : String → Exec State Bool
  delete_session sid = command (delete (session_key sid))

  -- `store_session`; `now` is read once.
  unfoldable pub store_session : AuthConfig → ℕ → String → Session → ℕ → Bool → Exec State Bool
  store_session config now sid new created_at require_existing =
      if leb (created_at + config.session_ttl) now
      then command (delete (session_key sid)) >> pure false
      else command (
          set (session_key sid) (session new)
            (min config.session_ttl (created_at + config.session_ttl - now))
            (if require_existing then if_exists else always))

  abbrev pub decoded : String → Option Value → Exec State (Option Session)
  decoded sid none = pure none
  decoded sid (some (session x)) = pure (some x)
  decoded sid (some (text t)) =
      if str_eq t "" then pure none else command (delete (session_key sid)) >> pure none

  unfoldable pub get_session : String → Exec State (Option Session)
  get_session sid = command (get (session_key sid)) >>= decoded sid

-- `session_matches_identity`
unfoldable pub session_matches_identity : Session → String → String → Bool
session_matches_identity x issuer subject = same x.iss issuer && same x.sub subject
