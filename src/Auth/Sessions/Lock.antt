-- ===== src/Auth/Sessions/Lock.antt =====
-- reana_server/auth/sessions.py: `refresh_session`: its lock, the wait for another holder, the release.
use mathlib.Core.Option
use reana_server.Prelude.{
  ℕ, String, Bool, false, Option, none, some, ◌&&◌, not, if◌then◌else◌, str_eq, or_default, is_some,
  List, [], ◌∷◌,
}
use reana_server.Auth.Errors.{Result}
use reana_server.Auth.Exec.{Exec, pure, lift, ◌>>=◌}
use reana_server.Auth.Sessions.{Session, Value, text, if_absent, Redis, AuthConfig}
use reana_server.Auth.Sessions.Store.{
  lock_key, given, same, command, get_session, session_matches_identity,
}
use reana_server.Auth.Sessions.Refresh.{
  RefreshResult, success, terminal, transient, Validators, Surroundings, refresh_locked_session,
}

module _ (redis : Redis) (config : AuthConfig) (v : Validators) where
  open redis use {State, set, get, exec_delete}

  -- `_redis_set_refresh_lock`, with the random owner given
  unfoldable pub set_refresh_lock : String → String → ℕ → Exec State Bool
  set_refresh_lock sid owner ttl = command (set (lock_key sid) (text owner) ttl if_absent)

  abbrev pub owned : Option Value → String → Bool
  owned (some (text t)) owner = str_eq t owner
  owned _ owner = false

  abbrev pub deleted : Option Bool → Exec State Bool
  deleted none = pure false
  deleted (some b) = pure b

  -- `_release_refresh_lock`; between GET and EXEC other clients do `meanwhile`
  unfoldable pub release_refresh_lock : (State → State) → String → String → Exec State Bool
  release_refresh_lock meanwhile sid owner = command (get (lock_key sid)) >>= λ seen.
      if owned seen owner
      then (λ s. (command (exec_delete (lock_key sid) seen) >>= deleted) (meanwhile s))
      else pure false

  -- `finally: _release_refresh_lock(…)`: its own error replaces the result.
  abbrev pub finally_release :
      (State → State)
      → String
      → String
      → Result RefreshResult × State
      → Result RefreshResult × State
  finally_release meanwhile sid owner (r, s) =
      (release_refresh_lock meanwhile sid owner >>= λ _. lift r) s

  abbrev pub judged : String → String → String → Option Session → Option RefreshResult
  judged previous issuer subject none = none
  judged previous issuer subject (some x) =
      if not (session_matches_identity x issuer subject)
      then some terminal
      else if given x.at && not (same x.at previous)
      then Option.map success x.at
      else none

  -- What is left to say when the lock is gone or the time is up.
  abbrev pub last_word : Option Session → RefreshResult
  last_word none = terminal
  last_word (some x) = transient

  -- The look at the session once the loop has ended.
  unfoldable pub last_look : String → String → String → String → Exec State RefreshResult
  last_look sid previous issuer subject = get_session redis sid >>= λ o.
      pure (or_default (judged previous issuer subject o) (last_word o))

  -- One turn of the loop: `again` follows while the lock is there, `last` once it is gone.
  abbrev pub turn :
      String
      → Exec State RefreshResult
      → Exec State RefreshResult
      → Option RefreshResult
      → Exec State RefreshResult
  turn sid again last (some r) = pure r
  turn sid again last none =
      command (get (lock_key sid)) >>= λ lock. if is_some lock then again else last

  -- `_wait_for_concurrent_refresh`: one entry for each turn of the loop that the deadline leaves, and
  -- what other clients do while it sleeps.
  unfoldable pub wait_for_concurrent_refresh :
      List (State → State) → String → String → String → String → Exec State RefreshResult
  wait_for_concurrent_refresh [] sid previous issuer subject = last_look sid previous issuer subject
  wait_for_concurrent_refresh (slept ∷ turns) sid previous issuer subject =
      let again = wait_for_concurrent_refresh turns sid previous issuer subject in
      let last = last_look sid previous issuer subject in
      λ s.
        ((get_session redis sid >>= λ o. turn sid again last (judged previous issuer subject o))
          (slept s))

  -- `refresh_session`
  unfoldable pub refresh_session :
      (State → State)
      → (State → State)
      → List (State → State)
      → Surroundings
      → String
      → String
      → ℕ
      → String
      → String
      → String
      → Exec State RefreshResult
  refresh_session asking releasing turns w sid owner ttl previous issuer subject =
      set_refresh_lock sid owner ttl >>= λ acquired.
      if acquired
      then (λ s.
          finally_release releasing sid owner
            (refresh_locked_session redis config v asking w sid issuer subject s))
      else wait_for_concurrent_refresh turns sid previous issuer subject
