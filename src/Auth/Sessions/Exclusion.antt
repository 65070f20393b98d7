-- ===== src/Auth/Sessions/Exclusion.antt =====
-- What the refresh lock excludes, and what a caller that waits for its holder is told.
use reana_server.Prelude.{
  String, ◌≡◌, ◌≢◌, refl, true, Option, none, some, inl, inr, List, [], ◌∷◌, arith, eq_iff,
  Option-cases,
}
use reana_server.Auth.Errors.{ok, Result-cases}
use reana_server.Auth.Sessions.{Session, session, Redis, AuthConfig}
use reana_server.Auth.Sessions.Store.{session_key, lock_key, get_session, session_matches_identity}
use reana_server.Auth.Sessions.Refresh.{success, Validators}
use reana_server.Auth.Sessions.Lock.{judged, last_look, wait_for_concurrent_refresh}
use reana_server.Auth.Sessions.Success.{get_session-some, matches-parts}

module _ (redis : Redis) (config : AuthConfig) (v : Validators) where
  open redis use {State, content, set, get, exec_delete}

  -- A session whose token another caller has renewed.
  pub record IsOther (sid previous issuer subject t : String) : Type 0 where
    pub state : State
    pub x : Session
    pub stored : content (session_key sid) state ≡ some (session x)
    pub of_issuer : x.iss ≡ some issuer
    pub of_subject : x.sub ≡ some subject
    pub token : x.at ≡ some t
    pub renewed : t ≢ previous

  judged-success :
      (previous issuer subject t : String) (o : Option Session)
      → judged redis config v previous issuer subject o ≡ some (success t)
      → (x : Session) × (o ≡ some x)
        × (session_matches_identity x issuer subject ≡ true)
        × (x.at ≡ some t)
        × (t ≢ previous)
  judged-success previous issuer subject t none h = absurd (ground arith)
  judged-success previous issuer subject t (some x) h =
      (x, refl, ground arith, ground arith, ground (arith, eq_iff t previous))

  IsOther-judged :
      (sid previous issuer subject t : String) (o : Option Session) (s : State)
      → (get_session redis sid s).0 ≡ ok o
      → judged redis config v previous issuer subject o ≡ some (success t)
      → IsOther sid previous issuer subject t
  IsOther-judged sid previous issuer subject t o s found h =
      let (x, same_x, matched, token, new) = judged-success previous issuer subject t o h in
      let (of_issuer, of_subject) = matches-parts redis config v x issuer subject matched in
      record {
        state = s;
        x = x;
        stored = get_session-some redis config v sid x s (rw same_x at found);
        of_issuer = of_issuer;
        of_subject = of_subject;
        token = token;
        renewed = new;
      }

  last_look-success :
      (sid previous issuer subject t : String) (s : State)
      → (last_look redis config v sid previous issuer subject s).0 ≡ ok (success t)
      → IsOther sid previous issuer subject t
  unfolding last_look
  last_look-success sid previous issuer subject t s h =
      elim (Result-cases (get_session redis sid s).0) [
        | inl (e, failing) ↦ absurd (ground arith)
        | inr (none, found) ↦ absurd (ground arith)
        | inr (some x, found) ↦
            IsOther-judged sid previous issuer subject t (some x) s found (ground arith)
      ]

  -- A caller that waits for another refresh is told of success only with a token that a session of
  -- its own issuer and subject held at some point of the wait, and that differs from the one it had.
  pub wait_for_concurrent_refresh-success :
      (turns : List (State → State)) (sid previous issuer subject t : String) (s : State)
      → (wait_for_concurrent_refresh redis config v turns sid previous issuer subject s).0
        ≡ ok (success t)
      → IsOther sid previous issuer subject t
  unfolding wait_for_concurrent_refresh
  wait_for_concurrent_refresh-success [] sid previous issuer subject t s h =
      last_look-success sid previous issuer subject t s h
  wait_for_concurrent_refresh-success (slept ∷ turns) sid previous issuer subject t s h =
      elim (Result-cases (get_session redis sid (slept s)).0) [
        | inl (e, failing) ↦ absurd (ground arith)
        | inr (o, found) ↦
            let s' = (get_session redis sid (slept s)).1 in
            let s'' = (get (lock_key sid) s').1 in
            elim (Option-cases (judged redis config v previous issuer subject o)) [
              | inr (r, decided) ↦
                  IsOther-judged sid previous issuer subject t o (slept s) found (ground arith)
              | inl undecided ↦ elim (Option-cases (get (lock_key sid) s').0) [
                | inl silent ↦ absurd (ground arith)
                | inr (none, gone) ↦
                    last_look-success sid previous issuer subject t s'' (ground arith)
                | inr (some lock, there) ↦
                    wait_for_concurrent_refresh-success turns sid previous issuer subject t s''
                      (ground arith)
              ]
            ]
      ]
