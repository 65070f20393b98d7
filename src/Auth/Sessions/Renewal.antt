-- ===== src/Auth/Sessions/Renewal.antt =====
-- What a refresh under its lock does to the stored session.
use Prim.Native.Nat.{min}
use reana_server.Prelude.{
  ℕ, ◌+◌, ◌-◌, ◌<◌, ◌≤◌, leb→le, String, ◌≡◌, ◌≢◌, refl, Bool, true, Option, none, some, leb,
  if◌then◌else◌, or_default, arith, Bool-cases, ◌⊎◌, inl, inr,
}
use reana_server.Auth.Errors.{Result, ok, err, Result-cases}
use reana_server.Auth.Exec.{Exec}
use reana_server.Auth.Sessions.{Session, session, Condition, always, if_exists, Redis, AuthConfig}
use reana_server.Auth.Sessions.Store.{session_key, command, delete_session, store_session}
use reana_server.Auth.Sessions.Refresh.{
  RefreshResult, success, transient, TokenBody, Outcome, refreshed, rejected, failed, Validators,
  Surroundings, same_identity, renewed, renew, redeem, refreshed_id_token, on_invalid,
  refresh_stored, request_refreshed_tokens,
}

module _ (redis : Redis) (config : AuthConfig) (v : Validators) where
  open redis use {State, content, set, delete}

  -- Deleting leaves no session where there was none.
  delete_session-absent :
      (sid : String) (s : State)
      → content (session_key sid) s ≡ none
      → content (session_key sid) (delete_session redis sid s).1 ≡ none
  unfolding delete_session
  delete_session-absent sid s h = redis.delete_adds_nothing _ _ s h

  store_session-absent :
      (now created_at : ℕ) (sid : String) (new : Session) (s : State)
      → content (session_key sid) s ≡ none
      → (content (session_key sid) (store_session redis config now sid new created_at true s).1
          ≡ none)
        × ((store_session redis config now sid new created_at true s).0 ≢ ok true)
  unfolding store_session
  store_session-absent now created_at sid new s h =
      let key = session_key sid in
      let value = session new in
      let ttl = min config.session_ttl (created_at + config.session_ttl - now) in
      ground (
        arith,
        redis.delete_adds_nothing key key s h,
        redis.set_not_allowed key key value ttl if_exists s,
        redis.set-answer key value ttl if_exists s true,
      )

  renew-absent :
      (w : Surroundings) (sid : String) (x : Session) (created_at : ℕ) (body : TokenBody)
      (idt : Option String) (t : String) (s : State)
      → content (session_key sid) s ≡ none
      → (content (session_key sid) (renew redis config v w sid x created_at body idt s).1 ≡ none)
        × ((renew redis config v w sid x created_at body idt s).0 ≢ ok (success t))
  unfolding renew
  renew-absent w sid x created_at body idt t s h =
      let new = renewed redis config v x created_at body idt in
      ground (arith, store_session-absent w.stored created_at sid new s h)

  -- No session, and no success.
  abbrev pub Revoked : String → String → Result RefreshResult × State → Type 0
  Revoked sid t end = (content (session_key sid) end.1 ≡ none) × (end.0 ≢ ok (success t))

  on_invalid-Revoked :
      {A : Type 0} (sid t : String) (r : Result A) (k : A → Exec State RefreshResult) (s : State)
      → content (session_key sid) s ≡ none
      → ((a : A) → Revoked sid t (k a s))
      → Revoked sid t (on_invalid redis config v sid r k s)
  on_invalid-Revoked sid t (ok a) k s h g = g a
  on_invalid-Revoked sid t (err e) k s h g = ground (arith, delete_session-absent sid s h)

  -- If the session is revoked while the issuer is asked, then whatever the issuer answers, however
  -- the tokens validate and whichever commands of Redis fail, it is not stored again and the
  -- refresh does not succeed.
  pub redeem-Revoked :
      (w : Surroundings) (sid : String) (x : Session) (created_at : ℕ) (o : Outcome) (t : String)
      (s : State)
      → content (session_key sid) s ≡ none
      → Revoked sid t (redeem redis config v w sid x created_at o s)
  unfolding redeem
  redeem-Revoked w sid x created_at rejected t s h = ground (arith, delete_session-absent sid s h)
  redeem-Revoked w sid x created_at failed t s h = ground arith
  redeem-Revoked w sid x created_at (refreshed body) t s h =
      on_invalid-Revoked sid t (v.access body.access_token) _ s h λ claims.
        elim (Bool-cases (same_identity claims x)) [
          | inl e ↦ rw e (
              on_invalid-Revoked sid t (refreshed_id_token v body.id_token x) _ s h
                λ idt. renew-absent w sid x created_at body idt t s h)
          | inr e ↦ rw e (ground (arith, delete_session-absent sid s h))
        ]

  -- A session is stored with a time to live that is positive (if the configured one is), at most
  -- the configured one, and that ends no later than the configured one counted from its creation; a
  -- session that is past that moment is deleted.
  pub store_session-expiry :
      (now created_at : ℕ) (sid : String) (new : Session) (existing : Bool) (s : State)
      → ((created_at + config.session_ttl ≤ now)
          × ((store_session redis config now sid new created_at existing s).1
              ≡ (delete (session_key sid) s).1)
          × ((store_session redis config now sid new created_at existing s).0 ≢ ok true))
        ⊎ ((ex : ℕ) × (c : Condition) × (0 < config.session_ttl → 0 < ex)
            × (ex ≤ config.session_ttl)
            × (now + ex ≤ created_at + config.session_ttl)
            × (store_session redis config now sid new created_at existing s
                ≡ command (set (session_key sid) (session new) ex c) s))
  unfolding store_session
  store_session-expiry now created_at sid new existing s =
      let ttl = min config.session_ttl (created_at + config.session_ttl - now) in
      let c = if existing then if_exists else always in
      elim (Bool-cases (leb (created_at + config.session_ttl) now)) [
        | inl past ↦ inl (leb→le _ _ past, rw past (ground arith), rw past (ground arith))
        | inr alive ↦
            let left : now < created_at + config.session_ttl = ground arith in
            inr (ttl, c, omega arith, omega arith, omega arith, rw alive)
      ]

  redeem-transient :
      (w : Surroundings) (sid : String) (x : Session) (created_at : ℕ) (o : Outcome) (s : State)
      → (redeem redis config v w sid x created_at o s).0 ≡ ok transient
      → (redeem redis config v w sid x created_at o s).1 ≡ s
  unfolding redeem renew
  redeem-transient w sid x created_at rejected s h = absurd (ground arith)
  redeem-transient w sid x created_at failed s h = refl
  redeem-transient w sid x created_at (refreshed body) s h = absurd (ground arith)

  -- A transient outcome leaves everything in Redis as the others left it: nothing is stored or
  -- deleted after the session has been read.
  pub refresh_stored-transient :
      (meanwhile : State → State) (w : Surroundings) (sid issuer subject : String)
      (o : Option Session) (s : State)
      → (refresh_stored redis config v meanwhile w sid issuer subject o s).0 ≡ ok transient
      → (refresh_stored redis config v meanwhile w sid issuer subject o s).1 ≡ meanwhile s
  unfolding refresh_stored
  refresh_stored-transient meanwhile w sid issuer subject none s h = absurd (ground arith)
  refresh_stored-transient meanwhile w sid issuer subject (some x) s h =
      elim (Result-cases (request_refreshed_tokens w.response)) [
        | inl (e, failing) ↦ absurd (ground arith)
        | inr (o, answered) ↦ ground (
          arith,
          redeem-transient w sid x (or_default x.created_at w.default_created) o (meanwhile s),
        )
      ]
