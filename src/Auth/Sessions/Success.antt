-- ===== src/Auth/Sessions/Success.antt =====
-- What a refresh under its lock has checked, and has stored, when it succeeds.
use Prim.Native.Nat.{min}
use reana_server.Prelude.{
  ℕ, ◌+◌, ◌-◌, ◌<◌, String, ◌≡◌, refl, sym, ◌∙◌, true, Option, none, some, or_default, arith, ap,
  subst, eq_iff, eq_refl, Option-cases, inl, inr,
}
use reana_server.Auth.Errors.{Result, ok, err, Result-cases}
use reana_server.Auth.Exec.{Exec}
use reana_server.Auth.Sessions.{Session, session, if_exists, Redis, AuthConfig}
use reana_server.Auth.Sessions.Store.{
  session_key, same, store_session, get_session, session_matches_identity,
}
use reana_server.Auth.Sessions.Refresh.{
  RefreshResult, success, Claims, TokenBody, Outcome, refreshed, rejected, failed, Validators,
  Surroundings, same_option, same_identity, renewed, renew, redeem, refreshed_id_token, on_invalid,
  refresh_stored, refresh_locked_session, request_refreshed_tokens, is_bound,
}

module _ (redis : Redis) (config : AuthConfig) (v : Validators) where
  open redis use {State, content, set, delete}

  -- What a successful refresh has found and has left.
  pub record IsRenewal (w : Surroundings) (sid issuer subject token : String) (x : Session)
      (s : State) : Type 0 where
    pub bound_issuer : x.iss ≡ some config.issuer
    pub bound_client : x.cid ≡ some config.web_client_id
    pub cookie_issuer : x.iss ≡ some issuer
    pub cookie_subject : x.sub ≡ some subject
    pub young : w.stored < or_default x.created_at w.default_created + config.session_ttl
    pub claims : Claims
    pub validated : v.access token ≡ ok claims
    pub token_issuer : claims.iss ≡ x.iss
    pub token_subject : claims.sub ≡ x.sub
    pub new : Session
    pub stored : content (session_key sid) s ≡ some (session new)
    pub new_token : new.at ≡ some token
    pub new_issuer : new.iss ≡ x.iss
    pub new_subject : new.sub ≡ x.sub
    pub new_created : new.created_at ≡ some (or_default x.created_at w.default_created)

  store_session-true :
      (now created_at : ℕ) (sid : String) (new : Session) (s : State)
      → (store_session redis config now sid new created_at true s).0 ≡ ok true
      → (now < created_at + config.session_ttl)
        × (content (session_key sid) (store_session redis config now sid new created_at true s).1
            ≡ some (session new))
  unfolding store_session
  store_session-true now created_at sid new s h =
      let key = session_key sid in
      let value = session new in
      let ttl = min config.session_ttl (created_at + config.session_ttl - now) in
      ground (arith, redis.content-set key key value ttl if_exists s true, eq_refl key)

  renew-success :
      (w : Surroundings) (sid : String) (x : Session) (created_at : ℕ) (body : TokenBody)
      (idt : Option String) (t : String) (s : State)
      → (renew redis config v w sid x created_at body idt s).0 ≡ ok (success t)
      → (w.stored < created_at + config.session_ttl)
        × (body.access_token ≡ t)
        × (content (session_key sid) (renew redis config v w sid x created_at body idt s).1
            ≡ some (session (renewed redis config v x created_at body idt)))
  unfolding renew
  renew-success w sid x created_at body idt t s h =
      let new = renewed redis config v x created_at body idt in
      ground (arith, store_session-true w.stored created_at sid new s)

  on_invalid-success :
      {A : Type 0} (sid t : String) (r : Result A) (k : A → Exec State RefreshResult) (s : State)
      → (on_invalid redis config v sid r k s).0 ≡ ok (success t)
      → (a : A) × (r ≡ ok a)
        × (on_invalid redis config v sid r k s ≡ k a s)
        × ((k a s).0 ≡ ok (success t))
  on_invalid-success sid t (ok a) k s h = (a, refl, refl, h)
  on_invalid-success sid t (err e) k s h = absurd (ground arith)

  redeem-success :
      (w : Surroundings) (sid : String) (x : Session) (created_at : ℕ) (o : Outcome) (t : String)
      (s : State)
      → (redeem redis config v w sid x created_at o s).0 ≡ ok (success t)
      → (body : TokenBody) × (idt : Option String) × (claims : Claims) × (v.access t ≡ ok claims)
        × (same_identity claims x ≡ true)
        × (body.access_token ≡ t)
        × (w.stored < created_at + config.session_ttl)
        × (content (session_key sid) (redeem redis config v w sid x created_at o s).1
            ≡ some (session (renewed redis config v x created_at body idt)))
  unfolding redeem
  redeem-success w sid x created_at rejected t s h = absurd (ground arith)
  redeem-success w sid x created_at failed t s h = absurd (ground arith)
  redeem-success w sid x created_at (refreshed body) t s h =
      let (claims, valid, step, h') = on_invalid-success sid t (v.access body.access_token) _ s h in
      let same : same_identity claims x ≡ true = ground arith in
      let h'' = rw same at h' in
      let (idt, found, step', h''') =
        on_invalid-success sid t (refreshed_id_token v body.id_token x) _ s h'' in
      let (young, token, kept) = renew-success w sid x created_at body idt t s h''' in
      (
        body,
        idt,
        claims,
        subst (λ a. v.access a ≡ ok claims) token valid,
        same,
        token,
        young,
        rw (step, same, step') kept,
      )

  pub same_eq : (o : Option String) (t : String) → same o t ≡ true → o ≡ some t
  same_eq none t h = cc
  same_eq (some u) t h = ap some ((eq_iff u t).0 h)

  same_option_eq : (a b : Option String) → same_option a b ≡ true → a ≡ b
  same_option_eq none none h = refl
  same_option_eq (some a) (some b) h = ap some ((eq_iff a b).0 h)
  same_option_eq none (some b) h = cc
  same_option_eq (some a) none h = cc

  refresh_stored-asks :
      (meanwhile : State → State) (w : Surroundings) (sid issuer subject t : String) (x : Session)
      (s : State)
      → (refresh_stored redis config v meanwhile w sid issuer subject (some x) s).0 ≡ ok (success t)
      → (is_bound redis config v x ≡ true)
        × (session_matches_identity x issuer subject ≡ true)
        × (o : Outcome) × (request_refreshed_tokens w.response ≡ ok o)
        × (refresh_stored redis config v meanwhile w sid issuer subject (some x) s
            ≡ redeem redis config v w sid x
                (or_default x.created_at w.default_created)
                o
                (meanwhile s))
  unfolding refresh_stored
  refresh_stored-asks meanwhile w sid issuer subject t x s h =
      elim (Result-cases (request_refreshed_tokens w.response)) [
        | inl (e, failing) ↦ absurd (ground arith)
        | inr (o, answered) ↦ (ground arith, ground arith, o, answered, ground arith)
      ]

  IsBound-parts :
      (x : Session)
      → is_bound redis config v x ≡ true
      → (x.iss ≡ some config.issuer) × (x.cid ≡ some config.web_client_id)
  unfolding is_bound
  IsBound-parts x h = (
    same_eq x.iss config.issuer (ground arith),
    same_eq x.cid config.web_client_id (ground arith),
  )

  pub matches-parts :
      (x : Session) (issuer subject : String)
      → session_matches_identity x issuer subject ≡ true
      → (x.iss ≡ some issuer) × (x.sub ≡ some subject)
  unfolding session_matches_identity
  matches-parts x issuer subject h =
      (same_eq x.iss issuer (ground arith), same_eq x.sub subject (ground arith))

  refresh_stored-success :
      (meanwhile : State → State) (w : Surroundings) (sid issuer subject t : String) (x : Session)
      (s : State)
      → (refresh_stored redis config v meanwhile w sid issuer subject (some x) s).0 ≡ ok (success t)
      → IsRenewal w sid issuer subject t x
          (refresh_stored redis config v meanwhile w sid issuer subject (some x) s).1
  refresh_stored-success meanwhile w sid issuer subject t x s h =
      let (bound, matched, o, answered, step) =
        refresh_stored-asks meanwhile w sid issuer subject t x s h in
      let created = or_default x.created_at w.default_created in
      let (body, idt, claims, valid, same, token, young, kept) =
        redeem-success w sid x created o t (meanwhile s) (rw step at h) in
      let (is_issuer, is_client) = IsBound-parts x bound in
      let (of_issuer, of_subject) = matches-parts x issuer subject matched in
      record {
        bound_issuer = is_issuer;
        bound_client = is_client;
        cookie_issuer = of_issuer;
        cookie_subject = of_subject;
        young = young;
        claims = claims;
        validated = valid;
        token_issuer = same_option_eq claims.iss x.iss (ground arith);
        token_subject = same_option_eq claims.sub x.sub (ground arith);
        new = renewed redis config v x created body idt;
        stored = rw step kept;
        new_token = ap some token;
        new_issuer = refl;
        new_subject = refl;
        new_created = refl;
      }

  pub get_session-some :
      (sid : String) (x : Session) (s : State)
      → (get_session redis sid s).0 ≡ ok (some x)
      → content (session_key sid) s ≡ some (session x)
  unfolding get_session
  get_session-some sid x s h =
      let key = session_key sid in
      elim (Option-cases (redis.get key s).0) [
        | inl silent ↦ absurd (ground arith)
        | inr (o, answered) ↦
            let found : o ≡ some (session x) = ground arith in
            sym (redis.get-answer key s o answered) ∙ found
      ]

  refresh_locked_session-found :
      (meanwhile : State → State) (w : Surroundings) (sid issuer subject t : String) (s : State)
      → (refresh_locked_session redis config v meanwhile w sid issuer subject s).0 ≡ ok (success t)
      → (x : Session) × ((get_session redis sid s).0 ≡ ok (some x))
        × (refresh_locked_session redis config v meanwhile w sid issuer subject s
            ≡ refresh_stored redis config v meanwhile w sid issuer subject
                (some x)
                (get_session redis sid s).1)
  unfolding refresh_locked_session refresh_stored
  refresh_locked_session-found meanwhile w sid issuer subject t s h =
      elim (Result-cases (get_session redis sid s).0) [
        | inl (e, failing) ↦ absurd (ground arith)
        | inr (none, missing) ↦ absurd (ground arith)
        | inr (some x, there) ↦ (x, there, rw (there, refresh_locked_session))
      ]

  -- A refresh under the lock that succeeds found a session bound to the configured issuer and
  -- client and to the issuer and subject of the cookie; its new token validates, with the same issuer
  -- and subject; and it has stored that token in a session of the same identity and creation time,
  -- inside the life time that counts from there.
  pub refresh_locked_session-success :
      (meanwhile : State → State) (w : Surroundings) (sid issuer subject t : String) (s : State)
      → (refresh_locked_session redis config v meanwhile w sid issuer subject s).0 ≡ ok (success t)
      → (x : Session) × (content (session_key sid) s ≡ some (session x))
        × IsRenewal w sid issuer subject t x
            (refresh_locked_session redis config v meanwhile w sid issuer subject s).1
  refresh_locked_session-success meanwhile w sid issuer subject t s h =
      let (x, there, step) = refresh_locked_session-found meanwhile w sid issuer subject t s h in
      let s' = (get_session redis sid s).1 in
      let renewal = refresh_stored-success meanwhile w sid issuer subject t x s' (rw step at h) in
      (x, get_session-some sid x s there, rw step renewal)
