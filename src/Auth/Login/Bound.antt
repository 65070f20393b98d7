-- ===== src/Auth/Login/Bound.antt =====
-- reana_server/rest/auth.py: who is signed in by the callback.
use reana_server.Prelude.{
  ℕ, ◌+◌, ◌≤◌, String, ◌≡◌, refl, sym, ap, ◌∙◌, Bool, true, false, Option, none, some, not, str_eq,
  or_default, arith, Bool-cases, inl, inr, eq_iff,
}
use reana_server.Auth.Errors.{AuthError, Result, ok, err}
use reana_server.Auth.Sessions.{Redis, AuthConfig}
use reana_server.Auth.Sessions.Store.{given}
use reana_server.Auth.Login.{
  safe_next_url, StateData, Consumption, state_accepted, state_rejected, state_raises, Serializer,
  consume_state,
}
use reana_server.Auth.Login.States.{consume_state-accepted}
use reana_server.Auth.Login.Callback.{
  Subject, TokenBody, Exchange, misconfigured, failed, tokens, Calls, Arrival, Response,
  unprovisioned, same_subject, with_nonce, after_access, validated, establish, established,
  refused_or, or_refused, after_validation, after_exchange, returned, consumed, if_active,
  oauth_callback,
}

pub record IsValid (calls : Calls) (body : TokenBody) (nonce : Option String) (claims : Subject)
    : Type 0 where
  pub access : calls.validate_access_token body.access_token ≡ ok claims
  pub id : calls.validate_id_token body.id_token (or_default nonce "") ≡ ok claims.sub
  pub nonce_given : given nonce ≡ true

same_subject-ok :
    (claims c : Subject) (r : Result String)
    → same_subject claims r ≡ ok c
    → (r ≡ ok claims.sub) × (c ≡ claims)
same_subject-ok claims c (err e) h = ground (arith, h)
same_subject-ok claims c (ok sub) h = elim (Bool-cases (str_eq sub claims.sub)) [
  | inl e ↦ (ap ok ((eq_iff sub claims.sub).0 e), ground (arith, e, h))
  | inr e ↦ ground (arith, e, h)
]

with_nonce-ok :
    (calls : Calls) (body : TokenBody) (nonce : Option String) (claims c : Subject)
    → with_nonce calls body nonce claims ≡ ok c
    → (calls.validate_id_token body.id_token (or_default nonce "") ≡ ok claims.sub)
      × (c ≡ claims)
      × (given nonce ≡ true)
with_nonce-ok calls body none claims c h = ground (arith, h)
with_nonce-ok calls body (some nonce) claims c h = elim (Bool-cases (str_eq nonce "")) [
  | inl e ↦ ground (arith, e, h)
  | inr e ↦
      let given_nonce = ap not e in
      let (same, c_eq) =
        same_subject-ok claims c (calls.validate_id_token body.id_token nonce)
          (ground (arith, e, h)) in
      (same, c_eq, given_nonce)
]

after_access-ok :
    (calls : Calls) (body : TokenBody) (nonce : Option String) (c : Subject) (r : Result Subject)
    → calls.validate_access_token body.access_token ≡ r
    → after_access calls body nonce r ≡ ok c
    → IsValid calls body nonce c
after_access-ok calls body drawn c (err e) v h = ground (arith, h)
after_access-ok calls body drawn c (ok claims) v h =
    let (id, c_eq, g) = with_nonce-ok calls body drawn claims c h in
    record {
      access = v ∙ ap ok (sym c_eq);
      id = id ∙ ap (λ x. ok x.sub) (sym c_eq);
      nonce_given = g;
    }

validated-IsValid :
    (calls : Calls) (body : TokenBody) (nonce : Option String) (c : Subject)
    → validated calls body nonce ≡ ok c
    → IsValid calls body nonce c
unfolding validated
validated-IsValid calls body drawn c h =
    after_access-ok calls body drawn c (calls.validate_access_token body.access_token) refl h

module _ (redis : Redis) (serializer : Serializer) (config : AuthConfig) (calls : Calls)
    (a : Arrival serializer.Cookie) where
  open redis use {State}

  -- The state cookie was signed by this server for a login, at most ten minutes ago, with the state
  -- that the issuer sends back; its verifier was exchanged for the tokens, and its nonce is that of
  -- the ID token, which is for the subject of the access token.
  pub record IsBound (token sid : String) : Type 0 where
    pub state_data : StateData
    pub signed_at : ℕ
    pub body : TokenBody
    pub claims : Subject
    pub cookie : a.state_cookie ≡ some (serializer.dumps signed_at state_data)
    pub fresh : a.now ≤ signed_at + 600
    pub same_state : state_data.state ≡ a.state_param
    pub for_login : state_data.flow ≡ "bff"
    pub exchanged : calls.exchange (or_default state_data.verifier "") ≡ tokens body
    pub valid : IsValid calls body state_data.nonce claims
    pub access_token : token ≡ body.access_token
    pub new_id : sid ≡ a.sid

  abbrev SignsIn : Response × State → String → String → Type 0
  SignsIn r token sid = r.0.signed_in ≡ some (token, sid)

  established-signed_in :
      (next access : String) (r : Result Bool) (token sid : String)
      → (established redis serializer config calls a next access r).signed_in ≡ some (token, sid)
      → (token ≡ access) × (sid ≡ a.sid)
  established-signed_in next access (ok b) token sid h = ground (arith, h)
  established-signed_in next access (err e) token sid h = ground (arith, h)

  unprovisioned-signed_in :
      (next : String) (e : AuthError) (r : Response)
      → unprovisioned next e ≡ some r
      → r.signed_in ≡ none
  unprovisioned-signed_in next e r h = ground (arith, h)

  refused_or-signed_in :
      (next : String) (body : TokenBody) (claims : Subject) (o : Option Response) (s : State)
      (token sid : String)
      → ((r : Response) → o ≡ some r → r.signed_in ≡ none)
      → SignsIn (refused_or redis serializer config calls a next body claims o s) token sid
      → (token ≡ body.access_token) × (sid ≡ a.sid)
  refused_or-signed_in next body claims none s token sid unsigned h =
      established-signed_in next body.access_token
        (establish redis serializer config calls a claims body s).0 token sid h
  refused_or-signed_in next body claims (some r) s token sid unsigned h =
      ground (arith, h, unsigned r refl)

  or_refused-signed_in :
      (next : String) (e : Option AuthError) (r : Response)
      → or_refused redis serializer config calls a next e ≡ some r
      → r.signed_in ≡ none
  or_refused-signed_in next none r h = ground (arith, h)
  or_refused-signed_in next (some e) r h = unprovisioned-signed_in next e r h

  after_validation-signed_in :
      (next : String) (body : TokenBody) (v : Result Subject) (s : State) (token sid : String)
      → SignsIn (after_validation redis serializer config calls a next body v s) token sid
      → (claims : Subject) × (v ≡ ok claims) × (token ≡ body.access_token) × (sid ≡ a.sid)
  after_validation-signed_in next body (err e) s token sid h = ground (arith, h)
  after_validation-signed_in next body (ok claims) s token sid h =
      let e = calls.provision claims body.access_token in
      let (t, i) =
        refused_or-signed_in next body claims (or_refused redis serializer config calls a next e) s
          token sid (or_refused-signed_in next e) h in
      (claims, refl, t, i)

  after_exchange-signed_in :
      (next : String) (drawn : Option String) (x : Exchange) (s : State) (token sid : String)
      → SignsIn (after_exchange redis serializer config calls a next drawn x s) token sid
      → (body : TokenBody) × (claims : Subject) × (x ≡ tokens body)
        × (validated calls body drawn ≡ ok claims)
        × (token ≡ body.access_token)
        × (sid ≡ a.sid)
  after_exchange-signed_in next drawn misconfigured s token sid h = ground (arith, h)
  after_exchange-signed_in next drawn failed s token sid h = ground (arith, h)
  after_exchange-signed_in next drawn (tokens body) s token sid h =
      let (claims, v, t, i) =
        after_validation-signed_in next body (validated calls body drawn) s token sid h in
      (body, claims, refl, v, t, i)

  returned-IsBound :
      (b : Bool) (d : StateData) (s : State) (token sid : String)
      → consume_state serializer a.now a.state_cookie a.state_param "bff" ≡ state_accepted d
      → SignsIn (returned redis serializer config calls a b d s) token sid
      → IsBound token sid
  returned-IsBound true d s token sid e h = ground (arith, h)
  returned-IsBound false d s token sid e h =
      let (t, cookie, fresh, state, flow) =
        consume_state-accepted serializer a.now a.state_cookie a.state_param "bff" d e in
      let (body, claims, x, v, access, new) =
        after_exchange-signed_in (safe_next_url d.next) d.nonce
          (calls.exchange (or_default d.verifier "")) s token sid h in
      record {
        state_data = d;
        signed_at = t;
        body = body;
        claims = claims;
        cookie = cookie;
        fresh = fresh;
        same_state = state;
        for_login = flow;
        exchanged = x;
        valid = validated-IsValid calls body d.nonce claims v;
        access_token = access;
        new_id = new;
      }

  consumed-IsBound :
      (o : Consumption) (s : State) (token sid : String)
      → consume_state serializer a.now a.state_cookie a.state_param "bff" ≡ o
      → SignsIn (consumed redis serializer config calls a o s) token sid
      → IsBound token sid
  consumed-IsBound state_rejected s token sid e h = ground (arith, h)
  consumed-IsBound state_raises s token sid e h = ground (arith, h)
  consumed-IsBound (state_accepted d) s token sid e h =
      returned-IsBound a.has_error d s token sid e h

  if_active-IsBound :
      (b : Bool) (s : State) (token sid : String)
      → SignsIn (if_active redis serializer config calls a b s) token sid
      → IsBound token sid
  if_active-IsBound true s token sid h =
      consumed-IsBound (consume_state serializer a.now a.state_cookie a.state_param "bff") s token
        sid refl h
  if_active-IsBound false s token sid h = ground (arith, h)

  -- When the callback of a login signs the browser in with an access token and a session id, then the
  -- state cookie of the browser was signed by this server for a login, at most 600 seconds ago, and
  -- has the state that came back; the code was exchanged with its verifier for that access token;
  -- the access token is valid; the ID token is valid for the nonce of the cookie, which is not empty,
  -- and for the subject of the access token; and the session id is the new one.
  pub oauth_callback-IsBound :
      (s : State) (token sid : String)
      → (oauth_callback redis serializer config calls a s).0.signed_in ≡ some (token, sid)
      → IsBound token sid
  unfolding oauth_callback
  oauth_callback-IsBound s token sid h = if_active-IsBound a.bff_active s token sid h
