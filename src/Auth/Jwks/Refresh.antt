-- ===== src/Auth/Jwks/Refresh.antt =====
-- reana_server/auth/tokens.py: `_fetch`, `_refresh` and `_await_in_progress_refresh`.
use Prim.Native.Nat.{min}
use reana_server.Prelude.{
  is_some, ℕ, ◌+◌, ◌*◌, String, Bool, true, false, not, ◌&&◌, Option, none, some, List, [], ◌∷◌,
  ltb, ◌==◌, if◌then◌else◌, str_eq, or_default,
}
use reana_server.Auth.Errors.{
  AuthError, issuer_unavailable, issuer_key_unavailable, issuer_misconfigured, unexpected_error,
  Result, ok, err,
}
use reana_server.Auth.Jwks.{Settings, Cache, is_set, cached_keys_are_usable, serve_stale_or_raise}

-- A key of the document: its `kid`, if that is a text.
pub record Jwk : Type 0 where
  pub kid : Option String

-- What the request for the key set gives: a document, one that is no object with a list of keys, a
-- configuration error, a failed request or a body that is not JSON, or another exception.
pub data Download : Type 0 where
  document : List Jwk → Download
  malformed request_failed unexpected : Download
  misconfigured : String → Download

-- What `_fetch` raises. `transport` is the error of the request itself, raised again.
pub data Failure : Type 0 where
  permanent : String → Failure
  transport unavailable key_unavailable crash : Failure

pub data Fetched {ℓ} (K : Type ℓ) : Type ℓ where
  fetched : K → List String → Fetched K
  failed : Failure → Fetched K

abbrev add_kid : Option String → List String → List String
add_kid none kids = kids
add_kid (some kid) kids = if str_eq kid "" then kids else kid ∷ kids

-- The kids that are texts and not empty.
abbrev kids_of : List Jwk → List String
kids_of [] = []
kids_of (jwk ∷ jwks) = add_kid jwk.kid (kids_of jwks)

-- What a method returns or raises, the cache after it, and the requests that it made to the issuer.
pub record Run {ℓ} (K : Type ℓ) : Type ℓ where
  pub result : Result (Option K)
  pub cache : Cache K
  pub requests : ℕ

-- The surroundings of one refresh: the clock at its start and after its request, what the request
-- gives, and, for a caller that finds a refresh in progress, the cache when its wait ends
-- (`none` where the wait times out).
pub record Surroundings {ℓ} (K : Type ℓ) : Type ℓ where
  pub started : ℕ
  pub finished : ℕ
  pub download : Download
  pub woken : Option (Cache K)

module _ {ℓ} {K : Type ℓ} (import_key_set : List Jwk → Option K) where
  abbrev imported : List Jwk → Option K → Fetched K
  imported jwks none = failed key_unavailable
  imported jwks (some keys) = fetched keys (kids_of jwks)

  -- `_fetch`; `cached` is the key set that the cache holds
  unfoldable pub fetch : Option K → Download → Fetched K
  fetch cached (misconfigured message) = failed (permanent message)
  fetch cached request_failed = if is_some cached then failed transport else failed unavailable
  fetch cached unexpected = failed crash
  fetch cached malformed = failed key_unavailable
  fetch cached (document []) = failed key_unavailable
  fetch cached (document (jwk ∷ jwks)) = imported (jwk ∷ jwks) (import_key_set (jwk ∷ jwks))

-- A failure as the caller sees it where it is raised again with no keys cached. The error of the
-- request itself is none of this package (and `fetch` gives it only while keys are cached).
abbrev raised : Failure → AuthError
raised (permanent message) = issuer_misconfigured message
raised transport = unexpected_error
raised unavailable = issuer_unavailable
raised key_unavailable = issuer_key_unavailable
raised crash = unexpected_error

abbrev pub begun {ℓ} : {K : Type ℓ} → Cache K → Cache K
begun c = record c { refresh_in_progress = true }

module _ {ℓ} {K : Type ℓ} (s : Settings) where
  -- The part of `_refresh` before the request, once no refresh is in progress: an answer, or leave
  -- to make the request.
  unfoldable pub backoff_answer : Bool → ℕ → Cache K → Option (Result (Option K))
  unfolding serve_stale_or_raise
  backoff_answer require_fresh now c =
      if is_set c.refresh_failed_at && ltb now (c.refresh_failed_at + min (5 * s.second) s.ttl)
      then some (elim (c.permanent_error) [
        | some message ↦ err (issuer_misconfigured message)
        | none ↦
            if is_some c.key_set
            then (if require_fresh
                then err issuer_key_unavailable
                else serve_stale_or_raise s now c)
            else err issuer_unavailable
      ])
      else none

  -- The part of `_refresh` after the request, under the lock. `generation` is the one read before.
  unfoldable pub complete : Bool → ℕ → ℕ → Fetched K → Cache K → Result (Option K) × Cache K
  unfolding serve_stale_or_raise
  complete require_fresh now generation (failed (permanent message)) c = (
    err (issuer_misconfigured message),
    record c {
      refresh_failed_at = now;
      permanent_error = some message;
      refresh_in_progress = false;
    },
  )
  complete require_fresh now generation (failed crash) c = (
    err unexpected_error,
    record c { refresh_failed_at = now; permanent_error = none; refresh_in_progress = false },
  )
  complete require_fresh now generation (failed failure) c =
      let c' : Cache K = record c {
        refresh_failed_at = now;
        permanent_error = none;
        refresh_in_progress = false;
      } in
      (
        (if is_some c.key_set
            then (if require_fresh
                then err issuer_key_unavailable
                else serve_stale_or_raise s now c')
            else err (raised failure)),
        c',
      )
  complete require_fresh now generation (fetched keys kids) c =
      let c' : Cache K = record c {
        refresh_failed_at = 0;
        permanent_error = none;
        refresh_in_progress = false;
      } in
      let c'' : Cache K = record c' {
        key_set = some keys;
        known_kids = kids;
        fetched_at = now;
        refresh_generation = c.refresh_generation + 1;
      } in
      if generation == c.refresh_generation then (ok (some keys), c'') else (ok c.key_set, c')

  -- What `_await_in_progress_refresh` does once its wait has ended.
  abbrev after_wait : Bool → ℕ → Option (Cache K) → Result (Option K)
  after_wait require_fresh now none = err issuer_key_unavailable
  after_wait require_fresh now (some c) = elim (c.permanent_error) [
    | some message ↦ err (issuer_misconfigured message)
    | none ↦
        if not (is_some c.key_set)
        then err issuer_unavailable
        else if require_fresh && is_set c.refresh_failed_at
        then err issuer_key_unavailable
        else serve_stale_or_raise s now c
  ]

  unfoldable pub await_in_progress_refresh : Bool → Surroundings K → Cache K → Result (Option K)
  unfolding serve_stale_or_raise cached_keys_are_usable
  await_in_progress_refresh require_fresh w c = elim (c.permanent_error) [
    | some message ↦ err (issuer_misconfigured message)
    | none ↦
        if not require_fresh && cached_keys_are_usable s w.started c
        then ok c.key_set
        else after_wait require_fresh w.finished w.woken
  ]

-- How the first critical section of `_refresh` ends: another refresh is in progress, there is an answer,
-- or this caller makes the request, with the cache as it leaves it and the generation that it reads.
pub data Entrance {ℓ} (K : Type ℓ) : Type ℓ where
  waiting : Entrance K
  answered : Result (Option K) → Entrance K
  requesting : Cache K → ℕ → Entrance K

module _ {ℓ} {K : Type ℓ} (s : Settings) where
  abbrev pub unless_answered : Option (Result (Option K)) → Cache K → Entrance K
  unless_answered (some answer) c = answered answer
  unless_answered none c = requesting (begun c) c.refresh_generation

  unfoldable pub enter_refresh : Bool → ℕ → Cache K → Entrance K
  enter_refresh require_fresh now c =
      let free = unless_answered (backoff_answer s require_fresh now c) c in
      if c.refresh_in_progress then waiting else free

module _ {ℓ} {K : Type ℓ} (import_key_set : List Jwk → Option K) (s : Settings) where
  abbrev pub entered : Entrance K → Bool → Surroundings K → Cache K → Run K
  entered waiting require_fresh w c = record {
    result = await_in_progress_refresh s require_fresh w c;
    cache = or_default w.woken c;
    requests = 0;
  }
  entered (answered answer) require_fresh w c = record { result = answer; cache = c; requests = 0 }
  entered (requesting c' generation) require_fresh w c =
      let (result, after) =
        complete s require_fresh w.finished generation (fetch import_key_set c.key_set w.download)
          c' in
      record { result = result; cache = after; requests = 1 }

  -- `_refresh`. While this caller makes its request, no other changes the cache: see `Flight`.
  unfoldable pub refresh : Bool → Surroundings K → Cache K → Run K
  unfolding enter_refresh
  refresh require_fresh w c = entered (enter_refresh s require_fresh w.started c) require_fresh w c
