-- ===== src/Auth/Jwks.antt =====
-- reana_server/auth/tokens.py: the state of `JWKSCache`, and the methods that only read it. Times are counts of ticks of one clock, `second` ticks to
-- the second; an attribute that starts at 0.0 and is tested for truth is unset while it is 0. A
-- difference that the source compares, `now - t < d`, is written `now < t + d`.
pub mod Refresh
pub mod Lookup
pub mod Bounds
mod Tests
pub mod Flight
pub mod RateLimit
pub mod Serving
use reana_server.Prelude.{
  ℕ, zero, suc, ◌+◌, ◌-◌, ◌*◌, String, Bool, true, false, not, ◌&&◌, ◌||◌, Option, none, some, List,
  [], ◌∷◌, ltb, leb, ◌==◌, if◌then◌else◌, is_some, str_eq, contains, Dict, lookup, erase, insert,
  length, take,
}
use reana_server.Auth.Errors.{
  AuthError, issuer_unavailable, issuer_key_unavailable, unknown_key_healthy_backoff,
  issuer_misconfigured, invalid_token, Result, ok, err,
}
use Prim.Native.Nat.{min}

pub record Settings : Type 0 where
  pub second : ℕ
  pub ttl : ℕ
  pub stale_grace : ℕ

-- The attributes of the cache; `K` is authlib's key set.
pub record Cache {ℓ} (K : Type ℓ) : Type ℓ where
  pub key_set : Option K
  pub known_kids : List String
  pub unknown_kids : Dict ℕ
  pub fetched_at : ℕ
  pub last_unknown_kid_refresh : ℕ
  pub refresh_failed_at : ℕ
  pub permanent_error : Option String
  pub refresh_in_progress : Bool
  pub refresh_generation : ℕ

abbrev pub max_unknown_kids : ℕ
max_unknown_kids = 256

-- A number or a text that Python takes for true.
abbrev pub is_set : ℕ → Bool
is_set zero = false
is_set (suc n) = true

-- `_cached_keys_are_usable`
unfoldable pub cached_keys_are_usable {ℓ} : {K : Type ℓ} → Settings → ℕ → Cache K → Bool
cached_keys_are_usable s now c =
    is_some c.key_set && ltb now (c.fetched_at + (s.ttl + s.stale_grace))

-- `_serve_stale_or_raise`
unfoldable pub serve_stale_or_raise {ℓ} : {K : Type ℓ} → Settings → ℕ → Cache K → Result (Option K)
unfolding cached_keys_are_usable
serve_stale_or_raise s now c = elim (c.permanent_error) [
  | some message ↦ err (issuer_misconfigured message)
  | none ↦ if cached_keys_are_usable s now c then ok c.key_set else err issuer_key_unavailable
]

-- `is_unavailable`
unfoldable pub is_unavailable {ℓ} : {K : Type ℓ} → Settings → ℕ → Cache K → Bool
unfolding cached_keys_are_usable
is_unavailable s now c =
    is_some c.permanent_error || is_set c.refresh_failed_at && not (cached_keys_are_usable s now c)

abbrev is_fresh {ℓ} : {K : Type ℓ} → Settings → ℕ → Cache K → Bool
is_fresh s now c = is_some c.key_set && ltb now (c.fetched_at + s.ttl)

-- `get_cached_key_set_for_local_kid`; a missing and an empty `kid` are both false
abbrev is_named : Option String → Bool
is_named none = false
is_named (some kid) = not (str_eq kid "")

abbrev knows : List String → Option String → Bool
knows kids none = false
knows kids (some kid) = contains kids kid

unfoldable pub get_cached_key_set_for_local_kid {ℓ} :
    {K : Type ℓ} → Settings → ℕ → Option String → Cache K → Result (Option K)
get_cached_key_set_for_local_kid s now kid c =
    if not (is_some c.key_set) || not (ltb now (c.fetched_at + s.ttl))
    then err invalid_token
    else if is_named kid && not (knows c.known_kids kid)
    then err invalid_token
    else ok c.key_set
