-- ===== src/Auth/Jwks/Lookup.antt =====
-- reana_server/auth/tokens.py: `get_key_set`, `get_key_set_for_kid` and `_remember_unknown_kid`.
use reana_server.Prelude.{
  is_some, ℕ, ◌+◌, ◌-◌, ◌*◌, String, Bool, true, false, not, ◌&&◌, ◌||◌, Option, none, some, List,
  [], ◌∷◌, ltb, leb, if◌then◌else◌, Dict, lookup, erase, insert, length, take,
}
use reana_server.Auth.Errors.{issuer_key_unavailable, unknown_key_healthy_backoff, Result, ok, err}
use reana_server.Auth.Jwks.{Settings, Cache, max_unknown_kids, is_set, is_fresh, is_named, knows}
use reana_server.Auth.Jwks.Refresh.{Jwk, Run, Surroundings, refresh}

abbrev min_unknown_kid_refresh_interval : Settings → ℕ
min_unknown_kid_refresh_interval s = 5 * s.second

abbrev unknown_kid_ttl : Settings → ℕ
unknown_kid_ttl s = 60 * s.second

-- `sorted(kids, key=kids.get)`: entries of equal expiry keep their order.
unfoldable pub place : String × ℕ → Dict ℕ → Dict ℕ
place entry [] = entry ∷ []
place entry (next ∷ rest) =
    let later = place entry rest in if leb entry.1 next.1 then entry ∷ next ∷ rest else next ∷ later

unfoldable pub sorted_by_expiry : Dict ℕ → Dict ℕ
unfolding place
sorted_by_expiry [] = []
sorted_by_expiry (entry ∷ rest) = place entry (sorted_by_expiry rest)

abbrev pub delete_all : Dict ℕ → Dict ℕ → Dict ℕ
delete_all [] kids = kids
delete_all ((kid, _) ∷ rest) kids = delete_all rest (erase kid kids)

-- The entries beyond the cap go, the soonest to expire first.
unfoldable pub evict : Dict ℕ → Dict ℕ
unfolding sorted_by_expiry
evict kids = delete_all (take (length kids - max_unknown_kids) (sorted_by_expiry kids)) kids

-- `_remember_unknown_kid`
unfoldable pub remember_unknown_kid {ℓ} : {K : Type ℓ} → Settings → String → ℕ → Cache K → Cache K
unfolding evict
remember_unknown_kid s kid now c = record c {
  unknown_kids = evict (insert kid (now + unknown_kid_ttl s) c.unknown_kids);
}

-- The entries that have not expired.
unfoldable pub unexpired : ℕ → Dict ℕ → Dict ℕ
unexpired now [] = []
unexpired now ((kid, expires_at) ∷ rest) =
    let later = unexpired now rest in
    if ltb now expires_at then (kid, expires_at) ∷ later else later

-- The surroundings of `get_key_set_for_kid`: the clock at its first look at the cache and at
-- that of `get_key_set`, the two refreshes, and the clock at its later looks.
pub record Lookup {ℓ} (K : Type ℓ) : Type ℓ where
  pub looked : ℕ
  pub read : ℕ
  pub first : Surroundings K
  pub checked : ℕ
  pub second : Surroundings K
  pub ended : ℕ

module _ {ℓ} {K : Type ℓ} (import_key_set : List Jwk → Option K) (s : Settings) where
  unfoldable pub get_key_set : ℕ → Surroundings K → Cache K → Run K
  get_key_set now w c =
      if is_fresh s now c
      then record { result = ok c.key_set; cache = c; requests = 0 }
      else refresh import_key_set s false w c

  abbrev answered : Result (Option K) → Cache K → ℕ → Run K
  answered r c n = record { result = r; cache = c; requests = n }

  -- A key that the issuer was not asked for again: an error if the last refresh failed.
  abbrev unless_failed : Option K → Cache K → Result (Option K)
  unless_failed keys c = if is_set c.refresh_failed_at then err issuer_key_unavailable else ok keys

  -- The forced refresh for a kid that is not known, and the note that it is still unknown.
  unfoldable pub forced_refresh : String → Lookup K → ℕ → Cache K → Run K
  forced_refresh kid w n c =
      let r = refresh import_key_set s true w.second c in
      elim (r.result) [
        | err e ↦ answered (err e) r.cache (n + r.requests)
        | ok keys ↦
            answered (ok keys)
              (if knows r.cache.known_kids (some kid)
                then r.cache
                else remember_unknown_kid s kid w.ended r.cache)
              (n + r.requests)
      ]

  -- What follows for a kid that is neither empty nor in the key set, given the keys of
  -- `get_key_set`, whether they were there before and had been stale, and its requests.
  unfoldable pub resolve_unknown : String → Lookup K → Option K → Bool → ℕ → Cache K → Run K
  resolve_unknown kid w keys stale n c =
      let now = w.checked in
      let rushed = c.last_unknown_kid_refresh + min_unknown_kid_refresh_interval s in
      let noted : Cache K = record c { last_unknown_kid_refresh = now } in
      if is_some (lookup kid c.unknown_kids)
      then answered (unless_failed keys c) c n
      else if is_set c.last_unknown_kid_refresh && ltb now rushed
      then answered
          (err (
            if is_set c.refresh_failed_at
            then issuer_key_unavailable
            else unknown_key_healthy_backoff))
          c n
      else if stale
      then answered (unless_failed keys c) (remember_unknown_kid s kid now noted) n
      else forced_refresh kid w n noted

  abbrev pub resolve : Option String → Lookup K → Option K → Bool → ℕ → Cache K → Run K
  resolve none w keys stale n c = answered (ok keys) c n
  resolve (some kid) w keys stale n c =
      if not (is_named (some kid)) || knows c.known_kids (some kid)
      then answered (ok keys) c n
      else resolve_unknown kid w keys stale n c

  unfoldable pub get_key_set_for_kid : Option String → Lookup K → Cache K → Run K
  get_key_set_for_kid kid w c =
      let stale = is_some c.key_set && not (ltb w.looked (c.fetched_at + s.ttl)) in
      let r = get_key_set w.read w.first c in
      elim (r.result) [
        | err e ↦ answered (err e) r.cache r.requests
        | ok keys ↦
            resolve kid w keys stale r.requests
              (record r.cache { unknown_kids = unexpired w.checked r.cache.unknown_kids })
      ]
