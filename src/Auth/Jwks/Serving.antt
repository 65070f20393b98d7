-- ===== src/Auth/Jwks/Serving.antt =====
-- Which keys the cache serves, and which errors it remembers.
use Prim.Native.Nat.{min}
use reana_server.Prelude.{
  ℕ, ◌+◌, ◌*◌, ◌≤◌, ◌<◌, String, ◌≡◌, Bool, true, false, Option, none, some, List, ◌≢◌, ◌⊎◌, ◌↔◌,
  arith,
}
use reana_server.Auth.Errors.{ok, err, issuer_misconfigured}
use reana_server.Auth.Jwks.{
  Settings, Cache, is_fresh, is_unavailable, is_named, knows, get_cached_key_set_for_local_kid,
}
use reana_server.Auth.Jwks.Refresh.{
  Jwk, misconfigured, Surroundings, refresh, Fetched, complete, fetch, begun, backoff_answer,
}
use reana_server.Auth.Jwks.Lookup.{get_key_set}

module _ {ℓ} {K : Type ℓ} (s : Settings) where
  -- The keys are those of the cache, and inside the grace period at `now`.
  pub record IsServed (now : ℕ) (o : Option K) (c : Cache K) : Type ℓ where
    pub cached : c.key_set ≡ o
    pub there : o ≢ none
    pub within : now < c.fetched_at + (s.ttl + s.stale_grace)

  complete-IsServed :
      (now : ℕ) (f : Fetched K) (c : Cache K) (o : Option K)
      → 0 < s.ttl + s.stale_grace
      → (complete s false now c.refresh_generation f c).0 ≡ ok o
      → IsServed now o (complete s false now c.refresh_generation f c).1
  unfolding complete
  complete-IsServed now f c o pos h = ground arith

  backoff_answer-IsServed :
      (now : ℕ) (c : Cache K) (o : Option K)
      → backoff_answer s false now c ≡ some (ok o)
      → IsServed now o c
  unfolding backoff_answer
  backoff_answer-IsServed now c o h = ground arith

  -- Local validation has keys exactly while the cached ones are fresh and the token names no key
  -- or one of them; it never asks the issuer.
  pub get_cached_key_set_for_local_kid_iff :
      (now : ℕ) (kid : Option String) (c : Cache K) (o : Option K)
      → (get_cached_key_set_for_local_kid s now kid c ≡ ok o) ↔ (
          (is_fresh s now c ≡ true)
          × ((is_named kid ≡ false) ⊎ (knows c.known_kids kid ≡ true))
          × (o ≡ c.key_set))
  unfolding get_cached_key_set_for_local_kid
  get_cached_key_set_for_local_kid_iff now kid c o = ground arith

module _ {ℓ} {K : Type ℓ} (import_key_set : List Jwk → Option K) (s : Settings) where
  -- Keys that `get_key_set` returns, with no other refresh in progress, are the cached ones, and
  -- younger than the time to live and the grace period together: when the request to the issuer
  -- has ended if it made one, and when it was called if not.
  pub get_key_set-IsServed :
      (now : ℕ) (w : Surroundings K) (c : Cache K) (o : Option K)
      → c.refresh_in_progress ≡ false
      → 0 < s.ttl + s.stale_grace
      → now ≤ w.started
      → (get_key_set import_key_set s now w c).result ≡ ok o
      → (((get_key_set import_key_set s now w c).requests ≡ 1)
          × IsServed s w.finished o (get_key_set import_key_set s now w c).cache)
        ⊎ (((get_key_set import_key_set s now w c).requests ≡ 0)
            × IsServed s now o (get_key_set import_key_set s now w c).cache)
  unfolding get_key_set refresh
  get_key_set-IsServed now w c o idle pos le h =
      let f = fetch import_key_set c.key_set w.download in
      ground (
        arith,
        complete-IsServed s w.finished f (begun c) o pos,
        backoff_answer-IsServed s w.started c o,
      )

  -- What a misconfigured issuer leaves in the cache.
  record Remembers (message : String) (at : ℕ) (c : Cache K) : Type 0 where
    failed : c.refresh_failed_at ≡ at
    error : c.permanent_error ≡ some message
    idle : c.refresh_in_progress ≡ false

  refresh-Remembers :
      (insist : Bool) (w : Surroundings K) (c : Cache K) (message : String)
      → (refresh import_key_set s insist w c).requests ≡ 1
      → w.download ≡ misconfigured message
      → Remembers message w.finished (refresh import_key_set s insist w c).cache
  unfolding refresh fetch complete
  refresh-Remembers insist w c message once bad = ground arith

  refresh_of_Remembers :
      (insist : Bool) (w : Surroundings K) (c : Cache K) (message : String) (at : ℕ)
      → Remembers message at c
      → 0 < at
      → w.started < at + min (5 * s.second) s.ttl
      → ((refresh import_key_set s insist w c).result ≡ err (issuer_misconfigured message))
        × ((refresh import_key_set s insist w c).requests ≡ 0)
  unfolding refresh backoff_answer
  refresh_of_Remembers insist w c message at h pos soon = ground arith

  is_unavailable_of_Remembers :
      (c : Cache K) (message : String) (at now : ℕ)
      → Remembers message at c
      → is_unavailable s now c ≡ true
  unfolding is_unavailable
  is_unavailable_of_Remembers c message at now h = ground arith

  -- After a refresh that found the issuer misconfigured, every refresh that starts inside the
  -- backoff fails with the same error and asks the issuer nothing, whether it insists on fresh
  -- keys or not and whatever is cached; and the cache reports itself unavailable.
  pub refresh-misconfigured :
      (insist insist' : Bool) (w w' : Surroundings K) (c : Cache K) (message : String) (now : ℕ)
      → (refresh import_key_set s insist w c).requests ≡ 1
      → w.download ≡ misconfigured message
      → 0 < w.finished
      → w'.started < w.finished + min (5 * s.second) s.ttl
      → let c' = (refresh import_key_set s insist w c).cache in
        ((refresh import_key_set s insist' w' c').result ≡ err (issuer_misconfigured message))
        × ((refresh import_key_set s insist' w' c').requests ≡ 0)
        × (is_unavailable s now c' ≡ true)
  refresh-misconfigured insist insist' w w' c message now once bad pos soon =
      let c' = (refresh import_key_set s insist w c).cache in
      let h = refresh-Remembers insist w c message once bad in
      let (result, none_made) = refresh_of_Remembers insist' w' c' message w.finished h pos soon in
      (result, none_made, is_unavailable_of_Remembers c' message w.finished now h)
