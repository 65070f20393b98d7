-- ===== src/Auth/Jwks/RateLimit.antt =====
-- A flood of unknown key ids: how many requests it can make of the issuer.
use reana_server.Prelude.{
  is_some, ℕ, ◌+◌, ◌*◌, ◌≤◌, ◌<◌, String, ◌≡◌, refl, true, false, Option, none, some, List, [], ◌∷◌,
  ◌⊎◌, inl, inr, arith, ltb, All,
}
use reana_server.Auth.Errors.{ok}
use reana_server.Auth.Jwks.{Settings, Cache}
use reana_server.Auth.Jwks.Refresh.{Jwk, Surroundings, refresh, complete}
use reana_server.Auth.Jwks.Lookup.{
  Lookup, get_key_set, remember_unknown_kid, forced_refresh, resolve_unknown, resolve,
  get_key_set_for_kid, unexpired,
}

module _ {ℓ} {K : Type ℓ} (import_key_set : List Jwk → Option K) (s : Settings) where
  -- One lookup after another.
  unfoldable pub lookups : List (Option String × Lookup K) → Cache K → ℕ × Cache K
  lookups [] c = (0, c)
  lookups ((kid, w) ∷ rest) c =
      let r = get_key_set_for_kid import_key_set s kid w c in
      let (n, c') = lookups rest r.cache in (r.requests + n, c')

  -- The clock readings of a lookup lie in the five seconds from `t`.
  pub record InWindow (t : ℕ) (w : Lookup K) : Type 0 where
    pub looked : w.looked < t + 5 * s.second
    pub read : w.read < t + 5 * s.second
    pub checked_from : t ≤ w.checked
    pub checked : w.checked < t + 5 * s.second
    pub finished_from : t ≤ w.second.finished

  -- The keys stay fresh until the window closes, and no refresh is in progress.
  pub record IsSettled (t : ℕ) (c : Cache K) : Type 0 where
    pub idle : c.refresh_in_progress ≡ false
    pub there : is_some c.key_set ≡ true
    pub fresh : t + 5 * s.second ≤ c.fetched_at + s.ttl

  -- An unknown key id has been looked for since `t`.
  abbrev pub WasAsked : ℕ → Cache K → Type 0
  WasAsked t c = t ≤ c.last_unknown_kid_refresh

  refresh-IsSettled :
      (t : ℕ) (w : Surroundings K) (c : Cache K)
      → 5 * s.second ≤ s.ttl
      → t ≤ w.finished
      → IsSettled t c
      → IsSettled t (refresh import_key_set s true w c).cache
        × ((refresh import_key_set s true w c).cache.last_unknown_kid_refresh
            ≡ c.last_unknown_kid_refresh)
        × ((refresh import_key_set s true w c).requests ≤ 1)
  unfolding refresh complete
  refresh-IsSettled t w c le from h = ground arith

  remember-IsSettled :
      (t : ℕ) (kid : String) (now : ℕ) (c : Cache K)
      → IsSettled t c
      → IsSettled t (remember_unknown_kid s kid now c)
        × ((remember_unknown_kid s kid now c).last_unknown_kid_refresh ≡ c.last_unknown_kid_refresh)
  unfolding remember_unknown_kid
  remember-IsSettled t kid now c h = ground arith

  forced_refresh-IsSettled :
      (t : ℕ) (kid : String) (w : Lookup K) (n : ℕ) (c : Cache K)
      → 5 * s.second ≤ s.ttl
      → InWindow t w
      → IsSettled t c
      → IsSettled t (forced_refresh import_key_set s kid w n c).cache
        × ((forced_refresh import_key_set s kid w n c).cache.last_unknown_kid_refresh
            ≡ c.last_unknown_kid_refresh)
        × ((forced_refresh import_key_set s kid w n c).requests ≤ n + 1)
  unfolding forced_refresh
  forced_refresh-IsSettled t kid w n c le win h =
      let r = refresh import_key_set s true w.second c in
      let (settled, same, few) = refresh-IsSettled t w.second c le win.finished_from h in
      ground (arith, settled, same, few, remember-IsSettled t kid w.ended r.cache settled)

  -- With fresh keys, `get_key_set` neither asks nor changes anything.
  get_key_set-fresh :
      (t now : ℕ) (w : Surroundings K) (c : Cache K)
      → IsSettled t c
      → now < t + 5 * s.second
      → get_key_set import_key_set s now w c
        ≡ record { result = ok c.key_set; cache = c; requests = 0 }
  unfolding get_key_set
  get_key_set-fresh t now w c h lt =
      let young : ltb now (c.fetched_at + s.ttl) ≡ true = ground arith in rw (h.there, young)

  resolve_unknown-limited :
      (t : ℕ) (kid : String) (w : Lookup K) (keys : Option K) (c : Cache K)
      → 0 < t
      → 5 * s.second ≤ s.ttl
      → InWindow t w
      → IsSettled t c
      → let r = resolve_unknown import_key_set s kid w keys false 0 c in
        IsSettled t r.cache
        × (r.requests ≤ 1)
        × ((r.requests ≡ 0) ⊎ WasAsked t r.cache)
        × (WasAsked t c → (r.requests ≡ 0) × WasAsked t r.cache)
  unfolding resolve_unknown
  resolve_unknown-limited t kid w keys c pos le win h =
      let noted : Cache K = record c { last_unknown_kid_refresh = w.checked } in
      let settled : IsSettled t noted = ground arith in
      ground (arith, forced_refresh-IsSettled t kid w 0 noted le win settled)

  unexpired-IsSettled :
      (t now : ℕ) (c : Cache K)
      → IsSettled t c
      → IsSettled t (record c { unknown_kids = unexpired now c.unknown_kids })
  unexpired-IsSettled t now c h = record { idle = h.idle; there = h.there; fresh = h.fresh }

  resolve-limited :
      (t : ℕ) (kid : Option String) (w : Lookup K) (keys : Option K) (c : Cache K)
      → 0 < t
      → 5 * s.second ≤ s.ttl
      → InWindow t w
      → IsSettled t c
      → let r = resolve import_key_set s kid w keys false 0 c in
        IsSettled t r.cache
        × (r.requests ≤ 1)
        × ((r.requests ≡ 0) ⊎ WasAsked t r.cache)
        × (WasAsked t c → (r.requests ≡ 0) × WasAsked t r.cache)
  resolve-limited t none w keys c pos le win h = (h, omega arith, inl refl, λ a. (refl, a))
  resolve-limited t (some kid) w keys c pos le win h =
      ground (arith, resolve_unknown-limited t kid w keys c pos le win h)

  -- With fresh keys a lookup comes down to what it does about the key id.
  get_key_set_for_kid-fresh :
      (t : ℕ) (kid : Option String) (w : Lookup K) (c : Cache K)
      → InWindow t w
      → IsSettled t c
      → get_key_set_for_kid import_key_set s kid w c
        ≡ resolve import_key_set s kid w c.key_set false 0
            (record c { unknown_kids = unexpired w.checked c.unknown_kids })
  unfolding get_key_set_for_kid
  get_key_set_for_kid-fresh t kid w c win h =
      let young : ltb w.looked (c.fetched_at + s.ttl) ≡ true = ground arith in
      let same = get_key_set-fresh t w.read w.first c h win.read in
      rw (same, h.there, young, get_key_set_for_kid) (rw same)

  lookup-limited :
      (t : ℕ) (kid : Option String) (w : Lookup K) (c : Cache K)
      → 0 < t
      → 5 * s.second ≤ s.ttl
      → InWindow t w
      → IsSettled t c
      → let r = get_key_set_for_kid import_key_set s kid w c in
        IsSettled t r.cache
        × (r.requests ≤ 1)
        × ((r.requests ≡ 0) ⊎ WasAsked t r.cache)
        × (WasAsked t c → (r.requests ≡ 0) × WasAsked t r.cache)
  lookup-limited t kid w c pos le win h =
      let c' : Cache K = record c { unknown_kids = unexpired w.checked c.unknown_kids } in
      rw (get_key_set_for_kid-fresh t kid w c win h)
        (resolve-limited t kid w c.key_set c' pos le win (unexpired-IsSettled t w.checked c h))

  lookups_asked :
      (t : ℕ) (ws : List (Option String × Lookup K)) (c : Cache K)
      → 0 < t
      → 5 * s.second ≤ s.ttl
      → All (λ w. InWindow t w.1) ws
      → IsSettled t c
      → WasAsked t c
      → (lookups ws c).0 ≡ 0
  unfolding lookups
  lookups_asked t [] c pos le wins h asked = refl
  lookups_asked t ((kid, w) ∷ ws) c pos le wins h asked =
      let r = get_key_set_for_kid import_key_set s kid w c in
      let (settled, few, either, quiet) = lookup-limited t kid w c pos le wins.0 h in
      let (none_made, still) = quiet asked in
      omega (arith, none_made, lookups_asked t ws r.cache pos le wins.1 settled still)

  -- While the cached keys are fresh and no refresh is in progress at first, all lookups of five
  -- seconds together, one after another, whatever key ids they name, make at most one request of the
  -- issuer.
  pub lookups-limited :
      (t : ℕ) (ws : List (Option String × Lookup K)) (c : Cache K)
      → 0 < t
      → 5 * s.second ≤ s.ttl
      → All (λ w. InWindow t w.1) ws
      → IsSettled t c
      → (lookups ws c).0 ≤ 1
  unfolding lookups
  lookups-limited t [] c pos le wins h = omega arith
  lookups-limited t ((kid, w) ∷ ws) c pos le wins h =
      let r = get_key_set_for_kid import_key_set s kid w c in
      let (settled, few, either, quiet) = lookup-limited t kid w c pos le wins.0 h in
      elim either [
        | inl nothing ↦ omega (arith, nothing, lookups-limited t ws r.cache pos le wins.1 settled)
        | inr asked ↦ omega (arith, few, lookups_asked t ws r.cache pos le wins.1 settled asked)
      ]
