-- ===== src/Auth/Jwks/Bounds.antt =====
-- The negative cache of key ids: its size, and which entries go.
use reana_server.Prelude.{
  is_some, ℕ, ◌+◌, ◌-◌, ◌*◌, ◌≤◌, String, ◌≡◌, refl, Bool, true, false, Option, none, some, List,
  [], ◌∷◌, ◌≢◌, inl, inr, arith, ltb, leb, Bool-cases, not, ◌&&◌, eq_refl, Dict, lookup, erase,
  insert, length-insert, length-erase, length, take, All,
}
use reana_server.Auth.Errors.{Result-cases}
use reana_server.Auth.Jwks.{Settings, Cache, max_unknown_kids}
use reana_server.Auth.Jwks.Refresh.{Jwk, Surroundings, refresh}
use reana_server.Auth.Jwks.Lookup.{
  place, sorted_by_expiry, delete_all, evict, remember_unknown_kid, unexpired, Lookup, get_key_set,
  forced_refresh, resolve_unknown, resolve, get_key_set_for_kid,
}
use reana_server.Auth.Jwks.Refresh.{Fetched, complete, fetch, begun}

-- Every entry of `d` is an entry of `e`, as `lookup` finds it.
length-place : (e : String × ℕ) (d : Dict ℕ) → length (place e d) ≡ length d + 1
unfolding place
length-place e [] = omega arith
length-place e (x ∷ d) = ground (arith, length-place e d)

length-sorted_by_expiry : (d : Dict ℕ) → length (sorted_by_expiry d) ≡ length d
unfolding sorted_by_expiry
length-sorted_by_expiry [] = refl
length-sorted_by_expiry (x ∷ d) =
    omega (arith, length-place x (sorted_by_expiry d), length-sorted_by_expiry d)

-- The keys of the first list are keys of the second.
abbrev pub KeysOf : Dict ℕ → Dict ℕ → Type 0
KeysOf [] d = Unit
KeysOf ((k, _) ∷ e) d = (lookup k d ≢ none) × KeysOf e d

KeysOf-cons : (e d : Dict ℕ) (x : String × ℕ) → KeysOf e d → KeysOf e (x ∷ d)
unfolding lookup
KeysOf-cons [] d x h = tt
KeysOf-cons ((k, v) ∷ e) d x h = (ground arith, KeysOf-cons e d x h.1)

KeysOf-place : (x : String × ℕ) (e d : Dict ℕ) → KeysOf (x ∷ e) d → KeysOf (place x e) d
unfolding place
KeysOf-place x [] d h = h
KeysOf-place x (y ∷ e) d h = ground (arith, KeysOf-place x e d)

lookup_head : (x : String × ℕ) (d : Dict ℕ) → lookup x.0 (x ∷ d) ≢ none
unfolding lookup
lookup_head (k, v) d = ground (arith, eq_refl k)

KeysOf-sorted_by_expiry : (d : Dict ℕ) → KeysOf (sorted_by_expiry d) d
unfolding sorted_by_expiry
KeysOf-sorted_by_expiry [] = tt
KeysOf-sorted_by_expiry (x ∷ d) =
    KeysOf-place x (sorted_by_expiry d) (x ∷ d)
      (lookup_head x d, KeysOf-cons (sorted_by_expiry d) d x (KeysOf-sorted_by_expiry d))

-- No entry of `d` expires before `t`.
abbrev pub NoneBefore : ℕ → Dict ℕ → Type 0
NoneBefore t d = All (λ x. t ≤ x.1) d

NoneBefore-le : (t u : ℕ) (d : Dict ℕ) → t ≤ u → NoneBefore u d → NoneBefore t d
NoneBefore-le t u [] h n = tt
NoneBefore-le t u (x ∷ d) h n = (omega arith, NoneBefore-le t u d h n.1)

abbrev StartsSoonest : Dict ℕ → Dict ℕ → Type 0
StartsSoonest [] d = d ≡ []
StartsSoonest (y ∷ s) d = NoneBefore y.1 d

StartsSoonest-place :
    (x : String × ℕ) (s d : Dict ℕ) → StartsSoonest s d → StartsSoonest (place x s) (x ∷ d)
unfolding place
StartsSoonest-place x [] d h = rw h (omega arith)
StartsSoonest-place x (y ∷ s) d h = elim (Bool-cases (leb x.1 y.1)) [
  | inl e ↦ rw e (omega arith, NoneBefore-le x.1 y.1 d (ground arith) h)
  | inr e ↦ rw e (ground arith, h)
]

StartsSoonest-sorted : (d : Dict ℕ) → StartsSoonest (sorted_by_expiry d) d
unfolding sorted_by_expiry
StartsSoonest-sorted [] = refl
StartsSoonest-sorted (x ∷ d) = StartsSoonest-place x (sorted_by_expiry d) d (StartsSoonest-sorted d)

evict_within : (d : Dict ℕ) → length d ≤ max_unknown_kids → evict d ≡ d
unfolding evict
evict_within d h = rw (no_overflow d h)
  where
    no_overflow : (d : Dict ℕ) → length d ≤ max_unknown_kids → length d - max_unknown_kids ≡ 0
    no_overflow d h = omega arith

evict_head :
    (s d : Dict ℕ)
    → KeysOf s d
    → StartsSoonest s d
    → length s ≡ length d
    → length d ≡ max_unknown_kids + 1
    → (kid : String) × (t : ℕ) × (delete_all (take (length d - max_unknown_kids) s) d ≡ erase kid d)
      × (lookup kid d ≢ none)
      × NoneBefore t d
evict_head [] d keys soonest same h = absurd (omega arith)
evict_head ((kid, t) ∷ s) d keys soonest same h =
    let one : length d - max_unknown_kids ≡ 1 = omega arith in (kid, t, rw one, keys.0, soonest)

-- From a cache of unknown key ids that is one over its cap, one key goes, and no entry expires
-- before the one that goes.
pub evict_one :
    (d : Dict ℕ)
    → length d ≡ max_unknown_kids + 1
    → (kid : String) × (t : ℕ) × (evict d ≡ erase kid d) × (lookup kid d ≢ none) × NoneBefore t d
unfolding evict
evict_one d h =
    evict_head (sorted_by_expiry d) d (KeysOf-sorted_by_expiry d) (StartsSoonest-sorted d)
      (length-sorted_by_expiry d) h

length-evict : (d : Dict ℕ) → length d ≤ max_unknown_kids + 1 → length (evict d) ≤ max_unknown_kids
length-evict d h = elim (Bool-cases (leb (length d) max_unknown_kids)) [
  | inl e ↦ let fits : length d ≤ max_unknown_kids = ground arith in rw (evict_within d fits) fits
  | inr e ↦
      let over : length d ≡ max_unknown_kids + 1 = ground arith in
      let (kid, t, gone, there, _) = evict_one d over in
      rw gone (omega (arith, length-erase kid d there))
]

length-unexpired : (now : ℕ) (d : Dict ℕ) → length (unexpired now d) ≤ length d
unfolding unexpired
length-unexpired now [] = omega arith
length-unexpired now (x ∷ d) = ground (arith, length-unexpired now d)

module _ {ℓ} {K : Type ℓ} where
  abbrev pub IsBounded : Cache K → Type 0
  IsBounded c = length c.unknown_kids ≤ max_unknown_kids

  -- The cache that a waiting caller wakes up to.
  abbrev pub WakesBounded : Option (Cache K) → Type 0
  WakesBounded none = Unit
  WakesBounded (some c) = IsBounded c

  remember-IsBounded :
      (s : Settings) (kid : String) (now : ℕ) (c : Cache K)
      → IsBounded c
      → IsBounded (remember_unknown_kid s kid now c)
  unfolding remember_unknown_kid
  remember-IsBounded s kid now c h =
      length-evict (insert kid (now + 60 * s.second) c.unknown_kids)
        (omega (arith, length-insert kid (now + 60 * s.second) c.unknown_kids))

module _ {ℓ} {K : Type ℓ} (import_key_set : List Jwk → Option K) (s : Settings) where
  complete-unknown_kids :
      (require_fresh : Bool) (now generation : ℕ) (f : Fetched K) (c : Cache K)
      → (complete s require_fresh now generation f c).1.unknown_kids ≡ c.unknown_kids
  unfolding complete
  complete-unknown_kids require_fresh now generation f c = ground arith

  refresh-IsBounded :
      (require_fresh : Bool) (w : Surroundings K) (c : Cache K)
      → IsBounded c
      → WakesBounded w.woken
      → IsBounded (refresh import_key_set s require_fresh w c).cache
  unfolding refresh
  refresh-IsBounded require_fresh w c h k =
      let f = fetch import_key_set c.key_set w.download in
      ground
        (arith, complete-unknown_kids require_fresh w.finished c.refresh_generation f (begun c))

  get_key_set-IsBounded :
      (now : ℕ) (w : Surroundings K) (c : Cache K)
      → IsBounded c
      → WakesBounded w.woken
      → IsBounded (get_key_set import_key_set s now w c).cache
  unfolding get_key_set
  get_key_set-IsBounded now w c h k = ground (arith, refresh-IsBounded false w c h k)

  forced_refresh-IsBounded :
      (kid : String) (w : Lookup K) (n : ℕ) (c : Cache K)
      → IsBounded c
      → WakesBounded w.second.woken
      → IsBounded (forced_refresh import_key_set s kid w n c).cache
  unfolding forced_refresh
  forced_refresh-IsBounded kid w n c h k =
      let r = refresh import_key_set s true w.second c in
      let b = refresh-IsBounded true w.second c h k in
      ground (arith, b, remember-IsBounded s kid w.ended r.cache b)

  resolve_unknown-IsBounded :
      (kid : String) (w : Lookup K) (keys : Option K) (stale : Bool) (n : ℕ) (c : Cache K)
      → IsBounded c
      → WakesBounded w.second.woken
      → IsBounded (resolve_unknown import_key_set s kid w keys stale n c).cache
  unfolding resolve_unknown
  resolve_unknown-IsBounded kid w keys stale n c h k =
      let noted : Cache K = record c { last_unknown_kid_refresh = w.checked } in
      ground (
        arith,
        remember-IsBounded s kid w.checked noted h,
        forced_refresh-IsBounded kid w n noted h k,
      )

  resolve-IsBounded :
      (kid : Option String) (w : Lookup K) (keys : Option K) (stale : Bool) (n : ℕ) (c : Cache K)
      → IsBounded c
      → WakesBounded w.second.woken
      → IsBounded (resolve import_key_set s kid w keys stale n c).cache
  resolve-IsBounded none w keys stale n c h k = h
  resolve-IsBounded (some kid) w keys stale n c h k =
      ground (arith, resolve_unknown-IsBounded kid w keys stale n c h k)

  -- However many key ids tokens name, the cache remembers at most 256 that it does not know.
  pub get_key_set_for_kid-IsBounded :
      (kid : Option String) (w : Lookup K) (c : Cache K)
      → IsBounded c
      → WakesBounded w.first.woken
      → WakesBounded w.second.woken
      → IsBounded (get_key_set_for_kid import_key_set s kid w c).cache
  unfolding get_key_set_for_kid
  get_key_set_for_kid-IsBounded kid w c h k l =
      let r = get_key_set import_key_set s w.read w.first c in
      let b = get_key_set-IsBounded w.read w.first c h k in
      elim (Result-cases r.result) [
        | inl (e, wrong) ↦ rw (wrong, get_key_set_for_kid) b
        | inr (keys, found) ↦
            rw (found, get_key_set_for_kid)
              (resolve-IsBounded kid w keys
                (is_some c.key_set && not (ltb w.looked (c.fetched_at + s.ttl))) r.requests
                (record r.cache { unknown_kids = unexpired w.checked r.cache.unknown_kids })
                (omega (arith, length-unexpired w.checked r.cache.unknown_kids)) l)
      ]
