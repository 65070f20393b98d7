-- ===== src/Auth/Jwks/Flight.antt =====
-- Many threads at one cache: the critical sections of `_refresh`, and the requests between them, in
-- any order.
use reana_server.Prelude.{
  ℕ, ◌≤◌, String, ◌≡◌, Bool, true, false, Option, some, List, [], ◌∷◌, ◌++◌, arith, sym, ◌∙◌, inl,
  inr, Bool-cases, if◌then◌else◌, Dict, length,
}
use reana_server.Auth.Errors.{ok}
use reana_server.Auth.Jwks.{Settings, Cache}
use reana_server.Auth.Jwks.Refresh.{
  Jwk, Download, Fetched, fetched, fetch, complete, begun, requesting, enter_refresh,
}

-- The cache, and for each request under way the generation that its thread has read.
pub record Flight {ℓ} (K : Type ℓ) : Type ℓ where
  pub cache : Cache K
  pub flights : List ℕ

module _ {ℓ} {K : Type ℓ} (import_key_set : List Jwk → Option K) (s : Settings) where
  -- `begin` and `finish` are the two critical sections of `_refresh`; `note` is what a lookup
  -- writes between them about key ids.
  pub data Step (x y : Flight K) : Type ℓ where
    begin :
        (insist : Bool) (now generation : ℕ)
        → enter_refresh s insist now x.cache ≡ requesting y.cache generation
        → y.flights ≡ generation ∷ x.flights
        → Step x y
    finish :
        (insist : Bool) (now generation : ℕ) (cached : Option K) (download : Download)
        (before after : List ℕ)
        → x.flights ≡ before ++ generation ∷ after
        → y.cache
          ≡ (complete s insist now generation (fetch import_key_set cached download) x.cache).1
        → y.flights ≡ before ++ after
        → Step x y
    note :
        (kids : Dict ℕ) (last : ℕ)
        → y.cache ≡ record x.cache { unknown_kids = kids; last_unknown_kid_refresh = last }
        → y.flights ≡ x.flights
        → Step x y

  pub data Reach (x : Flight K) : Flight K → Type ℓ where
    here : Reach x x
    next : {y z : Flight K} → Reach x y → Step y z → Reach x z

-- One request while a refresh is in progress, of the present generation, and none otherwise.
abbrev pub IsSingle {ℓ} : {K : Type ℓ} → Flight K → Type 0
IsSingle x =
    x.flights ≡ (if x.cache.refresh_in_progress then x.cache.refresh_generation ∷ [] else [])

complete_ends {ℓ} :
    {K : Type ℓ} (s : Settings) (insist : Bool) (now generation : ℕ) (f : Fetched K) (c : Cache K)
    → (complete s insist now generation f c).1.refresh_in_progress ≡ false
unfolding complete
complete_ends s insist now generation f c = ground arith

no_flight : (before : List ℕ) (g : ℕ) (after : List ℕ) → ¬ ([] ≡ before ++ g ∷ after)
no_flight [] g after e = cc
no_flight (b ∷ bs) g after e = cc

split_of_one :
    (g h : ℕ) (before after : List ℕ)
    → g ∷ [] ≡ before ++ h ∷ after
    → (before ≡ []) × (after ≡ []) × (g ≡ h)
split_of_one g h [] after e = ground arith
split_of_one g h (b ∷ []) after e = ground arith
split_of_one g h (b ∷ b' ∷ bs) after e = ground arith

-- The request that ends is the one of a single flight.
the_flight {ℓ} :
    {K : Type ℓ} (x : Flight K) (g : ℕ) (before after : List ℕ)
    → IsSingle x
    → x.flights ≡ before ++ g ∷ after
    → (before ≡ [])
      × (after ≡ [])
      × (x.cache.refresh_generation ≡ g)
      × (x.cache.refresh_in_progress ≡ true)
the_flight x g before after h e = elim (Bool-cases x.cache.refresh_in_progress) [
  | inl busy ↦
      let one : x.flights ≡ x.cache.refresh_generation ∷ [] = ground arith in
      let (b, a, same) = split_of_one x.cache.refresh_generation g before after (sym one ∙ e) in
      (b, a, same, busy)
  | inr idle ↦
      let empty : x.flights ≡ [] = ground arith in absurd (no_flight before g after (sym empty ∙ e))
]

-- Only a caller that finds no refresh in progress makes a request.
enter_refresh-requesting {ℓ} :
    {K : Type ℓ} (s : Settings) (insist : Bool) (now g : ℕ) (c after : Cache K)
    → enter_refresh s insist now c ≡ requesting after g
    → (c.refresh_in_progress ≡ false) × (after ≡ begun c) × (g ≡ c.refresh_generation)
unfolding enter_refresh
enter_refresh-requesting s insist now g c after e = ground (arith, e)

module _ {ℓ} {K : Type ℓ} (import_key_set : List Jwk → Option K) (s : Settings) where
  Step-IsSingle : (x y : Flight K) → Step import_key_set s x y → IsSingle x → IsSingle y
  Step-IsSingle x y (begin insist now g e f) h =
      let (idle, cache, generation) = enter_refresh-requesting s insist now g x.cache y.cache e in
      rw cache (ground (arith, idle, generation, f, h))
  Step-IsSingle x y (finish insist now g cached download before after e ec ef) h =
      let (b, a, _, _) = the_flight x g before after h e in
      let ends = complete_ends s insist now g (fetch import_key_set cached download) x.cache in
      rw (ec, ends, ef, b, a)
  Step-IsSingle x y (note kids last e f) h = ground arith

  Reach-IsSingle : {x y : Flight K} → IsSingle x → Reach import_key_set s x y → IsSingle y
  Reach-IsSingle h here = h
  Reach-IsSingle h (next r st) = Step-IsSingle _ _ st (Reach-IsSingle h r)

  -- Whatever the order in which threads enter and leave `_refresh`, at most one request to the
  -- issuer is under way.
  pub single_flight :
      (x y : Flight K) → IsSingle x → Reach import_key_set s x y → length y.flights ≤ 1
  single_flight x y h r = let single = Reach-IsSingle h r in ground arith

  -- A thread whose request brings keys finds the generation that it read, in whatever order threads
  -- run: it stores its keys and the time, and returns them; the comparison of generations never
  -- fails.
  pub flight-stores :
      (x y : Flight K) (insist : Bool) (now g : ℕ) (keys : K) (kids : List String)
      (before after : List ℕ)
      → IsSingle x
      → Reach import_key_set s x y
      → y.flights ≡ before ++ g ∷ after
      → ((complete s insist now g (fetched keys kids) y.cache).0 ≡ ok (some keys))
        × ((complete s insist now g (fetched keys kids) y.cache).1.key_set ≡ some keys)
        × ((complete s insist now g (fetched keys kids) y.cache).1.known_kids ≡ kids)
        × ((complete s insist now g (fetched keys kids) y.cache).1.fetched_at ≡ now)
  unfolding complete
  flight-stores x y insist now g keys kids before after h r e =
      let (_, _, same, _) = the_flight y g before after (Reach-IsSingle h r) e in ground arith
