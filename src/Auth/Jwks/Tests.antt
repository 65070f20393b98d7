-- ===== src/Auth/Jwks/Tests.antt =====
-- The key cache at concrete clocks and documents, and its theorems there.
use reana_server.Prelude.{
  ℕ, zero, suc, ◌≤◌, String, ◌≡◌, refl, true, false, Option, none, some, List, [], ◌∷◌, ◌⊎◌, arith,
  Dict, lookup, insert, length,
}
use reana_server.Auth.Errors.{ok, err, unknown_key_healthy_backoff}
use reana_server.Auth.Jwks.{Settings, Cache}
use reana_server.Auth.Jwks.Refresh.{
  enter_refresh, Jwk, document, misconfigured, request_failed, Surroundings, refresh, fetch,
  complete, backoff_answer, begun,
}
use reana_server.Auth.Jwks.Lookup.{
  Lookup, get_key_set, get_key_set_for_kid, resolve_unknown, forced_refresh, remember_unknown_kid,
  unexpired,
}
use reana_server.Auth.Jwks.Bounds.{IsBounded, get_key_set_for_kid-IsBounded}
use reana_server.Auth.Jwks.Serving.{IsServed, get_key_set-IsServed}
use reana_server.Auth.Jwks.RateLimit.{lookups, InWindow, lookups-limited}
use reana_server.Auth.Jwks.Flight.{Flight, Reach, begin, here, next, single_flight}

jwks : Unit {0}
unfolding refresh fetch complete backoff_answer get_key_set get_key_set_for_kid resolve_unknown
    forced_refresh remember_unknown_kid unexpired insert lookup
jwks = tt

abbrev settings : Settings
settings = record { second = 10; ttl = 1000; stale_grace = 500 }

abbrev import_key_set : List Jwk → Option String
import_key_set keys = some "imported"

abbrev empty : Cache String
empty = record {
  key_set = none;
  known_kids = [];
  unknown_kids = [];
  fetched_at = 0;
  last_unknown_kid_refresh = 0;
  refresh_failed_at = 0;
  permanent_error = none;
  refresh_in_progress = false;
  refresh_generation = 0;
}

abbrev warm : Cache String
warm = record empty { key_set = some "cached"; known_kids = "a" ∷ []; fetched_at = 100 }

abbrev two_keys : List Jwk
two_keys = record { kid = some "a" } ∷ record { kid = some "b" } ∷ []

abbrev good : Surroundings String
good = record { started = 210; finished = 220; download = document two_keys; woken = none }

abbrev bad : Surroundings String
bad = record good { download = misconfigured "no jwks_uri" }

abbrev look : Lookup String
look = record { looked = 200; read = 201; first = good; checked = 205; second = good; ended = 221 }

lookup_tests :
    ((get_key_set_for_kid import_key_set settings (some "a") look warm).result ≡ ok (some "cached"))
    × ((get_key_set_for_kid import_key_set settings (some "b") look warm).result
        ≡ ok (some "imported"))
    × ((get_key_set_for_kid import_key_set settings (some "c") look warm).cache.unknown_kids
        ≡ ("c", 821) ∷ [])
    × ((get_key_set_for_kid import_key_set settings
          (some "c")
          look
          (record warm { last_unknown_kid_refresh = 190 })).result
        ≡ err unknown_key_healthy_backoff)
unfolding jwks
lookup_tests = (refl, refl, refl, refl)

get_key_set_for_kid-IsBounded_example :
    IsBounded (get_key_set_for_kid import_key_set settings (some "c") look warm).cache
get_key_set_for_kid-IsBounded_example =
    get_key_set_for_kid-IsBounded import_key_set settings (some "c") look warm (omega arith) tt tt

fill : ℕ → Dict ℕ
fill zero = []
fill (suc n) = ("k", n) ∷ fill n

length-fill : (n : ℕ) → length (fill n) ≡ n
unfolding fill
length-fill zero = refl
length-fill (suc n) = omega (arith, length-fill n)

abbrev late : Surroundings String
late = record { started = 1210; finished = 1220; download = request_failed; woken = none }

get_key_set-IsServed_example :
    (((get_key_set import_key_set settings 1205 late warm).requests ≡ 1)
      × IsServed settings 1220
          (some "cached")
          (get_key_set import_key_set settings 1205 late warm).cache)
    ⊎ (((get_key_set import_key_set settings 1205 late warm).requests ≡ 0)
        × IsServed settings 1205
            (some "cached")
            (get_key_set import_key_set settings 1205 late warm).cache)
unfolding jwks
get_key_set-IsServed_example =
    get_key_set-IsServed import_key_set settings 1205 late warm (some "cached") refl (omega arith)
      (omega arith) (ground arith)

abbrev soon : Surroundings String
soon = record late { started = 240 }

abbrev flood : List (Option String × Lookup String)
flood = (some "c", look) ∷ (some "d", look) ∷ (some "e", look) ∷ []

look-InWindow : InWindow import_key_set settings 190 look
look-InWindow = omega arith

lookups-limited_example : (lookups import_key_set settings flood warm).0 ≤ 1
lookups-limited_example =
    lookups-limited import_key_set settings 190 flood warm (omega arith) (omega arith)
      (look-InWindow, (look-InWindow, (look-InWindow, tt)))
      (record { idle = refl; there = refl; fresh = omega arith })

abbrev resting : Flight String
resting = record { cache = warm; flights = [] }

abbrev flying : Flight String
flying = record { cache = begun warm; flights = 0 ∷ [] }

take_off : Reach import_key_set settings resting flying
unfolding enter_refresh backoff_answer
take_off = next here (begin true 200 0 refl refl)

single_flight_example : length flying.flights ≤ 1
single_flight_example = single_flight import_key_set settings resting flying refl take_off
