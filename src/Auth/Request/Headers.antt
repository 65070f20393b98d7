-- ===== src/Auth/Request/Headers.antt =====
-- reana_server/decorators.py and sessions.py: the bearer token of a header, the CSRF check.
use Prim.Native.Char.{Char, code}
use Prim.Native.String.{[], ◌∷◌}
use reana_server.Prelude.{
  ℕ, ◌+◌, String, ◌≡◌, ◌↔◌, ◌≢◌, Bool, true, false, Option, none, some, ◌&&◌, ◌||◌, not, leb,
  if◌then◌else◌, str_eq, ◌==◌, arith, eq_iff, or_default, is_ascii, compare_digest,
}
use reana_server.Auth.Errors.{unexpected_error, Result, ok, err}
use reana_server.Auth.Request.{Request}

-- `str.isspace` of one character
abbrev is_space : Char → Bool
is_space c =
    (leb 9 (code c) && leb (code c) 13)
    || (leb 28 (code c) && leb (code c) 32)
    || code c == 133
    || code c == 160
    || code c == 5760
    || (leb 8192 (code c) && leb (code c) 8202)
    || code c == 8232
    || code c == 8233
    || code c == 8239
    || code c == 8287
    || code c == 12288

abbrev skip_spaces : String → String
skip_spaces [] = []
skip_spaces (c ∷ t) = let rest = skip_spaces t in if is_space c then rest else c ∷ t

abbrev word : String → String
word [] = []
word (c ∷ t) = let rest = word t in if is_space c then [] else c ∷ rest

abbrev after_word : String → String
after_word [] = []
after_word (c ∷ t) = let rest = after_word t in if is_space c then c ∷ t else rest

-- `t.split(None, 1)`: the first word and what follows it, each "" where it is missing
abbrev pub split_once : String → String × String
split_once t = (word (skip_spaces t), skip_spaces (after_word (skip_spaces t)))

abbrev small : Char → ℕ
small c = if leb 65 (code c) && leb (code c) 90 then code c + 32 else code c

-- `t.lower() == u` for a text `u` of small letters among which none is the small form of a letter
-- outside ASCII
abbrev lowers_to : String → String → Bool
lowers_to [] [] = true
lowers_to [] (d ∷ u) = false
lowers_to (c ∷ t) [] = false
lowers_to (c ∷ t) (d ∷ u) = small c == code d && lowers_to t u

-- The raw token of an `Authorization: Bearer` header.
unfoldable pub bearer_token : String → Option String
bearer_token authorization =
    let parts = split_once authorization in
    if lowers_to parts.0 "bearer" && not (str_eq parts.1 "") then some parts.1 else none

abbrev digests : Option Bool → Result Bool
digests none = err unexpected_error
digests (some same) = ok same

-- `csrf_ok` (sessions.py); its TypeError is an exception of another class
unfoldable pub csrf_ok : Request → Result Bool
unfolding compare_digest
csrf_ok request =
    let header = or_default request.csrf_header "" in
    let same = digests (compare_digest header (or_default request.csrf_cookie "")) in
    if str_eq header "" then ok false else same

-- `request.method not in ("GET", "HEAD", "OPTIONS")`
abbrev pub is_mutating : Request → Bool
is_mutating request =
    not (
      str_eq request.method "GET"
      || str_eq request.method "HEAD"
      || str_eq request.method "OPTIONS")

-- A request that changes nothing needs no CSRF token.
abbrev pub csrf_verdict : Request → Result Bool
csrf_verdict request = if is_mutating request then csrf_ok request else ok true

-- A CSRF token passes exactly if the header and the cookie are there, are the same, are not empty and
-- are texts of ASCII characters.
pub csrf_ok_iff :
    (request : Request)
    → (csrf_ok request ≡ ok true) ↔ (
        (token : String) × (request.csrf_header ≡ some token)
        × (request.csrf_cookie ≡ some token)
        × (token ≢ "")
        × (is_ascii token ≡ true))
unfolding csrf_ok compare_digest
csrf_ok_iff request = ground (
  arith,
  eq_iff (or_default request.csrf_header "") (or_default request.csrf_cookie ""),
  eq_iff (or_default request.csrf_header "") "",
)
