-- ===== src/Auth/Provision/Claims.antt =====
-- reana_server/auth/provision.py: the claims of the issuer before they are stored.
use Prim.Native.Char.{Char, code}
use Prim.Native.String.{[], ◌∷◌}
use reana_server.Prelude.{
  ℕ, zero, suc, String, ◌≡◌, refl, ◌≤◌, Bool, false, Option, none, some, ◌||◌, ltb, leb,
  if◌then◌else◌, str_eq, ◌==◌, arith,
}
use reana_server.Auth.Errors.{provisioning_error, Result, ok, err}
use reana_server.Auth.Provision.{Json, null, boolean, text, other, UserInfo}

-- `_MAX_CLAIM_LENGTH`
abbrev pub max_claim_length : ℕ
max_claim_length = 255

-- `[\x00-\x1f\x7f]`
abbrev is_control : Char → Bool
is_control c = leb (code c) 31 || code c == 127

abbrev pub has_control : String → Bool
has_control [] = false
has_control (c ∷ t) = is_control c || has_control t

abbrev pub without_control : String → String
without_control [] = []
without_control (c ∷ t) = let rest = without_control t in if is_control c then rest else c ∷ rest

-- `t[:n]`
abbrev pub prefix : ℕ → String → String
prefix zero t = []
prefix (suc n) [] = []
prefix (suc n) (c ∷ t) = c ∷ prefix n t

abbrev pub size : String → ℕ
size [] = 0
size (c ∷ t) = suc (size t)

abbrev pub has_at : String → Bool
has_at [] = false
has_at (c ∷ t) = code c == 64 || has_at t

-- `t.rsplit("@", 1)[-1]`
abbrev pub after_last_at : String → String
after_last_at [] = []
after_last_at (c ∷ t) =
    let rest = after_last_at t in if has_at t then rest else if code c == 64 then t else c ∷ t

-- `_sanitize_claim`
unfoldable pub sanitize_claim : Json → Option String
sanitize_claim (text t) = some (prefix max_claim_length (without_control t))
sanitize_claim null = none
sanitize_claim (boolean b) = none
sanitize_claim (other b) = none

-- `_validated_email`
unfoldable pub validated_email : UserInfo → Result String
validated_email info = elim info.email [
  | some (text t) ↦
      if str_eq t ""
      then err provisioning_error
      else if has_control t
      then err provisioning_error
      else if ltb max_claim_length (size t)
      then err provisioning_error
      else ok t
  | _ ↦ err provisioning_error
]

-- `_validated_identity_claim`
unfoldable pub validated_identity_claim : Json → Result String
validated_identity_claim (text t) =
    if str_eq t ""
    then err provisioning_error
    else if ltb max_claim_length (size t)
    then err provisioning_error
    else ok t
validated_identity_claim null = err provisioning_error
validated_identity_claim (boolean b) = err provisioning_error
validated_identity_claim (other b) = err provisioning_error

pub validated_identity_claim-text :
    (value : Json) (t : String) → validated_identity_claim value ≡ ok t → value ≡ text t
unfolding validated_identity_claim
validated_identity_claim-text (text u) t h = ground arith
validated_identity_claim-text null t h = absurd (ground arith)
validated_identity_claim-text (boolean b) t h = absurd (ground arith)
validated_identity_claim-text (other b) t h = absurd (ground arith)

-- `verify_userinfo_subject`, for a subject of the token that is a text
unfoldable pub verify_userinfo_subject : String → UserInfo → Result (Unit {0})
verify_userinfo_subject sub info = elim info.sub [
  | some (text t) ↦
      if str_eq t ""
      then err provisioning_error
      else if str_eq t sub
      then ok tt
      else err provisioning_error
  | _ ↦ err provisioning_error
]

has_control-prefix : (n : ℕ) (t : String) → has_control t ≡ false → has_control (prefix n t) ≡ false
has_control-prefix zero t h = refl
has_control-prefix (suc n) [] h = refl
has_control-prefix (suc n) (c ∷ t) h = ground (arith, has_control-prefix n t)

has_control-without_control : (t : String) → has_control (without_control t) ≡ false
has_control-without_control [] = refl
has_control-without_control (c ∷ t) = ground (arith, has_control-without_control t)

size-prefix : (n : ℕ) (t : String) → size (prefix n t) ≤ n
size-prefix zero t = omega arith
size-prefix (suc n) [] = omega arith
size-prefix (suc n) (c ∷ t) = omega (arith, size-prefix n t)

-- A claim that is stored for display has no control character and fits its column.
pub sanitize_claim-stored :
    (value : Json) (t : String)
    → sanitize_claim value ≡ some t
    → (has_control t ≡ false) × (size t ≤ max_claim_length)
unfolding sanitize_claim
sanitize_claim-stored (text u) t h = ground (
  arith,
  has_control-prefix max_claim_length (without_control u),
  has_control-without_control u,
  size-prefix max_claim_length (without_control u),
)
sanitize_claim-stored null t h = absurd (ground arith)
sanitize_claim-stored (boolean b) t h = absurd (ground arith)
sanitize_claim-stored (other b) t h = absurd (ground arith)
