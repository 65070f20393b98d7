-- ===== src/Auth/Errors.antt =====
-- reana_server/auth/errors.py, with the two classes that decorators.py adds, and fallible results.
use reana_server.Prelude.{String, ◌≡◌, refl, ◌⊎◌, inl, inr, Option}

-- Exceptions, each a class of the source. Texts are kept where code reads them again.
pub data AuthError : Type 0 where
  issuer_unavailable issuer_key_unavailable unknown_key_healthy_backoff : AuthError
  issuer_misconfigured : String → AuthError
  invalid_token csrf_error terminal_session : AuthError
  missing_role : Option String → AuthError  -- with the `refreshed_token` that it may carry
  provisioning_error session_unavailable : AuthError
  value_error : AuthError  -- the ValueError of Python
  unexpected_error : AuthError  -- an exception of another class

pub data Result {ℓ} (A : Type ℓ) : Type ℓ where
  ok : A → Result A
  err : AuthError → Result A

-- To split on a computed result and keep the equation.
pub Result-cases {ℓ} :
    {A : Type ℓ} (r : Result A) → ((e : AuthError) × (r ≡ err e)) ⊎ ((a : A) × (r ≡ ok a))
Result-cases (err e) = inl (e, refl)
Result-cases (ok a) = inr (a, refl)
