-- ===== src/Auth/Exec.antt =====
-- Code that changes a state and may raise. What was written before a raise stays written.
use reana_server.Auth.Errors.{AuthError, Result, ok, err}

abbrev pub Exec {ℓ} : Type ℓ → Type ℓ → Type ℓ
Exec S A = S → Result A × S

module _ {ℓ} {S A : Type ℓ} where
  abbrev pub pure : A → Exec S A
  pure a s = (ok a, s)

  abbrev pub raise : AuthError → Exec S A
  raise e s = (err e, s)

  abbrev pub lift : Result A → Exec S A
  lift r s = (r, s)

module _ {ℓ} {S A B : Type ℓ} where
  abbrev pub resume : Result A → (A → Exec S B) → Exec S B
  resume (ok a) k s = k a s
  resume (err e) k s = (err e, s)

  infixl 10 ◌>>=◌ ◌>>◌
  abbrev pub ◌>>=◌ : Exec S A → (A → Exec S B) → Exec S B
  ◌>>=◌ m k s = resume (m s).0 k (m s).1

  abbrev pub ◌>>◌ : Exec S A → Exec S B → Exec S B
  m >> k = m >>= λ _. k
