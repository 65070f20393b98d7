-- ===== src/Auth/Sessions/Subjects.antt =====
-- reana_server/auth/sessions.py: `delete_sessions_for_subject`.
use Prim.Native.String.{[] as nil, ◌∷◌ as ◌cons◌}
use reana_server.Prelude.{
  ℕ, ◌+◌, String, ◌≡◌, refl, sym, ◌∙◌, ap, subst, ◌⊎◌, inl, inr, Bool, true, false, Option, none,
  some, ◌||◌, if◌then◌else◌, str_eq, List, [], ◌∷◌, All, arith, eq_iff, Bool-cases, Option-cases,
}
use reana_server.Auth.Errors.{ok, Result-cases}
use reana_server.Auth.Exec.{Exec, pure, ◌>>=◌}
use reana_server.Auth.Sessions.{Session, Value, session, text, Redis}
use reana_server.Auth.Sessions.Store.{session_matches_identity, command}

-- `key.endswith(":lock")`
abbrev pub is_lock : String → Bool
is_lock nil = false
is_lock (c cons t) = let rest = is_lock t in str_eq (c cons t) ":lock" || rest

module _ (redis : Redis) (issuer subject : String) where
  open redis use {State, content, get, delete, content-get, get-answer, content-delete}

  -- A key whose session has the identity is deleted, unless in a dry run, and counted.
  abbrev ended_if : Bool → String → Bool → Exec State ℕ
  ended_if dry_run key false = pure 0
  ended_if dry_run key true = if dry_run then pure 1 else command (delete key) >>= (λ _. pure 1)

  abbrev seen : Bool → String → Option Value → Exec State ℕ
  seen dry_run key none = pure 0
  seen dry_run key (some (text t)) = pure 0
  seen dry_run key (some (session x)) =
      ended_if dry_run key (session_matches_identity x issuer subject)

  abbrev visit : Bool → String → Exec State ℕ
  visit dry_run key = if is_lock key then pure 0 else command (get key) >>= seen dry_run key

  -- `delete_sessions_for_subject`; `keys` is what the scan yields.
  unfoldable pub delete_sessions_for_subject : Bool → List String → Exec State ℕ
  delete_sessions_for_subject dry_run [] = pure 0
  delete_sessions_for_subject dry_run (key ∷ keys) = visit dry_run key >>= λ n.
      delete_sessions_for_subject dry_run keys >>= λ rest. pure (n + rest)

  -- No session of the identity is stored under the key.
  abbrev pub IsClean : State → String → Type 0
  IsClean s key =
      (x : Session)
      → content key s ≡ some (session x)
      → session_matches_identity x issuer subject ≡ false

  -- What happens to a key.
  ended_if-content :
      (key j : String) (matches : Bool) (s : State) (n : ℕ)
      → (ended_if false key matches s).0 ≡ ok n
      → content j (ended_if false key matches s).1
        ≡ (if matches then (if str_eq key j then none else content j s) else content j s)
  ended_if-content key j false s n h = refl
  ended_if-content key j true s n h = elim (Option-cases (delete key s).0) [
    | inl bad ↦ absurd (ground (arith, bad, h))
    | inr (b, done) ↦ ground (arith, done, content-delete key j s b done)
  ]

  seen-IsClean :
      (key j : String) (v : Option Value) (s : State) (n : ℕ)
      → (seen false key v s).0 ≡ ok n
      → IsClean s j ⊎ (key ≡ j)
      → content key s ≡ v
      → IsClean (seen false key v s).1 j
  seen-IsClean key j none s n h (inl clean) e x there = clean x there
  seen-IsClean key j none s n h (inr same) e x there =
      absurd (ground (arith, e, ap (λ k. content k s) same, there))
  seen-IsClean key j (some (text t)) s n h (inl clean) e x there = clean x there
  seen-IsClean key j (some (text t)) s n h (inr same) e x there =
      absurd (ground (arith, e, ap (λ k. content k s) same, there))
  seen-IsClean key j (some (session y)) s n h (inl clean) e x there =
      let m = session_matches_identity y issuer subject in
      ground (arith, ended_if-content key j m s n h, there, clean x)
  seen-IsClean key j (some (session y)) s n h (inr same) e x there =
      let m = session_matches_identity y issuer subject in
      let stays : content j s ≡ some (session y) = sym (ap (λ k. content k s) same) ∙ e in
      elim (Bool-cases m) [
        | inl matches ↦
            absurd (
              ground (arith, matches, ended_if-content key j m s n h, there, (eq_iff key j).1 same))
        | inr differs ↦
            let alike : x ≡ y =
              ground (arith, differs, ended_if-content key j m s n h, there, stays) in
            ap (λ z. session_matches_identity z issuer subject) alike ∙ differs
      ]

  visit-IsClean :
      (key j : String) (s : State) (n : ℕ)
      → (visit false key s).0 ≡ ok n
      → IsClean s j ⊎ ((key ≡ j) × (is_lock key ≡ false))
      → IsClean (visit false key s).1 j
  visit-IsClean key j s n h clean = elim (Bool-cases (is_lock key)) [
    | inl lock ↦ elim clean [
      | inl before ↦ rw lock before
      | inr (same, none_such) ↦ absurd (ground (arith, lock, none_such))
    ]
    | inr plain ↦ elim (Option-cases (get key s).0) [
      | inl bad ↦ absurd (ground (arith, plain, bad, h))
      | inr (v, got) ↦
          let unchanged : content key (get key s).1 ≡ v =
            content-get key key s ∙ sym (get-answer key s v got) in
          let before : IsClean (get key s).1 j ⊎ (key ≡ j) = elim clean [
            | inl f ↦ inl (λ x e. f x (sym (content-get key j s) ∙ e))
            | inr (same, _) ↦ inr same
          ] in
          rw plain (
            rw got (
              seen-IsClean key j v (get key s).1 n (ground (arith, plain, got, h)) before
                unchanged))
    ]
  ]

  later-IsClean :
      (keys : List String) (j : String) (s : State) (n : ℕ)
      → (delete_sessions_for_subject false keys s).0 ≡ ok n
      → IsClean s j
      → IsClean (delete_sessions_for_subject false keys s).1 j
  unfolding delete_sessions_for_subject
  later-IsClean [] j s n h clean = clean
  later-IsClean (key ∷ keys) j s n h clean = elim (Result-cases (visit false key s).0) [
    | inl (e, bad) ↦ absurd (ground (arith, bad, h))
    | inr (m, went) ↦
        let t = (visit false key s).1 in
        elim (Result-cases (delete_sessions_for_subject false keys t).0) [
          | inl (e, bad) ↦ absurd (ground (arith, went, bad, h))
          | inr (k, rest) ↦
              let now = visit-IsClean key j s m went (inl clean) in
              rw went (rw rest (later-IsClean keys j t k rest now))
        ]
  ]

  -- When a subject's sessions have been deleted without an error, none is left under any key that
  -- the scan has yielded, the keys of locks aside: no browser of the subject can refresh with it.
  -- Nobody else writes to Redis meanwhile.
  pub delete_sessions_for_subject-IsClean :
      (keys : List String) (s : State) (n : ℕ)
      → (delete_sessions_for_subject false keys s).0 ≡ ok n
      → All
          (λ key. is_lock key ≡ false → IsClean (delete_sessions_for_subject false keys s).1 key)
          keys
  unfolding delete_sessions_for_subject
  delete_sessions_for_subject-IsClean [] s n h = tt
  delete_sessions_for_subject-IsClean (key ∷ keys) s n h =
      elim (Result-cases (visit false key s).0) [
        | inl (e, bad) ↦ absurd (ground (arith, bad, h))
        | inr (m, went) ↦
            let t = (visit false key s).1 in
            elim (Result-cases (delete_sessions_for_subject false keys t).0) [
              | inl (e, bad) ↦ absurd (ground (arith, went, bad, h))
              | inr (k, rest) ↦
                  let end : (delete_sessions_for_subject false keys t).1
                      ≡ (delete_sessions_for_subject false (key ∷ keys) s).1 =
                    ground (arith, went, rest) in
                  subst (λ u. All (λ j. is_lock j ≡ false → IsClean u j) (key ∷ keys)) end
                    (
                      λ plain.
                          later-IsClean keys key t k rest
                            (visit-IsClean key key s m went (inr (refl, plain))),
                      delete_sessions_for_subject-IsClean keys t k rest,
                    )
            ]
      ]
