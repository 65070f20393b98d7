-- ===== src/Fetcher/Inside.antt =====
-- reana_server/fetcher.py: the entries of a validated archive stay inside the output directory.
use reana_server.Prelude.{
  String, ◌≡◌, subst, false, List, [], ◌∷◌, All, arith, Bool-cases, inl, inr,
}
use reana_server.Fetcher.{Entry, split, normpath}
use reana_server.Fetcher.Validating.{
  Limits, Seen, passed, has_code, is_special, any_special, is_unsafe, check_entry, check_entries,
  nothing_seen, validate_archive_entries,
}
use reana_server.Fetcher.Accepted.{name_of, safe-normpath, Checked-cases, rejected-passed}

-- A part of a path that names something in the directory above it.
abbrev pub IsPlain : String → Type 0
IsPlain part = is_special part ≡ false

-- Each part of the path is plain, and the path has no backslash and no NUL.
abbrev pub IsInside : Entry → Type 0
IsInside e =
    All IsPlain (split (name_of e))
    × (has_code 92 e.filename ≡ false)
    × (has_code 0 e.filename ≡ false)

any_special-IsPlain : (parts : List String) → any_special parts ≡ false → All IsPlain parts
any_special-IsPlain [] h = tt
any_special-IsPlain (part ∷ parts) h =
    (ground (arith, h), any_special-IsPlain parts (ground (arith, h)))

safe-special :
    (name : String) → is_unsafe name ≡ false → any_special (split (normpath name)) ≡ false
unfolding is_unsafe
safe-special name h = ground (arith, h)

safe-codes :
    (name : String)
    → is_unsafe name ≡ false
    → (has_code 92 name ≡ false) × (has_code 0 name ≡ false)
unfolding is_unsafe
safe-codes name h = ground (arith, h)

safe-IsInside : (e : Entry) → is_unsafe e.filename ≡ false → IsInside e
safe-IsInside e h =
    let (no_backslash, no_nul) = safe-codes e.filename h in
    (
      subst (λ n. All IsPlain (split n)) (safe-normpath e.filename h)
          (any_special-IsPlain _ (safe-special e.filename h)),
      no_backslash,
      no_nul,
    )

check_entry-safe :
    (limits : Limits) (e : Entry) (seen s : Seen)
    → check_entry limits e seen ≡ passed s
    → is_unsafe e.filename ≡ false
unfolding check_entry
check_entry-safe limits e seen s h = elim (Bool-cases (is_unsafe e.filename)) [
  | inl bad ↦ ground (arith, h, bad)
  | inr safe ↦ safe
]

check_entries-IsInside :
    (limits : Limits) (es : List Entry) (seen s : Seen)
    → check_entries limits es (passed seen) ≡ passed s
    → All IsInside es
unfolding check_entries
check_entries-IsInside limits [] seen s h = tt
check_entries-IsInside limits (e ∷ es) seen s h = elim (Checked-cases (check_entry limits e seen)) [
  | inl (m, c) ↦ (
    safe-IsInside e (check_entry-safe limits e seen m c),
    check_entries-IsInside limits es m s (subst (λ x. check_entries limits es x ≡ passed s) c h),
  )
  | inr (fault, c) ↦
      absurd
        (rejected-passed limits es fault s (subst (λ x. check_entries limits es x ≡ passed s) c h))
]

-- If an archive passes the validation, then each entry stays inside the output directory: every part of the
-- path to which it is extracted is a plain name, not empty, ".", or "..", and its name has no backslash and no NUL.
pub validate-IsInside :
    (limits : Limits) (es : List Entry) (s : Seen)
    → validate_archive_entries limits es ≡ passed s
    → All IsInside es
unfolding validate_archive_entries
validate-IsInside limits es s h =
    elim (Checked-cases (check_entries limits es (passed nothing_seen))) [
      | inr (fault, e) ↦ ground (arith, h, e)
      | inl (m, e) ↦ check_entries-IsInside limits es nothing_seen m e
    ]
