-- ===== src/Domain/Errors.antt =====
-- internal/core/domain/errors.go: the sentinel errors, and errors that wrap one by `%w`.
use e2e_framework.Prelude.{
  Text, lit, ◌++◌, ◌≡◌, refl, ◌⊎◌, inl, inr, Option, none, some, Bool, true, false,
}

pub data ErrorKind : Type 0 where
  configuration trigger_failed timeout not_found validation internal unimplemented unauthorized :
      ErrorKind

abbrev pub sentinel_text : ErrorKind → Text
sentinel_text configuration = lit "configuration error"
sentinel_text trigger_failed = lit "trigger failed"
sentinel_text timeout = lit "timeout exceeded"
sentinel_text not_found = lit "not found"
sentinel_text validation = lit "validation failed"
sentinel_text internal = lit "internal system error"
sentinel_text unimplemented = lit "unimplemented feature"
sentinel_text unauthorized = lit "unauthorized"

-- An error: the sentinel that `errors.Is` finds in it, if any, and its text.
pub record Error : Type 0 where
  pub kind : Option ErrorKind
  pub text : Text

-- `fmt.Errorf("%w: " + detail, sentinel)`
unfoldable pub wrap : ErrorKind → Text → Error
wrap k detail = record { kind = some k; text = sentinel_text k ++ (lit ": " ++ detail) }

-- `fmt.Errorf(prefix + "%w", err)`: the kind of `err` is kept.
unfoldable pub wrap_error : Text → Error → Error
wrap_error prefix e = record e { text = prefix ++ e.text }

-- `fmt.Errorf(detail)`, which wraps nothing.
unfoldable pub plain : Text → Error
plain detail = record { kind = none; text = detail }

pub data Result {ℓ} (A : Type ℓ) : Type ℓ where
  ok : A → Result A
  err : Error → Result A

abbrev pub is_validation : Option ErrorKind → Bool
is_validation (some validation) = true
is_validation _ = false

pub Result-cases {ℓ} :
    {A : Type ℓ} (r : Result A) → ((a : A) × (r ≡ ok a)) ⊎ ((e : Error) × (r ≡ err e))
Result-cases (ok a) = inl (a, refl)
Result-cases (err e) = inr (e, refl)

-- The sentinel in a failure, if there is one.
abbrev pub failure_kind {ℓ} : {A : Type ℓ} → Result A → Option ErrorKind
failure_kind (ok a) = none
failure_kind (err e) = e.kind
