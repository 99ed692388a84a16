-- ===== src/Prelude/Errors.antt =====
-- Go's `(value, error)` pairs. An error has its text, and the two kinds that
-- `apierrors.IsNotFound` and `apierrors.IsAlreadyExists` tell apart.
use Prim.Native.String.{String, ◌++◌}
use mathlib.Core.Path.{◌≡◌, refl}
use mathlib.Core.Logic.{◌⊎◌, inl, inr}
use mathlib.Core.Bool.{Bool, true, false}
use mathlib.Core.Option.{Option, none, some}

pub data Error : Type 0 where
  not_found : String → Error
  already_exists : String → Error
  other : String → Error

-- `err.Error()`
abbrev pub message : Error → String
message (not_found m) = m
message (already_exists m) = m
message (other m) = m

-- `fmt.Errorf(text + ": %w", err)`, which keeps the error's kind.
abbrev pub wrap : String → Error → Error
wrap text (not_found m) = not_found (text ++ (": " ++ m))
wrap text (already_exists m) = already_exists (text ++ (": " ++ m))
wrap text (other m) = other (text ++ (": " ++ m))

abbrev pub is_not_found : Error → Bool
is_not_found (not_found m) = true
is_not_found (already_exists m) = false
is_not_found (other m) = false

abbrev pub is_already_exists : Error → Bool
is_already_exists (not_found m) = false
is_already_exists (already_exists m) = true
is_already_exists (other m) = false

-- `client.IgnoreNotFound(err)`
abbrev pub ignore_not_found : Error → Option Error
ignore_not_found (not_found m) = none
ignore_not_found (already_exists m) = some (already_exists m)
ignore_not_found (other m) = some (other m)

pub data Result {ℓ} (A : Type ℓ) : Type ℓ where
  ok : A → Result A
  err : Error → Result A

infixl 5 ◌>>=◌
abbrev pub ◌>>=◌ {ℓ κ} : {A : Type ℓ} {B : Type κ} → Result A → (A → Result B) → Result B
ok a >>= f = f a
err e >>= f = err e

-- The error of a pair whose value is dropped.
abbrev pub error_of {ℓ} : {A : Type ℓ} → Result A → Option Error
error_of (ok a) = none
error_of (err e) = some e

pub Result-cases {ℓ} :
    {A : Type ℓ} (r : Result A) → ((e : Error) × (r ≡ err e)) ⊎ ((a : A) × (r ≡ ok a))
Result-cases (ok a) = inr (a, refl)
Result-cases (err e) = inl (e, refl)
