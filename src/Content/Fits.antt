-- ===== src/Content/Fits.antt =====
-- src/new_mud/apps/content: results that are not the exception for calls that nest too deeply.
use new_mud_codex.Shared.{◌≡◌, refl, Bool, true, false, Option, none, some}
use new_mud_codex.Errors.{
  Error, Result, pure, raise, ◌>>=◌, raise_if, or_raise, registry_error, recursion_error,
  ContentCode,
}

-- The result is not that the calls nested too deeply.
abbrev pub overflows {ℓ} : {A : Type ℓ} → Result A → Bool
overflows (raise recursion_error) = true
overflows _ = false

abbrev pub Fits {ℓ} : {A : Type ℓ} → Result A → Type 0
Fits m = overflows m ≡ false

pub bind-Fits {ℓ κ} :
    {A : Type ℓ} {B : Type κ} (m : Result A) (f : A → Result B)
    → Fits m
    → ((a : A) → m ≡ pure a → Fits (f a))
    → Fits (m >>= f)
bind-Fits (pure a) f h k = k a refl
bind-Fits (raise recursion_error) f h k = absurd (cc h)
bind-Fits (raise e) f h k = refl

pub raise_if-Fits : (test : Bool) (c : ContentCode) → Fits (raise_if test (registry_error c))
raise_if-Fits true c = refl
raise_if-Fits false c = refl

pub or_raise-Fits {ℓ} :
    {A : Type ℓ} (o : Option A) (e : Error) → Fits {A = A} (raise e) → Fits (or_raise o e)
or_raise-Fits none e h = h
or_raise-Fits (some a) e h = refl
