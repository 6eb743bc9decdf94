-- ===== src/Errors.antt =====
-- The exceptions of src/new_mud/apps/identity, and results that an exception may end.
use mathlib.Core.Path.{◌≡◌, refl}
use mathlib.Core.Bool.{Bool, true, false}
use mathlib.Core.Option.{Option, none, some}
use native.Mathlib.Omega.{arith}

-- services.py: the codes of `RefreshFailed`
pub data RefreshCode : Type 0 where
  idempotency_key_invalid idempotency_conflict refresh_unavailable : RefreshCode
  session_revoked request_superseded : RefreshCode

-- content/registry.py and content/resolver.py: the codes of their exceptions
pub data ContentCode : Type 0 where
  registry_compat_definition_missing registry_duplicate_key registry_handler_missing : ContentCode
  registry_missing_dependency registry_reference_cycle registry_reference_not_found : ContentCode
  registry_schema_invalid registry_version_content_mismatch : ContentCode
  blueprint_schema_invalid blueprint_registry_definition_hash_mismatch : ContentCode
  blueprint_registry_version_unavailable : ContentCode

pub data Error : Type 0 where
  refresh_failed : RefreshCode → Error
  authentication_failed : Error
  registration_invalid registration_unavailable registration_rate_limited : Error
  verification_code_invalid password_reset_unavailable : Error
  contact_invalid contact_channel_unavailable : Error
  verification_request_invalid verification_request_conflict : Error
  verification_service_unavailable key_unavailable ciphertext_invalid : Error
  delivery_permanent delivery_transient delivery_message_transient provider_accepted_crash : Error
  -- `RuntimeError` of `_signing_key`, and `DoesNotExist` of a `.get()` that nothing catches
  runtime_error does_not_exist : Error
  registry_error content_resolution_error : ContentCode → Error
  -- the exceptions of rfc8785, and what Python itself raises
  canonicalization_error recursion_error type_error key_error : Error

pub data Result {ℓ} (A : Type ℓ) : Type ℓ where
  pure : A → Result A
  raise : Error → Result A

infixl 5 ◌>>=◌ ◌>>◌
abbrev pub ◌>>=◌ {ℓ κ} : {A : Type ℓ} {B : Type κ} → Result A → (A → Result B) → Result B
pure a >>= f = f a
raise e >>= f = raise e

abbrev pub ◌>>◌ {ℓ} : {B : Type ℓ} → Result (Unit {0}) → Result B → Result B
m >> k = m >>= λ _. k

-- `if condition: raise e`
abbrev pub raise_if : Bool → Error → Result (Unit {0})
raise_if true e = raise e
raise_if false e = pure tt

-- `except DoesNotExist: raise e`, and a value that may be `None`
abbrev pub or_raise {ℓ} : {A : Type ℓ} → Option A → Error → Result A
or_raise none e = raise e
or_raise (some a) e = pure a

pub bind-eq-pure {ℓ κ} :
    {A : Type ℓ} {B : Type κ} (m : Result A) (f : A → Result B) {b : B}
    → (m >>= f) ≡ pure b
    → (a : A) × (m ≡ pure a) × (f a ≡ pure b)
bind-eq-pure (pure a) f h = (a, refl, h)
bind-eq-pure (raise e) f h = cc

pub or_raise-eq-pure {ℓ} :
    {A : Type ℓ} (o : Option A) (e : Error) {a : A} → or_raise o e ≡ pure a → o ≡ some a
or_raise-eq-pure none e h = cc
or_raise-eq-pure (some b) e h = ground arith

pub pure-injective {ℓ} : {A : Type ℓ} {a b : A} → pure a ≡ pure b → a ≡ b
pure-injective h = cc

-- A property of a chain holds if it holds of what each step may raise and of the rest.
pub bind-cases {ℓ κ μ} :
    {A : Type ℓ} {B : Type κ} (P : Result B → Type μ) (m : Result A) (f : A → Result B)
    → ((e : Error) → P (raise e))
    → ((a : A) → m ≡ pure a → P (f a))
    → P (m >>= f)
bind-cases P (pure a) f raised returned = returned a refl
bind-cases P (raise e) f raised returned = raised e

-- `except …: raise e`
abbrev pub except_as {ℓ} : {A : Type ℓ} → Error → Result A → Result A
except_as e (pure a) = pure a
except_as e (raise _) = raise e

-- A chain that ends in a guard succeeds where the guard lets it pass.
pub guarded-eq-pure {ℓ} :
    {A : Type ℓ} (test : Bool) (e : Error) {a b : A}
    → (raise_if test e >> pure a) ≡ pure b
    → (test ≡ false) × (a ≡ b)
guarded-eq-pure true e h = cc
guarded-eq-pure false e h = (refl, pure-injective h)

pub raise_if-eq-pure :
    (test : Bool) (e : Error) {u : Unit {0}} → raise_if test e ≡ pure u → test ≡ false
raise_if-eq-pure true e h = cc
raise_if-eq-pure false e h = refl
