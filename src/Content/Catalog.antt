-- ===== src/Content/Catalog.antt =====
-- src/new_mud/apps/content/registry.py: the queries of `RegistryCatalog`.
pub mod Built
pub mod Exact
pub mod Refines
pub mod Stale
use new_mud_codex.Shared.{
  ℕ, Bool, true, false, not, ◌&&◌, ◌||◌, Option, none, some, List, [], ◌∷◌, map, ◌==◌, ltb,
  if◌then◌else◌, ℕ_equality,
}
use new_mud_codex.Shared.Text.{Text, Text_equality}
use new_mud_codex.Shared.Dicts.{lookup, values, pair_equality}
use new_mud_codex.Shared.Table.{select}
use new_mud_codex.Errors.{
  Result, pure, raise, ◌>>=◌, ◌>>◌, raise_if, or_raise, registry_error,
  registry_reference_not_found, registry_schema_invalid, registry_version_content_mismatch,
  registry_compat_definition_missing,
}
use new_mud_codex.Content.Values.{str}
use new_mud_codex.Content.Registry.{
  RegistryDefinition, RegistryReference, identity_of, target_identity, validate_registry_identity,
  is_sha256,
}
use new_mud_codex.Content.Resolve.{RegistryCatalog, Active, contradicts}

-- `a < b` on strings
abbrev pub text_lt : Text → Text → Bool
text_lt s [] = false
text_lt [] (b ∷ t) = true
text_lt (a ∷ s) (b ∷ t) = let rest = text_lt s t in ltb a b || a == b && rest

abbrev pub before : RegistryDefinition → RegistryDefinition → Bool
before a b =
    text_lt a.registry_kind b.registry_kind
    || (a.registry_kind == b.registry_kind
        && (text_lt a.registry_key b.registry_key
            || (a.registry_key == b.registry_key && text_lt a.registry_version b.registry_version)))

-- `sorted(xs, key=…)`: equal keys keep their order
unfoldable pub sort_insert {ℓ} : {A : Type ℓ} → (A → A → Bool) → A → List A → List A
sort_insert lt a [] = a ∷ []
sort_insert lt a (x ∷ xs) =
    let rest = sort_insert lt a xs in if lt x a then x ∷ rest else a ∷ x ∷ xs

unfoldable pub sort {ℓ} : {A : Type ℓ} → (A → A → Bool) → List A → List A
sort lt [] = []
sort lt (x ∷ xs) = sort_insert lt x (sort lt xs)

unfoldable pub definitions : RegistryCatalog → List RegistryDefinition
definitions catalog = sort before (values catalog.compatibility)

unfoldable pub active_definitions : Text → RegistryCatalog → List RegistryDefinition
active_definitions registry_kind catalog =
    sort (λ a b. text_lt a.registry_key b.registry_key)
      (values (select (λ entry. (entry.0).0 == registry_kind) catalog.active))

-- `registry_version is not None and registry_version != d.registry_version`
unfoldable pub resolve_active :
    Text → Text → Option Text → RegistryCatalog → Result RegistryDefinition
resolve_active registry_kind registry_key registry_version catalog = do
  d ←
      or_raise (lookup (registry_kind, registry_key) catalog.active)
        (registry_error registry_reference_not_found)
  raise_if (contradicts registry_version (some d.registry_version))
      (registry_error registry_version_content_mismatch)
  pure d

abbrev unavailable : List RegistryDefinition → Result RegistryDefinition
unavailable [] = raise (registry_error registry_compat_definition_missing)
unavailable (d ∷ ds) = raise (registry_error registry_version_content_mismatch)

-- where no definition has the reference's hash
unfoldable pub same_version : RegistryReference → RegistryCatalog → List RegistryDefinition
same_version r catalog =
    select (λ d. identity_of d == target_identity r) (values catalog.compatibility)

abbrev or_else : Option RegistryDefinition → Result RegistryDefinition → Result RegistryDefinition
or_else none other = other
or_else (some d) other = pure d

unfoldable pub resolve_exact : RegistryReference → RegistryCatalog → Result RegistryDefinition
resolve_exact r catalog = do
  definition_hash ← or_raise r.definition_hash (registry_error registry_schema_invalid)
  validate_registry_identity (str r.registry_kind) (str r.registry_key) (str r.registry_version)
  raise_if (not (is_sha256 definition_hash)) (registry_error registry_schema_invalid)
  or_else (lookup (target_identity r, definition_hash) catalog.compatibility)
      (unavailable (same_version r catalog))
