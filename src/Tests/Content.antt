-- ===== src/Tests/Content.antt =====
-- Catalogs of two definitions, one of which depends on the other.
use new_mud_codex.Shared.{
  ◌≡◌, ◌≢◌, ◌↔◌, refl, true, none, some, List, [], ◌∷◌, arith, replicate, All, ◌++◌,
}
use new_mud_codex.Shared.Text.{Text, codes, text_eq, split}
use new_mud_codex.Shared.Dicts.{lookup, insert}
use new_mud_codex.Shared.Table.{Elem, here, there}
use new_mud_codex.Errors.{
  Result, pure, raise, registry_error, registry_reference_cycle, recursion_error,
  registry_version_content_mismatch,
}
use new_mud_codex.Content.Values.{object, field, end, null}
use new_mud_codex.Content.Registry.{
  RegistryDefinition, RegistryReference, Libraries, identity_of, as_reference,
  validate_registry_identity, is_registry_key, is_semver, is_sha256, hash_payload, canonical_sha256,
  as_payload,
}
use new_mud_codex.Content.Shape.{validate_shape, validate_dependencies}
use new_mud_codex.Content.Resolve.{
  Definitions, RegistryCatalog, collect_raw, from_definitions, resolve_all, resolve, resolve_raw,
  resolve_dependencies, activate, by_reference, normalized,
}
use new_mud_codex.Content.Resolve.Acyclic.{Reaches, from_definitions-acyclic}
use new_mud_codex.Content.Resolve.Exact.{IsHashed}
use new_mud_codex.Content.Resolve.Limit.{from_definitions-Fits}
use new_mud_codex.Content.Catalog.{definitions, sort, sort_insert, resolve_exact, resolve_active}
use new_mud_codex.Content.Catalog.Stale.{resolve_exact-stale}
use new_mud_codex.Content.Catalog.Exact.{DigestLaw}
use new_mud_codex.Content.Catalog.Refines.{
  resolve_exact-definitions, definitions-IsClosed, resolve_exact-resolve_active,
}

abbrev toy_libraries : Libraries
toy_libraries = record {
  dumps = λ v. some [];
  sha256_hexdigest = λ t. replicate 64 b'a';
  inspect_handler = λ module_name attribute. none;
}

abbrev hooks : Text → List RegistryReference → RegistryDefinition
hooks key dependencies = record {
  registry_kind = codes "hook_set";
  registry_key = key;
  registry_version = codes "1.0.0";
  summary = codes "s";
  source_module = codes "m";
  declaration = object (field (codes "hook_schema_version") null (field (codes "hooks") null end));
  tags = [];
  dependencies = dependencies;
  artifact_hash = [];
  definition_hash = none;
}

abbrev to : Text → RegistryReference
to key = record {
  registry_kind = codes "hook_set";
  registry_key = key;
  registry_version = codes "1.0.0";
  definition_hash = none;
}

abbrev base : RegistryDefinition
base = hooks (codes "base") []

abbrev upper : RegistryDefinition
upper = hooks (codes "upper") (to (codes "base") ∷ [])

abbrev built : Result RegistryCatalog
built = from_definitions toy_libraries 3 (upper ∷ []) (base ∷ [])

abbrev or_empty_catalog : Result RegistryCatalog → RegistryCatalog
or_empty_catalog (pure c) = c
or_empty_catalog (raise e) = record { active = []; compatibility = [] }

unfoldable catalog : RegistryCatalog
unfolding from_definitions collect_raw validate_shape validate_registry_identity text_eq
    is_registry_key is_semver split validate_dependencies lookup insert resolve_all resolve
    resolve_raw resolve_dependencies hash_payload canonical_sha256 as_payload as_reference is_sha256
    activate by_reference normalized
catalog = or_empty_catalog built

is_built : from_definitions toy_libraries 3 (upper ∷ []) (base ∷ []) ≡ pure catalog
unfolding catalog from_definitions collect_raw validate_shape validate_registry_identity text_eq
    is_registry_key is_semver split validate_dependencies lookup insert resolve_all resolve
    resolve_raw resolve_dependencies hash_payload canonical_sha256 as_payload as_reference is_sha256
    activate by_reference normalized
is_built = refl

toy_digests : DigestLaw toy_libraries
unfolding is_sha256
toy_digests t = refl

cycle_refused :
    from_definitions toy_libraries 3
      (hooks (codes "one") (to (codes "two") ∷ [])
        ∷ hooks (codes "two") (to (codes "one") ∷ [])
        ∷ [])
      []
    ≡ raise (registry_error registry_reference_cycle)
unfolding from_definitions collect_raw validate_shape validate_registry_identity text_eq
    is_registry_key is_semver split validate_dependencies lookup insert resolve_all resolve
    resolve_raw resolve_dependencies hash_payload canonical_sha256 as_payload as_reference is_sha256
    activate by_reference normalized
cycle_refused = refl

from_definitions-Fits_example :
    from_definitions toy_libraries 3 (upper ∷ []) (base ∷ []) ≢ raise recursion_error
from_definitions-Fits_example =
    from_definitions-Fits toy_libraries 3 (upper ∷ []) (base ∷ []) (omega arith)

abbrev digest : Text
digest = replicate 64 b'a'

abbrev exact_base : RegistryDefinition
exact_base = normalized base [] digest

abbrev exact_upper : RegistryDefinition
exact_upper = normalized upper (as_reference exact_base ∷ []) digest

resolve_exact-definitions_example :
    (resolve_exact (as_reference exact_base) catalog ≡ pure exact_base)
    ↔ (Elem exact_base (definitions catalog) × (as_reference exact_base ≡ as_reference exact_base))
resolve_exact-definitions_example =
    resolve_exact-definitions toy_libraries 3 (upper ∷ []) (base ∷ []) catalog
      (as_reference exact_base) exact_base toy_digests is_built

base-listed : Elem exact_base (definitions catalog)
unfolding catalog definitions sort sort_insert from_definitions collect_raw validate_shape
    validate_registry_identity text_eq is_registry_key is_semver split validate_dependencies lookup
    insert resolve_all resolve resolve_raw resolve_dependencies hash_payload canonical_sha256
    as_payload as_reference is_sha256 activate by_reference normalized
base-listed = here

upper-listed : Elem exact_upper (definitions catalog)
unfolding catalog definitions sort sort_insert from_definitions collect_raw validate_shape
    validate_registry_identity text_eq is_registry_key is_semver split validate_dependencies lookup
    insert resolve_all resolve resolve_raw resolve_dependencies hash_payload canonical_sha256
    as_payload as_reference is_sha256 activate by_reference normalized
upper-listed = there here

definitions-IsClosed_example :
    IsHashed toy_libraries exact_upper
    × All
        (λ r. (t : RegistryDefinition) × (resolve_exact r catalog ≡ pure t))
        exact_upper.dependencies
definitions-IsClosed_example =
    definitions-IsClosed toy_libraries 3 (upper ∷ []) (base ∷ []) catalog exact_upper toy_digests
      is_built upper-listed

upper-active : resolve_active (codes "hook_set") (codes "upper") none catalog ≡ pure exact_upper
unfolding catalog definitions sort sort_insert from_definitions collect_raw validate_shape
    validate_registry_identity text_eq is_registry_key is_semver split validate_dependencies lookup
    insert resolve_all resolve resolve_raw resolve_dependencies hash_payload canonical_sha256
    as_payload as_reference is_sha256 activate by_reference normalized resolve_active
upper-active = refl

resolve_exact-resolve_active_example :
    resolve_exact (as_reference exact_upper) catalog ≡ pure exact_upper
resolve_exact-resolve_active_example =
    resolve_exact-resolve_active toy_libraries 3 (upper ∷ []) (base ∷ []) catalog (codes "hook_set")
      (codes "upper") none exact_upper toy_digests is_built upper-active

abbrev stale : RegistryReference
stale = record {
  registry_kind = codes "hook_set";
  registry_key = codes "base";
  registry_version = codes "1.0.0";
  definition_hash = some (replicate 64 b'b');
}

stale-digest : is_sha256 (replicate 64 b'b') ≡ true
unfolding is_sha256
stale-digest = refl

base-hash : exact_base.definition_hash ≢ some (replicate 64 b'b')
unfolding normalized
base-hash h = ground arith

same_base : (codes "hook_set", (codes "base", codes "1.0.0")) ≡ identity_of exact_base
unfolding normalized
same_base = refl

resolve_exact-stale_example :
    resolve_exact stale catalog ≡ raise (registry_error registry_version_content_mismatch)
resolve_exact-stale_example =
    resolve_exact-stale toy_libraries 3 (upper ∷ []) (base ∷ []) catalog stale exact_base
      (replicate 64 b'b') is_built base-listed same_base refl stale-digest base-hash

abbrev raw_table : Definitions
raw_table =
    ((codes "hook_set", (codes "base", codes "1.0.0")), base)
    ∷ ((codes "hook_set", (codes "upper", codes "1.0.0")), upper)
    ∷ []

raw-collected : collect_raw toy_libraries ((base ∷ []) ++ upper ∷ []) [] ≡ pure raw_table
unfolding collect_raw validate_shape validate_registry_identity text_eq is_registry_key is_semver
    split validate_dependencies lookup insert
raw-collected = refl

from_definitions-acyclic_example : ¬ (
    Reaches raw_table
      (codes "hook_set", (codes "upper", codes "1.0.0"))
      (codes "hook_set", (codes "upper", codes "1.0.0")))
from_definitions-acyclic_example =
    from_definitions-acyclic toy_libraries 3 (upper ∷ []) (base ∷ []) raw_table catalog
      (codes "hook_set", (codes "upper", codes "1.0.0")) raw-collected is_built
