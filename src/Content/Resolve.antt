-- ===== src/Content/Resolve.antt =====
-- src/new_mud/apps/content/registry.py: `RegistryCatalog.from_definitions`.
pub mod Built
pub mod Keeps
pub mod Raw
pub mod Exact
pub mod Limit
pub mod Acyclic
use new_mud_codex.Shared.{
  ℕ, zero, suc, Bool, true, false, not, ◌&&◌, Option, none, some, List, [], ◌∷◌, ◌++◌, map, ◌==◌,
  if◌then◌else◌, is_some, holds,
}
use new_mud_codex.Shared.Text.{Text, Text_equality}
use new_mud_codex.Shared.Dicts.{member, lookup, insert, values, pair_equality}
use new_mud_codex.Errors.{
  Result, pure, raise, ◌>>=◌, ◌>>◌, raise_if, or_raise, registry_error, registry_duplicate_key,
  registry_missing_dependency, registry_reference_cycle, registry_version_content_mismatch,
  recursion_error, key_error,
}
use new_mud_codex.Content.Values.{value_eq}
use new_mud_codex.Content.Registry.{
  RegistryDefinition, RegistryReference, Libraries, Identity, identity_of, target_identity,
  as_reference, hash_payload, canonical_sha256,
}
use new_mud_codex.Content.Shape.{validate_shape}

abbrev pub same_optional : Option Text → Option Text → Bool
same_optional none none = true
same_optional (some a) (some b) = a == b
same_optional _ _ = false

abbrev pub same_texts : List Text → List Text → Bool
same_texts [] [] = true
same_texts (a ∷ xs) (b ∷ ys) = a == b && same_texts xs ys
same_texts _ _ = false

abbrev same_references : List RegistryReference → List RegistryReference → Bool
same_references [] [] = true
same_references (a ∷ xs) (b ∷ ys) =
    target_identity a == target_identity b
    && same_optional a.definition_hash b.definition_hash
    && same_references xs ys
same_references _ _ = false

-- `previous == definition`
unfoldable pub same_definition : RegistryDefinition → RegistryDefinition → Bool
same_definition a b =
    identity_of a == identity_of b
    && a.summary == b.summary
    && a.source_module == b.source_module
    && value_eq a.declaration b.declaration
    && same_texts a.tags b.tags
    && same_references a.dependencies b.dependencies
    && a.artifact_hash == b.artifact_hash
    && same_optional a.definition_hash b.definition_hash

abbrev pub Definitions : Type 0
Definitions = List (Identity × RegistryDefinition)

abbrev differs : Option RegistryDefinition → RegistryDefinition → Bool
differs none d = false
differs (some previous) d = not (same_definition previous d)

-- `optional is not None and optional != hash`
abbrev pub contradicts : Option Text → Option Text → Bool
contradicts none hash = false
contradicts (some h) hash = not (holds hash h)

-- The definition with exact dependencies and its own hash.
unfoldable pub normalized : RegistryDefinition → List RegistryReference → Text → RegistryDefinition
normalized raw exact_dependencies definition_hash = record {
  registry_kind = raw.registry_kind;
  registry_key = raw.registry_key;
  registry_version = raw.registry_version;
  summary = raw.summary;
  source_module = raw.source_module;
  declaration = raw.declaration;
  tags = raw.tags;
  dependencies = exact_dependencies;
  artifact_hash = raw.artifact_hash;
  definition_hash = some definition_hash;
}

abbrev pub Active : Type 0
Active = List ((Text × Text) × RegistryDefinition)

-- by kind, key, version and hash
abbrev pub Compatibility : Type 0
Compatibility = List ((Identity × Text) × RegistryDefinition)

pub record RegistryCatalog : Type 0 where
  pub active : Active
  pub compatibility : Compatibility

abbrev pub active_key : RegistryDefinition → Text × Text
active_key d = (d.registry_kind, d.registry_key)

abbrev pub or_empty : Option Text → Text
or_empty none = []
or_empty (some h) = h

abbrev pub exact_key : RegistryDefinition → Identity × Text
exact_key d = (identity_of d, or_empty d.definition_hash)

unfoldable pub by_reference : List RegistryDefinition → Compatibility → Compatibility
by_reference [] compatibility = compatibility
by_reference (d ∷ ds) compatibility = by_reference ds (insert (exact_key d) d compatibility)

module _ (l : Libraries) where
  -- `raw_by_identity`
  unfoldable pub collect_raw : List RegistryDefinition → Definitions → Result Definitions
  collect_raw [] raw = pure raw
  collect_raw (d ∷ ds) raw = do
    validate_shape l d
    raise_if (differs (lookup (identity_of d) raw) d)
        (registry_error registry_version_content_mismatch)
    collect_raw ds (insert (identity_of d) d raw)

  abbrev pub Resolver : Type 0
  Resolver = Identity → Definitions → Result (RegistryDefinition × Definitions)

  -- the loop over the dependencies of one definition
  unfoldable pub resolve_dependencies :
      Resolver
      → List RegistryReference
      → Definitions
      → Result (List RegistryReference × Definitions)
  resolve_dependencies recur [] resolved = pure ([], resolved)
  resolve_dependencies recur (dependency ∷ rest) resolved = do
    target ← recur (target_identity dependency) resolved
    raise_if (contradicts dependency.definition_hash (target.0).definition_hash)
        (registry_error registry_version_content_mismatch)
    others ← resolve_dependencies recur rest target.1
    pure (as_reference target.0 ∷ others.0, others.1)

  -- a definition that is not resolved yet
  unfoldable pub resolve_raw :
      Resolver
      → Identity
      → RegistryDefinition
      → Definitions
      → Result (RegistryDefinition × Definitions)
  resolve_raw recur identity raw resolved = do
    exact ← resolve_dependencies recur raw.dependencies resolved
    payload ← hash_payload raw exact.0
    definition_hash ← canonical_sha256 l payload
    raise_if (contradicts raw.definition_hash (some definition_hash))
        (registry_error registry_version_content_mismatch)
    let d = normalized raw exact.0 definition_hash
    pure (d, insert identity d exact.1)

  abbrev resolve_step :
      Option RegistryDefinition → Bool → Option RegistryDefinition → Resolver → Resolver
  resolve_step (some cached) _ _ recur identity resolved = pure (cached, resolved)
  resolve_step none true _ recur identity resolved = raise (registry_error registry_reference_cycle)
  resolve_step none false none recur identity resolved =
      raise (registry_error registry_missing_dependency)
  resolve_step none false (some raw) recur identity resolved =
      resolve_raw recur identity raw resolved

  -- `limit` is how many calls may nest: Python raises `RecursionError` beyond it.
  unfoldable pub resolve : ℕ → Definitions → List Identity → Resolver
  resolve zero raw visiting identity resolved = raise recursion_error
  resolve (suc limit) raw visiting identity resolved =
      resolve_step (lookup identity resolved) (member identity visiting) (lookup identity raw)
        (λ target known. resolve limit raw (visiting ++ identity ∷ []) target known) identity
        resolved

  -- `for identity in raw_by_identity: resolve(identity, ())`
  unfoldable pub resolve_all : ℕ → Definitions → List Identity → Definitions → Result Definitions
  resolve_all limit raw [] resolved = pure resolved
  resolve_all limit raw (identity ∷ rest) resolved = do
    found ← resolve limit raw [] identity resolved
    resolve_all limit raw rest found.1

  unfoldable pub activate : List RegistryDefinition → Definitions → Active → Result Active
  activate [] resolved active = pure active
  activate (d ∷ ds) resolved active = do
    raise_if (is_some (lookup (active_key d) active)) (registry_error registry_duplicate_key)
    found ← or_raise (lookup (identity_of d) resolved) key_error
    activate ds resolved (insert (active_key d) found active)

  unfoldable pub from_definitions :
      ℕ → List RegistryDefinition → List RegistryDefinition → Result RegistryCatalog
  from_definitions limit active_definitions compatibility_definitions = do
    raw ← collect_raw (compatibility_definitions ++ active_definitions) []
    resolved ← resolve_all limit raw (map (λ p. p.0) raw) []
    active ← activate active_definitions resolved []
    pure (record { active = active; compatibility = by_reference (values resolved) [] })
