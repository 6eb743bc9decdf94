-- ===== src/Content/Registry.antt =====
-- src/new_mud/apps/content/registry.py: identities, references and definitions.
use new_mud_codex.Shared.{
  ℕ, Bool, false, not, ◌&&◌, ◌||◌, Option, List, [], ◌∷◌, map, leb, length, all, ◌==◌, ℕ_equality,
}
use new_mud_codex.Shared.Text.{Text, codes, Text_equality, split}
use new_mud_codex.Shared.Dicts.{member}
use new_mud_codex.Errors.{
  Result, pure, ◌>>=◌, ◌>>◌, raise_if, registry_error, registry_schema_invalid,
  canonicalization_error, or_raise,
}
use new_mud_codex.Content.Values.{Value, str, array, object, field, end, from_list}

abbrev pub is_digit : ℕ → Bool
is_digit c = leb b'0' c && leb c b'9'

abbrev pub is_lower : ℕ → Bool
is_lower c = leb b'a' c && leb c b'z'

abbrev is_key_char : ℕ → Bool
is_key_char c = is_lower c || is_digit c || c == b'_' || c == b'.' || c == b'-'

-- `_REGISTRY_KEY`: a letter and 2 to 63 more characters
unfoldable pub is_registry_key : Text → Bool
is_registry_key [] = false
is_registry_key (c ∷ s) = is_lower c && all is_key_char s && leb 2 (length s) && leb (length s) 63

-- `0|[1-9][0-9]*`
abbrev is_numeral : Text → Bool
is_numeral [] = false
is_numeral (c ∷ s) = is_digit c && all is_digit s && (not (c == b'0') || s == [])

abbrev are_three : List Text → Bool
are_three (a ∷ b ∷ c ∷ []) = is_numeral a && is_numeral b && is_numeral c
are_three _ = false

-- `_SEMVER`: three numerals between dots
unfoldable pub is_semver : Text → Bool
is_semver s = are_three (split b'.' s)

abbrev is_hex_digit : ℕ → Bool
is_hex_digit c = is_digit c || leb b'a' c && leb c b'f'

-- `[0-9a-f]{64}`
unfoldable pub is_sha256 : Text → Bool
is_sha256 s = all is_hex_digit s && length s == 64

-- `RegistryKinds`
abbrev pub registry_kinds : List Text
registry_kinds =
    codes "handler"
    ∷ codes "rule"
    ∷ codes "permission_policy"
    ∷ codes "hook_set"
    ∷ codes "action_provider"
    ∷ codes "render_policy"
    ∷ codes "blueprint_seed_provider"
    ∷ codes "action"
    ∷ codes "behavior_profile"
    ∷ codes "character_creation_profile"
    ∷ codes "effect_type"
    ∷ codes "job_type"
    ∷ codes "world_process_type"
    ∷ codes "startup_plan"
    ∷ []

-- a value that is a string and passes the test
abbrev pub is_text : (Text → Bool) → Value → Bool
is_text p (str s) = p s
is_text p _ = false

unfoldable pub validate_registry_identity : Value → Value → Value → Result (Unit {0})
validate_registry_identity registry_kind registry_key registry_version = do
  raise_if (not (is_text (λ s. member s registry_kinds) registry_kind))
      (registry_error registry_schema_invalid)
  raise_if (not (is_text is_registry_key registry_key)) (registry_error registry_schema_invalid)
  raise_if (not (is_text is_semver registry_version)) (registry_error registry_schema_invalid)

pub record RegistryReference : Type 0 where
  pub registry_kind : Text
  pub registry_key : Text
  pub registry_version : Text
  pub definition_hash : Option Text

pub record RegistryDefinition : Type 0 where
  pub registry_kind : Text
  pub registry_key : Text
  pub registry_version : Text
  pub summary : Text
  pub source_module : Text
  pub declaration : Value
  pub tags : List Text
  pub dependencies : List RegistryReference
  pub artifact_hash : Text
  pub definition_hash : Option Text

-- kind, key and version
abbrev pub Identity : Type 0
Identity = Text × (Text × Text)

abbrev pub identity_of : RegistryDefinition → Identity
identity_of d = (d.registry_kind, (d.registry_key, d.registry_version))

abbrev pub target_identity : RegistryReference → Identity
target_identity r = (r.registry_kind, (r.registry_key, r.registry_version))

-- `RegistryReference.from_definition`
unfoldable pub as_reference : RegistryDefinition → RegistryReference
as_reference d = record {
  registry_kind = d.registry_kind;
  registry_key = d.registry_key;
  registry_version = d.registry_version;
  definition_hash = d.definition_hash;
}

unfoldable pub as_payload : RegistryReference → Result Value
as_payload r = do
  definition_hash ← or_raise r.definition_hash (registry_error registry_schema_invalid)
  pure (
      object (
        field (codes "registry_kind") (str r.registry_kind) (
          field (codes "registry_key") (str r.registry_key) (
            field (codes "registry_version") (str r.registry_version)
              (field (codes "definition_hash") (str definition_hash) end)))))

abbrev pub payloads : List RegistryReference → Result (List Value)
payloads [] = pure []
payloads (r ∷ rs) = do payload ← as_payload r; rest ← payloads rs; pure (payload ∷ rest)

unfoldable pub hash_payload : RegistryDefinition → List RegistryReference → Result Value
hash_payload d dependencies = do
  exact ← payloads dependencies
  pure (
      object (
        field (codes "registry_kind") (str d.registry_kind) (
          field (codes "registry_key") (str d.registry_key) (
            field (codes "registry_version") (str d.registry_version) (
              field (codes "summary") (str d.summary) (
                field (codes "source_module") (str d.source_module) (
                  field (codes "declaration") d.declaration (
                    field (codes "tags") (array (from_list (map str d.tags))) (
                      field (codes "dependencies") (array (from_list exact))
                        (field (codes "artifact_hash") (str d.artifact_hash) end))))))))))

-- What `inspect.signature` finds of a handler: whether it is callable, and its positional
-- parameters without a default.
pub record Callable : Type 0 where
  pub is_callable : Bool
  pub positional : ℕ

-- rfc8785, hashlib, and the modules that a handler's path may name
pub record Libraries : Type 0 where
  -- none: an exception, as for a number that JSON does not carry
  pub dumps : Value → Option Text
  pub sha256_hexdigest : Text → Text
  -- by module and attribute; none: an exception that the caller catches
  pub inspect_handler : Text → Text → Option Callable

unfoldable pub canonical_sha256 : Libraries → Value → Result Text
canonical_sha256 l value = do
  text ← or_raise (l.dumps value) canonicalization_error
  pure (l.sha256_hexdigest text)
