-- ===== src/Content/Shape.antt =====
-- src/new_mud/apps/content/registry.py: `_validate_shape`, the checks of one definition.
pub mod Fits
use new_mud_codex.Shared.{
  ℕ, Bool, true, false, not, ◌&&◌, ◌||◌, Option, none, some, List, [], ◌∷◌, all, length, ◌==◌,
  ℕ_equality, if◌then◌else◌, is_some, leb,
}
use new_mud_codex.Shared.Text.{Text, codes, Text_equality}
use new_mud_codex.Shared.Dicts.{member}
use new_mud_codex.Errors.{
  Error, Result, pure, raise, ◌>>=◌, ◌>>◌, raise_if, or_raise, registry_error,
  registry_schema_invalid, registry_handler_missing, type_error,
}
use new_mud_codex.Content.Values.{
  Value, str, array, object, Items, Fields, end, get_field, count_fields, list_items,
}
use new_mud_codex.Content.Registry.{
  RegistryDefinition, RegistryReference, Libraries, Callable, is_text, is_registry_key, is_semver,
  is_sha256, validate_registry_identity,
}

abbrev invalid_if : Bool → Result (Unit {0})
invalid_if test = raise_if test (registry_error registry_schema_invalid)

abbrev non_empty : Text → Bool
non_empty s = not (s == [])

-- The fields of a declaration that is an object.
abbrev fields_of : Value → Option Fields
fields_of (object fs) = some fs
fields_of _ = none

abbrev is_object : Option Value → Bool
is_object (some (object _)) = true
is_object _ = false

abbrev is_array : Option Value → Bool
is_array (some (array _)) = true
is_array _ = false

abbrev is_string : (Text → Bool) → Option Value → Bool
is_string p (some v) = is_text p v
is_string p none = false

abbrev is_absent_or_sha256 : Option Text → Bool
is_absent_or_sha256 none = true
is_absent_or_sha256 (some h) = is_sha256 h

-- the checks of the dependencies, in order
unfoldable pub validate_dependencies : List RegistryReference → Result (Unit {0})
validate_dependencies [] = pure tt
validate_dependencies (r ∷ rs) = do
  invalid_if (
      r.registry_kind == []
      || not (is_registry_key r.registry_key)
      || not (is_semver r.registry_version))
  invalid_if (not (is_absent_or_sha256 r.definition_hash))
  validate_dependencies rs

-- `required_fields`
abbrev required_fields : List (Text × List Text)
required_fields =
    (
      codes "handler",
      codes "callable_path"
          ∷ codes "input_schema"
          ∷ codes "result_schema_version"
          ∷ codes "idempotency"
          ∷ [],
    )
    ∷ (
      codes "rule",
      codes "handler_key" ∷ codes "input_schema" ∷ codes "output_schema" ∷ codes "determinism" ∷ [],
    )
    ∷ (
      codes "permission_policy",
      codes "rule_keys" ∷ codes "combine" ∷ codes "default_decision" ∷ [],
    )
    ∷ (codes "hook_set", codes "hook_schema_version" ∷ codes "hooks" ∷ [])
    ∷ (codes "action_provider", codes "source_scopes" ∷ codes "action_keys" ∷ codes "priority" ∷ [])
    ∷ (
      codes "render_policy",
      codes "handler_key" ∷ codes "input_schema" ∷ codes "output_schema" ∷ [],
    )
    ∷ (
      codes "blueprint_seed_provider",
      codes "seed_bundle_id"
          ∷ codes "target_content_release"
          ∷ codes "content_hash"
          ∷ codes "loader_handler_key"
          ∷ [],
    )
    ∷ (
      codes "action",
      codes "source_scopes"
          ∷ codes "argument_schema"
          ∷ codes "requires_inventory_version"
          ∷ codes "permission_policy_key"
          ∷ codes "handler_key"
          ∷ codes "help"
          ∷ [],
    )
    ∷ (codes "behavior_profile", codes "entity_kinds" ∷ [])
    ∷ (
      codes "character_creation_profile",
      codes "display_name"
          ∷ codes "gender_options"
          ∷ codes "pronoun_options"
          ∷ codes "initial_state_schema_version"
          ∷ codes "initial_state"
          ∷ codes "start_room_ref"
          ∷ codes "source_ref"
          ∷ [],
    )
    ∷ (
      codes "effect_type",
      codes "payload_schema"
          ∷ codes "stacking_policy"
          ∷ codes "tick_policy"
          ∷ codes "persistence"
          ∷ codes "reference_rule_key"
          ∷ codes "recovery_policy"
          ∷ codes "handler_key_apply"
          ∷ codes "handler_key_expire"
          ∷ [],
    )
    ∷ (
      codes "job_type",
      codes "payload_schema"
          ∷ codes "handler_key"
          ∷ codes "retry_policy"
          ∷ codes "overlap_policy"
          ∷ codes "concurrency_key_template"
          ∷ codes "max_runtime_s"
          ∷ [],
    )
    ∷ (
      codes "world_process_type",
      codes "payload_schema"
          ∷ codes "handler_key"
          ∷ codes "singleton_scope"
          ∷ codes "recovery_policy"
          ∷ [],
    )
    ∷ (
      codes "startup_plan",
      codes "target_kind"
          ∷ codes "type_key"
          ∷ codes "type_version"
          ∷ codes "payload"
          ∷ codes "enabled"
          ∷ codes "idempotency_key"
          ∷ [],
    )
    ∷ []

-- `required_fields.get(kind, ())`
abbrev fields_for : Text → List (Text × List Text) → List Text
fields_for kind [] = []
fields_for kind ((k, names) ∷ rest) =
    let others = fields_for kind rest in if k == kind then names else others

abbrev lacks : Fields → List Text → Bool
lacks fs [] = false
lacks fs (name ∷ names) = not (is_some (get_field name fs)) || lacks fs names

-- `s.rpartition(".")`; none: no dot
abbrev before_last : ℕ → Option (Text × Text) → Text → Option (Text × Text)
before_last c (some (a, b)) rest = some (c ∷ a, b)
before_last c none rest = if c == b'.' then some ([], rest) else none

unfoldable pub rpartition : Text → Option (Text × Text)
rpartition [] = none
rpartition (c ∷ s) = before_last c (rpartition s) s

-- `value in {…}` of strings: an array or an object has no hash
abbrev in_strings : Option Value → List Text → Result Bool
in_strings none names = pure false
in_strings (some (str s)) names = pure (member s names)
in_strings (some (array _)) names = raise type_error
in_strings (some (object _)) names = raise type_error
in_strings (some _) names = pure false

-- a non-empty string
abbrev as_path : Option Value → Option Text
as_path (some (str s)) = if s == [] then none else some s
as_path _ = none

abbrev handler_missing : Error
handler_missing = registry_error registry_handler_missing

unfoldable pub validate_handler : Libraries → RegistryDefinition → Fields → Result (Unit {0})
validate_handler l d fs = do
  callable_path ← or_raise (as_path (get_field (codes "callable_path") fs)) handler_missing
  path ← or_raise (rpartition callable_path) handler_missing
  handler ← or_raise (l.inspect_handler path.0 path.1) handler_missing
  invalid_if (not handler.is_callable || not (handler.positional == 2))
  invalid_if (not (is_sha256 d.artifact_hash))
  invalid_if (not (is_object (get_field (codes "input_schema") fs)))
  known ←
      in_strings (get_field (codes "idempotency") fs)
        (codes "idempotent" ∷ codes "requires_idempotency_key" ∷ codes "non_idempotent" ∷ [])
  invalid_if (not known)

-- the last test is reached only where the others hold
unfoldable pub validate_rule : Fields → Result (Unit {0})
validate_rule fs = do
  invalid_if (
      not (is_string (λ s. true) (get_field (codes "handler_key") fs))
      || not (is_object (get_field (codes "input_schema") fs))
      || not (is_object (get_field (codes "output_schema") fs)))
  known ←
      in_strings (get_field (codes "determinism") fs) (codes "deterministic" ∷ codes "seeded" ∷ [])
  invalid_if (not known)

-- an array of non-empty strings
abbrev are_strings : Option Value → Bool
are_strings (some (array vs)) = all (is_text non_empty) (list_items vs)
are_strings _ = false

unfoldable pub validate_behavior : Fields → Result (Unit {0})
validate_behavior fs = invalid_if (not (are_strings (get_field (codes "entity_kinds") fs)))

abbrev strings_of : List Value → List Text
strings_of [] = []
strings_of (str s ∷ vs) = s ∷ strings_of vs
strings_of (_ ∷ vs) = strings_of vs

-- `len(set(xs)) == len(xs)`
abbrev distinct : List Text → Bool
distinct [] = true
distinct (s ∷ ss) = not (member s ss) && distinct ss

-- a non-empty array of distinct, non-empty strings with "unspecified"
abbrev are_options : Option Value → Bool
are_options (some (array vs)) =
    leb 1 (length (list_items vs))
    && all (is_text non_empty) (list_items vs)
    && distinct (strings_of (list_items vs))
    && member (codes "unspecified") (strings_of (list_items vs))
are_options _ = false

-- `set(d) == {…}`
abbrev has_just : List Text → Fields → Bool
has_just names fs = count_fields fs == length names && not (lacks fs names)

abbrev is_initial_state : Option Value → Bool
is_initial_state (some (object fs)) =
    has_just (codes "stats" ∷ codes "resources" ∷ codes "skill_grants" ∷ codes "item_grants" ∷ [])
      fs
    && is_object (get_field (codes "stats") fs)
    && is_object (get_field (codes "resources") fs)
    && is_array (get_field (codes "skill_grants") fs)
    && is_array (get_field (codes "item_grants") fs)
is_initial_state _ = false

abbrev is_start_room : Option Value → Bool
is_start_room (some (object fs)) =
    has_just (codes "blueprint_key" ∷ codes "expected_kind" ∷ []) fs
    && is_string (λ s. true) (get_field (codes "blueprint_key") fs)
    && is_string (λ s. s == codes "room") (get_field (codes "expected_kind") fs)
is_start_room _ = false

unfoldable pub validate_profile : Fields → Result (Unit {0})
validate_profile fs = do
  invalid_if (
      not (is_string non_empty (get_field (codes "display_name") fs))
      || not (are_options (get_field (codes "gender_options") fs))
      || not (are_options (get_field (codes "pronoun_options") fs)))
  invalid_if (
      not (
        is_string (λ s. s == codes "character-initial-state/1")
          (get_field (codes "initial_state_schema_version") fs))
      || not (is_initial_state (get_field (codes "initial_state") fs)))
  invalid_if (
      not (is_start_room (get_field (codes "start_room_ref") fs))
      || not (is_object (get_field (codes "source_ref") fs)))

abbrev when : Bool → Result (Unit {0}) → Result (Unit {0})
when true check = check
when false check = pure tt

-- `_validate_shape`
unfoldable pub validate_shape : Libraries → RegistryDefinition → Result (Unit {0})
validate_shape l d = do
  validate_registry_identity (str d.registry_kind) (str d.registry_key) (str d.registry_version)
  invalid_if (d.summary == [] || d.source_module == [])
  fs ← or_raise (fields_of d.declaration) (registry_error registry_schema_invalid)
  invalid_if (not (all non_empty d.tags))
  validate_dependencies d.dependencies
  invalid_if (lacks fs (fields_for d.registry_kind required_fields))
  when (d.registry_kind == codes "handler") (validate_handler l d fs)
  when (d.registry_kind == codes "rule") (validate_rule fs)
  when (d.registry_kind == codes "behavior_profile") (validate_behavior fs)
  when (d.registry_kind == codes "character_creation_profile") (validate_profile fs)
