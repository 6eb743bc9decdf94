-- ===== src/Content/Shape/Fits.antt =====
-- registry.py, `_validate_shape`: it raises exceptions of its own only.
use new_mud_codex.Shared.{refl, Bool, true, false, Option, none, some, List, [], ◌∷◌}
use new_mud_codex.Shared.Text.{Text, Text_equality}
use new_mud_codex.Errors.{Result}
use new_mud_codex.Content.Values.{Value, Fields, null, bool, int, negative, str, array, object}
use new_mud_codex.Content.Registry.{
  RegistryDefinition, RegistryReference, Libraries, validate_registry_identity,
}
use new_mud_codex.Content.Fits.{Fits, bind-Fits, raise_if-Fits, or_raise-Fits}
use new_mud_codex.Content.Shape.{
  validate_shape, validate_dependencies, validate_handler, validate_rule, validate_behavior,
  validate_profile, in_strings, when,
}

validate_registry_identity-Fits : (a b c : Value) → Fits (validate_registry_identity a b c)
unfolding validate_registry_identity
validate_registry_identity-Fits a b c = search (bind-Fits, raise_if-Fits)

in_strings-Fits : (v : Option Value) (names : List Text) → Fits (in_strings v names)
in_strings-Fits none names = refl
in_strings-Fits (some null) names = refl
in_strings-Fits (some (bool b)) names = refl
in_strings-Fits (some (int n)) names = refl
in_strings-Fits (some (negative n)) names = refl
in_strings-Fits (some (str s)) names = refl
in_strings-Fits (some (array vs)) names = refl
in_strings-Fits (some (object fs)) names = refl

validate_dependencies-Fits : (rs : List RegistryReference) → Fits (validate_dependencies rs)
unfolding validate_dependencies
validate_dependencies-Fits [] = refl
validate_dependencies-Fits (r ∷ rs) =
    search (bind-Fits, raise_if-Fits, validate_dependencies-Fits rs)

validate_handler-Fits :
    (l : Libraries) (d : RegistryDefinition) (fs : Fields) → Fits (validate_handler l d fs)
unfolding validate_handler
validate_handler-Fits l d fs =
    search (bind-Fits, raise_if-Fits, or_raise-Fits, in_strings-Fits) depth 20

validate_rule-Fits : (fs : Fields) → Fits (validate_rule fs)
unfolding validate_rule
validate_rule-Fits fs = search (bind-Fits, raise_if-Fits, in_strings-Fits)

validate_profile-Fits : (fs : Fields) → Fits (validate_profile fs)
unfolding validate_profile
validate_profile-Fits fs = search (bind-Fits, raise_if-Fits)

validate_behavior-Fits : (fs : Fields) → Fits (validate_behavior fs)
unfolding validate_behavior
validate_behavior-Fits fs = search (raise_if-Fits)

when-Fits : (test : Bool) (check : Result (Unit {0})) → Fits check → Fits (when test check)
when-Fits true check h = h
when-Fits false check h = refl

pub validate_shape-Fits : (l : Libraries) (d : RegistryDefinition) → Fits (validate_shape l d)
unfolding validate_shape
validate_shape-Fits l d =
    search
      (
        bind-Fits, raise_if-Fits, or_raise-Fits, when-Fits, validate_registry_identity-Fits,
        validate_dependencies-Fits, validate_handler-Fits, validate_rule-Fits,
        validate_behavior-Fits, validate_profile-Fits,
      )
      depth 30 fits 3000
