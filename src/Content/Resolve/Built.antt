-- ===== src/Content/Resolve/Built.antt =====
-- registry.py, `resolve`: how the table of resolved definitions comes about.
use new_mud_codex.Shared.{◌≡◌, sym, ◌∙◌, ap, true, none, some, List, [], ◌∷◌, map, All, inl, inr}
use new_mud_codex.Shared.Text.{Text, Text_equality}
use new_mud_codex.Shared.Dicts.{member, lookup, insert, lookup-insert_cases, pair_equality}
use new_mud_codex.Errors.{pure}
use new_mud_codex.Content.Values.{Value}
use new_mud_codex.Content.Registry.{
  RegistryDefinition, RegistryReference, Libraries, Identity, identity_of, target_identity,
  as_reference, hash_payload, canonical_sha256,
}
use new_mud_codex.Content.Resolve.{Definitions, normalized}

-- The reference is that of a definition in the table.
pub record IsTarget (m : Definitions) (r : RegistryReference) : Type 0 where
  pub target : RegistryDefinition
  pub known : lookup (target_identity r) m ≡ some target
  pub exact : as_reference target ≡ r

abbrev pub Grows : Definitions → Definitions → Type 0
Grows m m' = (i : Identity) (d : RegistryDefinition) → lookup i m ≡ some d → lookup i m' ≡ some d

-- What is being resolved is not in the table.
abbrev pub Apart : List Identity → Definitions → Definitions → Type 0
Apart visiting m m' =
    (i : Identity) → member i visiting ≡ true → lookup i m ≡ none → lookup i m' ≡ none

module _ (l : Libraries) (raw : Definitions) where
  -- Each definition was added after its dependencies, with their exact references and its hash.
  pub data Built : Definitions → Type 0 where
    empty : Built []
    extend :
        {m : Definitions} (r : RegistryDefinition) (exact : List RegistryReference)
        (payload : Value) (hash : Text)
        → Built m
        → lookup (identity_of r) m ≡ none
        → lookup (identity_of r) raw ≡ some r
        → map target_identity exact ≡ map target_identity r.dependencies
        → All (IsTarget m) exact
        → hash_payload r exact ≡ pure payload
        → canonical_sha256 l payload ≡ pure hash
        → Built (insert (identity_of r) (normalized r exact hash) m)

  -- What a call of `resolve` does to the table.
  pub record Resolves (visiting : List Identity) (m : Definitions) (identity : Identity)
      (d : RegistryDefinition) (m' : Definitions) : Type 0 where
    pub built : Built m'
    pub grows : Grows m m'
    pub apart : Apart visiting m m'
    pub found : lookup identity m' ≡ some d

  pub record ResolvesAll (visiting : List Identity) (m : Definitions)
      (rs exact : List RegistryReference) (m' : Definitions) : Type 0 where
    pub built : Built m'
    pub grows : Grows m m'
    pub apart : Apart visiting m m'
    pub same : map target_identity exact ≡ map target_identity rs
    pub targets : All (IsTarget m') exact

  -- A definition stands under its own identity.
  pub lookup-identity :
      (m : Definitions) (i : Identity) (d : RegistryDefinition)
      → Built m
      → lookup i m ≡ some d
      → identity_of d ≡ i
  unfolding lookup normalized
  lookup-identity m i d empty h = absurd (cc h)
  lookup-identity m i d (extend {m = m0} r exact payload hash b new _ _ _ _ _) h =
      elim (lookup-insert_cases (identity_of r) i (normalized r exact hash) m0 h) [
        | inl (key, same) ↦ sym (ap identity_of same) ∙ key
        | inr (_, old) ↦ lookup-identity m0 i d b old
      ]

  pub Grows-trans : (a b c : Definitions) → Grows a b → Grows b c → Grows a c
  Grows-trans a b c g h i d e = h i d (g i d e)

  pub IsTarget-Grows :
      (m m' : Definitions) (rs : List RegistryReference)
      → Grows m m'
      → All (IsTarget m) rs
      → All (IsTarget m') rs
  IsTarget-Grows m m' [] g h = tt
  IsTarget-Grows m m' (r ∷ rs) g (t, h) = (
    record { target = t.target; known = g (target_identity r) t.target t.known; exact = t.exact },
    IsTarget-Grows m m' rs g h,
  )
