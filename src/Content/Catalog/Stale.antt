-- ===== src/Content/Catalog/Stale.antt =====
-- registry.py, `resolve_exact`: references to another content of a version.
use new_mud_codex.Shared.{
  ℕ, ◌≡◌, ◌≢◌, refl, sym, ◌∙◌, ap, true, none, some, List, [], ◌∷◌, ◌==◌, inl, inr, Option-cases,
}
use new_mud_codex.Shared.Text.{Text, Text_equality}
use new_mud_codex.Shared.Table.{Elem, select-Elem}
use new_mud_codex.Shared.Dicts.{lookup, values, pair_equality}
use new_mud_codex.Shared.Dicts.Entries.{lookup-Elem}
use new_mud_codex.Errors.{pure, raise, registry_error, registry_version_content_mismatch}
use new_mud_codex.Content.Registry.{
  RegistryDefinition, RegistryReference, Libraries, identity_of, target_identity, is_sha256,
}
use new_mud_codex.Content.Resolve.{RegistryCatalog, from_definitions, or_empty}
use new_mud_codex.Content.Resolve.Exact.{Built-distinct}
use new_mud_codex.Content.Catalog.{definitions, before, resolve_exact, unavailable, same_version}
use new_mud_codex.Content.Catalog.Built.{IsBuilt, from_definitions-IsBuilt, Elem-sort}
use new_mud_codex.Content.Catalog.Exact.{
  IsExact-of, found-resolved, listed-resolved, resolved-valid,
}

unavailable-Elem :
    (ds : List RegistryDefinition) {d : RegistryDefinition}
    → Elem d ds
    → unavailable ds ≡ raise (registry_error registry_version_content_mismatch)
unavailable-Elem [] h = elim h [ ]
unavailable-Elem (t ∷ ds) h = refl

module _ (l : Libraries) (catalog : RegistryCatalog) (b : IsBuilt l catalog) where
  -- A reference with another hash is not in the table.
  stale-lookup :
      (r : RegistryReference) (d : RegistryDefinition) (hash : Text)
      → Elem d (definitions catalog)
      → target_identity r ≡ identity_of d
      → d.definition_hash ≢ some hash
      → lookup (target_identity r, hash) catalog.compatibility ≡ none
  stale-lookup r d hash listed same other =
      elim (Option-cases (lookup (target_identity r, hash) catalog.compatibility)) [
        | inl absent ↦ absent
        | inr (t, found) ↦
            (let (i, known) = listed-resolved l catalog b d listed in
              let (key, (j, known_too)) =
                found-resolved l catalog b (target_identity r, hash) t found in
              let one : t ≡ d =
                Built-distinct l b.raw b.resolved d t b.built
                  (lookup-Elem i b.resolved {v = d} known)
                  (lookup-Elem j b.resolved {v = t} known_too) (ap (λ k. k.0) key ∙ same) in
              let x = (IsExact-of l catalog b j t known_too).is_hashed in
              let own : x.hash ≡ hash = sym (ap or_empty x.own_hash) ∙ ap (λ k. k.1) key in
              absurd (other (ap (λ y. y.definition_hash) (sym one) ∙ x.own_hash ∙ ap some own)))
      ]

  same_version-Elem :
      (r : RegistryReference) (d : RegistryDefinition)
      → Elem d (definitions catalog)
      → target_identity r ≡ identity_of d
      → Elem d (same_version r catalog)
  unfolding same_version definitions
  same_version-Elem r d listed same =
      select-Elem (λ t. identity_of t == target_identity r) (values catalog.compatibility) d
        ((pair_equality.equals_iff (identity_of d) (target_identity r)).1 (sym same))
        (Elem-sort before (values catalog.compatibility) {b = d} listed)

-- In a catalog that was built, a reference to a listed definition's version with another digest is
-- refused as a mismatch of its content.
pub resolve_exact-stale :
    (l : Libraries) (limit : ℕ) (active compatibility : List RegistryDefinition)
    (catalog : RegistryCatalog) (r : RegistryReference) (d : RegistryDefinition) (hash : Text)
    → from_definitions l limit active compatibility ≡ pure catalog
    → Elem d (definitions catalog)
    → target_identity r ≡ identity_of d
    → r.definition_hash ≡ some hash
    → is_sha256 hash ≡ true
    → d.definition_hash ≢ some hash
    → resolve_exact r catalog ≡ raise (registry_error registry_version_content_mismatch)
unfolding resolve_exact same_version
resolve_exact-stale l limit active compatibility catalog r d hash e listed same own digest other =
    let b = from_definitions-IsBuilt l limit active compatibility catalog e in
    let (i, known) = listed-resolved l catalog b d listed in
    rw
      (
        own,
        resolved-valid l catalog b i d (target_identity r) known (sym same),
        digest,
        stale-lookup l catalog b r d hash listed same other,
      )
      (unavailable-Elem (same_version r catalog) {d = d}
        (same_version-Elem l catalog b r d listed same))
