-- ===== src/Content/Catalog/Refines.antt =====
-- registry.py: what a catalog that `from_definitions` built promises of its queries.
use new_mud_codex.Shared.{ℕ, ◌≡◌, ◌∙◌, ap, subst, Option, some, List, [], ◌∷◌, ◌↔◌, All}
use new_mud_codex.Shared.Text.{Text, Text_equality}
use new_mud_codex.Shared.Table.{Elem}
use new_mud_codex.Shared.Dicts.{lookup, pair_equality}
use new_mud_codex.Errors.{
  pure, or_raise, or_raise-eq-pure, bind-eq-pure, guarded-eq-pure, registry_error,
  registry_reference_not_found, registry_version_content_mismatch,
}
use new_mud_codex.Content.Registry.{
  RegistryDefinition, RegistryReference, Libraries, target_identity, as_reference,
}
use new_mud_codex.Content.Resolve.{RegistryCatalog, from_definitions, contradicts}
use new_mud_codex.Content.Resolve.Built.{IsTarget}
use new_mud_codex.Content.Resolve.Exact.{IsHashed}
use new_mud_codex.Content.Catalog.{definitions, resolve_exact, resolve_active}
use new_mud_codex.Content.Catalog.Built.{IsBuilt, from_definitions-IsBuilt}
use new_mud_codex.Content.Catalog.Exact.{
  DigestLaw, IsExact-of, listed-resolved, listed-resolves, resolves-listed, resolved-resolves,
}

module _ (l : Libraries) where
  -- In a catalog that was built, a reference resolves exactly to the listed definition whose
  -- reference it is, where digests are 64 hexadecimal digits.
  pub resolve_exact-definitions :
      (limit : ℕ) (active compatibility : List RegistryDefinition) (catalog : RegistryCatalog)
      (r : RegistryReference) (d : RegistryDefinition)
      → DigestLaw l
      → from_definitions l limit active compatibility ≡ pure catalog
      → (resolve_exact r catalog ≡ pure d) ↔ (Elem d (definitions catalog) × (as_reference d ≡ r))
  resolve_exact-definitions limit active compatibility catalog r d law e =
      let b = from_definitions-IsBuilt l limit active compatibility catalog e in
      (
        resolves-listed l catalog b r d,
        λ (h, same).
            subst (λ q. resolve_exact q catalog ≡ pure d) same
              (listed-resolves l catalog b d law h),
      )

  targets-resolve :
      (catalog : RegistryCatalog) (b : IsBuilt l catalog) (rs : List RegistryReference)
      → DigestLaw l
      → All (IsTarget b.resolved) rs
      → All (λ r. (d : RegistryDefinition) × (resolve_exact r catalog ≡ pure d)) rs
  targets-resolve catalog b [] law h = tt
  targets-resolve catalog b (r ∷ rs) law (t, h) = (
    (
      t.target,
      subst (λ q. resolve_exact q catalog ≡ pure t.target) t.exact
          (resolved-resolves l catalog b (target_identity r) t.target law t.known),
    ),
    targets-resolve catalog b rs law h,
  )

  -- In a catalog that was built, each dependency of a listed definition resolves exactly, and the
  -- definition's hash is that of its canonical payload with those dependencies. Digests are 64
  -- hexadecimal digits.
  pub definitions-IsClosed :
      (limit : ℕ) (active compatibility : List RegistryDefinition) (catalog : RegistryCatalog)
      (d : RegistryDefinition)
      → DigestLaw l
      → from_definitions l limit active compatibility ≡ pure catalog
      → Elem d (definitions catalog)
      → IsHashed l d
        × All (λ r. (t : RegistryDefinition) × (resolve_exact r catalog ≡ pure t)) d.dependencies
  definitions-IsClosed limit active compatibility catalog d law e h =
      let b = from_definitions-IsBuilt l limit active compatibility catalog e in
      let (i, found) = listed-resolved l catalog b d h in
      let x = IsExact-of l catalog b i d found in
      (x.is_hashed, targets-resolve catalog b d.dependencies law x.targets)

  -- In a catalog that was built, what resolves as active also resolves by its exact reference,
  -- where digests are 64 hexadecimal digits.
  pub resolve_exact-resolve_active :
      (limit : ℕ) (active compatibility : List RegistryDefinition) (catalog : RegistryCatalog)
      (kind key : Text) (version : Option Text) (d : RegistryDefinition)
      → DigestLaw l
      → from_definitions l limit active compatibility ≡ pure catalog
      → resolve_active kind key version catalog ≡ pure d
      → resolve_exact (as_reference d) catalog ≡ pure d
  unfolding resolve_active
  resolve_exact-resolve_active limit active compatibility catalog kind key version d law e h =
      let b = from_definitions-IsBuilt l limit active compatibility catalog e in
      let (t, et, k) =
        bind-eq-pure
          (or_raise (lookup (kind, key) catalog.active)
            (registry_error registry_reference_not_found))
          _ h in
      let (_, same) =
        guarded-eq-pure (contradicts version (some t.registry_version))
          (registry_error registry_version_content_mismatch) k in
      let known =
        or_raise-eq-pure (lookup (kind, key) catalog.active)
          (registry_error registry_reference_not_found) et in
      let (_, (i, found)) = b.is_active (kind, key) d (known ∙ ap some same) in
      resolved-resolves l catalog b i d law found
