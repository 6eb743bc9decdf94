-- ===== src/Content/Catalog/Exact.antt =====
-- registry.py: `resolve_exact` and `resolve_active` on a catalog that `from_definitions` built.
use new_mud_codex.Shared.{
  ◌≡◌, refl, sym, ◌∙◌, ap, subst, true, not, Option, none, some, List, [], ◌∷◌, inl, inr,
}
use new_mud_codex.Shared.Text.{Text, Text_equality}
use new_mud_codex.Shared.Table.{Elem}
use new_mud_codex.Shared.Dicts.{lookup, lookup-nil, values, pair_equality}
use new_mud_codex.Shared.Dicts.Entries.{Unique, lookup-Elem, Elem-lookup}
use new_mud_codex.Errors.{
  pure, raise_if, or_raise, or_raise-eq-pure, bind-eq-pure, pure-injective, registry_error,
  registry_schema_invalid, canonicalization_error,
}
use new_mud_codex.Content.Values.{str}
use new_mud_codex.Content.Registry.{
  RegistryDefinition, RegistryReference, Libraries, Identity, identity_of, target_identity,
  as_reference, canonical_sha256, validate_registry_identity, is_sha256,
}
use new_mud_codex.Content.Shape.{validate_shape}
use new_mud_codex.Content.Resolve.{RegistryCatalog, exact_key, or_empty}
use new_mud_codex.Content.Resolve.Raw.{
  by_reference-Unique, by_reference-Indexed, by_reference-Elem, by_reference-lookup,
}
use new_mud_codex.Content.Resolve.Exact.{
  Built-Unique, Built-distinct, Built-IsExact, IsExact, IsHashed,
}
use new_mud_codex.Content.Catalog.{
  definitions, before, resolve_exact, or_else, unavailable, same_version,
}
use new_mud_codex.Content.Catalog.Built.{IsBuilt, Elem-sort, sort-Elem}

abbrev refers : Identity → Option Text → RegistryReference
refers i hash = record {
  registry_kind = i.0;
  registry_key = (i.1).0;
  registry_version = (i.1).1;
  definition_hash = hash;
}

module _ (l : Libraries) where
  -- A digest is written in 64 hexadecimal digits.
  abbrev pub DigestLaw : Type 0
  DigestLaw = (t : Text) → is_sha256 (l.sha256_hexdigest t) ≡ true

  validate_shape-identity :
      (r : RegistryDefinition)
      → validate_shape l r ≡ pure tt
      → validate_registry_identity
          (str r.registry_kind)
          (str r.registry_key)
          (str r.registry_version)
        ≡ pure tt
  unfolding validate_shape
  validate_shape-identity r h =
      let (_, e, _) =
        bind-eq-pure
          (validate_registry_identity (str r.registry_kind) (str r.registry_key)
            (str r.registry_version))
          _ h in
      e

  hashed-is_sha256 :
      (d : RegistryDefinition) → DigestLaw → (h : IsHashed l d) → is_sha256 h.hash ≡ true
  unfolding canonical_sha256
  hashed-is_sha256 d law h =
      let (t, _, k) =
        bind-eq-pure (or_raise (l.dumps h.payload) canonicalization_error) _ h.hashed in
      subst (λ x. is_sha256 x ≡ true) (pure-injective k) (law t)

  resolve_exact-found :
      (r : RegistryReference) (hash : Text) (d : RegistryDefinition) (catalog : RegistryCatalog)
      → r.definition_hash ≡ some hash
      → validate_registry_identity
          (str r.registry_kind)
          (str r.registry_key)
          (str r.registry_version)
        ≡ pure tt
      → is_sha256 hash ≡ true
      → lookup (target_identity r, hash) catalog.compatibility ≡ some d
      → resolve_exact r catalog ≡ pure d
  unfolding resolve_exact
  resolve_exact-found r hash d catalog own valid digest found = rw (own, valid, digest, found) refl

  or_else-eq-pure :
      (o : Option RegistryDefinition) (ds : List RegistryDefinition) {d : RegistryDefinition}
      → or_else o (unavailable ds) ≡ pure d
      → o ≡ some d
  or_else-eq-pure (some t) ds h = ap some (pure-injective h)
  or_else-eq-pure none [] h = absurd (cc h)
  or_else-eq-pure none (t ∷ ds) h = absurd (cc h)

  resolve_exact-eq-pure :
      (r : RegistryReference) (d : RegistryDefinition) (catalog : RegistryCatalog)
      → resolve_exact r catalog ≡ pure d
      → (hash : Text) × (r.definition_hash ≡ some hash)
        × (lookup (target_identity r, hash) catalog.compatibility ≡ some d)
  unfolding resolve_exact
  resolve_exact-eq-pure r d catalog e =
      let (hash, e1, k1) =
        bind-eq-pure (or_raise r.definition_hash (registry_error registry_schema_invalid)) _ e in
      let (_, _, k2) =
        bind-eq-pure
          (validate_registry_identity (str r.registry_kind) (str r.registry_key)
            (str r.registry_version))
          _ k1 in
      let (_, _, k3) =
        bind-eq-pure (raise_if (not (is_sha256 hash)) (registry_error registry_schema_invalid)) _
          k2 in
      (
        hash,
        or_raise-eq-pure r.definition_hash (registry_error registry_schema_invalid) e1,
        or_else-eq-pure _ (same_version r catalog) k3,
      )

  module _ (catalog : RegistryCatalog) (b : IsBuilt l catalog) where
    pub IsExact-of :
        (i : Identity) (d : RegistryDefinition)
        → lookup i b.resolved ≡ some d
        → IsExact l b.resolved d
    IsExact-of i d = Built-IsExact l b.raw b.resolved i d b.is_raw b.built

    resolved-found :
        (i : Identity) (d : RegistryDefinition)
        → lookup i b.resolved ≡ some d
        → lookup (exact_key d) catalog.compatibility ≡ some d
    resolved-found i d h =
        subst (λ c. lookup (exact_key d) c ≡ some d) (sym b.referenced)
          (by_reference-lookup (values b.resolved) [] d
            (λ t m e.
              Built-distinct l b.raw b.resolved d t b.built (lookup-Elem i b.resolved {v = d} h) m
                (ap (λ k. k.0) e))
            (lookup-Elem i b.resolved {v = d} h))

    pub resolved-valid :
        (i : Identity) (d : RegistryDefinition) (j : Identity)
        → lookup i b.resolved ≡ some d
        → identity_of d ≡ j
        → validate_registry_identity (str j.0) (str (j.1).0) (str (j.1).1) ≡ pure tt
    resolved-valid i d j h same =
        let x = IsExact-of i d h in
        subst (λ k. validate_registry_identity (str k.0) (str (k.1).0) (str (k.1).1) ≡ pure tt)
          (x.same ∙ same) (validate_shape-identity x.raw x.valid)

    pub resolved-resolves :
        (i : Identity) (d : RegistryDefinition)
        → DigestLaw
        → lookup i b.resolved ≡ some d
        → resolve_exact (as_reference d) catalog ≡ pure d
    unfolding as_reference
    resolved-resolves i d law h =
        let x = IsExact-of i d h in
        let own = (x.is_hashed).own_hash in
        resolve_exact-found (as_reference d) (x.is_hashed).hash d catalog own
          (resolved-valid i d (identity_of d) h refl) (hashed-is_sha256 d law x.is_hashed)
          (subst (λ o. lookup (identity_of d, or_empty o) catalog.compatibility ≡ some d) own
            (resolved-found i d h))

    pub found-resolved :
        (k : Identity × Text) (d : RegistryDefinition)
        → lookup k catalog.compatibility ≡ some d
        → (exact_key d ≡ k) × ((i : Identity) × (lookup i b.resolved ≡ some d))
    found-resolved k d h =
        let h1 = subst (λ c. lookup k c ≡ some d) b.referenced h in
        (
          by_reference-Indexed (values b.resolved) [] (λ j t e. absurd (lookup-nil j {v = t} e)) k d
              h1,
          elim (by_reference-Elem (values b.resolved) [] k d h1) [
            | inl m ↦ Elem-lookup b.resolved {v = d} (Built-Unique l b.raw b.resolved b.built) m
            | inr none_yet ↦ absurd (lookup-nil k {v = d} none_yet)
          ],
        )

    pub listed-resolved :
        (d : RegistryDefinition)
        → Elem d (definitions catalog)
        → (i : Identity) × (lookup i b.resolved ≡ some d)
    unfolding definitions
    listed-resolved d h =
        let m = Elem-sort before (values catalog.compatibility) {b = d} h in
        let unique =
          subst Unique (sym b.referenced) (by_reference-Unique (values b.resolved) [] tt) in
        let (k, found) = Elem-lookup catalog.compatibility {v = d} unique m in
        (found-resolved k d found).1

    pub listed-resolves :
        (d : RegistryDefinition)
        → DigestLaw
        → Elem d (definitions catalog)
        → resolve_exact (as_reference d) catalog ≡ pure d
    listed-resolves d law h =
        let (i, found) = listed-resolved d h in resolved-resolves i d law found

    pub resolves-listed :
        (r : RegistryReference) (d : RegistryDefinition)
        → resolve_exact r catalog ≡ pure d
        → Elem d (definitions catalog) × (as_reference d ≡ r)
    unfolding definitions as_reference
    resolves-listed r d e =
        let (hash, own, found) = resolve_exact-eq-pure r d catalog e in
        let (key, (i, known)) = found-resolved (target_identity r, hash) d found in
        let x = IsExact-of i d known in
        let same : d.definition_hash ≡ r.definition_hash =
          (x.is_hashed).own_hash
          ∙ ap some (sym (ap or_empty (x.is_hashed).own_hash) ∙ ap (λ k. k.1) key)
          ∙ sym own in
        (
          sort-Elem before (values catalog.compatibility) {b = d}
              (lookup-Elem (target_identity r, hash) catalog.compatibility {v = d} found),
          ap (λ j. refers j d.definition_hash) (ap (λ k. k.0) key)
              ∙ ap (refers (target_identity r)) same,
        )
