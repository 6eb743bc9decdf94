-- ===== src/Content/Resolve/Raw.antt =====
-- registry.py, `from_definitions`: the table of raw definitions, and the one by references.
use new_mud_codex.Shared.{
  ◌≡◌, ◌≢◌, sym, ◌∙◌, ap, subst, some, List, [], ◌∷◌, ◌==◌, ◌⊎◌, Bool-cases, inl, inr, false≢true,
}
use new_mud_codex.Shared.Text.{Text, Text_equality}
use new_mud_codex.Shared.Table.{Elem, here, there}
use new_mud_codex.Shared.Dicts.{
  lookup, insert, lookup-insert_own, lookup-insert_other, lookup-insert_cases, pair_equality,
}
use new_mud_codex.Shared.Dicts.Entries.{Unique, Unique-insert, Indexed, Indexed-insert}
use new_mud_codex.Errors.{
  pure, raise_if, bind-eq-pure, pure-injective, registry_error, registry_version_content_mismatch,
}
use new_mud_codex.Content.Registry.{RegistryDefinition, Libraries, Identity, identity_of}
use new_mud_codex.Content.Shape.{validate_shape}
use new_mud_codex.Content.Resolve.{
  Definitions, Compatibility, collect_raw, differs, by_reference, exact_key,
}

module _ (l : Libraries) where
  -- Every raw definition has a valid shape and stands under its own identity.
  abbrev pub IsRaw : Definitions → Type 0
  IsRaw raw =
      (i : Identity) (r : RegistryDefinition)
      → lookup i raw ≡ some r
      → (identity_of r ≡ i) × (validate_shape l r ≡ pure tt)

  IsRaw-insert :
      (r : RegistryDefinition) (raw : Definitions)
      → validate_shape l r ≡ pure tt
      → IsRaw raw
      → IsRaw (insert (identity_of r) r raw)
  IsRaw-insert r raw valid h i t g = elim (lookup-insert_cases (identity_of r) i r raw g) [
    | inl (key, same) ↦
        (ap identity_of (sym same) ∙ key, subst (λ x. validate_shape l x ≡ pure tt) same valid)
    | inr (_, old) ↦ h i t old
  ]

  pub collect_raw-IsRaw :
      (ds : List RegistryDefinition) (raw raw' : Definitions)
      → IsRaw raw
      → collect_raw l ds raw ≡ pure raw'
      → IsRaw raw'
  unfolding collect_raw
  collect_raw-IsRaw [] raw raw' h e = subst IsRaw (pure-injective e) h
  collect_raw-IsRaw (d ∷ ds) raw raw' h e =
      let (_, valid, k1) = bind-eq-pure (validate_shape l d) _ e in
      let (_, _, k2) =
        bind-eq-pure
          (raise_if (differs (lookup (identity_of d) raw) d)
            (registry_error registry_version_content_mismatch))
          _ k1 in
      collect_raw-IsRaw ds (insert (identity_of d) d raw) raw' (IsRaw-insert d raw valid h) k2

pub by_reference-Unique :
    (ds : List RegistryDefinition) (c : Compatibility) → Unique c → Unique (by_reference ds c)
unfolding by_reference
by_reference-Unique [] c u = u
by_reference-Unique (d ∷ ds) c u =
    by_reference-Unique ds (insert (exact_key d) d c) (Unique-insert (exact_key d) d c u)

pub by_reference-Indexed :
    (ds : List RegistryDefinition) (c : Compatibility)
    → Indexed exact_key c
    → Indexed exact_key (by_reference ds c)
unfolding by_reference
by_reference-Indexed [] c h = h
by_reference-Indexed (d ∷ ds) c h =
    by_reference-Indexed ds (insert (exact_key d) d c) (Indexed-insert exact_key d c h)

-- A definition that is found by a reference is one of the list, or was there before.
pub by_reference-Elem :
    (ds : List RegistryDefinition) (c : Compatibility) (k : Identity × Text)
    (d : RegistryDefinition)
    → lookup k (by_reference ds c) ≡ some d
    → Elem d ds ⊎ (lookup k c ≡ some d)
unfolding by_reference
by_reference-Elem [] c k d e = inr e
by_reference-Elem (d0 ∷ ds) c k d e =
    elim (by_reference-Elem ds (insert (exact_key d0) d0 c) k d e) [
      | inl i ↦ inl (there i)
      | inr g ↦ elim (lookup-insert_cases (exact_key d0) k d0 c g) [
        | inl (_, same) ↦ inl (subst (λ x. Elem x (d0 ∷ ds)) same here)
        | inr (_, old) ↦ inr old
      ]
    ]

by_reference-keeps :
    (ds : List RegistryDefinition) (c : Compatibility) (k : Identity × Text)
    (d : RegistryDefinition)
    → ((t : RegistryDefinition) → Elem t ds → exact_key t ≡ k → t ≡ d)
    → lookup k c ≡ some d
    → lookup k (by_reference ds c) ≡ some d
unfolding by_reference
by_reference-keeps [] c k d h e = e
by_reference-keeps (d0 ∷ ds) c k d h e =
    by_reference-keeps ds (insert (exact_key d0) d0 c) k d (λ t i. h t (there i))
      (elim (Bool-cases (exact_key d0 == k)) [
        | inl t ↦
            (let same = (pair_equality.equals_iff (exact_key d0) k).0 t in
              subst (λ x. lookup x (insert (exact_key d0) d0 c) ≡ some d) same
                (lookup-insert_own (exact_key d0) d0 c ∙ ap some (h d0 here same)))
        | inr t ↦
            (let ne : exact_key d0 ≢ k =
                λ s. false≢true (sym t ∙ (pair_equality.equals_iff (exact_key d0) k).1 s) in
              lookup-insert_other (exact_key d0) k d0 c ne ∙ e)
      ])

-- A definition that shares its reference with no other one is found by it.
pub by_reference-lookup :
    (ds : List RegistryDefinition) (c : Compatibility) (d : RegistryDefinition)
    → ((t : RegistryDefinition) → Elem t ds → exact_key t ≡ exact_key d → t ≡ d)
    → Elem d ds
    → lookup (exact_key d) (by_reference ds c) ≡ some d
unfolding by_reference
by_reference-lookup [] c d h e = elim e [ ]
by_reference-lookup (d0 ∷ ds) c d h here =
    by_reference-keeps ds (insert (exact_key d) d c) (exact_key d) d (λ t i. h t (there i))
      (lookup-insert_own (exact_key d) d c)
by_reference-lookup (d0 ∷ ds) c d h (there e) =
    by_reference-lookup ds (insert (exact_key d0) d0 c) d (λ t i. h t (there i)) e
