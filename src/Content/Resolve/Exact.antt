-- ===== src/Content/Resolve/Exact.antt =====
-- registry.py, `resolve`: hashes and exact references of the resolved definitions.
use new_mud_codex.Shared.{◌≡◌, refl, sym, ◌∙◌, ap, subst, none, some, All, inl, inr}
use new_mud_codex.Shared.Text.{Text, Text_equality}
use new_mud_codex.Shared.Table.{Elem}
use new_mud_codex.Shared.Dicts.{
  lookup, insert, values, lookup-insert_other, lookup-insert_cases, lookup-ne, pair_equality,
}
use new_mud_codex.Shared.Dicts.Entries.{Unique, Unique-insert, Elem-lookup}
use new_mud_codex.Errors.{pure}
use new_mud_codex.Content.Values.{Value}
use new_mud_codex.Content.Registry.{
  RegistryDefinition, Libraries, Identity, identity_of, hash_payload, canonical_sha256,
}
use new_mud_codex.Content.Shape.{validate_shape}
use new_mud_codex.Content.Resolve.{Definitions, normalized}
use new_mud_codex.Content.Resolve.Built.{
  Built, empty, extend, IsTarget, IsTarget-Grows, Grows, lookup-identity,
}
use new_mud_codex.Content.Resolve.Raw.{IsRaw}

module _ (l : Libraries) where
  -- The hash is that of the definition with its exact dependencies.
  pub record IsHashed (d : RegistryDefinition) : Type 0 where
    pub payload : Value
    pub hash : Text
    pub canonical : hash_payload d d.dependencies ≡ pure payload
    pub hashed : canonical_sha256 l payload ≡ pure hash
    pub own_hash : d.definition_hash ≡ some hash

  -- What is known of a definition that was resolved.
  pub record IsExact (m : Definitions) (d : RegistryDefinition) : Type 0 where
    pub is_hashed : IsHashed d
    pub targets : All (IsTarget m) d.dependencies
    pub raw : RegistryDefinition
    pub same : identity_of raw ≡ identity_of d
    pub valid : validate_shape l raw ≡ pure tt

  pub insert-Grows :
      (i : Identity) (v : RegistryDefinition) (m : Definitions)
      → lookup i m ≡ none
      → Grows m (insert i v m)
  insert-Grows i v m new j d h = lookup-insert_other i j v m (lookup-ne i j d m new h) ∙ h

  pub Built-Unique : (raw m : Definitions) → Built l raw m → Unique m
  Built-Unique raw m empty = tt
  Built-Unique raw m (extend {m = m0} r exact payload hash b new _ _ _ _ _) =
      Unique-insert (identity_of r) (normalized r exact hash) m0 (Built-Unique raw m0 b)

  IsExact-Grows :
      (raw m m' : Definitions) (d : RegistryDefinition)
      → Built l raw m
      → Grows m m'
      → IsExact m d
      → IsExact m' d
  IsExact-Grows raw m m' d b g h = record {
    is_hashed = h.is_hashed;
    targets = IsTarget-Grows l raw m m' d.dependencies g h.targets;
    raw = h.raw;
    same = h.same;
    valid = h.valid;
  }

  pub Built-IsExact :
      (raw m : Definitions) (i : Identity) (d : RegistryDefinition)
      → IsRaw l raw
      → Built l raw m
      → lookup i m ≡ some d
      → IsExact m d
  unfolding lookup normalized hash_payload
  Built-IsExact raw m i d h empty e = absurd (cc e)
  Built-IsExact raw m i d h (extend {m = m0} r exact payload hash b new known _ targets ep eh) e =
      let grown = insert-Grows (identity_of r) (normalized r exact hash) m0 new in
      elim (lookup-insert_cases (identity_of r) i (normalized r exact hash) m0 e) [
        | inl (_, same) ↦
            subst (IsExact (insert (identity_of r) (normalized r exact hash) m0)) same (record {
              is_hashed = record {
                payload = payload;
                hash = hash;
                canonical = ep;
                hashed = eh;
                own_hash = refl;
              };
              targets = IsTarget-Grows l raw m0 _ exact grown targets;
              raw = r;
              same = refl;
              valid = (h (identity_of r) r known).1;
            })
        | inr (_, old) ↦
            IsExact-Grows raw m0 (insert (identity_of r) (normalized r exact hash) m0) d b grown
              (Built-IsExact raw m0 i d h b old)
      ]

  -- The resolved definitions have distinct references.
  pub Built-distinct :
      (raw m : Definitions) (d t : RegistryDefinition)
      → Built l raw m
      → Elem d (values m)
      → Elem t (values m)
      → identity_of t ≡ identity_of d
      → t ≡ d
  Built-distinct raw m d t b hd ht same =
      let (i, ei) = Elem-lookup m {v = d} (Built-Unique raw m b) hd in
      let (j, ej) = Elem-lookup m {v = t} (Built-Unique raw m b) ht in
      let one = lookup-identity l raw m i d b ei in
      let other = lookup-identity l raw m j t b ej in
      let key : j ≡ i = sym other ∙ same ∙ one in
      let own : some t ≡ some d = sym ej ∙ ap (λ k. lookup k m) key ∙ ei in cc own
