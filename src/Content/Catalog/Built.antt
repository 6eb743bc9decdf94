-- ===== src/Content/Catalog/Built.antt =====
-- registry.py, `from_definitions`: what a catalog that was built consists of.
use new_mud_codex.Shared.{
  ℕ, ◌≡◌, sym, ◌∙◌, ap, subst, Bool, some, List, [], ◌∷◌, ◌++◌, map, inl, inr, Bool-cases, is_some,
}
use new_mud_codex.Shared.Text.{Text, Text_equality}
use new_mud_codex.Shared.Table.{Elem, here, there}
use new_mud_codex.Shared.Dicts.{lookup, insert, values, lookup-insert_cases, pair_equality}
use new_mud_codex.Errors.{
  pure, raise_if, or_raise, or_raise-eq-pure, bind-eq-pure, pure-injective, registry_error,
  registry_duplicate_key, key_error,
}
use new_mud_codex.Content.Registry.{RegistryDefinition, Libraries, Identity, identity_of}
use new_mud_codex.Content.Resolve.{
  Definitions, Active, RegistryCatalog, from_definitions, collect_raw, resolve_all, activate,
  by_reference, active_key,
}
use new_mud_codex.Content.Resolve.Built.{Built, empty, lookup-identity}
use new_mud_codex.Content.Resolve.Keeps.{resolve_all-Built}
use new_mud_codex.Content.Resolve.Raw.{IsRaw, collect_raw-IsRaw}
use new_mud_codex.Content.Catalog.{sort, sort_insert}

module _ {ℓ} {A : Type ℓ} where
  Elem-cons :
      (x : A) (xs ys : List A) {b : A} → (Elem b xs → Elem b ys) → Elem b (x ∷ xs) → Elem b (x ∷ ys)
  Elem-cons x xs ys f here = here
  Elem-cons x xs ys f (there i) = there (f i)

  Elem-swap : (x a : A) (xs : List A) {b : A} → Elem b (x ∷ a ∷ xs) → Elem b (a ∷ x ∷ xs)
  Elem-swap x a xs here = there here
  Elem-swap x a xs (there here) = here
  Elem-swap x a xs (there (there i)) = there (there i)

module _ {ℓ} {A : Type ℓ} (lt : A → A → Bool) where
  Elem-sort_insert : (a : A) (xs : List A) {b : A} → Elem b (sort_insert lt a xs) → Elem b (a ∷ xs)
  unfolding sort_insert
  Elem-sort_insert a [] h = h
  Elem-sort_insert a (x ∷ xs) {b = b} h = elim (Bool-cases (lt x a)) [
    | inl t ↦ Elem-swap x a xs {b = b} (
        Elem-cons x (sort_insert lt a xs) (a ∷ xs) {b = b} (λ i. Elem-sort_insert a xs {b = b} i)
          (rw t at h))
    | inr f ↦ rw f at h
  ]

  -- Sorting adds nothing.
  pub Elem-sort : (xs : List A) {b : A} → Elem b (sort lt xs) → Elem b xs
  unfolding sort
  Elem-sort [] h = h
  Elem-sort (x ∷ xs) {b = b} h =
      Elem-cons x (sort lt xs) xs {b = b} (λ i. Elem-sort xs {b = b} i)
        (Elem-sort_insert x (sort lt xs) {b = b} h)

  sort_insert-here : (a : A) (xs : List A) → Elem a (sort_insert lt a xs)
  unfolding sort_insert
  sort_insert-here a [] = here
  sort_insert-here a (x ∷ xs) = elim (Bool-cases (lt x a)) [
    | inl t ↦ rw t (there (sort_insert-here a xs))
    | inr f ↦ rw f here
  ]

  sort_insert-there : (a : A) (xs : List A) {b : A} → Elem b xs → Elem b (sort_insert lt a xs)
  unfolding sort_insert
  sort_insert-there a [] h = elim h [ ]
  sort_insert-there a (x ∷ xs) here = elim (Bool-cases (lt x a)) [
    | inl t ↦ rw t here
    | inr f ↦ rw f (there here)
  ]
  sort_insert-there a (x ∷ xs) {b = b} (there i) = elim (Bool-cases (lt x a)) [
    | inl t ↦ rw t (there (sort_insert-there a xs {b = b} i))
    | inr f ↦ rw f (there (there i))
  ]

  -- Sorting loses nothing.
  pub sort-Elem : (xs : List A) {b : A} → Elem b xs → Elem b (sort lt xs)
  unfolding sort
  sort-Elem [] h = h
  sort-Elem (x ∷ xs) here = sort_insert-here x (sort lt xs)
  sort-Elem (x ∷ xs) {b = b} (there i) =
      sort_insert-there x (sort lt xs) {b = b} (sort-Elem xs {b = b} i)

module _ (l : Libraries) where
  -- An active definition is a resolved one, under its kind and key.
  abbrev pub IsActive : Definitions → Active → Type 0
  IsActive resolved active =
      (k : Text × Text) (d : RegistryDefinition)
      → lookup k active ≡ some d
      → (active_key d ≡ k) × ((i : Identity) × (lookup i resolved ≡ some d))

  activate-IsActive :
      (raw : Definitions) (ds : List RegistryDefinition) (resolved : Definitions)
      (active active' : Active)
      → Built l raw resolved
      → IsActive resolved active
      → activate l ds resolved active ≡ pure active'
      → IsActive resolved active'
  unfolding activate
  activate-IsActive raw [] resolved active active' b h e =
      subst (IsActive resolved) (pure-injective e) h
  activate-IsActive raw (d ∷ ds) resolved active active' b h e =
      let (_, _, k1) =
        bind-eq-pure
          (raise_if (is_some (lookup (active_key d) active))
            (registry_error registry_duplicate_key))
          _ e in
      let (found, ef, k2) =
        bind-eq-pure (or_raise (lookup (identity_of d) resolved) key_error) _ k1 in
      let known = or_raise-eq-pure (lookup (identity_of d) resolved) key_error ef in
      let own = lookup-identity l raw resolved (identity_of d) found b known in
      activate-IsActive raw ds resolved (insert (active_key d) found active) active' b
        (λ k t g. elim (lookup-insert_cases (active_key d) k found active g) [
          | inl (key, same) ↦ (
            ap active_key (sym same) ∙ ap (λ i. (i.0, (i.1).0)) own ∙ key,
            (identity_of d, known ∙ ap some same),
          )
          | inr (_, old) ↦ h k t old
        ])
        k2

  pub record IsBuilt (catalog : RegistryCatalog) : Type 0 where
    pub raw : Definitions
    pub resolved : Definitions
    pub is_raw : IsRaw l raw
    pub built : Built l raw resolved
    pub is_active : IsActive resolved catalog.active
    pub referenced : catalog.compatibility ≡ by_reference (values resolved) []

  pub from_definitions-IsBuilt :
      (limit : ℕ) (active compatibility : List RegistryDefinition) (catalog : RegistryCatalog)
      → from_definitions l limit active compatibility ≡ pure catalog
      → IsBuilt catalog
  unfolding from_definitions lookup
  from_definitions-IsBuilt limit active compatibility catalog e =
      let (raw, e1, k1) = bind-eq-pure (collect_raw l (compatibility ++ active) []) _ e in
      let (resolved, e2, k2) =
        bind-eq-pure (resolve_all l limit raw (map (λ p. p.0) raw) []) _ k1 in
      let (chosen, e3, k3) = bind-eq-pure (activate l active resolved []) _ k2 in
      let is_raw =
        collect_raw-IsRaw l (compatibility ++ active) [] raw (λ i r h. absurd (cc h)) e1 in
      let (built, _) =
        resolve_all-Built l raw limit (map (λ p. p.0) raw) [] resolved (λ i r h. (is_raw i r h).0)
          empty e2 in
      let same = pure-injective k3 in
      record {
        raw = raw;
        resolved = resolved;
        is_raw = is_raw;
        built = built;
        is_active =
            subst (IsActive resolved) (ap (λ c. c.active) same)
              (activate-IsActive raw active resolved [] chosen built (λ k d h. absurd (cc h)) e3);
        referenced = sym (ap (λ c. c.compatibility) same);
      }
