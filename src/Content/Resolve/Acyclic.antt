-- ===== src/Content/Resolve/Acyclic.antt =====
-- registry.py, `from_definitions`: references that lead back to their definition.
use new_mud_codex.Shared.{
  ℕ, ◌≡◌, sym, ◌∙◌, ap, subst, some, List, [], ◌∷◌, ◌++◌, map, ◌==◌, All, Bool-cases, inl, inr,
}
use new_mud_codex.Shared.Text.{Text_equality}
use new_mud_codex.Shared.Table.{Elem, here, there, Elem-head, Elem-cases}
use new_mud_codex.Shared.Dicts.{lookup, lookup-nil, lookup-insert_cases, pair_equality}
use new_mud_codex.Errors.{pure, bind-eq-pure, pure-injective}
use new_mud_codex.Content.Registry.{
  RegistryDefinition, RegistryReference, Libraries, Identity, identity_of, target_identity,
}
use new_mud_codex.Content.Resolve.{
  Definitions, RegistryCatalog, normalized, collect_raw, resolve, resolve_all, from_definitions,
}
use new_mud_codex.Content.Resolve.Built.{Built, empty, extend, IsTarget}
use new_mud_codex.Content.Resolve.Keeps.{IsKeyed, resolve-Resolves, resolve_all-Built}
use new_mud_codex.Content.Resolve.Raw.{collect_raw-IsRaw}
use new_mud_codex.Content.Resolve.Exact.{insert-Grows}

module _ (raw : Definitions) where
  -- The definition of `i` names `j` as a dependency.
  pub record Refers (i j : Identity) : Type 0 where
    pub definition : RegistryDefinition
    pub known : lookup i raw ≡ some definition
    pub named : Elem j (map target_identity definition.dependencies)

  -- A chain of dependencies leads from `i` to `j`.
  pub data Reaches (i : Identity) : Identity → Type 0 where
    direct : {j : Identity} → Refers i j → Reaches i j
    further : {j k : Identity} → Reaches i j → Refers j k → Reaches i k

abbrev IsKnown : Definitions → Identity → Type 0
IsKnown m i = (d : RegistryDefinition) × (lookup i m ≡ some d)

targets-IsKnown :
    (m : Definitions) (rs : List RegistryReference) {j : Identity}
    → All (IsTarget m) rs
    → Elem j (map target_identity rs)
    → IsKnown m j
targets-IsKnown m [] h e = elim e [ ]
targets-IsKnown m (r ∷ rs) (t, h) here = (t.target, t.known)
targets-IsKnown m (r ∷ rs) {j = j} (t, h) (there e) = targets-IsKnown m rs {j = j} h e

module _ (l : Libraries) (raw : Definitions) where
  -- What the newest definition refers to was there before it.
  newest-IsKnown :
      (m : Definitions) (r : RegistryDefinition) (exact : List RegistryReference) (j : Identity)
      → lookup (identity_of r) raw ≡ some r
      → map target_identity exact ≡ map target_identity r.dependencies
      → All (IsTarget m) exact
      → Refers raw (identity_of r) j
      → IsKnown m j
  newest-IsKnown m r exact j known same targets s =
      let own : s.definition ≡ r = some_injective (sym s.known ∙ known) in
      targets-IsKnown m exact {j = j} targets
        (subst (Elem j) (ap (λ d. map target_identity d.dependencies) own ∙ sym same) s.named)
    where
      some_injective : {a b : RegistryDefinition} → some a ≡ some b → a ≡ b
      some_injective h = cc h

  Refers-IsKnown :
      (m : Definitions) (i j : Identity)
      → Built l raw m
      → IsKnown m i
      → Refers raw i j
      → IsKnown m j
  Refers-IsKnown m i j empty (d, h) s = absurd (lookup-nil i {v = d} h)
  Refers-IsKnown m i j (extend {m = m0} r exact payload hash b new known same targets _ _) (d, h)
        s =
      let (t, e) : IsKnown m0 j =
        elim (lookup-insert_cases (identity_of r) i (normalized r exact hash) m0 h) [
          | inl (key, _) ↦
              newest-IsKnown m0 r exact j known same targets
                (subst (λ k. Refers raw k j) (sym key) s)
          | inr (_, old) ↦ Refers-IsKnown m0 i j b (d, old) s
        ] in
      (t, insert-Grows l (identity_of r) (normalized r exact hash) m0 new j t e)

  Reaches-IsKnown :
      (m : Definitions) (i j : Identity)
      → Built l raw m
      → ((k : Identity) → Refers raw i k → IsKnown m k)
      → Reaches raw i j
      → IsKnown m j
  Reaches-IsKnown m i j b h (direct s) = h j s
  Reaches-IsKnown m i j b h (further {j = k} c s) =
      Refers-IsKnown m k j b (Reaches-IsKnown m i k b h c) s

  Built-acyclic :
      (m : Definitions) (i : Identity) → Built l raw m → IsKnown m i → Reaches raw i i → ⊥
  Built-acyclic m i empty (d, h) c = lookup-nil i {v = d} h
  Built-acyclic m i (extend {m = m0} r exact payload hash b new known same targets _ _) (d, h) c =
      elim (lookup-insert_cases (identity_of r) i (normalized r exact hash) m0 h) [
        | inl (key, _) ↦
            (let (t, e) : IsKnown m0 i =
                Reaches-IsKnown m0 i i b
                  (λ k s.
                    newest-IsKnown m0 r exact k known same targets
                      (subst (λ x. Refers raw x k) (sym key) s))
                  c in
              cc (new, ap (λ k. lookup k m0) key, e))
        | inr (_, old) ↦ Built-acyclic m0 i b (d, old) c
      ]

  resolve_all-IsKnown :
      (limit : ℕ) (ids : List Identity) (m m' : Definitions) (i : Identity)
      → IsKeyed raw
      → Built l raw m
      → resolve_all l limit raw ids m ≡ pure m'
      → Elem i ids
      → IsKnown m' i
  unfolding resolve_all
  resolve_all-IsKnown limit [] m m' i keyed b e h = elim h [ ]
  resolve_all-IsKnown limit (j ∷ ids) m m' i keyed b e h =
      let ((d, m1), e1, k1) = bind-eq-pure (resolve l limit raw [] j m) _ e in
      let one = resolve-Resolves l raw limit [] j m d m1 keyed b e1 in
      let (_, grows) = resolve_all-Built l raw limit ids m1 m' keyed one.built k1 in
      elim (Elem-cases ids h) [
        | inl same ↦ (d, grows i d (subst (λ k. lookup k m1 ≡ some d) same one.found))
        | inr later ↦ resolve_all-IsKnown limit ids m1 m' i keyed one.built k1 later
      ]

key-Elem :
    (i : Identity) (m : Definitions) (d : RegistryDefinition)
    → lookup i m ≡ some d
    → Elem i (map (λ p. p.0) m)
unfolding lookup
key-Elem i [] d h = absurd (cc h)
key-Elem i ((j, t) ∷ m) d h = elim (Bool-cases (j == i)) [
  | inl e ↦ Elem-head (map (λ p. p.0) m) ((pair_equality.equals_iff j i).0 e)
  | inr e ↦ there (key-Elem i m d (rw e at h))
]

Reaches-first : (raw : Definitions) (i j : Identity) → Reaches raw i j → IsKnown raw i
Reaches-first raw i j (direct s) = (s.definition, s.known)
Reaches-first raw i j (further {j = k} c s) = Reaches-first raw i k c

-- A catalog is built only if no chain of dependencies leads from a definition back to itself.
pub from_definitions-acyclic :
    (l : Libraries) (limit : ℕ) (active compatibility : List RegistryDefinition) (raw : Definitions)
    (catalog : RegistryCatalog) (i : Identity)
    → collect_raw l (compatibility ++ active) [] ≡ pure raw
    → from_definitions l limit active compatibility ≡ pure catalog
    → ¬ (Reaches raw i i)
unfolding from_definitions
from_definitions-acyclic l limit active compatibility raw catalog i er e c =
    let (raw', e1, k1) = bind-eq-pure (collect_raw l (compatibility ++ active) []) _ e in
    let (resolved, e2, _) = bind-eq-pure (resolve_all l limit raw' (map (λ p. p.0) raw') []) _ k1 in
    let same : raw' ≡ raw = pure-injective (sym e1 ∙ er) in
    let e2' : resolve_all l limit raw (map (λ p. p.0) raw) [] ≡ pure resolved =
      subst (λ x. resolve_all l limit x (map (λ p. p.0) x) [] ≡ pure resolved) same e2 in
    let is_raw =
      collect_raw-IsRaw l (compatibility ++ active) [] raw
        (λ i r h. absurd (lookup-nil i {v = r} h)) er in
    let keyed : IsKeyed raw = λ i r h. (is_raw i r h).0 in
    let (built, _) =
      resolve_all-Built l raw limit (map (λ p. p.0) raw) [] resolved keyed empty e2' in
    let (d, known) = Reaches-first raw i i c in
    Built-acyclic l raw resolved i built
      (resolve_all-IsKnown l raw limit (map (λ p. p.0) raw) [] resolved i keyed empty e2'
        (key-Elem i raw d known))
      c
