-- ===== src/Content/Resolve/Keeps.antt =====
-- registry.py, `resolve`: each call that returns extends the table by what it resolves.
use new_mud_codex.Shared.{
  ℕ, zero, suc, ◌≡◌, refl, sym, ◌∙◌, ap, subst, Bool, true, false, Option, none, some, List, [],
  ◌∷◌, ◌++◌, map, All,
}
use new_mud_codex.Shared.Text.{Text_equality}
use new_mud_codex.Shared.Dicts.{
  member, member-append_here, member-append_left, member-ne, lookup-ne, lookup, insert,
  lookup-insert_own, lookup-insert_other, pair_equality,
}
use new_mud_codex.Errors.{
  pure, raise_if, bind-eq-pure, pure-injective, registry_error, registry_version_content_mismatch,
}
use new_mud_codex.Content.Registry.{
  RegistryDefinition, RegistryReference, Libraries, Identity, identity_of, target_identity,
  as_reference, hash_payload, canonical_sha256,
}
use new_mud_codex.Content.Resolve.{
  Definitions, normalized, contradicts, resolve, resolve_raw, resolve_step, resolve_dependencies,
  Resolver, resolve_all,
}
use new_mud_codex.Content.Resolve.Built.{
  Built, extend, Resolves, ResolvesAll, Grows, Grows-trans, IsTarget, lookup-identity,
}

-- Every definition of the raw table stands under its own identity.
abbrev pub IsKeyed : Definitions → Type 0
IsKeyed raw = (i : Identity) (r : RegistryDefinition) → lookup i raw ≡ some r → identity_of r ≡ i

module _ (l : Libraries) (raw : Definitions) where
  -- What is assumed of the calls for the dependencies.
  abbrev pub IsResolver : List Identity → Resolver l → Type 0
  IsResolver visiting recur =
      (i : Identity) (m : Definitions) (d : RegistryDefinition) (m' : Definitions)
      → Built l raw m
      → recur i m ≡ pure (d, m')
      → Resolves l raw visiting m i d m'

  pub resolve_dependencies-ResolvesAll :
      (visiting : List Identity) (recur : Resolver l) (rs : List RegistryReference)
      (m : Definitions) (exact : List RegistryReference) (m' : Definitions)
      → IsResolver visiting recur
      → Built l raw m
      → resolve_dependencies l recur rs m ≡ pure (exact, m')
      → ResolvesAll l raw visiting m rs exact m'
  unfolding resolve_dependencies as_reference
  resolve_dependencies-ResolvesAll visiting recur [] m exact m' h b e =
      let p = pure-injective e in
      let same : m ≡ m' = ap (λ q. q.1) p in
      let nil : [] ≡ exact = ap (λ q. q.0) p in
      record {
        built = subst (Built l raw) same b;
        grows = λ i d k. subst (λ y. lookup i y ≡ some d) same k;
        apart = λ i _ k. subst (λ y. lookup i y ≡ none) same k;
        same = ap (map target_identity) (sym nil);
        targets = subst (All (IsTarget m')) nil tt;
      }
  resolve_dependencies-ResolvesAll visiting recur (r ∷ rs) m exact m' h b e =
      let ((t, m1), e1, k1) = bind-eq-pure (recur (target_identity r) m) _ e in
      let (_, _, k2) =
        bind-eq-pure
          (raise_if (contradicts r.definition_hash t.definition_hash)
            (registry_error registry_version_content_mismatch))
          _ k1 in
      let ((others, m2), e3, k3) = bind-eq-pure (resolve_dependencies l recur rs m1) _ k2 in
      let first = h (target_identity r) m t m1 b e1 in
      let rest = resolve_dependencies-ResolvesAll visiting recur rs m1 others m2 h first.built e3 in
      let p = pure-injective k3 in
      let same : m2 ≡ m' = ap (λ q. q.1) p in
      let listed : as_reference t ∷ others ≡ exact = ap (λ q. q.0) p in
      let own : target_identity (as_reference t) ≡ target_identity r =
        lookup-identity l raw m1 (target_identity r) t first.built first.found in
      subst (λ y. ResolvesAll l raw visiting m (r ∷ rs) exact y) same
        (subst (λ y. ResolvesAll l raw visiting m (r ∷ rs) y m2) listed
          (record {
            built = rest.built;
            grows = Grows-trans l raw m m1 m2 first.grows rest.grows;
            apart = λ i v k. rest.apart i v (first.apart i v k);
            same = rw (own, rest.same) refl;
            targets = (
              record {
                target = t;
                known =
                    subst (λ i. lookup i m2 ≡ some t) (sym own)
                      (rest.grows (target_identity r) t first.found);
                exact = refl;
              },
              rest.targets,
            );
          }))

  resolve_raw-Resolves :
      (visiting : List Identity) (recur : Resolver l) (i : Identity) (r d : RegistryDefinition)
      (m m' : Definitions)
      → IsResolver (visiting ++ i ∷ []) recur
      → identity_of r ≡ i
      → lookup i m ≡ none
      → lookup i raw ≡ some r
      → member i visiting ≡ false
      → Built l raw m
      → resolve_raw l recur i r m ≡ pure (d, m')
      → Resolves l raw visiting m i d m'
  unfolding resolve_raw
  resolve_raw-Resolves visiting recur i r d m m' h own new known free b e =
      let ((exact, m1), e1, k1) =
        bind-eq-pure (resolve_dependencies l recur r.dependencies m) _ e in
      let (payload, e2, k2) = bind-eq-pure (hash_payload r exact) _ k1 in
      let (hash, e3, k3) = bind-eq-pure (canonical_sha256 l payload) _ k2 in
      let (_, _, k4) =
        bind-eq-pure
          (raise_if (contradicts r.definition_hash (some hash))
            (registry_error registry_version_content_mismatch))
          _ k3 in
      let all =
        resolve_dependencies-ResolvesAll (visiting ++ i ∷ []) recur r.dependencies m exact m1 h b
          e1 in
      let fresh : lookup i m1 ≡ none = all.apart i (member-append_here i visiting) new in
      let p = pure-injective k4 in
      let is_d : normalized r exact hash ≡ d = ap (λ q. q.0) p in
      let is_m : insert i (normalized r exact hash) m1 ≡ m' = ap (λ q. q.1) p in
      subst (λ y. Resolves l raw visiting m i d y) is_m
        (record {
          built =
              subst (λ j. Built l raw (insert j (normalized r exact hash) m1)) own
                (extend r exact payload hash all.built
                  (subst (λ j. lookup j m1 ≡ none) (sym own) fresh)
                  (subst (λ j. lookup j raw ≡ some r) (sym own) known) all.same all.targets e2 e3);
          grows = λ j t k.
              let k1 = all.grows j t k in
              lookup-insert_other i j (normalized r exact hash) m1 (lookup-ne i j t m1 fresh k1)
              ∙ k1;
          apart = λ j v k.
              lookup-insert_other i j (normalized r exact hash) m1 (member-ne j i visiting v free)
              ∙ all.apart j (member-append_left j i visiting v) k;
          found = lookup-insert_own i (normalized r exact hash) m1 ∙ ap some is_d;
        })

  resolve_step-Resolves :
      (visiting : List Identity) (recur : Resolver l) (i : Identity)
      (cached : Option RegistryDefinition) (open_call : Bool) (known : Option RegistryDefinition)
      (d : RegistryDefinition) (m m' : Definitions)
      → IsResolver (visiting ++ i ∷ []) recur
      → IsKeyed raw
      → lookup i m ≡ cached
      → member i visiting ≡ open_call
      → lookup i raw ≡ known
      → Built l raw m
      → resolve_step l cached open_call known recur i m ≡ pure (d, m')
      → Resolves l raw visiting m i d m'
  resolve_step-Resolves visiting recur i (some c) v k d m m' h keyed em ev ek b e =
      let p = pure-injective e in
      let same : m ≡ m' = ap (λ q. q.1) p in
      let is_d : c ≡ d = ap (λ q. q.0) p in
      subst (λ y. Resolves l raw visiting m i d y) same
        (record { built = b; grows = λ j t x. x; apart = λ j x y. y; found = em ∙ ap some is_d })
  resolve_step-Resolves visiting recur i none true k d m m' h keyed em ev ek b e = absurd (cc e)
  resolve_step-Resolves visiting recur i none false none d m m' h keyed em ev ek b e = absurd (cc e)
  resolve_step-Resolves visiting recur i none false (some r) d m m' h keyed em ev ek b e =
      resolve_raw-Resolves visiting recur i r d m m' h (keyed i r ek) em ek ev b e

  -- A call that returns extends the table, and leaves out what is still being resolved.
  pub resolve-Resolves :
      (limit : ℕ) (visiting : List Identity) (i : Identity) (m : Definitions)
      (d : RegistryDefinition) (m' : Definitions)
      → IsKeyed raw
      → Built l raw m
      → resolve l limit raw visiting i m ≡ pure (d, m')
      → Resolves l raw visiting m i d m'
  unfolding resolve
  resolve-Resolves zero visiting i m d m' keyed b e = absurd (cc e)
  resolve-Resolves (suc limit) visiting i m d m' keyed b e =
      resolve_step-Resolves visiting
        (λ target known. resolve l limit raw (visiting ++ i ∷ []) target known) i (lookup i m)
        (member i visiting) (lookup i raw) d m m'
        (λ j n t n'. resolve-Resolves limit (visiting ++ i ∷ []) j n t n' keyed) keyed refl refl
        refl b e

  -- After the loop over the raw table, each identity of it is resolved.
  pub resolve_all-Built :
      (limit : ℕ) (ids : List Identity) (m m' : Definitions)
      → IsKeyed raw
      → Built l raw m
      → resolve_all l limit raw ids m ≡ pure m'
      → Built l raw m' × Grows m m'
  unfolding resolve_all
  resolve_all-Built limit [] m m' keyed b e =
      let same = pure-injective e in
      (subst (Built l raw) same b, λ i d k. subst (λ y. lookup i y ≡ some d) same k)
  resolve_all-Built limit (i ∷ ids) m m' keyed b e =
      let ((d, m1), e1, k1) = bind-eq-pure (resolve l limit raw [] i m) _ e in
      let one = resolve-Resolves limit [] i m d m1 keyed b e1 in
      let (built, grows) = resolve_all-Built limit ids m1 m' keyed one.built k1 in
      (built, Grows-trans l raw m m1 m' one.grows grows)
