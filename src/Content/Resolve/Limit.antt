-- ===== src/Content/Resolve/Limit.antt =====
-- registry.py, `from_definitions`: how deep the calls of `resolve` nest.
use new_mud_codex.Shared.{
  ℕ, zero, suc, ◌+◌, ◌≤◌, ◌<◌, ◌≡◌, ◌≢◌, refl, ◌∙◌, ap, Bool, true, false, not, Option, none, some,
  List, [], ◌∷◌, ◌++◌, map, ◌==◌, arith, Bool-cases, inl, inr, length,
}
use new_mud_codex.Shared.Text.{Text_equality}
use new_mud_codex.Shared.Table.{count}
use new_mud_codex.Shared.Dicts.{
  member, member-append, member-append_here, lookup, insert, pair_equality,
}
use new_mud_codex.Shared.Dicts.Entries.{length-insert}
use new_mud_codex.Errors.{
  pure, raise, raise_if, or_raise, registry_error, recursion_error, bind-eq-pure, pure-injective,
  registry_version_content_mismatch, canonicalization_error,
}
use new_mud_codex.Content.Values.{Value}
use new_mud_codex.Content.Registry.{
  RegistryDefinition, RegistryReference, Libraries, Identity, identity_of, target_identity,
  hash_payload, as_payload, canonical_sha256, payloads,
}
use new_mud_codex.Content.Fits.{Fits, overflows, bind-Fits, raise_if-Fits, or_raise-Fits}
use new_mud_codex.Content.Shape.{validate_shape}
use new_mud_codex.Content.Shape.Fits.{validate_shape-Fits}
use new_mud_codex.Content.Resolve.{
  Definitions, Resolver, collect_raw, resolve, resolve_raw, resolve_step, resolve_dependencies,
  resolve_all, activate, from_definitions, contradicts, Active, differs,
}

payloads-Fits : (rs : List RegistryReference) → Fits (payloads rs)
unfolding as_payload
payloads-Fits [] = refl
payloads-Fits (r ∷ rs) = search (bind-Fits, or_raise-Fits, payloads-Fits rs)

hash_payload-Fits :
    (d : RegistryDefinition) (rs : List RegistryReference) → Fits (hash_payload d rs)
unfolding hash_payload
hash_payload-Fits d rs = bind-Fits (payloads rs) _ (payloads-Fits rs) (λ a e. refl)

canonical_sha256-Fits : (l : Libraries) (v : Value) → Fits (canonical_sha256 l v)
unfolding canonical_sha256
canonical_sha256-Fits l v =
    bind-Fits (or_raise (l.dumps v) canonicalization_error) _
      (or_raise-Fits (l.dumps v) canonicalization_error refl) (λ a e. refl)

collect_raw-Fits :
    (l : Libraries) (ds : List RegistryDefinition) (raw : Definitions) → Fits (collect_raw l ds raw)
unfolding collect_raw
collect_raw-Fits l [] raw = refl
collect_raw-Fits l (d ∷ ds) raw =
    search (bind-Fits, raise_if-Fits, validate_shape-Fits l d, collect_raw-Fits l ds)

activate-Fits :
    (l : Libraries) (ds : List RegistryDefinition) (resolved : Definitions) (active : Active)
    → Fits (activate l ds resolved active)
unfolding activate
activate-Fits l [] resolved active = refl
activate-Fits l (d ∷ ds) resolved active =
    search (bind-Fits, raise_if-Fits, or_raise-Fits, activate-Fits l ds resolved)

-- How many raw definitions are not being resolved.
abbrev left : Definitions → List Identity → ℕ
left raw visiting = count (λ e. not (member e.0 visiting)) raw

left-le :
    (raw : Definitions) (visiting : List Identity) (i : Identity)
    → left raw (visiting ++ i ∷ []) ≤ left raw visiting
left-le [] visiting i = omega arith
left-le ((j, r) ∷ raw) visiting i =
    ground (arith, left-le raw visiting i, member-append j i visiting)

left-lt :
    (raw : Definitions) (visiting : List Identity) (i : Identity) (r : RegistryDefinition)
    → lookup i raw ≡ some r
    → member i visiting ≡ false
    → left raw (visiting ++ i ∷ []) < left raw visiting
unfolding lookup
left-lt [] visiting i r h free = absurd (cc h)
left-lt ((j, t) ∷ raw) visiting i r h free = elim (Bool-cases (j == i)) [
  | inl e ↦
      (let same = (pair_equality.equals_iff j i).0 e in
        let open_now : member j (visiting ++ i ∷ []) ≡ true =
          ap (λ k. member k (visiting ++ i ∷ [])) same ∙ member-append_here i visiting in
        let before : member j visiting ≡ false = ap (λ k. member k visiting) same ∙ free in
        rw (open_now, before) (omega (arith, left-le raw visiting i)))
  | inr e ↦ ground (arith, left-lt raw visiting i r (rw e at h) free, member-append j i visiting)
]

-- What is assumed of the calls for the dependencies.
abbrev FitsAll : (l : Libraries) → Resolver l → Type 0
FitsAll l recur = (i : Identity) (m : Definitions) → Fits (recur i m)

resolve_dependencies-Fits :
    (l : Libraries) (recur : Resolver l) (rs : List RegistryReference) (m : Definitions)
    → FitsAll l recur
    → Fits (resolve_dependencies l recur rs m)
unfolding resolve_dependencies
resolve_dependencies-Fits l recur [] m h = refl
resolve_dependencies-Fits l recur (r ∷ rs) m h =
    bind-Fits (recur (target_identity r) m) _ (h (target_identity r) m) (λ t e.
      bind-Fits
        (raise_if (contradicts r.definition_hash (t.0).definition_hash)
          (registry_error registry_version_content_mismatch))
        _ (raise_if-Fits _ registry_version_content_mismatch)
        (λ u e.
          bind-Fits (resolve_dependencies l recur rs t.1) _
            (resolve_dependencies-Fits l recur rs t.1 h) (λ o e. refl)))

resolve_raw-Fits :
    (l : Libraries) (recur : Resolver l) (i : Identity) (r : RegistryDefinition) (m : Definitions)
    → FitsAll l recur
    → Fits (resolve_raw l recur i r m)
unfolding resolve_raw
resolve_raw-Fits l recur i r m h =
    bind-Fits (resolve_dependencies l recur r.dependencies m) _
      (resolve_dependencies-Fits l recur r.dependencies m h)
      (λ x e. search (bind-Fits, raise_if-Fits, hash_payload-Fits, canonical_sha256-Fits) depth 10)

resolve_step-Fits :
    (l : Libraries) (cached : Option RegistryDefinition) (open_call : Bool)
    (known : Option RegistryDefinition) (recur : Resolver l) (i : Identity) (m : Definitions)
    → ((r : RegistryDefinition) → open_call ≡ false → known ≡ some r → FitsAll l recur)
    → Fits (resolve_step l cached open_call known recur i m)
resolve_step-Fits l (some c) v k recur i m h = refl
resolve_step-Fits l none true k recur i m h = refl
resolve_step-Fits l none false none recur i m h = refl
resolve_step-Fits l none false (some r) recur i m h = resolve_raw-Fits l recur i r m (h r refl refl)

resolve-Fits :
    (l : Libraries) (limit : ℕ) (raw : Definitions) (visiting : List Identity) (i : Identity)
    (m : Definitions)
    → left raw visiting < limit
    → Fits (resolve l limit raw visiting i m)
unfolding resolve
resolve-Fits l zero raw visiting i m h = absurd (omega arith)
resolve-Fits l (suc limit) raw visiting i m h =
    resolve_step-Fits l (lookup i m) (member i visiting) (lookup i raw)
      (λ target known. resolve l limit raw (visiting ++ i ∷ []) target known) i m
      (λ r free known j n.
        resolve-Fits l limit raw (visiting ++ i ∷ []) j n
          (omega (arith, left-lt raw visiting i r known free)))

left-nil : (raw : Definitions) → left raw [] ≡ length raw
left-nil [] = refl
left-nil (e ∷ raw) = ap suc (left-nil raw)

resolve_all-Fits :
    (l : Libraries) (limit : ℕ) (raw : Definitions) (ids : List Identity) (m : Definitions)
    → length raw < limit
    → Fits (resolve_all l limit raw ids m)
unfolding resolve_all
resolve_all-Fits l limit raw [] m h = refl
resolve_all-Fits l limit raw (i ∷ ids) m h =
    bind-Fits (resolve l limit raw [] i m) _
      (resolve-Fits l limit raw [] i m (omega (arith, left-nil raw)))
      (λ d e. resolve_all-Fits l limit raw ids d.1 h)

length-collect_raw :
    (l : Libraries) (ds : List RegistryDefinition) (raw raw' : Definitions)
    → collect_raw l ds raw ≡ pure raw'
    → length raw' ≤ length ds + length raw
unfolding collect_raw
length-collect_raw l [] raw raw' e = omega (arith, ap length (pure-injective e))
length-collect_raw l (d ∷ ds) raw raw' e =
    let (_, _, k1) = bind-eq-pure (validate_shape l d) _ e in
    let (_, _, k2) =
      bind-eq-pure
        (raise_if (differs (lookup (identity_of d) raw) d)
          (registry_error registry_version_content_mismatch))
        _ k1 in
    omega (
      arith,
      length-insert (identity_of d) d raw,
      length-collect_raw l ds (insert (identity_of d) d raw) raw' k2,
    )

-- Building a catalog never exceeds a limit on nested calls that is above the number of
-- definitions, whatever refers to what.
pub from_definitions-Fits :
    (l : Libraries) (limit : ℕ) (active compatibility : List RegistryDefinition)
    → length (compatibility ++ active) < limit
    → from_definitions l limit active compatibility ≢ raise recursion_error
unfolding from_definitions
from_definitions-Fits l limit active compatibility h e = cc (ap overflows e, fits)
  where
    fits : Fits (from_definitions l limit active compatibility)
    fits =
        bind-Fits (collect_raw l (compatibility ++ active) []) _
          (collect_raw-Fits l (compatibility ++ active) [])
          (λ raw e.
            bind-Fits (resolve_all l limit raw (map (λ p. p.0) raw) []) _
              (resolve_all-Fits l limit raw (map (λ p. p.0) raw) []
                (omega (arith, length-collect_raw l (compatibility ++ active) [] raw e)))
              (λ resolved e.
                bind-Fits (activate l active resolved []) _ (activate-Fits l active resolved [])
                  (λ chosen e. refl)))
