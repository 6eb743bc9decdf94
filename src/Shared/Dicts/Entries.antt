-- ===== src/Shared/Dicts/Entries.antt =====
-- Python dictionaries: the values, and the keys that they stand under.
use Prim.Native.Nat.{suc, ◌≤◌}
use mathlib.Core.Path.{◌≡◌, refl, sym, ap, ◌∙◌}
use mathlib.Core.Logic.{◌≢◌, inl, inr}
use mathlib.Core.Bool.{false≢true}
use mathlib.Core.List.{List, [], ◌∷◌}
use mathlib.Core.Option.{none, some}
use native.Mathlib.Omega.{arith}
use new_mud_codex.Shared.Tests.{Equality, ◌==◌, Bool-cases}
use new_mud_codex.Shared.Lists.{length}
use new_mud_codex.Shared.Table.{Elem, here, there, Elem-head}
use new_mud_codex.Shared.Dicts.{
  lookup, insert, values, equals_refl, lookup-insert_other, lookup-insert_cases, lookup-ne,
}

module _ {ℓ κ} {K : Type ℓ} {V : Type κ} ⦃e : Equality K⦄ where
  -- No key stands twice.
  abbrev pub Unique : List (K × V) → Type κ
  Unique [] = Unit
  Unique ((k, v) ∷ d) = (lookup k d ≡ none) × Unique d

  pub Unique-insert : (k : K) (v : V) (d : List (K × V)) → Unique d → Unique (insert k v d)
  unfolding insert lookup
  Unique-insert k v [] u = (refl, tt)
  Unique-insert k v ((j, w) ∷ d) (new, u) = elim (Bool-cases (j == k)) [
    | inl t ↦ rw t (new, u)
    | inr f ↦
        (let ne : k ≢ j = λ s. false≢true (sym f ∙ (e.equals_iff j k).1 (sym s)) in
          rw f (lookup-insert_other k j v d ne ∙ new, Unique-insert k v d u))
  ]

  pub lookup-Elem : (k : K) (d : List (K × V)) {v : V} → lookup k d ≡ some v → Elem v (values d)
  unfolding lookup
  lookup-Elem k [] h = absurd (cc h)
  lookup-Elem k ((j, w) ∷ d) {v = v} h = elim (Bool-cases (j == k)) [
    | inl t ↦ Elem-head (values d) (cc (rw t at h))
    | inr f ↦ there (lookup-Elem k d {v = v} (rw f at h))
  ]

  pub Elem-lookup :
      (d : List (K × V)) {v : V} → Unique d → Elem v (values d) → (k : K) × (lookup k d ≡ some v)
  unfolding lookup
  Elem-lookup [] u h = elim h [ ]
  Elem-lookup ((j, w) ∷ d) (new, u) here = (j, rw (equals_refl j) refl)
  Elem-lookup ((j, w) ∷ d) {v = v} (new, u) (there h) =
      let (k, found) = Elem-lookup d {v = v} u h in
      (k, ground (arith, e.equals_iff j k, lookup-ne j k v d new found))

  -- Every value stands under the key that belongs to it.
  abbrev pub Indexed : (V → K) → List (K × V) → Type (ℓ ⊔ κ)
  Indexed f d = (k : K) (v : V) → lookup k d ≡ some v → f v ≡ k

  pub Indexed-insert :
      (f : V → K) (w : V) (d : List (K × V)) → Indexed f d → Indexed f (insert (f w) w d)
  Indexed-insert f w d h k v g = elim (lookup-insert_cases (f w) k w d g) [
    | inl (key, same) ↦ ap f (sym same) ∙ key
    | inr (_, old) ↦ h k v old
  ]

  pub length-insert : (k : K) (v : V) (d : List (K × V)) → length (insert k v d) ≤ suc (length d)
  unfolding insert
  length-insert k v [] = omega arith
  length-insert k v ((j, w) ∷ d) = ground (arith, length-insert k v d)
