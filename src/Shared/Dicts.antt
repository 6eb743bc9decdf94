-- ===== src/Shared/Dicts.antt =====
-- Python dictionaries as association lists in the order of insertion.
pub mod Entries
use mathlib.Core.Path.{◌≡◌, refl, sym, ap, ◌∙◌}
use mathlib.Core.Logic.{◌≢◌, ◌↔◌, ◌⊎◌, inl, inr}
use mathlib.Core.Bool.{Bool, true, false, ◌&&◌, ◌||◌, false≢true}
use mathlib.Core.List.{List, [], ◌∷◌, ◌++◌, map}
use mathlib.Core.Option.{Option, none, some}
use native.Mathlib.Omega.{arith}
use new_mud_codex.Shared.Tests.{Equality, ◌==◌, if◌then◌else◌, Bool-cases}

pub pair_equals_iff {ℓ κ} :
    {A : Type ℓ} {B : Type κ} ⦃e : Equality A⦄ ⦃f : Equality B⦄ (p q : A × B)
    → ((e.equals p.0 q.0 && f.equals p.1 q.1) ≡ true) ↔ (p ≡ q)
pair_equals_iff ⦃e⦄ ⦃f⦄ p q = ground (arith, e.equals_iff p.0 q.0, f.equals_iff p.1 q.1)

instance abbrev pub pair_equality {ℓ κ} :
    {A : Type ℓ} {B : Type κ} ⦃e : Equality A⦄ ⦃f : Equality B⦄ → Equality (A × B)
pair_equality ⦃e⦄ ⦃f⦄ = record {
  equals = λ p q. e.equals p.0 q.0 && f.equals p.1 q.1;
  equals_iff = pair_equals_iff;
}

module _ {ℓ} {A : Type ℓ} ⦃e : Equality A⦄ where
  -- `a in list`
  abbrev pub member : A → List A → Bool
  member a [] = false
  member a (x ∷ xs) = x == a || member a xs

  pub equals_refl : (a : A) → (a == a) ≡ true
  equals_refl a = (e.equals_iff a a).1 refl

  pub member-append : (a b : A) (xs : List A) → member a (xs ++ b ∷ []) ≡ (member a xs || b == a)
  member-append a b [] = ground arith
  member-append a b (x ∷ xs) = ground (arith, member-append a b xs)

  pub member-append_here : (a : A) (xs : List A) → member a (xs ++ a ∷ []) ≡ true
  member-append_here a [] = ground (arith, equals_refl a)
  member-append_here a (x ∷ xs) = ground (arith, member-append_here a xs)

  pub member-append_left :
      (a b : A) (xs : List A) → member a xs ≡ true → member a (xs ++ b ∷ []) ≡ true
  member-append_left a b xs h = ground (arith, member-append a b xs)

  pub member-ne : (a b : A) (xs : List A) → member a xs ≡ true → member b xs ≡ false → b ≢ a
  member-ne a b xs h k e = false≢true (sym k ∙ ap (λ x. member x xs) e ∙ h)

module _ {ℓ κ} {K : Type ℓ} {V : Type κ} ⦃e : Equality K⦄ where
  -- `d.get(key)`
  unfoldable pub lookup : K → List (K × V) → Option V
  lookup k [] = none
  lookup k ((j, v) ∷ d) = let rest = lookup k d in if j == k then some v else rest

  -- `d[key] = value`
  unfoldable pub insert : K → V → List (K × V) → List (K × V)
  insert k v [] = (k, v) ∷ []
  insert k v ((j, w) ∷ d) = let rest = insert k v d in if j == k then (j, v) ∷ d else (j, w) ∷ rest

  -- `d.values()`
  abbrev pub values : List (K × V) → List V
  values = map (λ p. p.1)

  pub lookup-nil : (k : K) {v : V} → lookup k [] ≢ some v
  unfolding lookup
  lookup-nil k h = cc h

  pub lookup-insert_own : (k : K) (v : V) (d : List (K × V)) → lookup k (insert k v d) ≡ some v
  unfolding lookup insert
  lookup-insert_own k v [] = rw (equals_refl k)
  lookup-insert_own k v ((j, w) ∷ d) = elim (Bool-cases (j == k)) [
    | inl t ↦ rw (t, t)
    | inr f ↦ rw (f, f) (lookup-insert_own k v d)
  ]

  pub lookup-insert_other :
      (k i : K) (v : V) (d : List (K × V)) → k ≢ i → lookup i (insert k v d) ≡ lookup i d
  unfolding lookup insert
  lookup-insert_other k i v [] ne = ground (arith, e.equals_iff k i)
  lookup-insert_other k i v ((j, w) ∷ d) ne =
      ground (arith, lookup-insert_other k i v d ne, e.equals_iff j k, e.equals_iff j i)

  pub lookup-ne :
      (k i : K) (v : V) (d : List (K × V)) → lookup k d ≡ none → lookup i d ≡ some v → k ≢ i
  lookup-ne k i v d h g e = cc (h, ap (λ x. lookup x d) e, g)

  -- A new key comes last.
  pub insert-new :
      (k : K) (v : V) (d : List (K × V)) → lookup k d ≡ none → insert k v d ≡ d ++ (k, v) ∷ []
  unfolding lookup insert
  insert-new k v [] h = refl
  insert-new k v ((j, w) ∷ d) h = ground (arith, insert-new k v d)

  -- What is found after an insertion is what was inserted, or was there before.
  pub lookup-insert_cases :
      (k i : K) (v : V) (d : List (K × V)) {w : V}
      → lookup i (insert k v d) ≡ some w
      → ((k ≡ i) × (v ≡ w)) ⊎ ((k ≢ i) × (lookup i d ≡ some w))
  lookup-insert_cases k i v d {w = w} h = elim (Bool-cases (k == i)) [
    | inl t ↦
        (let same = (e.equals_iff k i).0 t in
          let own : some v ≡ some w =
            sym (lookup-insert_own k v d) ∙ ap (λ x. lookup x (insert k v d)) same ∙ h in
          inl (same, cc own))
    | inr f ↦
        (let ne : k ≢ i = λ s. false≢true (sym f ∙ (e.equals_iff k i).1 s) in
          inr (ne, sym (lookup-insert_other k i v d ne) ∙ h))
  ]

  -- `d.pop(key, None)`
  unfoldable pub remove : K → List (K × V) → List (K × V)
  remove k [] = []
  remove k ((j, v) ∷ d) = let rest = remove k d in if j == k then rest else (j, v) ∷ rest

  pub lookup-remove_own : (k : K) (d : List (K × V)) → lookup k (remove k d) ≡ none
  unfolding lookup remove
  lookup-remove_own k [] = refl
  lookup-remove_own k ((j, w) ∷ d) = ground (arith, lookup-remove_own k d)

  pub lookup-remove_other :
      (k i : K) (d : List (K × V)) → k ≢ i → lookup i (remove k d) ≡ lookup i d
  unfolding lookup remove
  lookup-remove_other k i [] ne = refl
  lookup-remove_other k i ((j, w) ∷ d) ne =
      ground (arith, lookup-remove_other k i d ne, e.equals_iff j k, e.equals_iff j i)
