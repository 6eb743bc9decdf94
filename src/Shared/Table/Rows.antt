-- ===== src/Shared/Table/Rows.antt =====
-- The rows that a query finds.
use Prim.Native.Nat.{◌<◌}
use mathlib.Core.Path.{◌≡◌, refl, sym, subst}
use mathlib.Core.Logic.{◌⊎◌, inl, inr}
use new_mud_codex.Shared.Lists.{All}
use mathlib.Core.Bool.{Bool, true, ◌&&◌}
use mathlib.Core.List.{List, [], ◌∷◌}
use mathlib.Core.Option.{none, some}
use native.Mathlib.Omega.{arith}
use new_mud_codex.Shared.Tests.{Bool-cases}
use new_mud_codex.Shared.Table.Queries.{first, select, update, count}

module _ {ℓ} {A : Type ℓ} where
  -- The list holds the row.
  pub data Elem (a : A) : List A → Type ℓ where
    here : {xs : List A} → Elem a (a ∷ xs)
    there : {x : A} {xs : List A} → Elem a xs → Elem a (x ∷ xs)

  pub Elem-head : {a x : A} (xs : List A) → x ≡ a → Elem a (x ∷ xs)
  Elem-head {a} {x} xs e = subst (λ y. Elem a (y ∷ xs)) (sym e) here

  pub Elem-cases : {a x : A} (xs : List A) → Elem a (x ∷ xs) → (x ≡ a) ⊎ Elem a xs
  Elem-cases xs here = inl refl
  Elem-cases xs (there e) = inr e

  pub first-Elem : (p : A → Bool) (xs : List A) {a : A} → first p xs ≡ some a → Elem a xs
  first-Elem p [] e = absurd (cc e)
  first-Elem p (x ∷ xs) {a = a} e = elim (Bool-cases (p x)) [
    | inl t ↦ Elem-head xs (cc (rw t at e))
    | inr f ↦ there (first-Elem p xs {a = a} (rw f at e))
  ]

  pub select-Elem :
      (p : A → Bool) (xs : List A) (a : A) → p a ≡ true → Elem a xs → Elem a (select p xs)
  select-Elem p [] a h e = elim e [ ]
  select-Elem p (x ∷ xs) a h here = rw h here
  select-Elem p (x ∷ xs) a h (there e) = elim (Bool-cases (p x)) [
    | inl t ↦ rw t (there (select-Elem p xs a h e))
    | inr f ↦ rw f (select-Elem p xs a h e)
  ]

  -- A row that a query finds counts.
  pub count-first :
      (q p : A → Bool) (xs : List A) {a : A}
      → first q xs ≡ some a
      → (q a && p a) ≡ true
      → 0 < count (λ b. q b && p b) xs
  count-first q p [] e h = ground arith
  count-first q p (x ∷ xs) {a = a} e h = ground (arith, count-first q p xs {a = a})

  -- A row that is found counts under every test that it passes.
  pub count-found :
      (q p : A → Bool) (xs : List A) {a : A} → first q xs ≡ some a → p a ≡ true → 0 < count p xs
  count-found q p [] e h = ground arith
  count-found q p (x ∷ xs) {a = a} e h = ground (arith, count-found q p xs {a = a})

  -- Where a query finds nothing, a narrower one finds nothing.
  pub first-none_narrower :
      (p q : A → Bool) (xs : List A)
      → ((b : A) → q b ≡ true → p b ≡ true)
      → first p xs ≡ none
      → first q xs ≡ none
  first-none_narrower p q [] h e = refl
  first-none_narrower p q (x ∷ xs) h e = ground (arith, h x, first-none_narrower p q xs h)

module _ {ℓ} {A : Type ℓ} where
  -- What holds of every row holds of the row that is found.
  pub All-first {κ} :
      (P : A → Type κ) (q : A → Bool) (xs : List A) {a : A} → All P xs → first q xs ≡ some a → P a
  All-first P q [] h e = absurd (cc e)
  All-first P q (x ∷ xs) {a = a} (p, h) e = elim (Bool-cases (q x)) [
    | inl t ↦ (let same : x ≡ a = cc (rw t at e) in subst P same p)
    | inr f ↦ All-first P q xs {a = a} h (rw f at e)
  ]

module _ {ℓ κ} {A : Type ℓ} (P : A → Type κ) where
  pub All-update :
      (q : A → Bool) (f : A → A) (xs : List A)
      → ((a : A) → q a ≡ true → P a → P (f a))
      → All P xs
      → All P (update q f xs)
  All-update q f [] h hs = tt
  All-update q f (x ∷ xs) h (p, hs) = elim (Bool-cases (q x)) [
    | inl e ↦ rw e (h x e p, All-update q f xs h hs)
    | inr e ↦ rw e (p, All-update q f xs h hs)
  ]

  pub All-Elem : (xs : List A) {a : A} → All P xs → Elem a xs → P a
  All-Elem [] hs e = elim e [ ]
  All-Elem (x ∷ xs) (p, hs) here = p
  All-Elem (x ∷ xs) (p, hs) (there e) = All-Elem xs hs e

module _ {ℓ} {A : Type ℓ} where
  Elem-step :
      (p : A → Bool) (x : A) (xs ys : List A) {a : A}
      → p x ≡ true
      → (Elem a ys → Elem a xs × (p a ≡ true))
      → Elem a (x ∷ ys)
      → Elem a (x ∷ xs) × (p a ≡ true)
  Elem-step p x xs ys t h here = (here, t)
  Elem-step p x xs ys t h (there i) = let (j, k) = h i in (there j, k)

  pub Elem-select :
      (p : A → Bool) (xs : List A) {a : A} → Elem a (select p xs) → Elem a xs × (p a ≡ true)
  Elem-select p [] e = elim e [ ]
  Elem-select p (x ∷ xs) {a = a} e = elim (Bool-cases (p x)) [
    | inl t ↦ Elem-step p x xs (select p xs) {a = a} t (λ i. Elem-select p xs {a = a} i) (rw t at e)
    | inr f ↦ (let (i, h) = Elem-select p xs {a = a} (rw f at e) in (there i, h))
  ]
