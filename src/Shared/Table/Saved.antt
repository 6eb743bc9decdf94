-- ===== src/Shared/Table/Saved.antt =====
-- A row found by a query is the row of its key, and what saving a row changes.
use Prim.Native.Nat.{ℕ}
use mathlib.Core.Path.{◌≡◌, sym, subst}
use mathlib.Core.Logic.{◌≢◌, inl, inr}
use new_mud_codex.Shared.Lists.{All}
use mathlib.Core.Bool.{Bool}
use mathlib.Core.List.{List, [], ◌∷◌}
use mathlib.Core.Option.{some}
use native.Mathlib.Omega.{arith}
use new_mud_codex.Shared.Tests.{Bool-cases, nat_eq, nat_eq_iff, nat_eq_refl}
use new_mud_codex.Shared.Table.Queries.{first, update}
use new_mud_codex.Shared.Table.Keys.{Keyed}
use new_mud_codex.Shared.Table.Rows.{Elem, here, there, All-Elem, All-first}

module _ {ℓ} {A : Type ℓ} (key : A → ℕ) where
  -- A row that any query finds is the row of its key.
  pub first-own :
      (q : A → Bool) (xs : List A) {a : A}
      → Keyed key xs
      → first q xs ≡ some a
      → first (λ b. nat_eq (key b) (key a)) xs ≡ some a
  first-own q [] u e = absurd (cc e)
  first-own q (x ∷ xs) {a = a} (ne, u) e = elim (Bool-cases (q x)) [
    | inl t ↦
        (let same : x ≡ a = cc (rw t at e) in
          subst (λ y. first (λ b. nat_eq (key b) (key a)) (y ∷ xs) ≡ some a) (sym same)
            (rw (nat_eq_refl (key a))))
    | inr f ↦
        (let e' : first q xs ≡ some a = rw f at e in
          let other : key x ≢ key a = All-first (λ y. key x ≢ key y) q xs {a = a} ne e' in
          ground (arith, first-own q xs {a = a} u e', nat_eq_iff (key x) (key a)))
  ]

module _ {ℓ} {A : Type ℓ} (key : A → ℕ) where
  -- A row of the table is found under its key.
  pub Elem-first :
      (xs : List A) {a : A}
      → Keyed key xs
      → Elem a xs
      → first (λ b. nat_eq (key b) (key a)) xs ≡ some a
  Elem-first [] u e = elim e [ ]
  Elem-first (x ∷ xs) (ne, u) here = rw (nat_eq_refl (key x))
  Elem-first (x ∷ xs) {a = a} (ne, u) (there e) =
      let other : key x ≢ key a = All-Elem (λ y. key x ≢ key y) xs ne e in
      ground (arith, Elem-first xs {a = a} u e, nat_eq_iff (key x) (key a))

  -- `row.save()`: the row replaces the one of its key.
  abbrev pub save : A → List A → List A
  save a = update (λ b. nat_eq (key b) (key a)) (λ _. a)

  All-save_ne :
      (k : ℕ) (a : A) (xs : List A) → All (λ y. k ≢ key y) xs → All (λ y. k ≢ key y) (save a xs)
  All-save_ne k a [] h = tt
  All-save_ne k a (x ∷ xs) (ne, h) =
      (ground (arith, nat_eq_iff (key x) (key a)), All-save_ne k a xs h)

  pub Keyed-save : (a : A) (xs : List A) → Keyed key xs → Keyed key (save a xs)
  Keyed-save a [] u = tt
  Keyed-save a (x ∷ xs) (ne, u) = elim (Bool-cases (nat_eq (key x) (key a))) [
    | inl e ↦ rw e (
      subst (λ k. All (λ y. k ≢ key y) (save a xs)) ((nat_eq_iff (key x) (key a)).0 e)
          (All-save_ne (key x) a xs ne),
      Keyed-save a xs u,
    )
    | inr f ↦ rw f (All-save_ne (key x) a xs ne, Keyed-save a xs u)
  ]

  -- Saving a row leaves the rows of other keys alone.
  pub first-save_other :
      (k : ℕ) (a : A) (xs : List A) {o : A}
      → k ≢ key a
      → first (λ b. nat_eq (key b) k) xs ≡ some o
      → first (λ b. nat_eq (key b) k) (save a xs) ≡ some o
  first-save_other k a [] ne e = absurd (cc e)
  first-save_other k a (x ∷ xs) {o = o} ne e = ground (
    arith,
    nat_eq_iff (key x) (key a),
    nat_eq_iff (key x) k,
    nat_eq_iff (key a) k,
    first-save_other k a xs {o = o} ne,
  )

  -- A saved row is found under its key.
  pub first-save_own :
      (k : ℕ) (a : A) (xs : List A) {o : A}
      → key a ≡ k
      → first (λ b. nat_eq (key b) k) xs ≡ some o
      → first (λ b. nat_eq (key b) k) (save a xs) ≡ some a
  first-save_own k a [] same e = absurd (cc e)
  first-save_own k a (x ∷ xs) {o = o} same e = ground (
    arith,
    nat_eq_iff (key x) (key a),
    nat_eq_iff (key x) k,
    nat_eq_iff (key a) k,
    first-save_own k a xs {o = o} same,
  )
