-- ===== src/Shared/Table/Keys.antt =====
-- Tables in which no two rows have one key.
use Prim.Native.Nat.{ℕ}
use mathlib.Core.Path.{◌≡◌, refl, sym, ◌∙◌, subst}
use mathlib.Core.Logic.{◌≢◌, inl, inr}
use new_mud_codex.Shared.Lists.{All}
use mathlib.Core.Bool.{Bool, true, false, ◌&&◌}
use mathlib.Core.List.{List, [], ◌∷◌}
use mathlib.Core.Option.{none, some}
use native.Mathlib.Omega.{arith}
use new_mud_codex.Shared.Tests.{if◌then◌else◌, Bool-cases, nat_eq, nat_eq_iff}
use new_mud_codex.Shared.Table.Queries.{first, update, count}

module _ {ℓ} {A : Type ℓ} (key : A → ℕ) where
  -- No two rows have one key.
  abbrev pub Keyed : List A → Type 0
  Keyed [] = Unit
  Keyed (x ∷ xs) = All (λ y. key x ≢ key y) xs × Keyed xs

  first_other :
      (k : ℕ) (q : A → Bool) (x : A) (xs : List A)
      → All (λ y. key x ≢ key y) xs
      → ((a : A) → q a ≡ true → key a ≡ k)
      → key x ≡ k
      → first q xs ≡ none
  first_other k q x [] h hq e = refl
  first_other k q x (y ∷ ys) (ne, h) hq e = elim (Bool-cases (q y)) [
    | inl t ↦ absurd (ne (e ∙ sym (hq y t)))
    | inr f ↦ rw f (first_other k q x ys h hq e)
  ]

  count_other :
      (k : ℕ) (p : A → Bool) (x : A) (xs : List A)
      → All (λ y. key x ≢ key y) xs
      → key x ≡ k
      → count (λ b. nat_eq (key b) k && p b) xs ≡ 0
  count_other k p x [] h e = refl
  count_other k p x (y ∷ ys) (ne, h) e =
      ground (arith, nat_eq_iff (key y) k, count_other k p x ys h e)

  -- A query that implies the key finds the row of the key.
  pub first-Keyed :
      (k : ℕ) (q : A → Bool) (xs : List A) {a : A}
      → Keyed xs
      → ((b : A) → q b ≡ true → key b ≡ k)
      → first q xs ≡ some a
      → first (λ b. nat_eq (key b) k) xs ≡ some a
  first-Keyed k q [] u hq e = ground arith
  first-Keyed k q (x ∷ xs) {a = a} (h, u) hq e = elim (Bool-cases (nat_eq (key x) k)) [
    | inl here ↦ elim (Bool-cases (q x)) [
      | inl t ↦ rw here (rw t at e)
      | inr f ↦
          (let e' : first q xs ≡ some a = rw f at e in
            cc (e', first_other k q x xs h hq ((nat_eq_iff (key x) k).0 here)))
    ]
    | inr away ↦ elim (Bool-cases (q x)) [
      | inl t ↦ cc ((nat_eq_iff (key x) k).1 (hq x t))
      | inr f ↦ rw away (first-Keyed k q xs {a = a} u hq (rw f at e))
    ]
  ]

  -- The row of a key is the only one, so what fails of it fails of every row of the key.
  pub count-Keyed :
      (k : ℕ) (p : A → Bool) (xs : List A) {a : A}
      → Keyed xs
      → first (λ b. nat_eq (key b) k) xs ≡ some a
      → p a ≡ false
      → count (λ b. nat_eq (key b) k && p b) xs ≡ 0
  count-Keyed k p [] u e h = refl
  count-Keyed k p (x ∷ xs) {a = a} (ne, u) e h = elim (Bool-cases (nat_eq (key x) k)) [
    | inl here ↦
        (let same : x ≡ a = ground arith in
          let mine : p x ≡ false = rw same h in
          rw (here, mine) (count_other k p x xs ne ((nat_eq_iff (key x) k).0 here)))
    | inr away ↦ rw away (count-Keyed k p xs {a = a} u (rw away at e) h)
  ]

  All-update_ne :
      (k : ℕ) (q : A → Bool) (f : A → A) (xs : List A)
      → ((a : A) → key (f a) ≡ key a)
      → All (λ y. k ≢ key y) xs
      → All (λ y. k ≢ key y) (update q f xs)
  All-update_ne k q f [] same h = tt
  All-update_ne k q f (x ∷ xs) same (ne, h) =
      (ground (arith, same x), All-update_ne k q f xs same h)

  -- An update that leaves the keys alone keeps them distinct.
  pub Keyed-update :
      (q : A → Bool) (f : A → A) (xs : List A)
      → ((a : A) → key (f a) ≡ key a)
      → Keyed xs
      → Keyed (update q f xs)
  Keyed-update q f [] same u = tt
  Keyed-update q f (x ∷ xs) same (ne, u) = (
    subst (λ k. All (λ y. k ≢ key y) (update q f xs)) (kept (q x))
        (All-update_ne (key x) q f xs same ne),
    Keyed-update q f xs same u,
  )
    where
      kept : (b : Bool) → key x ≡ key (if b then f x else x)
      kept true = sym (same x)
      kept false = refl
