-- ===== src/Shared/Table/Queries.antt =====
-- The queries of the ORM that the program makes, on a table as the list of its rows.
use Prim.Native.Nat.{ℕ, suc, ◌+◌, ◌≤◌, ◌<◌}
use mathlib.Core.Path.{◌≡◌, refl}
use mathlib.Core.Bool.{Bool, true, false}
use mathlib.Core.List.{List, [], ◌∷◌, ◌++◌}
use mathlib.Core.Option.{Option, none, some}
use native.Mathlib.Omega.{arith}
use new_mud_codex.Shared.Tests.{if◌then◌else◌}

module _ {ℓ} {A : Type ℓ} where
  -- `.filter(p).first()`, and `.get(p)` where at most one row fits
  abbrev pub first : (A → Bool) → List A → Option A
  first p [] = none
  first p (x ∷ xs) = if p x then some x else first p xs

  -- `.filter(p)`
  abbrev pub select : (A → Bool) → List A → List A
  select p [] = []
  select p (x ∷ xs) = let rest = select p xs in if p x then x ∷ rest else rest

  -- `.filter(p).exists()`
  abbrev pub exists : (A → Bool) → List A → Bool
  exists p [] = false
  exists p (x ∷ xs) = if p x then true else exists p xs

  -- `.filter(p).update(f)`, and `row.save()` where `p` tests the primary key
  abbrev pub update : (A → Bool) → (A → A) → List A → List A
  update p f [] = []
  update p f (x ∷ xs) = (if p x then f x else x) ∷ update p f xs

  -- `.filter(p).count()`
  abbrev pub count : (A → Bool) → List A → ℕ
  count p [] = 0
  count p (x ∷ xs) = let rest = count p xs in if p x then suc rest else rest

module _ {ℓ} {A : Type ℓ} where
  pub count-append : (p : A → Bool) (xs ys : List A) → count p (xs ++ ys) ≡ count p xs + count p ys
  count-append p [] ys = omega arith
  count-append p (x ∷ xs) ys = ground (arith, count-append p xs ys)

  -- An update that makes no new row fit.
  pub count-update-le :
      (p q : A → Bool) (f : A → A) (xs : List A)
      → ((a : A) → q a ≡ true → p (f a) ≡ true → p a ≡ true)
      → count p (update q f xs) ≤ count p xs
  count-update-le p q f [] h = omega arith
  count-update-le p q f (x ∷ xs) h = ground (arith, h x, count-update-le p q f xs h)

  -- An update that stops the first row found from fitting.
  pub count-update-lt :
      (p q : A → Bool) (f : A → A) (xs : List A) {a : A}
      → ((b : A) → q b ≡ true → p (f b) ≡ false)
      → first q xs ≡ some a
      → p a ≡ true
      → count p (update q f xs) < count p xs
  count-update-lt p q f [] h e k = ground arith
  count-update-lt p q f (x ∷ xs) {a = a} h e k = ground (
    arith,
    h x,
    count-update-le p q f xs (λ b qb pb. absurd (false_true (h b qb) pb)),
    count-update-lt p q f xs {a = a} h,
  )
    where
      false_true : {b : Bool} → b ≡ false → b ≡ true → ⊥
      false_true e t = cc

  -- An update that leaves no row fitting.
  pub count-update-none :
      (p q : A → Bool) (f : A → A) (xs : List A)
      → ((a : A) → q a ≡ true → p (f a) ≡ false)
      → ((a : A) → q a ≡ false → p a ≡ false)
      → count p (update q f xs) ≡ 0
  count-update-none p q f [] h k = refl
  count-update-none p q f (x ∷ xs) h k = ground (arith, h x, k x, count-update-none p q f xs h k)

  pub first-fits : (p : A → Bool) (xs : List A) {a : A} → first p xs ≡ some a → p a ≡ true
  first-fits p [] e = ground arith
  first-fits p (x ∷ xs) {a = a} e = ground (arith, first-fits p xs {a = a})

  -- A row that an update changes is found as its new self, if the update keeps what is tested.
  pub first-update_hit :
      (p q : A → Bool) (f : A → A) (xs : List A) {a : A}
      → ((b : A) → p (f b) ≡ p b)
      → first p xs ≡ some a
      → q a ≡ true
      → first p (update q f xs) ≡ some (f a)
  first-update_hit p q f [] stable e h = ground arith
  first-update_hit p q f (x ∷ xs) {a = a} stable e h =
      ground (arith, stable x, first-update_hit p q f xs {a = a} stable)

  pub first-update_miss :
      (p q : A → Bool) (f : A → A) (xs : List A) {a : A}
      → ((b : A) → p (f b) ≡ p b)
      → first p xs ≡ some a
      → q a ≡ false
      → first p (update q f xs) ≡ some a
  first-update_miss p q f [] stable e h = ground arith
  first-update_miss p q f (x ∷ xs) {a = a} stable e h =
      ground (arith, stable x, first-update_miss p q f xs {a = a} stable)

  pub first-update-none :
      (p q : A → Bool) (f : A → A) (xs : List A)
      → ((b : A) → p (f b) ≡ p b)
      → first p xs ≡ none
      → first p (update q f xs) ≡ none
  first-update-none p q f [] stable e = refl
  first-update-none p q f (x ∷ xs) stable e =
      ground (arith, stable x, first-update-none p q f xs stable)

  pub first-append-some :
      (p : A → Bool) (xs ys : List A) {a : A} → first p xs ≡ some a → first p (xs ++ ys) ≡ some a
  first-append-some p [] ys e = ground arith
  first-append-some p (x ∷ xs) ys {a = a} e = ground (arith, first-append-some p xs ys {a = a})

  pub first-append-none :
      (p : A → Bool) (xs ys : List A) → first p xs ≡ none → first p (xs ++ ys) ≡ first p ys
  first-append-none p [] ys e = refl
  first-append-none p (x ∷ xs) ys e = ground (arith, first-append-none p xs ys)
