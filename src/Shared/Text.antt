-- ===== src/Shared/Text.antt =====
-- Text as the list of its code points, and the string methods that the program calls.
use Prim.Native.Nat.{ℕ, zero, suc}
use Prim.Native.Char.{code}
use Prim.Native.String.{String}
use mathlib.Core.Path.{◌≡◌, refl, ap, sym, ◌∙◌}
use mathlib.Core.Logic.{◌≢◌, ◌↔◌, inl, inr}
use mathlib.Core.Bool.{Bool, true, false, ◌&&◌}
use mathlib.Core.List.{List, [], ◌∷◌, ◌++◌}
use native.Mathlib.Omega.{arith}
use new_mud_codex.Shared.Tests.{
  nat_eq, nat_eq_iff, nat_eq_refl, Bool-cases, Equality, if◌then◌else◌,
}
use new_mud_codex.Shared.Lists.{All, All-append, replicate}

abbrev pub Text : Type 0
Text = List ℕ

abbrev pub codes : String → Text
codes String.[] = []
codes (String.◌∷◌ c s) = code c ∷ codes s

unfoldable pub text_eq : Text → Text → Bool
text_eq [] [] = true
text_eq (a ∷ s) (b ∷ t) = nat_eq a b && text_eq s t
text_eq _ _ = false

pub text_eq_iff : (s t : Text) → (text_eq s t ≡ true) ↔ (s ≡ t)
unfolding text_eq
text_eq_iff [] [] = ground arith
text_eq_iff [] (b ∷ t) = ground arith
text_eq_iff (a ∷ s) [] = ground arith
text_eq_iff (a ∷ s) (b ∷ t) = ground (arith, text_eq_iff s t)

pub text_eq_refl : (s : Text) → text_eq s s ≡ true
text_eq_refl s = (text_eq_iff s s).1 refl

pub text_eq-ne : (s t : Text) → s ≢ t → text_eq s t ≡ false
text_eq-ne s t h = elim (Bool-cases (text_eq s t)) [
  | inl same ↦ absurd (h ((text_eq_iff s t).0 same))
  | inr other ↦ other
]

instance abbrev pub Text_equality : Equality Text
Text_equality = record { equals = text_eq; equals_iff = text_eq_iff }

-- No code point of the text is `c`.
abbrev pub Free : ℕ → Text → Type 0
Free c = All (λ x. x ≢ c)

-- `s.split(sep)` for a separator of one character
abbrev add_to_head : ℕ → List Text → List Text
add_to_head x [] = (x ∷ []) ∷ []
add_to_head x (s ∷ rest) = (x ∷ s) ∷ rest

unfoldable pub split : ℕ → Text → List Text
split c [] = [] ∷ []
split c (x ∷ xs) = let rest = split c xs in if nat_eq x c then [] ∷ rest else add_to_head x rest

-- A text without the separator is one part.
pub split-Free : (c : ℕ) (s : Text) → Free c s → split c s ≡ s ∷ []
unfolding split
split-Free c [] h = refl
split-Free c (x ∷ xs) (h, hs) = ground (arith, split-Free c xs hs, nat_eq_iff x c)

-- The part before the first separator is split off.
pub split-append : (c : ℕ) (s t : Text) → Free c s → split c (s ++ c ∷ t) ≡ s ∷ split c t
unfolding split
split-append c [] t h = ground (arith, nat_eq_refl c)
split-append c (x ∷ xs) t (h, hs) = ground (arith, split-append c xs t hs, nat_eq_iff x c)

-- `s.rstrip(c)`
abbrev strip_at : ℕ → ℕ → Text → Text
strip_at c x [] = if nat_eq x c then [] else x ∷ []
strip_at c x (y ∷ s) = x ∷ y ∷ s

unfoldable pub rstrip : ℕ → Text → Text
rstrip c [] = []
rstrip c (x ∷ xs) = strip_at c x (rstrip c xs)

rstrip-replicate : (c n : ℕ) → rstrip c (replicate n c) ≡ []
unfolding rstrip
rstrip-replicate c zero = refl
rstrip-replicate c (suc n) = rw (rstrip-replicate c n, nat_eq_refl c)

strip_at-ne : (c x : ℕ) (s : Text) → x ≢ c → strip_at c x s ≡ x ∷ s
strip_at-ne c x [] h = ground (arith, nat_eq_iff x c)
strip_at-ne c x (y ∷ s) h = refl

-- Only the padding at the end is stripped.
pub rstrip-append : (c n : ℕ) (s : Text) → Free c s → rstrip c (s ++ replicate n c) ≡ s
unfolding rstrip
rstrip-append c n [] h = rstrip-replicate c n
rstrip-append c n (x ∷ xs) (h, hs) = rw (rstrip-append c n xs hs) (strip_at-ne c x xs h)

-- `s.removeprefix(p)` where `s.startswith(p)`, and none where it does not.
unfoldable pub after_prefix : Text → Text → List Text
after_prefix [] s = s ∷ []
after_prefix (p ∷ ps) [] = []
after_prefix (p ∷ ps) (x ∷ xs) = let rest = after_prefix ps xs in if nat_eq p x then rest else []

pub after_prefix-append : (p s : Text) → after_prefix p (p ++ s) ≡ s ∷ []
unfolding after_prefix
after_prefix-append [] s = refl
after_prefix-append (x ∷ p) s = rw (after_prefix-append p s, nat_eq_refl x)

-- `sep.join(parts)`
abbrev pub join : ℕ → List Text → Text
join c [] = []
join c (s ∷ []) = s
join c (s ∷ t ∷ rest) = s ++ c ∷ join c (t ∷ rest)

join-add_to_head : (c x : ℕ) (parts : List Text) → join c (add_to_head x parts) ≡ x ∷ join c parts
join-add_to_head c x [] = refl
join-add_to_head c x (s ∷ []) = refl
join-add_to_head c x (s ∷ t ∷ rest) = refl

split-ne-nil : (c : ℕ) (s : Text) → split c s ≢ []
unfolding split
split-ne-nil c [] = ground arith
split-ne-nil c (x ∷ xs) =
    elim (split c xs) as (λ r. (if nat_eq x c then [] ∷ r else add_to_head x r) ≢ []) [
      | [] ↦ ground arith
      | s ∷ rest ↦ ground arith
    ]

join-nil_cons : (c : ℕ) (parts : List Text) → parts ≢ [] → join c ([] ∷ parts) ≡ c ∷ join c parts
join-nil_cons c [] h = absurd (h refl)
join-nil_cons c (s ∷ rest) h = refl

-- Splitting loses nothing.
pub join-split : (c : ℕ) (s : Text) → join c (split c s) ≡ s
unfolding split
join-split c [] = refl
join-split c (x ∷ xs) = elim (Bool-cases (nat_eq x c)) [
  | inl e ↦ rw e (
      join-nil_cons c (split c xs) (split-ne-nil c xs)
      ∙ ap (◌∷◌ c) (join-split c xs)
      ∙ ap (λ y. y ∷ xs) (sym ((nat_eq_iff x c).0 e)))
  | inr e ↦ rw e (join-add_to_head c x (split c xs) ∙ ap (◌∷◌ x) (join-split c xs))
]

add_to_head-Free :
    (c x : ℕ) (parts : List Text) → x ≢ c → All (Free c) parts → All (Free c) (add_to_head x parts)
add_to_head-Free c x [] h hs = ((h, tt), tt)
add_to_head-Free c x (s ∷ rest) h (hs, hr) = ((h, hs), hr)

-- No part holds the separator.
pub split-All-Free : (c : ℕ) (s : Text) → All (Free c) (split c s)
unfolding split
split-All-Free c [] = (tt, tt)
split-All-Free c (x ∷ xs) = elim (Bool-cases (nat_eq x c)) [
  | inl e ↦ rw e (tt, split-All-Free c xs)
  | inr e ↦ rw e (
      add_to_head-Free c x (split c xs) (λ same. ground (arith, nat_eq_iff x c))
        (split-All-Free c xs))
]

-- What holds of the separator and in the parts holds in the joined text.
pub All-join :
    (P : ℕ → Type 0) (c : ℕ) (parts : List Text) → P c → All (All P) parts → All P (join c parts)
All-join P c [] h hs = tt
All-join P c (s ∷ []) h (hs, _) = hs
All-join P c (s ∷ t ∷ rest) h (hs, hr) =
    All-append P s (c ∷ join c (t ∷ rest)) hs (h, All-join P c (t ∷ rest) h hr)
