-- ===== src/Tokens/Refresh.antt =====
-- tokens.py: `materialize_refresh_token` and `parse_refresh_token`.
use new_mud_codex.Shared.{
  ℕ, ◌≤◌, ◌≡◌, subst, ◌∙◌, inl, inr, Option, none, some, List, [], ◌∷◌, ◌++◌, arith, ap, Bool-cases,
  ltb, ◌==◌,
}
use new_mud_codex.Shared.Text.{
  Text, codes, Free, split, split-Free, split-append, text_eq_refl, text_eq_iff, Text_equality,
  rstrip-append,
}
use new_mud_codex.Errors.{Result, pure, raise, ◌>>=◌, bind-eq-pure, pure-injective}
use new_mud_codex.Tokens.{
  Crypto, base64url, sign, signing_key, materialize_refresh_token, parse_refresh_token,
  parse_numbers, parse_parts, if_matching,
}
use new_mud_codex.Tokens.Laws.{Laws}

abbrev token_text : Crypto → ℕ → ℕ → Text → Text
token_text c u n secret = codes "r1" ++ b'.' ∷ (c.hex u ++ b'.' ∷ (c.str_of_int n ++ b'.' ∷ secret))

module _ (c : Crypto) (l : Laws c) where
  -- The padding is stripped, and nothing else.
  pub base64url-body : (t : Text) → base64url c t ≡ l.b64_body t
  unfolding base64url
  base64url-body t =
      rw (l.b64_shape t) (rstrip-append b'=' (l.b64_pads t) (l.b64_body t) (l.b64_body-Free_pad t))

  pub sign-Free : (key t : Text) → Free b'.' (sign c key t)
  unfolding sign
  sign-Free key t =
      rw (base64url-body (c.hmac_sha256 key t)) (l.b64_body-Free (c.hmac_sha256 key t))

  split-token :
      (u n : ℕ) (secret : Text)
      → Free b'.' secret
      → split b'.' (token_text c u n secret) ≡ codes "r1" ∷ c.hex u ∷ c.str_of_int n ∷ secret ∷ []
  split-token u n secret h =
      split-append b'.' (codes "r1") _ (omega arith)
      ∙ ap (◌∷◌ (codes "r1")) (
          split-append b'.' (c.hex u) _ (l.hex-Free u)
          ∙ ap (◌∷◌ (c.hex u)) (
              split-append b'.' (c.str_of_int n) _ (l.str_of_int-Free n)
              ∙ ap (◌∷◌ (c.str_of_int n)) (split-Free b'.' secret h)))

  abbrev signed : ℕ → ℕ → Text → Text
  signed u n key = token_text c u n (sign c key (c.hex u ++ b':' ∷ c.str_of_int n))

  materialize-signed :
      (u n : ℕ) (key : Text)
      → signing_key c (codes "refresh") ≡ pure key
      → materialize_refresh_token c u n ≡ pure (signed u n key)
  unfolding materialize_refresh_token
  materialize-signed u n key k = rw k

  parse-signed :
      (u n : ℕ) (key : Text)
      → 1 ≤ n
      → signing_key c (codes "refresh") ≡ pure key
      → parse_refresh_token c (signed u n key) ≡ pure (some (u, n))
  unfolding parse_refresh_token
  parse-signed u n key h k =
      rw
        (
          split-token u n (sign c key (c.hex u ++ b':' ∷ c.str_of_int n)) (sign-Free key _),
          text_eq_refl (codes "r1"),
          l.uuid_of_hex-hex u,
          l.int_of_str-str_of_int n,
          materialize-signed u n key k,
          text_eq_refl (signed u n key),
        )
        (ground arith)

  -- A refresh token derived for a generation of at least 1 parses to the credential and the
  -- generation it was derived for, given the laws of the printing of UUIDs and integers and of
  -- base64.
  pub parse-materialize :
      (u n : ℕ) (t : Text)
      → 1 ≤ n
      → materialize_refresh_token c u n ≡ pure t
      → parse_refresh_token c t ≡ pure (some (u, n))
  unfolding materialize_refresh_token
  parse-materialize u n t h e =
      let (key, k, q) = bind-eq-pure (signing_key c (codes "refresh")) _ e in
      subst (λ x. parse_refresh_token c x ≡ pure (some (u, n))) (pure-injective q)
        (parse-signed u n key h k)

abbrev pub Parsed : Crypto → Text → ℕ → ℕ → Type 0
Parsed c t u n = (1 ≤ n) × (materialize_refresh_token c u n ≡ pure t)

checked_sound :
    (r : Result Text) (t : Text) (v m u n : ℕ)
    → (r >>= λ expected. pure (if_matching expected t (v, m))) ≡ pure (some (u, n))
    → (r ≡ pure t) × (v ≡ u) × (m ≡ n)
checked_sound (pure x) t v m u n e = ground (arith, text_eq_iff x t)
checked_sound (raise x) t v m u n e = ground arith

module _ (c : Crypto) where
  numbers_sound :
      (a b : Option ℕ) (t : Text) (u n : ℕ)
      → parse_numbers c a b t ≡ pure (some (u, n))
      → Parsed c t u n
  numbers_sound none b t u n e = ground arith
  numbers_sound (some v) none t u n e = ground arith
  numbers_sound (some v) (some m) t u n e = elim (Bool-cases (ltb m 1)) [
    | inl small ↦ cc (rw small at e)
    | inr large ↦
        (let (k, p, q) =
            checked_sound (materialize_refresh_token c v m) t v m u n (rw large at e) in
          (ground arith, rw (← p, ← q) k))
  ]

  parts_sound :
      (parts : List Text) (t : Text) (u n : ℕ)
      → parse_parts c parts t ≡ pure (some (u, n))
      → Parsed c t u n
  parts_sound (v ∷ a ∷ b ∷ s ∷ []) t u n e = elim (Bool-cases (v == codes "r1")) [
    | inl p ↦ numbers_sound (c.uuid_of_hex a) (c.int_of_str b) t u n (rw p at e)
    | inr p ↦ cc (rw p at e)
  ]
  parts_sound _ t u n e = ground arith

  -- A text parses as a refresh token only if it is the very token derived for the credential and
  -- the generation that the parser returns, and that generation is at least 1.
  pub parse_sound :
      (t : Text) (u n : ℕ)
      → parse_refresh_token c t ≡ pure (some (u, n))
      → (1 ≤ n) × (materialize_refresh_token c u n ≡ pure t)
  unfolding parse_refresh_token
  parse_sound t u n e = parts_sound (split b'.' t) t u n e
