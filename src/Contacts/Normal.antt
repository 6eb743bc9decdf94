-- ===== src/Contacts/Normal.antt =====
-- verification.py, `normalize_email`: accepted addresses and their normal forms.
use new_mud_codex.Shared.{
  ℕ, ◌≤◌, ◌≡◌, refl, Bool, true, false, not, ◌||◌, some, List, [], ◌∷◌, ltb, ◌==◌, ℕ_equality,
  length, All, Bool-cases, inl, inr,
}
use new_mud_codex.Shared.Text.{Text, Text_equality, split}
use new_mud_codex.Errors.{
  pure, raise_if, or_raise, bind-eq-pure, raise_if-eq-pure, or_raise-eq-pure, contact_invalid,
}
use new_mud_codex.Sessions.Request.{text, is_alnum}
use new_mud_codex.Contacts.{
  Unicode, NormalizedEmail, normalize_email, parts, with_domain, is_local_part,
}

-- The characters of an encoded domain: letters, digits, hyphens and dots.
abbrev pub is_domain_char : ℕ → Bool
is_domain_char c = is_alnum c || c == b'-' || c == b'.'

-- What is documented of `str.strip` and of the IDNA encoder.
pub record UnicodeLaws (u : Unicode) : Type 0 where
  pub strip_printable : (t : Text) → All (λ c. 33 ≤ c) t → u.strip t ≡ t
  pub domain_chars :
      (d e : Text) → u.idna_encode d ≡ some e → All (λ c. is_domain_char c ≡ true) (u.lower e)
  pub encode_encoded :
      (d e : Text) → u.idna_encode d ≡ some e → u.idna_encode (u.lower e) ≡ some (u.lower e)
  pub lower_lower : (t : Text) → u.lower (u.lower t) ≡ u.lower t

module _ (u : Unicode) where
  -- What an accepted address consists of.
  pub record IsAddress (destination : Text) (n : NormalizedEmail) : Type 0 where
    pub local_part : Text
    pub raw_domain : Text
    pub encoded : Text
    pub divided : split b'@' destination ≡ local_part ∷ raw_domain ∷ []
    pub is_local : (not (is_local_part local_part) || ltb 64 (length local_part)) ≡ false
    pub has_domain : u.idna_encode raw_domain ≡ some encoded
    pub joined : with_domain u local_part (u.lower encoded) ≡ pure n

  parts-eq :
      (destination : Text) (ps : List Text) (n : NormalizedEmail)
      → split b'@' destination ≡ ps
      → parts u ps ≡ pure n
      → IsAddress destination n
  parts-eq destination [] n e h = absurd (cc h)
  parts-eq destination (a ∷ []) n e h = absurd (cc h)
  parts-eq destination (a ∷ b ∷ []) n e h =
      let (_, guarded, h1) =
        bind-eq-pure (raise_if (not (is_local_part a) || ltb 64 (length a)) contact_invalid) _ h in
      let (d, found, h2) = bind-eq-pure (or_raise (u.idna_encode b) contact_invalid) _ h1 in
      record {
        local_part = a;
        raw_domain = b;
        encoded = d;
        divided = e;
        is_local = raise_if-eq-pure _ _ guarded;
        has_domain = or_raise-eq-pure (u.idna_encode b) contact_invalid found;
        joined = h2;
      }
  parts-eq destination (a ∷ b ∷ c ∷ rest) n e h = absurd (cc h)

  pub normalize_email-IsAddress :
      (destination : Text) (n : NormalizedEmail)
      → normalize_email u (text destination) ≡ pure n
      → IsAddress destination n
  unfolding normalize_email
  normalize_email-IsAddress destination n h =
      elim (Bool-cases (destination == u.strip destination)) [
        | inl e ↦ parts-eq destination (split b'@' destination) n refl (rw e at h)
        | inr e ↦ absurd (cc (rw e at h))
      ]
