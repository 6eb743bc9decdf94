-- ===== src/Tokens/Access.antt =====
-- tokens.py: `encode_access_token` and then `decode_access_token_result`.
use new_mud_codex.Shared.{
  ℕ, ◌<◌, ◌%◌, ◌-◌, ◌≡◌, subst, ◌∙◌, some, [], ◌∷◌, ◌++◌, arith, ap, append_assoc, length, ◌+◌,
}
use new_mud_codex.Shared.Text.{Text, codes, Free, split, split-Free, split-append, text_eq_refl}
use new_mud_codex.Errors.{pure, bind-eq-pure, pure-injective}
use new_mud_codex.Tokens.{
  Crypto, Dict, object, header, base64url, sign, signing_key, padded, judge, encode_access_token,
  decode_access_token_result, signing_input, decode_json, load_text,
}
use new_mud_codex.Tokens.Laws.{Laws}
use new_mud_codex.Tokens.Refresh.{base64url-body, sign-Free}

-- The padding that the decoder adds is the padding that the encoder stripped.
pub pads_back : (n k : ℕ) → k < 4 → (n + k) % 4 ≡ 0 → (4 - n % 4) % 4 ≡ k
pads_back n k h e = omega arith

module _ (c : Crypto) (l : Laws c) where
  pub padded-base64url : (t : Text) → padded (base64url c t) ≡ c.urlsafe_b64encode t
  unfolding padded
  padded-base64url t = rw (
    base64url-body c l t,
    pads_back (length (l.b64_body t)) (l.b64_pads t) (l.b64_pads-lt t) (l.b64_length t),
    l.b64_shape t,
  )

  decode_json-base64url : (t : Text) → decode_json c (base64url c t) ≡ c.loads t
  decode_json-base64url t =
      ap (λ x. load_text c (c.urlsafe_b64decode x)) (padded-base64url t)
      ∙ ap (load_text c) (l.b64decode-b64encode t)

  base64url-Free : (t : Text) → Free b'.' (base64url c t)
  base64url-Free t = rw (base64url-body c l t) (l.b64_body-Free t)

  abbrev pub signed_text : Text → Dict → Text
  signed_text key claims = signing_input c claims ++ b'.' ∷ sign c key (signing_input c claims)

  split-signed_text :
      (key : Text) (claims : Dict)
      → split b'.' (signed_text key claims)
        ≡ base64url c (c.dumps header)
          ∷ base64url c (c.dumps claims)
          ∷ sign c key (base64url c (c.dumps header) ++ b'.' ∷ base64url c (c.dumps claims))
          ∷ []
  split-signed_text key claims =
      ap (split b'.') (append_assoc (base64url c (c.dumps header)) _ _)
      ∙ split-append b'.' _ _ (base64url-Free (c.dumps header))
      ∙ ap (◌∷◌ (base64url c (c.dumps header))) (
          split-append b'.' _ _ (base64url-Free (c.dumps claims))
          ∙ ap (◌∷◌ (base64url c (c.dumps claims))) (split-Free b'.' _ (sign-Free c l key _)))

  decode-signed :
      (claims h d : Dict) (key : Text) (now : ℕ)
      → signing_key c (codes "access") ≡ pure key
      → c.loads (c.dumps header) ≡ some (object h)
      → c.loads (c.dumps claims) ≡ some (object d)
      → decode_access_token_result c (signed_text key claims) now
        ≡ pure (judge (object h) (object d) now)
  unfolding decode_access_token_result
  decode-signed claims h d key now k eh ed = rw (
    split-signed_text key claims,
    k,
    text_eq_refl (sign c key (base64url c (c.dumps header) ++ b'.' ∷ base64url c (c.dumps claims))),
    decode_json-base64url (c.dumps header),
    decode_json-base64url (c.dumps claims),
    eh,
    ed,
  )

  -- An encoded access token is judged by its own header and claims, as JSON reads them back, given
  -- the laws of base64.
  pub decode-encode :
      (claims h d : Dict) (t : Text) (now : ℕ)
      → c.loads (c.dumps header) ≡ some (object h)
      → c.loads (c.dumps claims) ≡ some (object d)
      → encode_access_token c claims ≡ pure t
      → decode_access_token_result c t now ≡ pure (judge (object h) (object d) now)
  unfolding encode_access_token decode_access_token_result
  decode-encode claims h d t now eh ed e =
      let (key, k, q) = bind-eq-pure (signing_key c (codes "access")) _ e in
      subst (λ x. decode_access_token_result c x now ≡ pure (judge (object h) (object d) now))
        (pure-injective q) (decode-signed claims h d key now k eh ed)
