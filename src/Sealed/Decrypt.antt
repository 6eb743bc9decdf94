-- ===== src/Sealed/Decrypt.antt =====
-- verification_crypto.py: `encrypt_value` and then `decrypt_value`.
use new_mud_codex.Shared.{
  ℕ, ◌+◌, ◌%◌, ◌<◌, ◌≡◌, ◌∙◌, ap, [], ◌∷◌, ◌++◌, some, length, replicate, sym, subst, arith,
}
use new_mud_codex.Shared.Text.{
  Text, codes, Text_equality, text_eq_refl, split, Free, split-append, split-Free, rstrip-append,
}
use new_mud_codex.Errors.{pure, bind-eq-pure, pure-injective}
use new_mud_codex.Tokens.{padded}
use new_mud_codex.Tokens.Access.{pads_back}
use new_mud_codex.Contacts.{KeyRing, read_key}
use new_mud_codex.Sealed.{Aead, EncryptedValue, encode, decode, encrypt_value, decrypt_value}

-- AES-GCM opens under the same key, nonce and context what it sealed; UTF-8 and base64 read back what
-- they write, and base64 is padded with `=` to a multiple of four characters.
pub record AeadLaws (a : Aead) : Type 0 where
  pub opens : (k n p x : Text) → a.aes_decrypt k n (a.aes_encrypt k n p x) x ≡ some p
  pub decodes : (t : Text) → a.utf8_decode (a.utf8 t) ≡ some t
  pub b64_reads : (t : Text) → a.b64decode (a.b64encode t) ≡ some t
  pub body : Text → Text
  pub pads : Text → ℕ
  pub shape : (t : Text) → a.b64encode t ≡ body t ++ replicate (pads t) b'='
  pub body-Free : (t : Text) → Free b'.' (body t)
  pub body-Free_pad : (t : Text) → Free b'=' (body t)
  pub pads-lt : (t : Text) → pads t < 4
  pub whole : (t : Text) → (length (body t) + pads t) % 4 ≡ 0

module _ (a : Aead) (l : AeadLaws a) where
  encode-body : (t : Text) → encode a t ≡ l.body t
  encode-body t = rw (l.shape t) (rstrip-append b'=' (l.pads t) (l.body t) (l.body-Free_pad t))

  encode-Free : (t : Text) → Free b'.' (encode a t)
  encode-Free t = subst (Free b'.') (sym (encode-body t)) (l.body-Free t)

  decode-encode_lem : (t : Text) → decode a (encode a t) ≡ pure t
  unfolding padded
  decode-encode_lem t = rw (
    encode-body t,
    pads_back (length (l.body t)) (l.pads t) (l.pads-lt t) (l.whole t),
    sym (l.shape t),
    l.b64_reads t,
  )

  -- A value encrypted under the current key of a ring decrypts, in its context, under every ring
  -- that has the same key under that identity, so also after a rotation of keys.
  pub decrypt-encrypt :
      (plaintext context nonce : Text) (ring ring' : KeyRing) (v : EncryptedValue)
      → encrypt_value a plaintext ring context nonce ≡ pure v
      → read_key ring' ring.current_key_id ≡ read_key ring ring.current_key_id
      → decrypt_value a v ring' context ≡ pure plaintext
  unfolding encrypt_value decrypt_value
  decrypt-encrypt plaintext context nonce ring ring' v e kept =
      let (key, k, h) = bind-eq-pure (read_key ring ring.current_key_id) _ e in
      let sealed = a.aes_encrypt key nonce (a.utf8 plaintext) (a.utf8 context) in
      let parts : split b'.' (codes "v1" ++ b'.' ∷ (encode a nonce ++ b'.' ∷ encode a sealed))
          ≡ codes "v1" ∷ encode a nonce ∷ encode a sealed ∷ [] =
        split-append b'.' (codes "v1") _ (omega arith)
        ∙ ap (◌∷◌ (codes "v1")) (
            split-append b'.' (encode a nonce) _ (encode-Free nonce)
            ∙ ap (◌∷◌ (encode a nonce)) (split-Free b'.' (encode a sealed) (encode-Free sealed))) in
      subst (λ x. decrypt_value a x ring' context ≡ pure plaintext) (pure-injective h)
        (rw (
          parts,
          text_eq_refl (codes "v1"),
          kept,
          k,
          decode-encode_lem nonce,
          decode-encode_lem sealed,
          l.opens key nonce (a.utf8 plaintext) (a.utf8 context),
          l.decodes plaintext,
        ))
