-- ===== src/Sealed.antt =====
-- src/new_mud/apps/identity/verification_crypto.py: values encrypted under a key of a ring.
pub mod Decrypt
use new_mud_codex.Shared.{
  ℕ, ◌≡◌, refl, ◌∙◌, ap, List, [], ◌∷◌, ◌++◌, Option, some, none, ◌==◌, if◌then◌else◌,
}
use new_mud_codex.Shared.Text.{
  Text, codes, Text_equality, text_eq, split, rstrip, Free, split-append, split-Free,
}
use new_mud_codex.Errors.{Result, pure, raise, ◌>>=◌, or_raise, ciphertext_invalid}
use new_mud_codex.Tokens.{padded}
use new_mud_codex.Contacts.{KeyRing, read_key}

-- `AESGCM(key).encrypt` and `.decrypt`, none for `InvalidTag`; UTF-8; and base64 with `-_`.
pub record Aead : Type 0 where
  pub aes_encrypt : (key nonce plaintext context : Text) → Text
  pub aes_decrypt : (key nonce ciphertext context : Text) → Option Text
  pub utf8 : Text → Text
  pub utf8_decode : Text → Option Text
  pub b64encode : Text → Text
  pub b64decode : Text → Option Text

pub record EncryptedValue : Type 0 where
  pub ciphertext : Text
  pub key_id : Text

module _ (a : Aead) where
  -- `_encode`
  abbrev pub encode : Text → Text
  encode value = rstrip b'=' (a.b64encode value)

  -- `_decode`
  abbrev pub decode : Text → Result Text
  decode value = or_raise (a.b64decode (padded value)) ciphertext_invalid

  unfoldable pub encrypt_value : Text → KeyRing → Text → Text → Result EncryptedValue
  encrypt_value plaintext ring context nonce = do
    key ← read_key ring ring.current_key_id
    pure (record {
      ciphertext =
          codes "v1"
          ++ b'.'
            ∷ (encode nonce
                ++ b'.' ∷ encode (a.aes_encrypt key nonce (a.utf8 plaintext) (a.utf8 context)));
      key_id = ring.current_key_id;
    })

  abbrev decrypt_parts : List Text → Text → KeyRing → Text → Result Text
  decrypt_parts (version ∷ encoded_nonce ∷ encoded_ciphertext ∷ []) key_id ring context =
      if version == codes "v1"
      then (do
        key ← read_key ring key_id
        nonce ← decode encoded_nonce
        ciphertext ← decode encoded_ciphertext
        plaintext ←
            or_raise (a.aes_decrypt key nonce ciphertext (a.utf8 context)) ciphertext_invalid
        or_raise (a.utf8_decode plaintext) ciphertext_invalid)
      else raise ciphertext_invalid
  decrypt_parts _ key_id ring context = raise ciphertext_invalid

  unfoldable pub decrypt_value : EncryptedValue → KeyRing → Text → Result Text
  decrypt_value value ring context =
      decrypt_parts (split b'.' value.ciphertext) value.key_id ring context
