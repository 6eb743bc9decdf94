-- ===== src/Contacts.antt =====
-- src/new_mud/apps/identity/verification.py and verification_crypto.py: e-mail addresses, and the
-- digests under which an address is looked up.
pub mod Normal
pub mod Ring
use new_mud_codex.Shared.{
  ℕ, Bool, true, false, not, ◌&&◌, ◌||◌, Option, none, some, List, [], ◌∷◌, ◌++◌, leb, ltb, ◌==◌,
  ℕ_equality, if◌then◌else◌, length, all, map,
}
use new_mud_codex.Shared.Text.{Text, codes, Text_equality, split}
use new_mud_codex.Errors.{
  Result, pure, raise, ◌>>=◌, ◌>>◌, raise_if, or_raise, contact_invalid, key_unavailable,
}
use new_mud_codex.Sessions.Request.{Value, text, not_text, is_alnum}

-- `str.strip`, `str.lower` and `str.casefold`; `idna.encode(…, uts46=True, std3_rules=True)` decoded as
-- ASCII, none where it raises; and `hmac.new(key, message, sha256).hexdigest()`.
pub record Unicode : Type 0 where
  pub strip : Text → Text
  pub lower : Text → Text
  pub casefold : Text → Text
  pub idna_encode : Text → Option Text
  pub hmac_sha256_hexdigest : Text → Text → Text

pub record NormalizedEmail : Type 0 where
  pub delivery : Text
  pub comparison : Text

-- `[A-Za-z0-9!#$%&'*+/=?^_`{|}~-]`
unfoldable pub is_local_char : ℕ → Bool
is_local_char c =
    is_alnum c
    || (c == b'!'
        || c == b'#'
        || c == b'$'
        || c == b'%'
        || c == b'&'
        || c == b'\''
        || c == b'*'
        || c == b'+'
        || c == b'/'
        || c == b'='
        || c == b'?'
        || c == b'^'
        || c == b'_'
        || c == b'`'
        || c == b'{'
        || c == b'|'
        || c == b'}'
        || c == b'~'
        || c == b'-')

-- a part between dots: one or more of these characters
abbrev pub is_atom : Text → Bool
is_atom t = not (t == []) && all is_local_char t

-- `EMAIL_LOCAL_PATTERN.fullmatch`
unfoldable pub is_local_part : Text → Bool
is_local_part t = all is_atom (split b'.' t)

abbrev pub has_char : ℕ → Text → Bool
has_char c [] = false
has_char c (x ∷ xs) = x == c || has_char c xs

module _ (u : Unicode) where
  abbrev pub with_domain : Text → Text → Result NormalizedEmail
  with_domain local_part domain = do
    raise_if (not (has_char b'.' domain) || ltb 253 (length domain)) contact_invalid
    let delivery = local_part ++ b'@' ∷ domain
    raise_if (ltb 254 (length delivery)) contact_invalid
    pure (record { delivery = delivery; comparison = u.casefold delivery })

  abbrev pub parts : List Text → Result NormalizedEmail
  parts (local_part ∷ raw_domain ∷ []) = do
    raise_if (not (is_local_part local_part) || ltb 64 (length local_part)) contact_invalid
    encoded ← or_raise (u.idna_encode raw_domain) contact_invalid
    with_domain local_part (u.lower encoded)
  parts _ = raise contact_invalid

  -- With one `@`, `rsplit("@", 1)` is the split at it.
  unfoldable pub normalize_email : Value → Result NormalizedEmail
  normalize_email not_text = raise contact_invalid
  normalize_email (text destination) =
      if destination == u.strip destination
      then parts (split b'@' destination)
      else raise contact_invalid

-- `KeyRing`: the current key and all keys, sorted by identity.
pub record KeyRing : Type 0 where
  pub current_key_id : Text
  pub keys : List (Text × Text)

pub record DigestedValue : Type 0 where
  pub digest : Text
  pub key_id : Text

abbrev lookup : Text → List (Text × Text) → Option Text
lookup k [] = none
lookup k ((j, v) ∷ rest) = if j == k then some v else lookup k rest

unfoldable pub read_key : KeyRing → Text → Result Text
read_key ring key_id = or_raise (lookup key_id ring.keys) key_unavailable

-- `current_key`; `KeyRing.__init__` has checked that the ring has it.
abbrev pub current_key : KeyRing → Text
current_key ring = elim (lookup ring.current_key_id ring.keys) [ none ↦ [] | some key ↦ key ]

-- `key_id or keyring.current_key_id`
abbrev pub selected_key_id : KeyRing → Text → Text
selected_key_id ring key_id = if key_id == [] then ring.current_key_id else key_id

module _ (u : Unicode) where
  -- `f"v1\x1f{context}\x1f{value}"`
  abbrev pub payload : Text → Text → Text
  payload context value = codes "v1" ++ 31 ∷ (context ++ 31 ∷ value)

  -- the digest under a key and its identity
  abbrev pub digest_under : Text → Text → Text → Text → DigestedValue
  digest_under value context key_id key = record {
    digest = u.hmac_sha256_hexdigest key (payload context value);
    key_id = key_id;
  }

  unfoldable pub keyed_digest : Text → KeyRing → Text → Text → Result DigestedValue
  keyed_digest value ring context key_id = do
    key ← read_key ring (selected_key_id ring key_id)
    pure (digest_under value context (selected_key_id ring key_id) key)

  abbrev pub candidate : Text → KeyRing → Text → Text × Text → DigestedValue
  candidate value ring context (key_id, key) =
      digest_under value context (selected_key_id ring key_id)
        (if key_id == [] then current_key ring else key)

  -- one digest for each key of the ring
  unfoldable pub keyed_digest_candidates : Text → KeyRing → Text → List DigestedValue
  keyed_digest_candidates value ring context = map (candidate value ring context) ring.keys

  -- `email_contact_scope(…).lookup_digests`
  unfoldable pub lookup_digests : NormalizedEmail → KeyRing → List Text
  lookup_digests email ring =
      map (λ d. d.digest) (keyed_digest_candidates email.comparison ring (codes "contact:email"))
