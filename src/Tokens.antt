-- ===== src/Tokens.antt =====
-- src/new_mud/apps/identity/tokens.py: signed access tokens and derived refresh tokens.
pub mod Laws
pub mod Refresh
pub mod Access
use new_mud_codex.Shared.{
  ℕ, ◌-◌, ◌%◌, Bool, false, not, ◌||◌, Option, none, some, List, [], ◌∷◌, ◌++◌, ltb, leb, ◌==◌,
  length, replicate, if◌then◌else◌,
}
use new_mud_codex.Shared.Text.{Text, codes, Text_equality, split, rstrip}
use new_mud_codex.Errors.{Result, pure, raise, runtime_error, ◌>>=◌}

-- A value in a decoded JSON object: a nested value, a float and `null` are `other`.
pub data Scalar : Type 0 where
  str : Text → Scalar
  int : ℕ → Scalar
  negative : ℕ → Scalar
  bool : Bool → Scalar
  other : Scalar

abbrev pub Dict : Type 0
Dict = List (Text × Scalar)

pub data Json : Type 0 where
  object : Dict → Json
  not_object : Json

-- `d.get(key)`
unfoldable pub get : Text → Dict → Option Scalar
get k [] = none
get k ((j, v) ∷ d) = if j == k then some v else get k d

-- `AccessTokenDecodeResult`
pub data DecodeResult : Type 0 where
  valid expired : Dict → DecodeResult
  invalid : DecodeResult

-- `d.get(key) == text`
abbrev is_str : Option Scalar → Text → Bool
is_str (some (str s)) t = s == t
is_str _ t = false

-- `isinstance(exp, int)` holds of a Boolean too, which counts as 0 or 1
abbrev by_expiry : Option Scalar → Dict → ℕ → DecodeResult
by_expiry (some (int n)) claims now = if leb n now then expired claims else valid claims
by_expiry (some (negative n)) claims now = expired claims
by_expiry (some (bool b)) claims now =
    if leb (if b then 1 else 0) now then expired claims else valid claims
by_expiry _ claims now = invalid

abbrev if_matching : Text → Text → ℕ × ℕ → Option (ℕ × ℕ)
if_matching expected token parsed = if expected == token then some parsed else none

abbrev pub header : Dict
header = (codes "alg", str (codes "HS256")) ∷ (codes "typ", str (codes "JWT")) ∷ []

-- `encoded + "=" * (-len(encoded) % 4)`
unfoldable pub padded : Text → Text
padded encoded = encoded ++ replicate ((4 - length encoded % 4) % 4) b'='

-- the tests on the two decoded parts, and on the clock in whole seconds
unfoldable pub judge : Json → Json → ℕ → DecodeResult
judge (object h) (object claims) now =
    if not (is_str (get (codes "alg") h) (codes "HS256"))
      || not (is_str (get (codes "typ") h) (codes "JWT"))
      || not (is_str (get (codes "aud") claims) (codes "new-mud-h5"))
    then invalid
    else by_expiry (get (codes "exp") claims) claims now
judge _ _ now = invalid

abbrev judge_parts : Option Json → Option Json → ℕ → DecodeResult
judge_parts (some h) (some claims) now = judge h claims now
judge_parts _ _ now = invalid

abbrev valid_claims : DecodeResult → Option Dict
valid_claims (valid claims) = some claims
valid_claims _ = none

-- hashlib, hmac, base64, json, uuid, `str` and `int`. The signing key is
-- `settings.AUTH_TOKEN_SIGNING_KEY`, and is empty where it is not configured.
pub record Crypto : Type 0 where
  pub root_key : Text
  pub sha256_hexdigest : Text → Text
  pub hmac_sha256 : Text → Text → Text
  pub urlsafe_b64encode : Text → Text
  -- none: `ValueError`
  pub urlsafe_b64decode : Text → Option Text
  pub dumps : Dict → Text
  pub loads : Text → Option Json
  -- the 32 digits of a UUID, and `uuid.UUID` of a text; none: `ValueError`
  pub hex : ℕ → Text
  pub uuid_of_hex : Text → Option ℕ
  -- `str` of a UUID
  pub str_of_uuid : ℕ → Text
  pub str_of_int : ℕ → Text
  -- none: `ValueError`; a negative number is read as 0, which every caller treats alike
  pub int_of_str : Text → Option ℕ
  -- `str` of a value that is no string
  pub str_of_other : Scalar → Text

module _ (c : Crypto) where
  open c use {
    root_key, hmac_sha256, urlsafe_b64encode, urlsafe_b64decode, dumps, loads, hex, uuid_of_hex,
    str_of_int, int_of_str, sha256_hexdigest,
  }

  -- `_base64url`
  unfoldable pub base64url : Text → Text
  base64url value = rstrip b'=' (urlsafe_b64encode value)

  -- `_signing_key`
  unfoldable pub signing_key : Text → Result Text
  signing_key purpose =
      if root_key == []
      then raise runtime_error
      else pure (hmac_sha256 root_key (codes "new-mud:" ++ purpose ++ codes ":v1"))

  unfoldable pub sign : Text → Text → Text
  sign key message = base64url (hmac_sha256 key message)

  abbrev pub signing_input : Dict → Text
  signing_input claims = base64url (dumps header) ++ b'.' ∷ base64url (dumps claims)

  unfoldable pub encode_access_token : Dict → Result Text
  encode_access_token claims = do
    key ← signing_key (codes "access")
    pure (signing_input claims ++ b'.' ∷ sign key (signing_input claims))

  abbrev load_text : Option Text → Option Json
  load_text none = none
  load_text (some t) = loads t

  -- `json.loads(base64.urlsafe_b64decode(...))`; none: an exception that the decoder catches
  abbrev decode_json : Text → Option Json
  decode_json encoded = load_text (urlsafe_b64decode (padded encoded))

  abbrev decode_parts : List Text → ℕ → Result DecodeResult
  decode_parts (encoded_header ∷ encoded_claims ∷ provided_signature ∷ []) now = do
    key ← signing_key (codes "access")
    pure (
        if provided_signature == sign key (encoded_header ++ b'.' ∷ encoded_claims)
        then judge_parts (decode_json encoded_header) (decode_json encoded_claims) now
        else invalid)
  decode_parts _ now = pure invalid

  unfoldable pub decode_access_token_result : Text → ℕ → Result DecodeResult
  decode_access_token_result token now = decode_parts (split b'.' token) now

  unfoldable pub decode_access_token : Text → ℕ → Result (Option Dict)
  decode_access_token token now = do
    result ← decode_access_token_result token now
    pure (valid_claims result)

  unfoldable pub materialize_refresh_token : ℕ → ℕ → Result Text
  materialize_refresh_token credential_id generation = do
    key ← signing_key (codes "refresh")
    let identity = hex credential_id ++ b':' ∷ str_of_int generation
    pure (
        codes "r1"
        ++ b'.' ∷ (hex credential_id ++ b'.' ∷ (str_of_int generation ++ b'.' ∷ sign key identity)))

  unfoldable pub refresh_token_hash : Text → Text
  refresh_token_hash token = sha256_hexdigest token

  abbrev parse_numbers : Option ℕ → Option ℕ → Text → Result (Option (ℕ × ℕ))
  parse_numbers (some credential_id) (some generation) token =
      if ltb generation 1 then pure none else (do
        expected ← materialize_refresh_token credential_id generation
        pure (if_matching expected token (credential_id, generation)))
  parse_numbers _ _ token = pure none

  abbrev parse_parts : List Text → Text → Result (Option (ℕ × ℕ))
  parse_parts (version ∷ raw_id ∷ raw_generation ∷ _ ∷ []) token =
      if version == codes "r1"
      then parse_numbers (uuid_of_hex raw_id) (int_of_str raw_generation) token
      else pure none
  parse_parts _ token = pure none

  unfoldable pub parse_refresh_token : Text → Result (Option (ℕ × ℕ))
  parse_refresh_token token = parse_parts (split b'.' token) token

  -- `str(value)`
  abbrev pub str_of : Scalar → Text
  str_of (str t) = t
  str_of (int n) = str_of_int n
  str_of v = c.str_of_other v
