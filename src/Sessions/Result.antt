-- ===== src/Sessions/Result.antt =====
-- services.py: `_access_claims`, `_authentication_result` and the lifetime of a terminal record.
use new_mud_codex.Shared.{
  seconds_left, seconds, timestamp, ℕ, ◌+◌, ◌-◌, not, Option, none, some, [], ◌∷◌, max, ◌==◌,
}
use new_mud_codex.Shared.Text.{Text, Text_equality, codes}
use new_mud_codex.Errors.{
  Result, pure, ◌>>=◌, ◌>>◌, raise_if, or_raise, refresh_failed, refresh_unavailable,
}
use new_mud_codex.Tokens.{
  Crypto, Dict, Scalar, str, int, get, encode_access_token, materialize_refresh_token,
  refresh_token_hash, str_of,
}
use new_mud_codex.Sessions.Tables.{AuthSession, Credential, Family, Settings}

pub record Authentication : Type 0 where
  pub access_token : Text
  pub refresh_token : Text
  pub expires_in : ℕ
  pub refresh_max_age : ℕ
  pub auth_session_id : ℕ
  pub game_account_id : ℕ

module _ (c : Crypto) (settings : Settings) where
  -- `jti` is the value of `uuid.uuid4()`.
  unfoldable pub access_claims : AuthSession → ℕ → ℕ → Dict
  access_claims session issued_at jti =
      (codes "aud", str (codes "new-mud-h5"))
      ∷ (codes "sub", str (c.str_of_int session.user_id))
      ∷ (codes "auth_session_id", str (c.str_of_uuid session.auth_session_id))
      ∷ (codes "game_account_id", str (c.str_of_uuid session.game_account_id))
      ∷ (codes "iat", int (timestamp issued_at))
      ∷ (codes "exp", int (timestamp issued_at + settings.access_token_ttl_seconds))
      ∷ (codes "jti", str (c.hex jti))
      ∷ []

  unfoldable pub refresh_terminal_expires_at : Family → ℕ → ℕ
  refresh_terminal_expires_at family created_at =
      max (created_at + seconds settings.retry_window_seconds)
        (family.absolute_expires_at + seconds settings.cleanup_grace_seconds)

module _ (c : Crypto) where
  -- `int(str(claims["exp"]))`
  abbrev pub int_of : Option Scalar → Option ℕ
  int_of none = none
  int_of (some v) = c.int_of_str (str_of c v)

  -- the part of `_authentication_result` that no clock enters: the refresh token, the expiry of the
  -- claims and the access token
  unfoldable pub authentication_parts : Credential → Dict → Result (Text × ℕ × Text)
  authentication_parts credential claims = do
    token ← materialize_refresh_token c credential.credential_id credential.generation
    raise_if (not (refresh_token_hash c token == credential.token_hash))
        (refresh_failed refresh_unavailable)
    access_expires_at ←
        or_raise (int_of (get (codes "exp") claims)) (refresh_failed refresh_unavailable)
    access_token ← encode_access_token c claims
    pure (token, access_expires_at, access_token)

  abbrev pub as_result : AuthSession → Credential → ℕ → ℕ → Text × ℕ × Text → Authentication
  as_result session credential now then_now parts = record {
    access_token = parts.2;
    refresh_token = parts.0;
    expires_in = parts.1 - timestamp now;
    refresh_max_age = seconds_left credential.expires_at then_now;
    auth_session_id = session.auth_session_id;
    game_account_id = session.game_account_id;
  }

  -- The two moments are those of the two calls of `timezone.now()`.
  unfoldable pub authentication_result :
      AuthSession → Credential → Dict → ℕ → ℕ → Result Authentication
  authentication_result session credential claims now then_now = do
    parts ← authentication_parts credential claims
    pure (as_result session credential now then_now parts)
