-- ===== src/Sessions/Request.antt =====
-- services.py, `refresh`: the checks of the request and the rows that its transaction locks.
use new_mud_codex.Shared.{
  ℕ, Bool, false, ◌&&◌, ◌||◌, [], ◌∷◌, leb, ◌==◌, if◌then◌else◌, length, all, ℕ_equality,
}
use new_mud_codex.Shared.Text.{Text, Text_equality}
use new_mud_codex.Shared.Table.{first}
use new_mud_codex.Errors.{
  Result, pure, raise, ◌>>=◌, or_raise, refresh_failed, does_not_exist, RefreshCode,
  refresh_unavailable, idempotency_key_invalid,
}
use new_mud_codex.Tokens.{Dict}
use new_mud_codex.Sessions.Tables.{
  Db, GameAccount, AuthSession, Family, Credential, Terminal, session_is, family_is, credential_is,
  account_is,
}
use new_mud_codex.Sessions.Result.{Authentication}

-- a parameter annotated `object`
pub data Value : Type 0 where
  text : Text → Value
  not_text : Value

abbrev pub is_alnum : ℕ → Bool
is_alnum c = (leb b'A' c && leb c b'Z') || (leb b'a' c && leb c b'z') || (leb b'0' c && leb c b'9')

abbrev is_key_char : ℕ → Bool
is_key_char c = is_alnum c || c == b'.' || c == b'_' || c == b':' || c == b'-'

-- `IDEMPOTENCY_KEY_PATTERN.fullmatch`
unfoldable pub is_idempotency_key : Text → Bool
is_idempotency_key [] = false
is_idempotency_key (c ∷ rest) = is_alnum c && all is_key_char rest && leb (length rest) 127

-- The values that the environment supplies to one call: `uuid.uuid4()` for the successor and for
-- `jti`, and `timezone.now()` in the transaction and in `_authentication_result`.
pub record Supply : Type 0 where
  pub successor_id : ℕ
  pub jti : ℕ
  pub now : ℕ
  pub result_now : ℕ
  pub result_then : ℕ

-- The rows that the transaction reads under lock.
pub record Locked : Type 0 where
  pub account : GameAccount
  pub session : AuthSession
  pub family : Family
  pub credential : Credential

-- How the transaction ends: `return` in it, or one of the two local results after its commit.
pub data Ending : Type 0 where
  returned : Authentication → Ending
  rotated : AuthSession → Credential → Dict → Ending
  terminal_error : RefreshCode → Ending

unfoldable pub check_key : Value → Result Text
check_key not_text = raise (refresh_failed idempotency_key_invalid)
check_key (text key) =
    if is_idempotency_key key then pure key else raise (refresh_failed idempotency_key_invalid)

unfoldable pub check_token : Value → Result Text
check_token not_text = raise (refresh_failed refresh_unavailable)
check_token (text token) = pure token

-- The locators come from the state `seen` before the transaction, the rows from the locked one.
unfoldable pub lock_rows : Credential → Db → Db → Result Locked
lock_rows locator seen db = do
  family_locator ←
      or_raise (first (family_is locator.family_id) db.families)
        (refresh_failed refresh_unavailable)
  session_locator ←
      or_raise (first (session_is family_locator.auth_session_id) seen.sessions)
        (refresh_failed refresh_unavailable)
  account ← or_raise (first (account_is session_locator.game_account_id) db.accounts) does_not_exist
  session ← or_raise (first (session_is family_locator.auth_session_id) db.sessions) does_not_exist
  family ← or_raise (first (family_is locator.family_id) db.families) does_not_exist
  credential ← or_raise (first (credential_is locator.credential_id) db.credentials) does_not_exist
  pure (record { account = account; session = session; family = family; credential = credential })

abbrev pub terminal_is : ℕ → Text → Terminal → Bool
terminal_is family_id key t = t.family_id == family_id && t.idempotency_key == key

abbrev pub locator_is : ℕ → ℕ → Text → Credential → Bool
locator_is credential_id generation hash r =
    r.credential_id == credential_id && r.generation == generation && r.token_hash == hash
