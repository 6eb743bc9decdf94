-- ===== src/Sessions/Login.antt =====
-- services.py: `login`.
use new_mud_codex.Shared.{
  seconds_left, seconds, timestamp, ℕ, ◌+◌, ◌-◌, Bool, not, ◌&&◌, ◌||◌, none, some, [], ◌∷◌, ◌++◌,
  ◌==◌, ℕ_equality,
}
use new_mud_codex.Shared.Text.{Text, Text_equality}
use new_mud_codex.Shared.Table.{first}
use new_mud_codex.Errors.{
  Result, pure, raise, ◌>>=◌, ◌>>◌, raise_if, or_raise, authentication_failed,
}
use new_mud_codex.Tokens.{
  Crypto, materialize_refresh_token, refresh_token_hash, encode_access_token,
}
use new_mud_codex.Sessions.Tables.{
  Db, User, GameAccount, AuthSession, SessionState, Family, FamilyState, Credential,
  CredentialState, Settings, AuditType, Metadata, is_active_lifecycle, user_is,
}
use new_mud_codex.Sessions.Converge.{audit}
use new_mud_codex.Sessions.Result.{Authentication, access_claims}
use new_mud_codex.Sessions.Request.{Value, text}

-- What Django supplies: `user.check_password` of the stored hash, and `str.lower`.
pub record Host : Type 0 where
  pub check_password : Text → Text → Bool
  pub lower : Text → Text

-- The values of `uuid.uuid4()`, of `secrets.token_urlsafe` and of the two calls of `timezone.now()`.
pub record LoginSupply : Type 0 where
  pub session_id : ℕ
  pub family_id : ℕ
  pub credential_id : ℕ
  pub jti : ℕ
  pub device_id : Text
  pub now : ℕ
  pub response_at : ℕ

-- `.get(user=user, instance_id=…, lifecycle=ACTIVE)`
abbrev pub account_of : ℕ → Text → GameAccount → Bool
account_of user_id instance_id a =
    a.user_id == user_id && a.instance_id == instance_id && is_active_lifecycle a.lifecycle

-- What the transaction hands to the code after it.
pub record LoggedIn : Type 0 where
  pub user : User
  pub account : GameAccount
  pub token : Text

module _ (c : Crypto) (settings : Settings) (host : Host) where
  abbrev pub expiry : LoginSupply → ℕ
  expiry s = s.now + seconds settings.refresh_token_ttl_seconds

  -- The row after `session.refresh_family = family`.
  abbrev pub new_session : User → GameAccount → LoginSupply → AuthSession
  new_session user account s = record {
    auth_session_id = s.session_id;
    user_id = user.user_id;
    game_account_id = account.game_account_id;
    device_id = s.device_id;
    refresh_family = some s.family_id;
    state = SessionState.active;
    issued_at = s.now;
    last_seen_at = s.now;
    absolute_expires_at = expiry s;
    revoked_at = none;
    revoke_reason = none;
    version = 1;
  }

  abbrev pub new_family : LoginSupply → Family
  new_family s = record {
    family_id = s.family_id;
    auth_session_id = s.session_id;
    state = FamilyState.active;
    current_generation = 1;
    absolute_expires_at = expiry s;
    revoked_at = none;
    revoke_reason = none;
    version = 1;
  }

  abbrev pub new_credential : Text → LoginSupply → Credential
  new_credential token s = record {
    credential_id = s.credential_id;
    family_id = s.family_id;
    generation = 1;
    token_hash = refresh_token_hash c token;
    jti_hash = refresh_token_hash c (c.hex s.credential_id);
    state = CredentialState.active;
    issued_at = s.now;
    used_at = none;
    expires_at = expiry s;
    replaced_by = none;
    version = 1;
  }

  abbrev pub logged_in_db : User → GameAccount → Text → LoginSupply → Db → Db
  logged_in_db user account token s db =
      audit
        (record {
          event_type = AuditType.login_succeeded;
          user_id = user.user_id;
          auth_session_id = s.session_id;
          reason_code = none;
          metadata = Metadata.empty;
        })
        (record db {
          sessions = db.sessions ++ new_session user account s ∷ [];
          families = db.families ++ new_family s ∷ [];
          credentials = db.credentials ++ new_credential token s ∷ [];
        })

  unfoldable pub login_transaction : ℕ → Text → LoginSupply → Db → Result (LoggedIn × Db)
  login_transaction user_id password s db = do
    user ← or_raise (first (user_is user_id) db.users) authentication_failed
    account ←
        or_raise (first (account_of user.user_id settings.content_instance_id) db.accounts)
          authentication_failed
    raise_if (not (host.check_password user.password password) || not user.is_active)
        authentication_failed
    token ← materialize_refresh_token c s.credential_id 1
    pure (
      record { user = user; account = account; token = token },
      logged_in_db user account token s db,
    )

  -- after the commit
  unfoldable pub login_result : LoggedIn → LoginSupply → Result Authentication
  login_result i s = do
    let session = new_session i.user i.account s
    access_token ← encode_access_token c (access_claims c settings session s.now s.jti)
    pure (record {
      access_token = access_token;
      refresh_token = i.token;
      expires_in = timestamp s.now + settings.access_token_ttl_seconds - timestamp s.response_at;
      refresh_max_age = seconds_left (expiry s) s.response_at;
      auth_session_id = s.session_id;
      game_account_id = i.account.game_account_id;
    })

  -- The user is located in the state `seen` before the transaction.
  unfoldable pub login_body : Value → Value → LoginSupply → Db → Db → Result (LoggedIn × Db)
  login_body (text username) (text password) s seen db = do
    located ←
        or_raise (first (λ u. u.username == host.lower username) seen.users) authentication_failed
    login_transaction located.user_id password s db
  login_body _ _ s seen db = raise authentication_failed

  abbrev pub commit_login : Result (LoggedIn × Db) → LoginSupply → Db → Result Authentication × Db
  commit_login (pure (i, db')) s db = (login_result i s, db')
  commit_login (raise e) s db = (raise e, db)

  unfoldable pub login : Value → Value → LoginSupply → Db → Db → Result Authentication × Db
  login username password s seen db = commit_login (login_body username password s seen db) s db
