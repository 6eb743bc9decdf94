-- ===== src/Sessions/Tables.antt =====
-- src/new_mud/apps/identity/models.py: the tables of accounts, sessions and refresh tokens. An
-- identifier is a number; a time is in microseconds since the epoch.
use new_mud_codex.Shared.{ℕ, Bool, true, false, ◌&&◌, Option, List, ◌==◌, ℕ_equality}
use new_mud_codex.Shared.Text.{Text}
use new_mud_codex.Errors.{RefreshCode}
use new_mud_codex.Tokens.{Dict}

pub data Lifecycle : Type 0 where
  active cooling_off retired : Lifecycle

pub data SessionState : Type 0 where
  active revoked expired logged_out : SessionState

pub data FamilyState : Type 0 where
  active revoked expired : FamilyState

pub data CredentialState : Type 0 where
  active used revoked expired : CredentialState

pub data TerminalKind : Type 0 where
  succeeded failed : TerminalKind

-- the `reason` arguments of services.py
pub data Reason : Type 0 where
  session_revoked refresh_token_replayed logout password_reset : Reason

pub record User : Type 0 where
  pub user_id : ℕ
  pub username : Text
  pub password : Text
  pub is_active : Bool

pub record GameAccount : Type 0 where
  pub game_account_id : ℕ
  pub user_id : ℕ
  pub instance_id : Text
  pub lifecycle : Lifecycle
  pub lifecycle_version : ℕ

pub record AuthSession : Type 0 where
  pub auth_session_id : ℕ
  pub user_id : ℕ
  pub game_account_id : ℕ
  pub device_id : Text
  pub refresh_family : Option ℕ
  pub state : SessionState
  pub issued_at : ℕ
  pub last_seen_at : ℕ
  pub absolute_expires_at : ℕ
  pub revoked_at : Option ℕ
  pub revoke_reason : Option Reason
  pub version : ℕ

pub record Family : Type 0 where
  pub family_id : ℕ
  pub auth_session_id : ℕ
  pub state : FamilyState
  pub current_generation : ℕ
  pub absolute_expires_at : ℕ
  pub revoked_at : Option ℕ
  pub revoke_reason : Option Reason
  pub version : ℕ

pub record Credential : Type 0 where
  pub credential_id : ℕ
  pub family_id : ℕ
  pub generation : ℕ
  pub token_hash : Text
  pub jti_hash : Text
  pub state : CredentialState
  pub issued_at : ℕ
  pub used_at : Option ℕ
  pub expires_at : ℕ
  pub replaced_by : Option ℕ
  pub version : ℕ

-- `access_claims` is `{}`, the empty list, in a failed record
pub record Terminal : Type 0 where
  pub family_id : ℕ
  pub idempotency_key : Text
  pub request_hash : Text
  pub predecessor : ℕ
  pub successor : Option ℕ
  pub access_claims : Dict
  pub kind : TerminalKind
  pub error_code : Option RefreshCode
  pub created_at : ℕ
  pub expires_at : ℕ

pub data AuditType : Type 0 where
  login_succeeded refresh_succeeded refresh_replayed logout_converged : AuditType

-- `metadata_json`, by its only key
pub data Metadata : Type 0 where
  empty : Metadata
  generation family_id : ℕ → Metadata
  server_session_revoked : Bool → Metadata

pub record AuditEvent : Type 0 where
  pub event_type : AuditType
  pub user_id : ℕ
  pub auth_session_id : ℕ
  pub reason_code : Option Reason
  pub metadata : Metadata

-- `notices` are the calls of `notify_auth_session_invalidated` that `on_commit` has made
pub record Db : Type 0 where
  pub users : List User
  pub accounts : List GameAccount
  pub sessions : List AuthSession
  pub families : List Family
  pub credentials : List Credential
  pub terminals : List Terminal
  pub audits : List AuditEvent
  pub notices : List (ℕ × Reason)

pub record Settings : Type 0 where
  pub content_instance_id : Text
  pub access_token_ttl_seconds : ℕ
  pub refresh_token_ttl_seconds : ℕ
  pub retry_window_seconds : ℕ
  pub cleanup_grace_seconds : ℕ

abbrev pub is_active_session : SessionState → Bool
is_active_session SessionState.active = true
is_active_session _ = false

abbrev pub is_active_family : FamilyState → Bool
is_active_family FamilyState.active = true
is_active_family _ = false

abbrev pub is_active_credential : CredentialState → Bool
is_active_credential CredentialState.active = true
is_active_credential _ = false

abbrev pub is_used_credential : CredentialState → Bool
is_used_credential CredentialState.used = true
is_used_credential _ = false

abbrev pub is_active_lifecycle : Lifecycle → Bool
is_active_lifecycle Lifecycle.active = true
is_active_lifecycle _ = false

-- queries by primary key
abbrev pub session_is : ℕ → AuthSession → Bool
session_is k s = s.auth_session_id == k

abbrev pub family_is : ℕ → Family → Bool
family_is k f = f.family_id == k

abbrev pub credential_is : ℕ → Credential → Bool
credential_is k c = c.credential_id == k

abbrev pub account_is : ℕ → GameAccount → Bool
account_is k a = a.game_account_id == k

abbrev pub user_is : ℕ → User → Bool
user_is k u = u.user_id == k

-- `.filter(family=family, state=ACTIVE)`
abbrev pub active_in : ℕ → Credential → Bool
active_in f c = c.family_id == f && is_active_credential c.state
