-- ===== src/Registration/Tables.antt =====
-- src/new_mud/apps/identity/models.py: verified contacts, beside the tables of sessions and of mail.
use new_mud_codex.Shared.{ℕ, List, Bool, true, false}
use new_mud_codex.Shared.Text.{Text}
use new_mud_codex.Sessions.Tables.{Db}
use new_mud_codex.Delivery.Tables.{Mail, Channel}

pub data ContactState : Type 0 where
  active unreachable revoked : ContactState

-- `VerifiedContactMethod`
pub record Contact : Type 0 where
  pub contact_method_id : ℕ
  pub user_id : ℕ
  pub channel : Channel
  pub state : ContactState
  pub destination_ciphertext : Text
  pub encryption_key_id : Text
  pub lookup_digest : Text
  pub lookup_key_id : Text
  pub verified_at : ℕ
  pub version : ℕ

-- The audit event of a password reset, with the notification that names it.
pub record ResetNotice : Type 0 where
  pub user_id : ℕ
  pub contact_method_id : ℕ
  pub revoked_session_count : ℕ
  pub next_attempt_at : ℕ

pub record Realm : Type 0 where
  pub db : Db
  pub mail : Mail
  pub contacts : List Contact
  pub notifications : List ResetNotice

-- `state__in=(ACTIVE, UNREACHABLE)`
abbrev pub is_usable : ContactState → Bool
is_usable ContactState.active = true
is_usable unreachable = true
is_usable revoked = false

abbrev pub is_email : Channel → Bool
is_email Channel.email = true
is_email Channel.sms = false
