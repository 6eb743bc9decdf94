-- ===== src/Delivery/Tables.antt =====
-- src/new_mud/apps/identity/models.py: verification challenges and the outbox of their e-mails.
use new_mud_codex.Shared.{ℕ, Bool, true, false, Option, List, ◌==◌, ℕ_equality}
use new_mud_codex.Shared.Text.{Text}

pub data Purpose : Type 0 where
  registration password_reset : Purpose

pub data Channel : Type 0 where
  email sms : Channel

pub data ChallengeState : Type 0 where
  pending_delivery active consumed superseded expired locked delivery_failed : ChallengeState

pub data OutboxState : Type 0 where
  pending leased delivered delivery_failed : OutboxState

pub record Challenge : Type 0 where
  pub challenge_id : ℕ
  pub purpose : Purpose
  pub channel : Channel
  pub destination_lookup_digest : Text
  pub destination_lookup_key_id : Text
  pub user : Option ℕ
  pub code_digest : Text
  pub pepper_key_id : Text
  pub state : ChallengeState
  pub attempt_count : ℕ
  pub issued_at : ℕ
  pub activated_at : Option ℕ
  pub expires_at : Option ℕ
  pub consumed_at : Option ℕ
  pub superseded_at : Option ℕ
  pub terminal_at : Option ℕ
  pub version : ℕ

pub record Outbox : Type 0 where
  pub outbox_id : ℕ
  pub challenge_id : ℕ
  pub template_key : Text
  pub payload_ciphertext : Option Text
  pub payload_key_id : Text
  pub state : OutboxState
  pub attempt_count : ℕ
  pub lease_owner : Option Text
  pub lease_expires_at : Option ℕ
  pub next_attempt_at : ℕ
  pub provider_category : Option Text
  pub created_at : ℕ
  pub delivered_at : Option ℕ
  pub terminal_at : Option ℕ
  pub version : ℕ

-- The two tables.
pub record Mail : Type 0 where
  pub challenges : List Challenge
  pub outboxes : List Outbox

abbrev pub same_purpose : Purpose → Purpose → Bool
same_purpose registration registration = true
same_purpose password_reset password_reset = true
same_purpose _ _ = false

abbrev pub same_channel : Channel → Channel → Bool
same_channel email email = true
same_channel sms sms = true
same_channel _ _ = false

abbrev pub is_active_challenge : ChallengeState → Bool
is_active_challenge ChallengeState.active = true
is_active_challenge _ = false

abbrev pub is_pending_challenge : ChallengeState → Bool
is_pending_challenge pending_delivery = true
is_pending_challenge _ = false

abbrev pub is_pending : OutboxState → Bool
is_pending pending = true
is_pending _ = false

abbrev pub is_leased : OutboxState → Bool
is_leased leased = true
is_leased _ = false

abbrev pub challenge_is : ℕ → Challenge → Bool
challenge_is k r = r.challenge_id == k

abbrev pub outbox_is : ℕ → Outbox → Bool
outbox_is k r = r.outbox_id == k
