-- ===== src/Provider.antt =====
-- src/new_mud/apps/identity/authentication_baseline_operations.py: the heartbeats of the two mail
-- workers and the circuit breaker before the mail provider.
pub mod Fencing
pub mod Recovery
use new_mud_codex.Shared.{
  ℕ, ◌+◌, Bool, true, false, not, ◌&&◌, ◌||◌, Option, none, some, leb, nat_eq, holds, ℕ_equality,
  if◌then◌else◌, seconds, is_some,
}
use new_mud_codex.Errors.{
  Result, pure, raise, ◌>>=◌, or_raise, raise_if, ◌>>◌, verification_service_unavailable,
  does_not_exist,
}

pub data WorkerRole : Type 0 where
  verification_delivery security_notification : WorkerRole

pub data ProviderOutcome : Type 0 where
  success transient_failure message_transient_failure permanent_failure : ProviderOutcome

pub data ProviderState : Type 0 where
  closed open_circuit probing : ProviderState

-- The single row of `AuthenticationBaselineRuntimeState`.
pub record RuntimeState : Type 0 where
  pub verification_delivery_heartbeat_at : Option ℕ
  pub security_notification_heartbeat_at : Option ℕ
  pub provider_state : ProviderState
  pub provider_retry_at : Option ℕ
  pub provider_probe_token : Option ℕ
  pub provider_probe_expires_at : Option ℕ
  pub provider_version : ℕ

-- The row, or `None` before the first poll.
abbrev pub Runtime : Type 0
Runtime = Option RuntimeState

pub record ProbePermit : Type 0 where
  pub version : ℕ
  pub token : ℕ

-- `require_authentication_baseline_configured`, and the durations it has checked
pub record ProviderSettings : Type 0 where
  pub configured : Bool
  pub allow_test_email_backend : Bool
  pub heartbeat_max_age_seconds : ℕ
  pub provider_retry_seconds : ℕ
  pub provider_probe_lease_seconds : ℕ

abbrev pub is_closed : ProviderState → Bool
is_closed closed = true
is_closed _ = false

abbrev pub is_open : ProviderState → Bool
is_open open_circuit = true
is_open _ = false

abbrev pub is_probing : ProviderState → Bool
is_probing probing = true
is_probing _ = false

-- `moment is not None and moment <= now`
abbrev pub is_past : Option ℕ → ℕ → Bool
is_past none now = false
is_past (some t) now = leb t now

abbrev pub heartbeat : WorkerRole → ℕ → RuntimeState → RuntimeState
heartbeat verification_delivery now s = record s { verification_delivery_heartbeat_at = some now }
heartbeat security_notification now s = record s { security_notification_heartbeat_at = some now }

abbrev pub close_provider : RuntimeState → RuntimeState
close_provider s = record s {
  provider_state = closed;
  provider_retry_at = none;
  provider_probe_token = none;
  provider_probe_expires_at = none;
  provider_version = s.provider_version + 1;
}

abbrev pub open_provider : ℕ → RuntimeState → RuntimeState
open_provider retry_at s = record s {
  provider_state = open_circuit;
  provider_retry_at = some retry_at;
  provider_probe_token = none;
  provider_probe_expires_at = none;
  provider_version = s.provider_version + 1;
}

abbrev pub start_probe : ℕ → ℕ → RuntimeState → RuntimeState
start_probe token expires_at s = record s {
  provider_state = probing;
  provider_retry_at = none;
  provider_probe_token = some token;
  provider_probe_expires_at = some expires_at;
  provider_version = s.provider_version + 1;
}

-- `.objects.create(runtime_key="email", …)`
abbrev pub created : ℕ → RuntimeState
created now = record {
  verification_delivery_heartbeat_at = none;
  security_notification_heartbeat_at = none;
  provider_state = open_circuit;
  provider_retry_at = some now;
  provider_probe_token = none;
  provider_probe_expires_at = none;
  provider_version = 1;
}

abbrev pub row_or_created : Runtime → ℕ → RuntimeState
row_or_created none now = created now
row_or_created (some s) now = s

-- How the first transaction of `prepare_worker_poll` ends.
pub data Poll : Type 0 where
  permit : ℕ → Poll
  probe : ProbePermit → Poll
  no_permit : Poll

module _ (settings : ProviderSettings) where
  -- `state is None or state.heartbeat_at is None or state.heartbeat_at <= stale_before or …`
  abbrev pub is_stale_heartbeat : Option ℕ → ℕ → Bool
  is_stale_heartbeat none now = true
  is_stale_heartbeat (some t) now = leb (t + seconds settings.heartbeat_max_age_seconds) now

  abbrev pub operational : Runtime → ℕ → Bool
  operational none now = false
  operational (some s) now =
      not (is_stale_heartbeat s.verification_delivery_heartbeat_at now)
      && not (is_stale_heartbeat s.security_notification_heartbeat_at now)
      && is_closed s.provider_state

  unfoldable pub require_operational : ℕ → Runtime → Result (Unit {0})
  require_operational now row =
      raise_if (not (operational row now)) verification_service_unavailable

  abbrev pub after_test_backend : RuntimeState → RuntimeState
  after_test_backend s =
      if settings.allow_test_email_backend && not (is_closed s.provider_state)
      then close_provider s
      else s

  abbrev pub probe_due : RuntimeState → ℕ → Bool
  probe_due s now =
      (is_open s.provider_state && is_past s.provider_retry_at now)
      || (is_probing s.provider_state && is_past s.provider_probe_expires_at now)

  -- The first transaction, on the row with its heartbeat; `token` is `uuid.uuid4()`.
  unfoldable pub poll_row : ℕ → ℕ → RuntimeState → Poll × RuntimeState
  poll_row now token s =
      if is_closed s.provider_state
      then (permit s.provider_version, s)
      else if probe_due s now
      then (
        probe (record { version = s.provider_version + 1; token = token }),
        start_probe token (now + seconds settings.provider_probe_lease_seconds) s,
      )
      else (no_permit, s)

  unfoldable pub begin_poll : WorkerRole → ℕ → ℕ → Runtime → Poll × RuntimeState
  begin_poll role now token row =
      poll_row now token (after_test_backend (heartbeat role now (row_or_created row now)))

  abbrev pub probe_lost : ProbePermit → ℕ → RuntimeState → Bool
  probe_lost p now s =
      not (is_probing s.provider_state)
      || not (nat_eq s.provider_version p.version)
      || not (holds s.provider_probe_token p.token)
      || not (is_some s.provider_probe_expires_at)
      || is_past s.provider_probe_expires_at now

  unfoldable pub finish_provider_probe :
      ProbePermit → Bool → ℕ → RuntimeState → Option ℕ × RuntimeState
  finish_provider_probe p succeeded now s =
      if probe_lost p now s
      then (none, s)
      else if succeeded
      then (some (s.provider_version + 1), close_provider s)
      else (none, open_provider (now + seconds settings.provider_retry_seconds) s)

  abbrev pub after_poll :
      Poll × RuntimeState → Bool → ℕ → (RuntimeState → RuntimeState) → Option ℕ × RuntimeState
  after_poll (permit v, s) succeeded completed meanwhile = (some v, s)
  after_poll (no_permit, s) succeeded completed meanwhile = (none, s)
  after_poll (probe p, s) succeeded completed meanwhile =
      finish_provider_probe p succeeded completed (meanwhile s)

  -- `meanwhile` is what other workers do to the row while the probe runs between the transactions.
  unfoldable pub prepare_worker_poll :
      WorkerRole
      → ℕ
      → ℕ
      → Bool
      → ℕ
      → (RuntimeState → RuntimeState)
      → Runtime
      → Result (Option ℕ × RuntimeState)
  prepare_worker_poll role now token succeeded completed meanwhile row =
      if settings.configured
      then pure (after_poll (begin_poll role now token row) succeeded completed meanwhile)
      else raise verification_service_unavailable

  abbrev is_transient : ProviderOutcome → Bool
  is_transient transient_failure = true
  is_transient _ = false

  abbrev pub fail_provider : ℕ → ℕ → RuntimeState → RuntimeState
  fail_provider version now s =
      if not (is_closed s.provider_state) || not (nat_eq s.provider_version version)
      then s
      else open_provider (now + seconds settings.provider_retry_seconds) s

  abbrev with_row : Runtime → (RuntimeState → RuntimeState) → Result Runtime
  with_row none f = raise does_not_exist
  with_row (some s) f = pure (some (f s))

  unfoldable pub finish_provider_attempt : ℕ → ProviderOutcome → ℕ → Runtime → Result Runtime
  finish_provider_attempt version outcome now row =
      if is_transient outcome then with_row row (fail_provider version now) else pure row
