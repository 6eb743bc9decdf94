-- ===== src/Game/Metrics.antt =====
-- src/new_mud/apps/identity/game_session_metrics.py: the counters of one process.
use new_mud_codex.Shared.{
  ℕ, ◌+◌, ◌-◌, Bool, Option, none, some, List, [], max, if◌then◌else◌, length, ltb,
}
use new_mud_codex.Shared.Text.{Text, Text_equality}
use new_mud_codex.Shared.Dicts.{lookup, insert, remove}

-- A duration is a number of milliseconds, without a fraction.
pub record Metrics : Type 0 where
  pub online_connections : ℕ
  pub auth_session_bindings : List (Text × ℕ)
  pub connections_total : ℕ
  pub requests_total : ℕ
  pub request_errors_total : ℕ
  pub request_duration_ms_total : ℕ
  pub request_duration_ms_max : ℕ

abbrev pub new_metrics : Metrics
new_metrics = record {
  online_connections = 0;
  auth_session_bindings = [];
  connections_total = 0;
  requests_total = 0;
  request_errors_total = 0;
  request_duration_ms_total = 0;
  request_duration_ms_max = 0;
}

unfoldable pub connection_opened : Metrics → Metrics
connection_opened m = record m {
  online_connections = m.online_connections + 1;
  connections_total = m.connections_total + 1;
}

-- `max(0, n - 1)`
unfoldable pub connection_closed : Metrics → Metrics
connection_closed m = record m { online_connections = m.online_connections - 1 }

abbrev pub or_zero : Option ℕ → ℕ
or_zero none = 0
or_zero (some n) = n

-- `bindings.get(auth_session_id, 0)`
unfoldable pub bound : Text → Metrics → ℕ
bound auth_session_id m = or_zero (lookup auth_session_id m.auth_session_bindings)

-- `online_auth_sessions`
abbrev pub online_auth_sessions : Metrics → ℕ
online_auth_sessions m = length m.auth_session_bindings

unfoldable pub auth_session_bound : Text → Metrics → Metrics
auth_session_bound auth_session_id m = record m {
  auth_session_bindings =
      insert auth_session_id (bound auth_session_id m + 1) m.auth_session_bindings;
}

-- `remaining > 0` where `remaining` is one less than the count
unfoldable pub auth_session_unbound : Text → Metrics → Metrics
auth_session_unbound auth_session_id m = record m {
  auth_session_bindings =
      if ltb 1 (bound auth_session_id m)
      then insert auth_session_id (bound auth_session_id m - 1) m.auth_session_bindings
      else remove auth_session_id m.auth_session_bindings;
}

unfoldable pub request_finished : ℕ → Bool → Metrics → Metrics
request_finished duration_ms failed m = record m {
  requests_total = m.requests_total + 1;
  request_errors_total = m.request_errors_total + (if failed then 1 else 0);
  request_duration_ms_total = m.request_duration_ms_total + duration_ms;
  request_duration_ms_max = max m.request_duration_ms_max duration_ms;
}
