-- ===== src/Game/Connection.antt =====
-- src/new_mud/apps/identity/consumers.py: the state of a connection and what its handlers do to it.
use new_mud_codex.Shared.{
  ℕ, ◌+◌, ◌-◌, Bool, true, false, Option, none, some, List, [], ◌∷◌, ltb, leb, length, holds,
  if◌then◌else◌,
}
use new_mud_codex.Shared.Text.{Text, Text_equality}
use new_mud_codex.Shared.Dicts.{insert}
use new_mud_codex.Sessions.Tables.{AuthSession}
use new_mud_codex.Game.Metrics.{
  Metrics, request_finished, auth_session_bound, auth_session_unbound, connection_opened,
  connection_closed,
}

-- `ConnectionSessionState`
pub data ConnectionState : Type 0 where
  opening active closing closed : ConnectionState

-- The payloads that the consumer sends.
pub data Reply : Type 0 where
  -- the type of the request, the code of the error, and `retryable`
  failure : Text → Text → Bool → Reply
  authenticated : AuthSession → Reply
  -- the nonce of the ping, and the time of the server
  pong : Option Text → ℕ → Reply
  session_ready : AuthSession → Reply

pub record Envelope : Type 0 where
  pub seq : ℕ
  pub ts : ℕ
  pub request_id : Option Text
  pub payload : Reply

pub record Terminal : Type 0 where
  pub request_hash : Text
  pub envelope : Envelope
  pub requires_active_auth_binding : Bool

-- `sent` holds the messages that were sent and `closed_with` the codes of `close`, the latest
-- first. `revalidating` is whether `_auth_revalidation_task` is set.
pub record Connection : Type 0 where
  pub state : ConnectionState
  pub auth_session : Option AuthSession
  pub auth_session_group : Option ℕ
  pub seq : ℕ
  pub terminals : List (Text × Terminal)
  pub rate_window_started_at : ℕ
  pub requests_in_window : ℕ
  pub connection_metric_open : Bool
  pub metric_auth_session_id : Option Text
  pub revalidating : Bool
  pub sent : List Envelope
  pub closed_with : List ℕ

-- A connection, and the counters that it shares with the others.
pub record Game : Type 0 where
  pub connection : Connection
  pub metrics : Metrics

pub record GameSettings : Type 0 where
  pub terminal_limit : ℕ
  pub request_rate_limit : ℕ
  pub request_rate_window : ℕ
  pub content_instance_id : Text

-- The clocks that a handler reads: `time.monotonic()`, `datetime.now(UTC)`, and the duration that
-- is measured from when the handler began.
pub record Clock : Type 0 where
  pub monotonic : ℕ
  pub now : ℕ
  pub duration_ms : ℕ

-- `connect`
unfoldable pub connect : ℕ → Metrics → Game
connect monotonic m = record {
  connection = record {
    state = active;
    auth_session = none;
    auth_session_group = none;
    seq = 0;
    terminals = [];
    rate_window_started_at = monotonic;
    requests_in_window = 0;
    connection_metric_open = true;
    metric_auth_session_id = none;
    revalidating = false;
    sent = [];
    closed_with = [];
  };
  metrics = connection_opened m;
}

-- `_transition_connection_state`
unfoldable pub transition : ConnectionState → Game → Game
transition s g = record g { connection = record g.connection { state = s } }

-- `await self.close(code=…)`
unfoldable pub close : ℕ → Game → Game
close code g = record g {
  connection = record g.connection { closed_with = code ∷ g.connection.closed_with };
}

abbrev pub is_ending : ConnectionState → Bool
is_ending closing = true
is_ending closed = true
is_ending _ = false

-- `if self.connection_state not in {CLOSING, CLOSED}`
abbrev pub begin_closing : Game → Game
begin_closing g = if is_ending g.connection.state then g else transition closing g

unfoldable pub terminal_capacity_available : GameSettings → Connection → Bool
terminal_capacity_available settings c = ltb (length c.terminals) settings.terminal_limit

abbrev pub counted : GameSettings → Connection → Bool × Connection
counted settings c =
    if leb settings.request_rate_limit c.requests_in_window
    then (false, c)
    else (true, record c { requests_in_window = c.requests_in_window + 1 })

unfoldable pub request_allowed : GameSettings → ℕ → Connection → Bool × Connection
request_allowed settings now c = counted settings (
    if leb settings.request_rate_window (now - c.rate_window_started_at)
    then record c { rate_window_started_at = now; requests_in_window = 0 }
    else c)

abbrev pub is_failure : Reply → Bool
is_failure (failure _ _ _) = true
is_failure _ = false

unfoldable pub finish_request : ℕ → Bool → Game → Game
finish_request duration_ms failed g = record g {
  metrics = request_finished duration_ms failed g.metrics;
}

-- `_envelope` and then `send_json`
unfoldable pub say : ℕ → Option Text → Reply → Game → Envelope × Game
say now request_id payload g =
    let e : Envelope = record {
      seq = g.connection.seq + 1;
      ts = now;
      request_id = request_id;
      payload = payload;
    } in
    (
      e,
      record g {
        connection = record g.connection {
          seq = g.connection.seq + 1;
          sent = e ∷ g.connection.sent;
        };
      },
    )

-- `send_json` of a message that was sent before, with a new number and time
unfoldable pub resend : ℕ → Envelope → Game → Game
resend now e g = record g {
  connection = record g.connection {
    seq = g.connection.seq + 1;
    sent = record e { seq = g.connection.seq + 1; ts = now } ∷ g.connection.sent;
  };
}

-- `_envelope` and then `_send_terminal`
unfoldable pub send_terminal : Clock → Text → Reply → Game → Envelope × Game
send_terminal clock request_id payload g =
    let (e, g') = say clock.now (some request_id) payload g in
    (e, finish_request clock.duration_ms (is_failure payload) g')

-- `_failed`
unfoldable pub fail_request : Clock → Text → Text → Text → Bool → Game → Envelope × Game
fail_request clock request_id request_type code retryable g =
    send_terminal clock request_id (failure request_type code retryable) g

-- `self._terminals[request_id] = …`
unfoldable pub keep_terminal : Text → Terminal → Game → Game
keep_terminal request_id t g = record g {
  connection = record g.connection { terminals = insert request_id t g.connection.terminals };
}

-- `_close_rate_limited_connection`
unfoldable pub close_rate_limited : Clock → Game → Game
close_rate_limited clock g =
    close 1008 (transition closing (finish_request clock.duration_ms true g))

-- `_close_protocol_error`
unfoldable pub close_protocol_error : Game → Game
close_protocol_error g = close 4400 (finish_request 0 true (begin_closing g))

unfoldable pub bind_metric : Text → Game → Game
bind_metric auth_session_id g = record {
  connection = record g.connection { metric_auth_session_id = some auth_session_id };
  metrics = auth_session_bound auth_session_id g.metrics;
}

-- `_bind_auth_session_metric`
unfoldable pub bind_auth_session_metric : Text → Game → Game
bind_auth_session_metric auth_session_id g =
    if holds g.connection.metric_auth_session_id auth_session_id
    then g
    else bind_metric auth_session_id g

abbrev pub unbind : Option Text → Game → Game
unbind none g = g
unbind (some auth_session_id) g = record {
  connection = record g.connection { metric_auth_session_id = none };
  metrics = auth_session_unbound auth_session_id g.metrics;
}

-- `_unbind_auth_session_metric`
unfoldable pub unbind_auth_session_metric : Game → Game
unbind_auth_session_metric g = unbind g.connection.metric_auth_session_id g

-- The session is forgotten, and so are the answers.
abbrev pub forget : Game → Game
forget g = record g {
  connection = record g.connection { auth_session = none; terminals = []; revalidating = false };
}

-- `auth_session_invalidated`
unfoldable pub auth_session_invalidated : Game → Game
auth_session_invalidated g = close 1000 (forget (unbind_auth_session_metric (begin_closing g)))

abbrev pub close_metric_if : Bool → Game → Game
close_metric_if true g = record {
  connection = record g.connection { connection_metric_open = false };
  metrics = connection_closed g.metrics;
}
close_metric_if false g = g

-- `if self._connection_metric_open`
abbrev pub close_metric : Game → Game
close_metric g = close_metric_if g.connection.connection_metric_open g

abbrev pub leave_group : Game → Game
leave_group g = record g { connection = record g.connection { auth_session_group = none } }

abbrev pub is_closing : ConnectionState → Bool
is_closing closing = true
is_closing _ = false

-- `if self.connection_state != CLOSING`
abbrev pub ending : Game → Game
ending g = if is_closing g.connection.state then g else transition closing g

-- `disconnect`
unfoldable pub disconnect : Game → Game
disconnect g =
    transition closed (close_metric (forget (unbind_auth_session_metric (leave_group (ending g)))))
