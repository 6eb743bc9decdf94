-- ===== src/Tests/Game.antt =====
-- A connection that pings twice under one identifier.
use new_mud_codex.Shared.{ℕ, ◌≤◌, ◌≡◌, refl, false, none, some, [], ◌∷◌, map, length}
use new_mud_codex.Shared.Text.{codes, text_eq, Text_equality}
use new_mud_codex.Shared.Dicts.{lookup, insert}
use new_mud_codex.Errors.{Result, pure, raise}
use new_mud_codex.Sessions.Tables.{Db}
use new_mud_codex.Content.Values.{Fields, field, end, object, str}
use new_mud_codex.Game.Metrics.{new_metrics, connection_opened, request_finished}
use new_mud_codex.Game.Connection.{
  Game, GameSettings, Clock, Terminal, pong, connect, say, send_terminal, finish_request,
  keep_terminal, request_allowed, terminal_capacity_available,
}
use new_mud_codex.Game.Binding.{Reads}
use new_mud_codex.Game.Requests.{Wire, request_digest, is_request_id, serve, ping}
use new_mud_codex.Game.Receive.{receive, receive_json}
use new_mud_codex.Game.Handlers.{received}
use new_mud_codex.Game.Order.{Life, begins, handles, countdown, Life-numbered, Life-bounded}
use new_mud_codex.Game.Process.{Reached, starts, opens, serves}
use new_mud_codex.Tests.Toy.{toy}

abbrev ping_fields : Fields
ping_fields = field (codes "version") (str (codes "1")) (
    field (codes "request_id") (str (codes "q1")) (
      field (codes "type") (str (codes "session.ping")) (field (codes "payload") (object end) end)))

abbrev wire : Wire
wire = record {
  dumps = λ v. some [];
  sha256_hexdigest = λ t. t;
  serialize = λ v. [];
  decode_json = λ t. some (object ping_fields);
}

abbrev limits : GameSettings
limits = record {
  terminal_limit = 2;
  request_rate_limit = 5;
  request_rate_window = 60;
  content_instance_id = codes "i";
}

abbrev at : ℕ → Clock
at n = record { monotonic = n; now = n; duration_ms = 1 }

abbrev no_db : Db
no_db = record {
  users = [];
  accounts = [];
  sessions = [];
  families = [];
  credentials = [];
  terminals = [];
  audits = [];
  notices = [];
}

abbrev reads : Reads
reads = record {
  token_db = no_db;
  decode_now = 0;
  token_now = 0;
  later_db = no_db;
  later_now = 0;
  binding_db = no_db;
  binding_now = 0;
}

abbrev game_of : Game → Result Game → Game
game_of g (pure h) = h
game_of g (raise e) = g

unfoldable fresh : Game
unfolding connect connection_opened
fresh = connect 0 new_metrics

abbrev pinging : Game → Result Game
pinging g = receive wire toy limits (at 3) (some []) none reads g

unfoldable pinged : Game
unfolding fresh receive receive_json request_digest is_request_id request_allowed lookup serve
    terminal_capacity_available text_eq ping send_terminal say finish_request request_finished
    keep_terminal insert
pinged = game_of fresh (pinging fresh)

is_pinged :
    receive wire toy limits (at 3) (some []) none reads (connect 0 new_metrics) ≡ pure pinged
unfolding pinged fresh connect connection_opened receive receive_json request_digest is_request_id
    request_allowed lookup serve terminal_capacity_available text_eq ping send_terminal say
    finish_request request_finished keep_terminal insert
is_pinged = refl

abbrev life : Life wire toy limits (connect 0 new_metrics).connection pinged.connection
life =
    handles (connect 0 new_metrics).metrics begins (received (at 3) (some []) none reads is_pinged)

Life-numbered_example : map (λ e. e.seq) pinged.connection.sent ≡ countdown pinged.connection.seq
Life-numbered_example = Life-numbered wire toy limits 0 new_metrics pinged.connection life

Life-bounded_example : length pinged.connection.terminals ≤ 2
Life-bounded_example = Life-bounded wire toy limits 0 new_metrics pinged.connection life

abbrev pong_kept : Terminal
pong_kept = record {
  request_hash = [];
  envelope = record { seq = 1; ts = 3; request_id = some (codes "q1"); payload = pong none 3 };
  requires_active_auth_binding = false;
}

abbrev reached : Reached wire toy limits (pinged.connection ∷ []) pinged.metrics
reached =
    serves [] (connect 0 new_metrics).connection [] (opens 0 starts)
      (received (at 3) (some []) none reads is_pinged)
