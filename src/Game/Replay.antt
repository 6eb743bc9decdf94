-- ===== src/Game/Replay.antt =====
-- consumers.py, `receive_json`: a frame that comes again under its identifier.
use new_mud_codex.Shared.{◌+◌, ◌≡◌, some, ◌∷◌}
use new_mud_codex.Shared.Text.{Text, Text_equality}
use new_mud_codex.Shared.Dicts.{lookup}
use new_mud_codex.Game.Connection.{Connection, Game, Clock, Terminal}
use new_mud_codex.Game.Requests.{Request}
use new_mud_codex.Game.Effects.{Effects}

-- Every answer that is kept under the request's identifier is to that request.
abbrev KeepsOwn : Request → Game → Type 0
KeepsOwn r g =
    (t : Terminal) → lookup r.request_id g.connection.terminals ≡ some t → t.request_hash ≡ r.digest

-- What the second frame sends and leaves.
pub record IsRepeated (clock : Clock) (t : Terminal) (c c' : Connection) : Type 0 where
  pub sent : c'.sent ≡ (record t.envelope { seq = c.seq + 1; ts = clock.now }) ∷ c.sent
  pub terminals : c'.terminals ≡ c.terminals
  pub auth : c'.auth_session ≡ c.auth_session
