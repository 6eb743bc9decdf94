-- ===== src/Game/Receive.antt =====
-- src/new_mud/apps/identity/consumers.py: `receive`, `receive_json` and the revalidation loop.
use new_mud_codex.Shared.{Bool, true, false, not, ◌&&◌, Option, none, some, if◌then◌else◌, is_some}
use new_mud_codex.Shared.Text.{Text, Text_equality, codes}
use new_mud_codex.Shared.Dicts.{lookup}
use new_mud_codex.Errors.{Result, pure}
use new_mud_codex.Tokens.{Crypto}
use new_mud_codex.Content.Values.{Value, Fields, str, object, get_field}
use new_mud_codex.Game.Connection.{
  Connection, Game, GameSettings, Clock, Terminal, request_allowed, close_rate_limited,
  close_protocol_error, auth_session_invalidated,
}
use new_mud_codex.Game.Binding.{Reads, binding_is_active}
use new_mud_codex.Game.Requests.{
  Wire, Request, is_request_id, request_digest, reject_rate_limited, replay, serve,
}

abbrev pub text_or_empty : Option Value → Text
text_or_empty (some (str s)) = s
text_or_empty _ = codes ""

-- `request_id`, where it is a string of the pattern
abbrev pub request_id_of : Option Value → Option Text
request_id_of (some (str s)) = if is_request_id s then some s else none
request_id_of _ = none

abbrev pub request_of : Wire → Text → Fields → Request
request_of x request_id fs = record {
  request_id = request_id;
  request_type = text_or_empty (get_field (codes "type") fs);
  digest = (request_digest x fs).0;
}

module _ (x : Wire) (c : Crypto) (settings : GameSettings) where
  abbrev pub dispatch_request :
      Clock → Request → Fields → Bool → Option Terminal → Bool → Reads → Game → Result Game
  dispatch_request clock r fs failed known false reads g =
      pure (
        if is_some known
        then close_rate_limited clock g
        else reject_rate_limited settings clock r g)
  dispatch_request clock r fs failed (some t) true reads g =
      pure (replay settings clock r t reads g)
  dispatch_request clock r fs failed none true reads g = serve settings c clock r fs failed reads g

  abbrev pub with_counted :
      Clock → Request → Fields → Bool → Reads → Game → Bool × Connection → Result Game
  with_counted clock r fs failed reads g (allowed, counted) =
      dispatch_request clock r fs failed (lookup r.request_id g.connection.terminals) allowed reads
        (record g { connection = counted })

  abbrev pub with_request_id : Clock → Fields → Option Text → Reads → Game → Result Game
  with_request_id clock fs none reads g = pure (close_protocol_error g)
  with_request_id clock fs (some request_id) reads g =
      with_counted clock (request_of x request_id fs) fs (request_digest x fs).1 reads g
        (request_allowed settings clock.monotonic g.connection)

  unfoldable pub receive_json : Clock → Value → Reads → Game → Result Game
  receive_json clock (object fs) reads g =
      with_request_id clock fs (request_id_of (get_field (codes "request_id") fs)) reads g
  receive_json clock _ reads g = pure (close_protocol_error g)

  abbrev pub with_content : Clock → Option Value → Reads → Game → Result Game
  with_content clock none reads g = pure (close_protocol_error g)
  with_content clock (some content) reads g = receive_json clock content reads g

  -- `receive`: the text and the bytes of a frame
  unfoldable pub receive : Clock → Option Text → Option Text → Reads → Game → Result Game
  receive clock text_data (some bytes_data) reads g = pure (close_protocol_error g)
  receive clock none none reads g = pure (close_protocol_error g)
  receive clock (some text_data) none reads g = with_content clock (x.decode_json text_data) reads g

  -- one round of `_revalidate_bound_auth_session`
  unfoldable pub revalidate : Reads → Game → Game
  revalidate reads g =
      if is_some g.connection.auth_session
        && not (binding_is_active settings g.connection.auth_session reads)
      then auth_session_invalidated g
      else g
