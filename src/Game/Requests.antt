-- ===== src/Game/Requests.antt =====
-- src/new_mud/apps/identity/consumers.py: the requests of a connection.
use new_mud_codex.Shared.{
  ℕ, Bool, true, false, not, ◌&&◌, ◌||◌, Option, none, some, List, [], ◌∷◌, ◌++◌, leb, length, all,
  is_some, ◌==◌, ℕ_equality, if◌then◌else◌,
}
use new_mud_codex.Shared.Text.{Text, Text_equality, codes}
use new_mud_codex.Shared.Dicts.{member}
use new_mud_codex.Errors.{Result, pure, ◌>>=◌}
use new_mud_codex.Tokens.{Crypto}
use new_mud_codex.Sessions.Tables.{AuthSession}
use new_mud_codex.Sessions.Request.{is_alnum}
use new_mud_codex.Content.Values.{
  Value, Fields, str, null, object, end, field, get_field, count_fields,
}
use new_mud_codex.Game.Connection.{
  Game, GameSettings, Clock, Terminal, Envelope, Reply, failure, authenticated, pong, session_ready,
  closing, transition, close, terminal_capacity_available, finish_request, say, send_terminal,
  fail_request, resend, keep_terminal, bind_auth_session_metric, is_failure,
}
use new_mud_codex.Game.Binding.{Reads, Found, session, refused, binding_is_active, resolve_session}

-- rfc8785, hashlib and json
pub record Wire : Type 0 where
  -- none: `CanonicalizationError`
  pub dumps : Value → Option Text
  pub sha256_hexdigest : Text → Text
  -- `json.dumps`, or `repr` where that raises `ValueError`
  pub serialize : Value → Text
  -- none: an exception that `receive` catches
  pub decode_json : Text → Option Value

abbrev pub is_request_char : ℕ → Bool
is_request_char c = is_alnum c || c == b'.' || c == b'_' || c == b':' || c == b'-'

-- `REQUEST_ID_PATTERN`
unfoldable pub is_request_id : Text → Bool
is_request_id [] = false
is_request_id (c ∷ s) = is_alnum c && all is_request_char s && leb (length s) 127

abbrev pub or_null : Option Value → Value
or_null none = null
or_null (some v) = v

abbrev pub text_of : Option Value → Option Text
text_of (some (str s)) = some s
text_of _ = none

abbrev pub or_empty : Option Text → Text
or_empty none = []
or_empty (some s) = s

-- `set(d) == {…}`
abbrev pub has_keys : List Text → Fields → Bool
has_keys names fs =
    count_fields fs == length names && all (λ name. is_some (get_field name fs)) names

abbrev pub fields_of : Option Value → Option Fields
fields_of (some (object fs)) = some fs
fields_of _ = none

-- the names of requests that need a presence
abbrev pub presence_requests : List Text
presence_requests =
    codes "state.sync"
    ∷ codes "action.invoke"
    ∷ codes "ui.actions.resolve"
    ∷ codes "presence.leave"
    ∷ []

abbrev pub terminal : Text → Envelope → Bool → Terminal
terminal digest envelope requires_active_auth_binding = record {
  request_hash = digest;
  envelope = envelope;
  requires_active_auth_binding = requires_active_auth_binding;
}

-- The request that is answered: its identifier, its type and its digest.
pub record Request : Type 0 where
  pub request_id : Text
  pub request_type : Text
  pub digest : Text

module _ (x : Wire) where
  abbrev pub hashed : Option Text → Fields → Text × Bool
  hashed none fs = (codes "invalid:" ++ x.sha256_hexdigest (x.serialize (object fs)), true)
  hashed (some canonical) fs = (x.sha256_hexdigest canonical, false)

  -- `_request_hash`, or `_invalid_request_hash` where that fails, and whether it failed
  unfoldable pub request_digest : Fields → Text × Bool
  request_digest fs =
      hashed
        (x.dumps (
          object (
            field (codes "version") (or_null (get_field (codes "version") fs)) (
              field (codes "type") (or_null (get_field (codes "type") fs))
                (field (codes "payload") (or_null (get_field (codes "payload") fs)) end)))))
        fs

-- an answer that is kept
abbrev pub answer : Clock → Request → Reply → Bool → Game → Game
answer clock r reply requires g =
    let (e, g') = send_terminal clock r.request_id reply g in
    keep_terminal r.request_id (terminal r.digest e requires) g'

abbrev pub fail_and_keep : Clock → Request → Text → Game → Game
fail_and_keep clock r code g = answer clock r (failure r.request_type code false) false g

-- an error whose answer is not kept
abbrev pub refuse : Clock → Request → Text → Game → Game
refuse clock r code g = (fail_request clock r.request_id r.request_type code false g).1

-- no other field than a nonce, which is a string
abbrev pub is_ping : Option Value → ℕ → Bool
is_ping none n = n == 0
is_ping (some (str s)) n = n == 1
is_ping _ n = false

abbrev pub signed_out : Game → Game
signed_out g = record g {
  connection = record g.connection { auth_session = none; auth_session_group = none };
}

abbrev pub start_revalidation : Game → Game
start_revalidation g = record g { connection = record g.connection { revalidating = true } }

abbrev pub fail_with : Clock → Request → Game → Text → Result Game
fail_with clock r g code = pure (fail_and_keep clock r code g)

module _ (settings : GameSettings) where
  -- `_reject_rate_limited_request`
  unfoldable pub reject_rate_limited : Clock → Request → Game → Game
  reject_rate_limited clock r g =
      let (e, g') = fail_request clock r.request_id r.request_type (codes "RATE_LIMITED") true g in
      close 1008 (
        transition closing (
          if terminal_capacity_available settings g'.connection
          then keep_terminal r.request_id (terminal r.digest e false) g'
          else g'))

  -- the branch for a request whose answer is kept
  unfoldable pub replay : Clock → Request → Terminal → Reads → Game → Game
  replay clock r t reads g =
      if not (t.request_hash == r.digest)
      then refuse clock r (codes "REQUEST_ID_CONFLICT") g
      else if t.requires_active_auth_binding
          && not (binding_is_active settings g.connection.auth_session reads)
      then refuse clock r (codes "SESSION_REVOKED") g
      else finish_request clock.duration_ms (is_failure t.envelope.payload)
          (resend clock.now t.envelope g)

  -- `_ping`
  unfoldable pub ping : Clock → Request → Fields → Game → Game
  ping clock r payload g =
      if is_ping (get_field (codes "nonce") payload) (count_fields payload)
      then answer clock r (pong (text_of (get_field (codes "nonce") payload)) clock.now) false g
      else fail_and_keep clock r (codes "PAYLOAD_INVALID") g

  -- a request of another type
  unfoldable pub serve_other : Clock → Request → Reads → Game → Game
  serve_other clock r reads g =
      if is_some g.connection.auth_session
        && not (binding_is_active settings g.connection.auth_session reads)
      then fail_and_keep clock r (codes "SESSION_REVOKED") g
      else if not (is_some g.connection.auth_session)
      then fail_and_keep clock r (codes "AUTH_REQUIRED") g
      else if member r.request_type presence_requests
      then fail_and_keep clock r (codes "PRESENCE_REQUIRED") g
      else fail_and_keep clock r (codes "REQUEST_TYPE_UNSUPPORTED") g

  module _ (c : Crypto) where
    abbrev pub bind_session : AuthSession → Game → Game
    bind_session s g = record g {
      connection = record g.connection {
        auth_session = some s;
        auth_session_group = some s.auth_session_id;
      };
    }

    -- a session that is still active after it was bound
    abbrev pub welcome : Clock → Request → AuthSession → Game → Game
    welcome clock r s g =
        let bound =
          start_revalidation (bind_auth_session_metric (c.str_of_uuid s.auth_session_id) g) in
        let (e, said) = say clock.now (some r.request_id) (authenticated s) bound in
        let kept = keep_terminal r.request_id (terminal r.digest e true) said in
        (say clock.now none (session_ready s) (finish_request clock.duration_ms false kept)).1

    abbrev pub with_session : Clock → Request → Found → Reads → Game → Game
    with_session clock r (refused code) reads g =
        fail_and_keep clock r (if code == [] then codes "TOKEN_INVALID" else code) g
    with_session clock r (session s) reads g =
        if binding_is_active settings (some s) reads
        then welcome clock r s (bind_session s g)
        else fail_and_keep clock r (codes "SESSION_REVOKED") (record g {
          connection = record g.connection { auth_session = none; auth_session_group = none };
        })

    -- whether the connection is bound to a session already
    abbrev pub sign_in : Bool → Text → Clock → Request → Reads → Game → Result Game
    sign_in true token clock r reads g = pure (
        fail_and_keep clock r
          (if binding_is_active settings g.connection.auth_session reads
            then codes "ALREADY_AUTHENTICATED"
            else codes "SESSION_REVOKED")
          g)
    sign_in false token clock r reads g = do
      found ← resolve_session c settings token reads
      pure (with_session clock r found reads g)

    abbrev pub with_token : Option Text → Bool → Clock → Request → Reads → Game → Result Game
    with_token none only clock r reads g = pure (fail_and_keep clock r (codes "PAYLOAD_INVALID") g)
    with_token (some token) false clock r reads g =
        pure (fail_and_keep clock r (codes "PAYLOAD_INVALID") g)
    with_token (some token) true clock r reads g =
        sign_in (is_some g.connection.auth_session) token clock r reads g

    -- `_authenticate`
    unfoldable pub authenticate : Clock → Request → Fields → Reads → Game → Result Game
    authenticate clock r payload reads g =
        with_token (text_of (get_field (codes "access_token") payload))
          (has_keys (codes "access_token" ∷ []) payload) clock r reads g

    abbrev pub with_payload : Clock → Request → Option Fields → Reads → Game → Result Game
    with_payload clock r none reads g = pure (fail_and_keep clock r (codes "PAYLOAD_INVALID") g)
    with_payload clock r (some payload) reads g =
        if r.request_type == codes "session.authenticate"
        then authenticate clock r payload reads g
        else pure (
            if r.request_type == codes "session.ping"
            then ping clock r payload g
            else serve_other clock r reads g)

    -- a request whose identifier is new
    unfoldable pub serve : Clock → Request → Fields → Bool → Reads → Game → Result Game
    serve clock r fs canonicalization_failed reads g =
        if not (terminal_capacity_available settings g.connection)
        then pure (reject_rate_limited clock r g)
        else if not (
              has_keys (codes "version" ∷ codes "request_id" ∷ codes "type" ∷ codes "payload" ∷ [])
                fs)
            || canonicalization_failed
        then fail_with clock r g (codes "INVALID_ENVELOPE")
        else if not (or_empty (text_of (get_field (codes "version") fs)) == codes "1")
        then fail_with clock r g (codes "UNSUPPORTED_PROTOCOL_VERSION")
        else if not (is_some (text_of (get_field (codes "type") fs)))
        then fail_with clock r g (codes "INVALID_ENVELOPE")
        else with_payload clock r (fields_of (get_field (codes "payload") fs)) reads g
