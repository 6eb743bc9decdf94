-- ===== src/Game/Handlers.antt =====
-- consumers.py: the handlers of a connection, and the effects of each.
use new_mud_codex.Shared.{
  ℕ, ◌≡◌, refl, ◌∙◌, subst, Bool, true, false, not, ◌&&◌, Option, none, some, [], leb, ◌-◌,
  Bool-cases, inl, inr, is_some,
}
use new_mud_codex.Shared.Text.{Text, Text_equality, codes}
use new_mud_codex.Shared.Dicts.{lookup}
use new_mud_codex.Errors.{pure, pure-injective}
use new_mud_codex.Tokens.{Crypto}
use new_mud_codex.Content.Values.{
  Value, Fields, null, bool, int, negative, str, array, object, get_field,
}
use new_mud_codex.Game.Connection.{
  Connection, Game, GameSettings, Clock, Terminal, request_allowed, counted, close_protocol_error,
  auth_session_invalidated, disconnect,
}
use new_mud_codex.Game.Binding.{Reads, binding_is_active}
use new_mud_codex.Game.Requests.{Wire, Request, request_digest}
use new_mud_codex.Game.Receive.{
  receive, receive_json, with_content, with_request_id, dispatch_request, request_of, request_id_of,
  revalidate,
}
use new_mud_codex.Game.Effects.{
  Same, IsLinked, adjusts, Effects, done, next, Effects-trans, close_protocol_error-Effects,
  close_rate_limited-Effects, auth_session_invalidated-Effects, disconnect-Effects,
}
use new_mud_codex.Game.Serving.{reject-Effects, replay-Effects, serve-Effects}

-- Counting a request touches the counters of the window only.
counted-Same : (settings : GameSettings) (c : Connection) → Same c (counted settings c).1
counted-Same settings c = elim (Bool-cases (leb settings.request_rate_limit c.requests_in_window)) [
  | inl e ↦ rw e (record {
    seq = refl;
    sent = refl;
    terminals = refl;
    metric = refl;
    metric_open = refl;
    auth = λ h. h;
  })
  | inr e ↦ rw e (record {
    seq = refl;
    sent = refl;
    terminals = refl;
    metric = refl;
    metric_open = refl;
    auth = λ h. h;
  })
]

pub request_allowed-Same :
    (settings : GameSettings) (now : ℕ) (c : Connection) → Same c (request_allowed settings now c).1
unfolding request_allowed
request_allowed-Same settings now c =
    elim (Bool-cases (leb settings.request_rate_window (now - c.rate_window_started_at))) [
      | inl e ↦ rw e (renewed (counted-Same settings _))
      | inr e ↦ rw e (counted-Same settings c)
    ]
  where
    renewed :
        {c' : Connection}
        → Same (record c { rate_window_started_at = now; requests_in_window = 0 }) c'
        → Same c c'
    renewed s = record {
      seq = s.seq;
      sent = s.sent;
      terminals = s.terminals;
      metric = s.metric;
      metric_open = s.metric_open;
      auth = s.auth;
    }

module _ (x : Wire) (c : Crypto) (settings : GameSettings) where
  -- What a connection may be asked to do. A reason is that of an invalidation.
  pub data Handled (g : Game) : Game → Type 0 where
    received :
        (clock : Clock) (text_data bytes_data : Option Text) (reads : Reads) {g' : Game}
        → receive x c settings clock text_data bytes_data reads g ≡ pure g'
        → Handled g g'
    invalidated : Handled g (auth_session_invalidated g)
    revalidated : (reads : Reads) → Handled g (revalidate x c settings reads g)
    disconnected : Handled g (disconnect g)

  -- The effects of some request.
  abbrev pub HasEffects : Game → Game → Type 0
  HasEffects g g' = (r : Request) × Effects settings r g g'

  abbrev no_request : Request
  no_request = record { request_id = []; request_type = []; digest = [] }

  protocol_error-HasEffects :
      (g g' : Game) → pure (close_protocol_error g) ≡ pure g' → HasEffects g g'
  protocol_error-HasEffects g g' e = (
    no_request,
    subst (Effects settings no_request g) (pure-injective e)
        (close_protocol_error-Effects settings no_request g),
  )

  dispatch_request-Effects :
      (clock : Clock) (r : Request) (fs : Fields) (failed : Bool) (known : Option Terminal)
      (allowed : Bool) (reads : Reads) (g g' : Game)
      → IsLinked g.connection
      → dispatch_request x c settings clock r fs failed known allowed reads g ≡ pure g'
      → Effects settings r g g'
  dispatch_request-Effects clock r fs failed (some t) false reads g g' l e =
      subst (Effects settings r g) (pure-injective e)
        (close_rate_limited-Effects settings r clock g)
  dispatch_request-Effects clock r fs failed none false reads g g' l e =
      subst (Effects settings r g) (pure-injective e) (reject-Effects settings r clock g)
  dispatch_request-Effects clock r fs failed (some t) true reads g g' l e =
      subst (Effects settings r g) (pure-injective e) (replay-Effects settings r clock t reads g)
  dispatch_request-Effects clock r fs failed none true reads g g' l e =
      serve-Effects settings r c clock fs failed reads g g' l e

  pub with_request_id-Effects :
      (clock : Clock) (fs : Fields) (request_id : Text) (reads : Reads) (g g' : Game)
      → IsLinked g.connection
      → with_request_id x c settings clock fs (some request_id) reads g ≡ pure g'
      → Effects settings (request_of x request_id fs) g g'
  with_request_id-Effects clock fs request_id reads g g' l e =
      let r = request_of x request_id fs in
      let (allowed, c') = request_allowed settings clock.monotonic g.connection in
      let same = request_allowed-Same settings clock.monotonic g.connection in
      let g0 : Game = record { connection = c'; metrics = g.metrics } in
      Effects-trans settings r g g0 g' (next done (adjusts c' same)) (
        dispatch_request-Effects clock r fs (request_digest x fs).1
          (lookup request_id g.connection.terminals) allowed reads g0 g'
          (λ h. same.metric ∙ l (same.auth h)) e)

  with_request_id-HasEffects :
      (clock : Clock) (fs : Fields) (request_id : Option Text) (reads : Reads) (g g' : Game)
      → IsLinked g.connection
      → with_request_id x c settings clock fs request_id reads g ≡ pure g'
      → HasEffects g g'
  with_request_id-HasEffects clock fs none reads g g' l e = protocol_error-HasEffects g g' e
  with_request_id-HasEffects clock fs (some request_id) reads g g' l e =
      (request_of x request_id fs, with_request_id-Effects clock fs request_id reads g g' l e)

  receive_json-HasEffects :
      (clock : Clock) (content : Value) (reads : Reads) (g g' : Game)
      → IsLinked g.connection
      → receive_json x c settings clock content reads g ≡ pure g'
      → HasEffects g g'
  unfolding receive_json
  receive_json-HasEffects clock (object fs) reads g g' l e =
      with_request_id-HasEffects clock fs (request_id_of (get_field (codes "request_id") fs)) reads
        g g' l e
  receive_json-HasEffects clock null reads g g' l e = protocol_error-HasEffects g g' e
  receive_json-HasEffects clock (bool b) reads g g' l e = protocol_error-HasEffects g g' e
  receive_json-HasEffects clock (int n) reads g g' l e = protocol_error-HasEffects g g' e
  receive_json-HasEffects clock (negative n) reads g g' l e = protocol_error-HasEffects g g' e
  receive_json-HasEffects clock (str s) reads g g' l e = protocol_error-HasEffects g g' e
  receive_json-HasEffects clock (array vs) reads g g' l e = protocol_error-HasEffects g g' e

  with_content-HasEffects :
      (clock : Clock) (content : Option Value) (reads : Reads) (g g' : Game)
      → IsLinked g.connection
      → with_content x c settings clock content reads g ≡ pure g'
      → HasEffects g g'
  with_content-HasEffects clock none reads g g' l e = protocol_error-HasEffects g g' e
  with_content-HasEffects clock (some content) reads g g' l e =
      receive_json-HasEffects clock content reads g g' l e

  receive-HasEffects :
      (clock : Clock) (text_data bytes_data : Option Text) (reads : Reads) (g g' : Game)
      → IsLinked g.connection
      → receive x c settings clock text_data bytes_data reads g ≡ pure g'
      → HasEffects g g'
  unfolding receive
  receive-HasEffects clock text_data (some b) reads g g' l e = protocol_error-HasEffects g g' e
  receive-HasEffects clock none none reads g g' l e = protocol_error-HasEffects g g' e
  receive-HasEffects clock (some t) none reads g g' l e =
      with_content-HasEffects clock (x.decode_json t) reads g g' l e

  -- Every handler is a chain of small effects.
  pub Handled-HasEffects : (g g' : Game) → IsLinked g.connection → Handled g g' → HasEffects g g'
  unfolding revalidate
  Handled-HasEffects g g' l (received clock text_data bytes_data reads e) =
      receive-HasEffects clock text_data bytes_data reads g g' l e
  Handled-HasEffects g g' l invalidated =
      (no_request, auth_session_invalidated-Effects settings no_request g)
  Handled-HasEffects g g' l (revalidated reads) =
      elim (Bool-cases (
        is_some g.connection.auth_session
        && not (binding_is_active settings g.connection.auth_session reads))) [
          | inl e ↦ rw e (no_request, auth_session_invalidated-Effects settings no_request g)
          | inr e ↦ rw e (no_request, done)
        ]
  Handled-HasEffects g g' l disconnected = (no_request, disconnect-Effects settings no_request g)
