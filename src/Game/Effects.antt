-- ===== src/Game/Effects.antt =====
-- consumers.py: what any handler does to a connection, as a chain of small effects.
use new_mud_codex.Shared.{
  ℕ, ◌≡◌, refl, Bool, true, false, Option, none, some, Bool-cases, Option-cases, inl, inr, is_some,
}
use new_mud_codex.Shared.Text.{Text, Text_equality}
use new_mud_codex.Game.Connection.{
  Connection, Game, GameSettings, Clock, Terminal, Envelope, Reply, ConnectionState, say,
  send_terminal, keep_terminal, finish_request, terminal_capacity_available, close_protocol_error,
  close_rate_limited, auth_session_invalidated, disconnect, bind_metric, fail_request, transition,
  close, forget, close_metric, unbind_auth_session_metric, is_failure, failure, resend,
  begin_closing, is_ending, closing, closed, ending, is_closing, leave_group,
}
use new_mud_codex.Game.Requests.{Request, answer, fail_and_keep, refuse, terminal}

-- The parts that the effects leave alone: what was sent, the answers, and the bindings.
pub record Same (c c' : Connection) : Type 0 where
  pub seq : c'.seq ≡ c.seq
  pub sent : c'.sent ≡ c.sent
  pub terminals : c'.terminals ≡ c.terminals
  pub metric : c'.metric_auth_session_id ≡ c.metric_auth_session_id
  pub metric_open : c'.connection_metric_open ≡ c.connection_metric_open
  pub auth : (c'.auth_session ≡ none) → c.auth_session ≡ none

-- A connection without a session is bound in no counter.
abbrev pub IsLinked : Connection → Type 0
IsLinked c = c.auth_session ≡ none → c.metric_auth_session_id ≡ none

module _ (settings : GameSettings) (r : Request) where
  -- `r` is the request that is answered, where there is one.
  pub data Effect (g : Game) : Game → Type 0 where
    adjusts :
        (c : Connection)
        → Same g.connection c
        → Effect g (record { connection = c; metrics = g.metrics })
    says :
        (now : ℕ) (request_id : Option Text) (payload : Reply)
        → Effect g (say now request_id payload g).1
    repeats : (now : ℕ) (e : Envelope) → Effect g (resend now e g)
    finishes : (duration_ms : ℕ) (failed : Bool) → Effect g (finish_request duration_ms failed g)
    keeps :
        (t : Terminal)
        → t.request_hash ≡ r.digest
        → terminal_capacity_available settings g.connection ≡ true
        → Effect g (keep_terminal r.request_id t g)
    binds :
        (auth_session_id : Text)
        → g.connection.metric_auth_session_id ≡ none
        → is_some g.connection.auth_session ≡ true
        → Effect g (bind_metric auth_session_id g)
    unbinds : Effect g (unbind_auth_session_metric g)
    forgets : g.connection.metric_auth_session_id ≡ none → Effect g (forget g)
    leaves : Effect g (close_metric g)

  pub data Effects (g : Game) : Game → Type 0 where
    done : Effects g g
    next : {h k : Game} → Effects g h → Effect h k → Effects g k

  pub Effects-trans : (g h k : Game) → Effects g h → Effects h k → Effects g k
  Effects-trans g h k a done = a
  Effects-trans g h k a (next {h = i} b e) = next (Effects-trans g h i a b) e

  abbrev pub Capacity : Game → Type 0
  Capacity g = terminal_capacity_available settings g.connection ≡ true

  pub send_terminal-Effects :
      (clock : Clock) (payload : Reply) (g : Game)
      → Effects g (send_terminal clock r.request_id payload g).1
  unfolding send_terminal
  send_terminal-Effects clock payload g =
      next (next done (says clock.now (some r.request_id) payload))
        (finishes clock.duration_ms (is_failure payload))

  pub answer-Effects :
      (clock : Clock) (payload : Reply) (requires : Bool) (g : Game)
      → Capacity g
      → Effects g (answer clock r payload requires g)
  unfolding send_terminal say finish_request terminal_capacity_available
  answer-Effects clock payload requires g h =
      next (send_terminal-Effects clock payload g)
        (keeps (terminal r.digest (send_terminal clock r.request_id payload g).0 requires) refl h)

  pub refuse-Effects : (clock : Clock) (code : Text) (g : Game) → Effects g (refuse clock r code g)
  unfolding fail_request
  refuse-Effects clock code g = send_terminal-Effects clock (failure r.request_type code false) g

  pub fail_and_keep-Effects :
      (clock : Clock) (code : Text) (g : Game)
      → Capacity g
      → Effects g (fail_and_keep clock r code g)
  fail_and_keep-Effects clock code g h =
      answer-Effects clock (failure r.request_type code false) false g h

  pub transition-Effect : (s : ConnectionState) (g : Game) → Effect g (transition s g)
  unfolding transition
  transition-Effect s g = adjusts _ (record {
    seq = refl;
    sent = refl;
    terminals = refl;
    metric = refl;
    metric_open = refl;
    auth = λ h. h;
  })

  pub close-Effect : (code : ℕ) (g : Game) → Effect g (close code g)
  unfolding close
  close-Effect code g = adjusts _ (record {
    seq = refl;
    sent = refl;
    terminals = refl;
    metric = refl;
    metric_open = refl;
    auth = λ h. h;
  })

  begin_closing-Effects : (g : Game) → Effects g (begin_closing g)
  begin_closing-Effects g = elim (Bool-cases (is_ending g.connection.state)) [
    | inl t ↦ rw t done
    | inr f ↦ rw f (next done (transition-Effect closing g))
  ]

  pub close_protocol_error-Effects : (g : Game) → Effects g (close_protocol_error g)
  unfolding close_protocol_error
  close_protocol_error-Effects g =
      next (next (begin_closing-Effects g) (finishes 0 true))
        (close-Effect 4400 (finish_request 0 true (begin_closing g)))

  pub close_rate_limited-Effects :
      (clock : Clock) (g : Game) → Effects g (close_rate_limited clock g)
  unfolding close_rate_limited
  close_rate_limited-Effects clock g =
      next
        (next (next done (finishes clock.duration_ms true))
          (transition-Effect closing (finish_request clock.duration_ms true g)))
        (close-Effect 1008 (transition closing (finish_request clock.duration_ms true g)))

  leave_group-Effect : (g : Game) → Effect g (leave_group g)
  leave_group-Effect g = adjusts _ (record {
    seq = refl;
    sent = refl;
    terminals = refl;
    metric = refl;
    metric_open = refl;
    auth = λ h. h;
  })

  ending-Effects : (g : Game) → Effects g (ending g)
  ending-Effects g = elim (Bool-cases (is_closing g.connection.state)) [
    | inl t ↦ rw t done
    | inr f ↦ rw f (next done (transition-Effect closing g))
  ]

  unbind-metric :
      (g : Game) → (unbind_auth_session_metric g).connection.metric_auth_session_id ≡ none
  unfolding unbind_auth_session_metric
  unbind-metric g = elim (Option-cases g.connection.metric_auth_session_id) [
    | inl e ↦ rw e refl
    | inr (i, e) ↦ rw e refl
  ]

  pub auth_session_invalidated-Effects : (g : Game) → Effects g (auth_session_invalidated g)
  unfolding auth_session_invalidated
  auth_session_invalidated-Effects g =
      next
        (next (next (begin_closing-Effects g) unbinds) (forgets (unbind-metric (begin_closing g))))
        (close-Effect 1000 (forget (unbind_auth_session_metric (begin_closing g))))

  pub disconnect-Effects : (g : Game) → Effects g (disconnect g)
  unfolding disconnect
  disconnect-Effects g =
      let first = ending g in
      let left = leave_group first in
      next
        (next
          (next (next (next (ending-Effects g) (leave_group-Effect first)) unbinds)
            (forgets (unbind-metric left)))
          leaves)
        (transition-Effect closed (close_metric (forget (unbind_auth_session_metric left))))
