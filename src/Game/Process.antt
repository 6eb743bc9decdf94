-- ===== src/Game/Process.antt =====
-- game_session_metrics.py and consumers.py: all connections of a process over their shared counters.
use new_mud_codex.Shared.{ℕ, ◌≡◌, List, [], ◌∷◌, ◌++◌, All}
use new_mud_codex.Shared.Text.{Text}
use new_mud_codex.Shared.Table.{count}
use new_mud_codex.Tokens.{Crypto}
use new_mud_codex.Game.Metrics.{Metrics, new_metrics, bound}
use new_mud_codex.Game.Connection.{Connection, Game, GameSettings, connect}
use new_mud_codex.Game.Requests.{Wire}
use new_mud_codex.Game.Handlers.{Handled}
use new_mud_codex.Game.Order.{IsOrdered}
use new_mud_codex.Game.Census.{is_bound_to, is_open}

module _ (x : Wire) (k : Crypto) (settings : GameSettings) where
  -- The connections that a process has opened, and its counters, after any handlers in any order.
  pub data Reached : List Connection → Metrics → Type 0 where
    starts : Reached [] new_metrics
    opens :
        {cs : List Connection} {m : Metrics} (monotonic : ℕ)
        → Reached cs m
        → Reached ((connect monotonic m).connection ∷ cs) (connect monotonic m).metrics
    serves :
        {m : Metrics} {g : Game} (before : List Connection) (c : Connection)
        (after : List Connection)
        → Reached (before ++ c ∷ after) m
        → Handled x k settings (record { connection = c; metrics = m }) g
        → Reached (before ++ g.connection ∷ after) g.metrics

  pub record IsExact (cs : List Connection) (m : Metrics) : Type 0 where
    pub bindings : (id : Text) → bound id m ≡ count (is_bound_to id) cs
    pub online : m.online_connections ≡ count is_open cs
    pub ordered : All (IsOrdered settings) cs
