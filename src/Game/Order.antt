-- ===== src/Game/Order.antt =====
-- consumers.py: the numbers of the messages that a connection sends, and the answers it keeps.
use new_mud_codex.Shared.{
  ℕ, zero, suc, ◌+◌, ◌≤◌, ◌≡◌, refl, sym, ◌∙◌, ap, Bool, true, false, Option, none, some, List, [],
  ◌∷◌, map, length, arith, is_some,
}
use new_mud_codex.Shared.Text.{Text, Text_equality}
use new_mud_codex.Shared.Dicts.Entries.{length-insert}
use new_mud_codex.Tokens.{Crypto}
use new_mud_codex.Game.Metrics.{Metrics}
use new_mud_codex.Game.Connection.{
  Connection, Game, GameSettings, connect, say, resend, finish_request, keep_terminal, bind_metric,
  unbind_auth_session_metric, unbind, close_metric_if, terminal_capacity_available,
}
use new_mud_codex.Game.Requests.{Wire, Request}
use new_mud_codex.Game.Effects.{
  IsLinked, Effect, adjusts, says, repeats, finishes, keeps, binds, unbinds, forgets, leaves,
  Effects, done, next,
}
use new_mud_codex.Game.Handlers.{Handled, Handled-HasEffects}

-- n, …, 2, 1
abbrev pub countdown : ℕ → List ℕ
countdown zero = []
countdown (suc n) = suc n ∷ countdown n

-- What holds of a connection between two handlers.
pub record IsOrdered (settings : GameSettings) (c : Connection) : Type 0 where
  pub numbered : map (λ e. e.seq) c.sent ≡ countdown c.seq
  pub bounded : length c.terminals ≤ settings.terminal_limit
  pub linked : IsLinked c

countdown_suc : (n : ℕ) → (n + 1) ∷ countdown n ≡ countdown (n + 1)
countdown_suc n =
    let e : n + 1 ≡ suc n = omega arith in ap (λ k. k ∷ countdown n) e ∙ ap countdown (sym e)

module _ (settings : GameSettings) where
  unbind-IsOrdered :
      (o : Option Text) (g : Game)
      → IsOrdered settings g.connection
      → IsOrdered settings (unbind o g).connection
  unbind-IsOrdered none g o = o
  unbind-IsOrdered (some i) g o = record {
    numbered = o.numbered;
    bounded = o.bounded;
    linked = λ h. refl;
  }

  close_metric-IsOrdered :
      (b : Bool) (g : Game)
      → IsOrdered settings g.connection
      → IsOrdered settings (close_metric_if b g).connection
  close_metric-IsOrdered true g o = record {
    numbered = o.numbered;
    bounded = o.bounded;
    linked = o.linked;
  }
  close_metric-IsOrdered false g o = o

module _ (settings : GameSettings) (r : Request) where
  Effect-IsOrdered :
      (g g' : Game)
      → IsOrdered settings g.connection
      → Effect settings r g g'
      → IsOrdered settings g'.connection
  unfolding say resend unbind_auth_session_metric finish_request keep_terminal bind_metric
      terminal_capacity_available
  Effect-IsOrdered g g' o (adjusts c s) = record {
    numbered = ap (map (λ e. e.seq)) s.sent ∙ o.numbered ∙ ap countdown (sym s.seq);
    bounded = rw s.terminals o.bounded;
    linked = λ h. s.metric ∙ o.linked (s.auth h);
  }
  Effect-IsOrdered g g' o (says now i p) = record {
    numbered = ap (◌∷◌ (g.connection.seq + 1)) o.numbered ∙ countdown_suc g.connection.seq;
    bounded = o.bounded;
    linked = o.linked;
  }
  Effect-IsOrdered g g' o (repeats now e) = record {
    numbered = ap (◌∷◌ (g.connection.seq + 1)) o.numbered ∙ countdown_suc g.connection.seq;
    bounded = o.bounded;
    linked = o.linked;
  }
  Effect-IsOrdered g g' o (finishes d f) = record {
    numbered = o.numbered;
    bounded = o.bounded;
    linked = o.linked;
  }
  Effect-IsOrdered g g' o (keeps t same h) = record {
    numbered = o.numbered;
    bounded = ground (arith, length-insert r.request_id t g.connection.terminals);
    linked = o.linked;
  }
  Effect-IsOrdered g g' o (binds i free signed) = record {
    numbered = o.numbered;
    bounded = o.bounded;
    linked = λ h. absurd (cc (signed, ap is_some h));
  }
  Effect-IsOrdered g g' o unbinds =
      unbind-IsOrdered settings g.connection.metric_auth_session_id g o
  Effect-IsOrdered g g' o (forgets free) = record {
    numbered = o.numbered;
    bounded = omega arith;
    linked = λ h. free;
  }
  Effect-IsOrdered g g' o leaves =
      close_metric-IsOrdered settings g.connection.connection_metric_open g o

  pub Effects-IsOrdered :
      (g g' : Game)
      → IsOrdered settings g.connection
      → Effects settings r g g'
      → IsOrdered settings g'.connection
  Effects-IsOrdered g g' o done = o
  Effects-IsOrdered g g' o (next {h = h} es e) =
      Effect-IsOrdered h g' (Effects-IsOrdered g h o es) e

module _ (x : Wire) (k : Crypto) (settings : GameSettings) where
  -- The life of a connection: its handlers in any order, while others change the counters.
  pub data Life (c : Connection) : Connection → Type 0 where
    begins : Life c c
    handles :
        {c' : Connection} {g : Game} (m : Metrics)
        → Life c c'
        → Handled x k settings (record { connection = c'; metrics = m }) g
        → Life c g.connection

  pub Life-IsOrdered :
      (c c' : Connection) → IsOrdered settings c → Life c c' → IsOrdered settings c'
  Life-IsOrdered c c' o begins = o
  Life-IsOrdered c c' o (handles {c' = b} {g = g} m life h) =
      let before = Life-IsOrdered c b o life in
      let (r, es) =
        Handled-HasEffects x k settings (record { connection = b; metrics = m }) g before.linked
          h in
      Effects-IsOrdered settings r (record { connection = b; metrics = m }) g before es

  pub connect-IsOrdered :
      (monotonic : ℕ) (m : Metrics) → IsOrdered settings (connect monotonic m).connection
  unfolding connect
  connect-IsOrdered monotonic m = record {
    numbered = refl;
    bounded = omega arith;
    linked = λ h. refl;
  }

  -- Whatever a connection is asked to do, in whatever order, the messages that it has sent are
  -- numbered from 1 in the order of sending, with no gap.
  pub Life-numbered :
      (monotonic : ℕ) (m : Metrics) (c : Connection)
      → Life (connect monotonic m).connection c
      → map (λ e. e.seq) c.sent ≡ countdown c.seq
  Life-numbered monotonic m c life =
      (Life-IsOrdered (connect monotonic m).connection c (connect-IsOrdered monotonic m)
        life).numbered

  -- Whatever a connection is asked to do, in whatever order, it keeps no more answers than its
  -- limit.
  pub Life-bounded :
      (monotonic : ℕ) (m : Metrics) (c : Connection)
      → Life (connect monotonic m).connection c
      → length c.terminals ≤ settings.terminal_limit
  Life-bounded monotonic m c life =
      (Life-IsOrdered (connect monotonic m).connection c (connect-IsOrdered monotonic m)
        life).bounded
