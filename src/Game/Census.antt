-- ===== src/Game/Census.antt =====
-- game_session_metrics.py and consumers.py: the counters and the connections that they count.
use new_mud_codex.Shared.{
  ℕ, ◌+◌, ◌-◌, ◌≡◌, ◌≢◌, refl, sym, ◌∙◌, ap, subst, Bool, true, false, Option, none, some, arith,
  Bool-cases, inl, inr, ◌==◌, if◌then◌else◌, ltb, holds, false≢true,
}
use new_mud_codex.Shared.Text.{Text, Text_equality, text_eq_iff}
use new_mud_codex.Shared.Dicts.{
  lookup, insert, lookup-insert_own, lookup-insert_other, lookup-remove_own, lookup-remove_other,
}
use new_mud_codex.Game.Metrics.{
  Metrics, bound, or_zero, auth_session_bound, auth_session_unbound, request_finished,
  connection_closed,
}
use new_mud_codex.Game.Connection.{
  Connection, Game, GameSettings, say, resend, finish_request, keep_terminal, bind_metric,
  unbind_auth_session_metric, unbind, close_metric_if,
}
use new_mud_codex.Game.Requests.{Request}
use new_mud_codex.Game.Effects.{
  Effect, adjusts, says, repeats, finishes, keeps, binds, unbinds, forgets, leaves, Effects, done,
  next,
}

abbrev pub is_bound_to : Text → Connection → Bool
is_bound_to id c = holds c.metric_auth_session_id id

abbrev pub is_open : Connection → Bool
is_open c = c.connection_metric_open

abbrev pub one_if : Bool → ℕ
one_if b = if b then 1 else 0

ne_of : (i id : Text) → (i == id) ≡ false → i ≢ id
ne_of i id f e = false≢true (sym f ∙ (text_eq_iff i id).1 e)

-- A binding adds one to its own count.
bound-auth_session_bound :
    (i id : Text) (m : Metrics) → bound id (auth_session_bound i m) ≡ bound id m + one_if (i == id)
unfolding bound auth_session_bound
bound-auth_session_bound i id m = elim (Bool-cases (i == id)) [
  | inl t ↦ rw t (
      subst
        (λ k. or_zero (lookup k (insert i (bound i m + 1) m.auth_session_bindings)) ≡ bound k m + 1)
        ((text_eq_iff i id).0 t) (ap or_zero (lookup-insert_own i _ m.auth_session_bindings)))
  | inr f ↦
      rw f (
        ap or_zero (lookup-insert_other i id _ m.auth_session_bindings (ne_of i id f))
        ∙ omega arith)
]

unbound-own : (i : Text) (m : Metrics) → bound i (auth_session_unbound i m) ≡ bound i m - 1
unfolding bound auth_session_unbound
unbound-own i m = elim (Bool-cases (ltb 1 (bound i m))) [
  | inl t ↦ rw t (ap or_zero (lookup-insert_own i _ m.auth_session_bindings))
  | inr f ↦ rw f (ap or_zero (lookup-remove_own i m.auth_session_bindings) ∙ ground arith)
]

unbound-other :
    (i id : Text) (m : Metrics) → i ≢ id → bound id (auth_session_unbound i m) ≡ bound id m
unfolding bound auth_session_unbound
unbound-other i id m ne = elim (Bool-cases (ltb 1 (bound i m))) [
  | inl t ↦ rw t (ap or_zero (lookup-insert_other i id _ m.auth_session_bindings ne))
  | inr f ↦ rw f (ap or_zero (lookup-remove_other i id m.auth_session_bindings ne))
]

bound-auth_session_unbound :
    (i id : Text) (m : Metrics)
    → bound id (auth_session_unbound i m) ≡ bound id m - one_if (i == id)
bound-auth_session_unbound i id m = elim (Bool-cases (i == id)) [
  | inl t ↦ rw t (
      subst (λ k. bound k (auth_session_unbound i m) ≡ bound k m - 1) ((text_eq_iff i id).0 t)
        (unbound-own i m))
  | inr f ↦ rw f (unbound-other i id m (ne_of i id f) ∙ omega arith)
]

-- The counters are those of this connection and of the others.
pub record Counts (others : Text → ℕ) (others_open : ℕ) (g : Game) : Type 0 where
  pub bindings : (id : Text) → bound id g.metrics ≡ others id + one_if (is_bound_to id g.connection)
  pub online : g.metrics.online_connections ≡ others_open + one_if (is_open g.connection)

module _ (settings : GameSettings) (r : Request) (others : Text → ℕ) (others_open : ℕ) where
  unbind-Counts :
      (o : Option Text) (g : Game)
      → g.connection.metric_auth_session_id ≡ o
      → Counts others others_open g
      → Counts others others_open (unbind o g)
  unfolding auth_session_unbound
  unbind-Counts none g e n = n
  unbind-Counts (some i) g e n = record {
    bindings = λ id.
        let before : bound id g.metrics ≡ others id + one_if (i == id) =
          n.bindings id ∙ ap (λ o. others id + one_if (holds o id)) e in
        omega (arith, bound-auth_session_unbound i id g.metrics);
    online = n.online;
  }

  close_metric-Counts :
      (b : Bool) (g : Game)
      → g.connection.connection_metric_open ≡ b
      → Counts others others_open g
      → Counts others others_open (close_metric_if b g)
  unfolding connection_closed bound
  close_metric-Counts true g e n = record {
    bindings = n.bindings;
    online = let before = n.online ∙ ap (λ b. others_open + one_if b) e in omega arith;
  }
  close_metric-Counts false g e n = n

  Effect-Counts :
      (g g' : Game)
      → Counts others others_open g
      → Effect settings r g g'
      → Counts others others_open g'
  unfolding say resend finish_request request_finished keep_terminal bind_metric
      unbind_auth_session_metric auth_session_bound bound
  Effect-Counts g g' n (adjusts c s) = record {
    bindings = λ id. n.bindings id ∙ ap (λ o. others id + one_if (holds o id)) (sym s.metric);
    online = n.online ∙ ap (λ b. others_open + one_if b) (sym s.metric_open);
  }
  Effect-Counts g g' n (says now i p) = record { bindings = n.bindings; online = n.online }
  Effect-Counts g g' n (repeats now e) = record { bindings = n.bindings; online = n.online }
  Effect-Counts g g' n (finishes d f) = record { bindings = n.bindings; online = n.online }
  Effect-Counts g g' n (keeps t same h) = record { bindings = n.bindings; online = n.online }
  Effect-Counts g g' n (binds i free signed) = record {
    bindings = λ id.
        let before : bound id g.metrics ≡ others id + 0 =
          n.bindings id ∙ ap (λ o. others id + one_if (holds o id)) free in
        omega (arith, bound-auth_session_bound i id g.metrics);
    online = n.online;
  }
  Effect-Counts g g' n unbinds = unbind-Counts g.connection.metric_auth_session_id g refl n
  Effect-Counts g g' n (forgets free) = record { bindings = n.bindings; online = n.online }
  Effect-Counts g g' n leaves = close_metric-Counts g.connection.connection_metric_open g refl n

  pub Effects-Counts :
      (g g' : Game)
      → Counts others others_open g
      → Effects settings r g g'
      → Counts others others_open g'
  Effects-Counts g g' n done = n
  Effects-Counts g g' n (next {h = h} es e) = Effect-Counts h g' (Effects-Counts g h n es) e
