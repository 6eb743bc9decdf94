-- ===== src/Game/Serving.antt =====
-- consumers.py, `receive`: the effects of a frame on its connection.
use new_mud_codex.Shared.{
  ◌≡◌, refl, subst, Bool, true, false, not, ◌&&◌, ◌||◌, Option, none, some, [], ◌∷◌, Bool-cases,
  inl, inr, if◌then◌else◌, is_some, ◌==◌, holds, holds_iff,
}
use new_mud_codex.Shared.Text.{Text, Text_equality, codes}
use new_mud_codex.Shared.Dicts.{member}
use new_mud_codex.Errors.{pure, bind-eq-pure, pure-injective}
use new_mud_codex.Tokens.{Crypto}
use new_mud_codex.Sessions.Tables.{AuthSession}
use new_mud_codex.Content.Values.{Fields, get_field, count_fields}
use new_mud_codex.Game.Connection.{
  Game, GameSettings, Clock, Terminal, Reply, failure, authenticated, pong, session_ready, closing,
  is_failure, say, send_terminal, keep_terminal, terminal_capacity_available, bind_metric,
  bind_auth_session_metric, fail_request,
}
use new_mud_codex.Game.Binding.{Reads, Found, session, refused, binding_is_active, resolve_session}
use new_mud_codex.Game.Requests.{
  Request, fail_and_keep, fail_with, terminal, reject_rate_limited, replay, is_ping, ping,
  serve_other, bind_session, signed_out, start_revalidation, welcome, with_session, with_token,
  sign_in, authenticate, with_payload, serve, presence_requests, text_of, fields_of, has_keys,
  or_empty,
}
use new_mud_codex.Game.Effects.{
  IsLinked, Effect, adjusts, says, repeats, finishes, keeps, binds, Effects, done, next,
  Effects-trans, Capacity, send_terminal-Effects, answer-Effects, refuse-Effects,
  fail_and_keep-Effects, transition-Effect, close-Effect,
}

is_some-none : (o : Option AuthSession) → is_some o ≡ false → o ≡ none
is_some-none none h = refl
is_some-none (some s) h = absurd (cc h)

module _ (settings : GameSettings) (r : Request) where
  pub reject-Effects :
      (clock : Clock) (g : Game) → Effects settings r g (reject_rate_limited settings clock r g)
  unfolding reject_rate_limited fail_request
  reject-Effects clock g =
      let g' = (send_terminal clock r.request_id over g).1 in
      next
        (next
          (Effects-trans settings r g g' _ (send_terminal-Effects settings r clock over g)
            (keep_if (terminal_capacity_available settings g'.connection) g' refl))
          (transition-Effect settings r closing _))
        (close-Effect settings r 1008 _)
    where
      over : Reply
      over = failure r.request_type (codes "RATE_LIMITED") true

      t : Terminal
      t = terminal r.digest (send_terminal clock r.request_id over g).0 false

      keep_if :
          (b : Bool) (h : Game)
          → terminal_capacity_available settings h.connection ≡ b
          → Effects settings r h (if b then keep_terminal r.request_id t h else h)
      keep_if true h e = next done (keeps t refl e)
      keep_if false h e = done

  pub replay-Effects :
      (clock : Clock) (t : Terminal) (reads : Reads) (g : Game)
      → Effects settings r g (replay settings clock r t reads g)
  unfolding replay
  replay-Effects clock t reads g = elim (Bool-cases (t.request_hash == r.digest)) [
    | inr e ↦ rw e (refuse-Effects settings r clock (codes "REQUEST_ID_CONFLICT") g)
    | inl e ↦
        elim (Bool-cases (
          t.requires_active_auth_binding
          && not (binding_is_active settings g.connection.auth_session reads))) [
            | inl b ↦ rw (e, b) (refuse-Effects settings r clock (codes "SESSION_REVOKED") g)
            | inr b ↦
                rw (e, b)
                  (next (next done (repeats clock.now t.envelope))
                    (finishes clock.duration_ms (is_failure t.envelope.payload)))
          ]
  ]

  ping-Effects :
      (clock : Clock) (payload : Fields) (g : Game)
      → Capacity settings r g
      → Effects settings r g (ping settings clock r payload g)
  unfolding ping
  ping-Effects clock payload g h =
      elim (Bool-cases (is_ping (get_field (codes "nonce") payload) (count_fields payload))) [
        | inl e ↦ rw e (
            answer-Effects settings r clock
              (pong (text_of (get_field (codes "nonce") payload)) clock.now) false g h)
        | inr e ↦ rw e (fail_and_keep-Effects settings r clock (codes "PAYLOAD_INVALID") g h)
      ]

  serve_other-Effects :
      (clock : Clock) (reads : Reads) (g : Game)
      → Capacity settings r g
      → Effects settings r g (serve_other settings clock r reads g)
  unfolding serve_other
  serve_other-Effects clock reads g h =
      fails
        (is_some g.connection.auth_session
          && not (binding_is_active settings g.connection.auth_session reads))
        (not (is_some g.connection.auth_session)) (member r.request_type presence_requests)
    where
      refusal : (code : Text) → Effects settings r g (fail_and_keep clock r code g)
      refusal code = fail_and_keep-Effects settings r clock code g h

      fails :
          (a b c : Bool)
          → Effects settings r g (
              if a
              then fail_and_keep clock r (codes "SESSION_REVOKED") g
              else if b
              then fail_and_keep clock r (codes "AUTH_REQUIRED") g
              else if c
              then fail_and_keep clock r (codes "PRESENCE_REQUIRED") g
              else fail_and_keep clock r (codes "REQUEST_TYPE_UNSUPPORTED") g)
      fails true b c = refusal (codes "SESSION_REVOKED")
      fails false true c = refusal (codes "AUTH_REQUIRED")
      fails false false true = refusal (codes "PRESENCE_REQUIRED")
      fails false false false = refusal (codes "REQUEST_TYPE_UNSUPPORTED")

  module _ (c : Crypto) where
    bind-Effects :
        (id : Text) (g : Game)
        → g.connection.metric_auth_session_id ≡ none
        → is_some g.connection.auth_session ≡ true
        → Effects settings r g (bind_auth_session_metric id g)
    unfolding bind_auth_session_metric
    bind-Effects id g free signed =
        elim (Bool-cases (holds g.connection.metric_auth_session_id id)) [
          | inl t ↦ absurd (cc (free, (holds_iff g.connection.metric_auth_session_id id).0 t))
          | inr f ↦ rw f (next done (binds id free signed))
        ]

    start_revalidation-Effect : (g : Game) → Effect settings r g (start_revalidation g)
    start_revalidation-Effect g = adjusts _ (record {
      seq = refl;
      sent = refl;
      terminals = refl;
      metric = refl;
      metric_open = refl;
      auth = λ h. h;
    })

    bind-Capacity :
        (id : Text) (g : Game)
        → Capacity settings r g
        → Capacity settings r (bind_auth_session_metric id g)
    unfolding bind_auth_session_metric bind_metric terminal_capacity_available
    bind-Capacity id g h = elim (Bool-cases (holds g.connection.metric_auth_session_id id)) [
      | inl e ↦ rw e h
      | inr e ↦ rw e h
    ]

    welcome-Effects :
        (clock : Clock) (s : AuthSession) (g : Game)
        → g.connection.metric_auth_session_id ≡ none
        → is_some g.connection.auth_session ≡ true
        → Capacity settings r g
        → Effects settings r g (welcome settings c clock r s g)
    unfolding say terminal_capacity_available
    welcome-Effects clock s g free signed h =
        let id = c.str_of_uuid s.auth_session_id in
        let bound = bind_auth_session_metric id g in
        let started = start_revalidation bound in
        next
          (next
            (next
              (next (next (bind-Effects id g free signed) (start_revalidation-Effect bound))
                (says clock.now (some r.request_id) (authenticated s)))
              (keeps
                (terminal r.digest (say clock.now (some r.request_id) (authenticated s) started).0
                  true)
                refl (bind-Capacity id g h)))
            (finishes clock.duration_ms false))
          (says clock.now none (session_ready s))

    with_session-Effects :
        (clock : Clock) (found : Found) (reads : Reads) (g : Game)
        → g.connection.metric_auth_session_id ≡ none
        → g.connection.auth_session ≡ none
        → Capacity settings r g
        → Effects settings r g (with_session settings c clock r found reads g)
    unfolding terminal_capacity_available
    with_session-Effects clock (refused code) reads g free out h =
        fail_and_keep-Effects settings r clock _ g h
    with_session-Effects clock (session s) reads g free out h =
        elim (Bool-cases (binding_is_active settings (some s) reads)) [
          | inl e ↦ rw e (
              Effects-trans settings r g (bind_session settings c s g) _
                (next done (
                  adjusts _ (record {
                    seq = refl;
                    sent = refl;
                    terminals = refl;
                    metric = refl;
                    metric_open = refl;
                    auth = λ x. out;
                  })))
                (welcome-Effects clock s (bind_session settings c s g) free refl h))
          | inr e ↦ rw e (
              Effects-trans settings r g (signed_out g) _
                (next done (
                  adjusts _ (record {
                    seq = refl;
                    sent = refl;
                    terminals = refl;
                    metric = refl;
                    metric_open = refl;
                    auth = λ x. out;
                  })))
                (fail_and_keep-Effects settings r clock (codes "SESSION_REVOKED") (signed_out g) h))
        ]

    sign_in-Effects :
        (signed : Bool) (token : Text) (clock : Clock) (reads : Reads) (g g' : Game)
        → is_some g.connection.auth_session ≡ signed
        → IsLinked g.connection
        → Capacity settings r g
        → sign_in settings c signed token clock r reads g ≡ pure g'
        → Effects settings r g g'
    sign_in-Effects true token clock reads g g' q l h e =
        subst (Effects settings r g) (pure-injective e)
          (fail_and_keep-Effects settings r clock _ g h)
    sign_in-Effects false token clock reads g g' q l h e =
        let (found, _, k) = bind-eq-pure (resolve_session c settings token reads) _ e in
        let out : g.connection.auth_session ≡ none = is_some-none g.connection.auth_session q in
        subst (Effects settings r g) (pure-injective k)
          (with_session-Effects clock found reads g (l out) out h)

    with_token-Effects :
        (token : Option Text) (only : Bool) (clock : Clock) (reads : Reads) (g g' : Game)
        → IsLinked g.connection
        → Capacity settings r g
        → with_token settings c token only clock r reads g ≡ pure g'
        → Effects settings r g g'
    with_token-Effects none only clock reads g g' l h e =
        subst (Effects settings r g) (pure-injective e)
          (fail_and_keep-Effects settings r clock _ g h)
    with_token-Effects (some token) false clock reads g g' l h e =
        subst (Effects settings r g) (pure-injective e)
          (fail_and_keep-Effects settings r clock _ g h)
    with_token-Effects (some token) true clock reads g g' l h e =
        sign_in-Effects (is_some g.connection.auth_session) token clock reads g g' refl l h e

    with_payload-Effects :
        (clock : Clock) (payload : Option Fields) (reads : Reads) (g g' : Game)
        → IsLinked g.connection
        → Capacity settings r g
        → with_payload settings c clock r payload reads g ≡ pure g'
        → Effects settings r g g'
    unfolding authenticate
    with_payload-Effects clock none reads g g' l h e =
        subst (Effects settings r g) (pure-injective e)
          (fail_and_keep-Effects settings r clock _ g h)
    with_payload-Effects clock (some payload) reads g g' l h e =
        elim (Bool-cases (r.request_type == codes "session.authenticate")) [
          | inl t ↦
              with_token-Effects (text_of (get_field (codes "access_token") payload))
                (has_keys (codes "access_token" ∷ []) payload) clock reads g g' l h (rw t at e)
          | inr f ↦
              subst (Effects settings r g) (pure-injective (rw f at e))
                (elim (Bool-cases (r.request_type == codes "session.ping")) [
                  | inl t ↦ rw t (ping-Effects clock payload g h)
                  | inr f' ↦ rw f' (serve_other-Effects clock reads g h)
                ])
        ]

    pub serve-Effects :
        (clock : Clock) (fs : Fields) (failed : Bool) (reads : Reads) (g g' : Game)
        → IsLinked g.connection
        → serve settings c clock r fs failed reads g ≡ pure g'
        → Effects settings r g g'
    unfolding serve
    serve-Effects clock fs failed reads g g' l e =
        elim (Bool-cases (terminal_capacity_available settings g.connection)) [
          | inr full ↦
              subst (Effects settings r g) (pure-injective (rw full at e)) (reject-Effects clock g)
          | inl h ↦
              after h
                (not (
                    has_keys
                      (codes "version" ∷ codes "request_id" ∷ codes "type" ∷ codes "payload" ∷ [])
                      fs)
                  || failed)
                (not (or_empty (text_of (get_field (codes "version") fs)) == codes "1"))
                (not (is_some (text_of (get_field (codes "type") fs)))) (rw h at e)
        ]
      where
        after :
            Capacity settings r g
            → (a b d : Bool)
            → (if a
                then fail_with clock r g (codes "INVALID_ENVELOPE")
                else if b
                then fail_with clock r g (codes "UNSUPPORTED_PROTOCOL_VERSION")
                else if d
                then fail_with clock r g (codes "INVALID_ENVELOPE")
                else with_payload settings c clock r
                    (fields_of (get_field (codes "payload") fs))
                    reads
                    g)
              ≡ pure g'
            → Effects settings r g g'
        after h true b d k =
            subst (Effects settings r g) (pure-injective k)
              (fail_and_keep-Effects settings r clock (codes "INVALID_ENVELOPE") g h)
        after h false true d k =
            subst (Effects settings r g) (pure-injective k)
              (fail_and_keep-Effects settings r clock (codes "UNSUPPORTED_PROTOCOL_VERSION") g h)
        after h false false true k =
            subst (Effects settings r g) (pure-injective k)
              (fail_and_keep-Effects settings r clock (codes "INVALID_ENVELOPE") g h)
        after h false false false k =
            with_payload-Effects clock (fields_of (get_field (codes "payload") fs)) reads g g' l h k
