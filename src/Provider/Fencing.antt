-- ===== src/Provider/Fencing.antt =====
-- authentication_baseline_operations.py: the transactions of the workers on the row of the circuit
-- breaker, in any order, and the verdicts of probes.
use new_mud_codex.Shared.{
  ℕ, ◌+◌, ◌≤◌, ◌<◌, ◌≡◌, refl, ◌∙◌, Bool, true, false, not, ◌&&◌, ◌||◌, none, some, arith, inl, inr,
  Bool-cases, nat_eq, ℕ_equality, seconds, ap, ◌⊎◌, subst,
}
use new_mud_codex.Errors.{pure}
use new_mud_codex.Provider.{
  WorkerRole, verification_delivery, security_notification, ProviderOutcome, success,
  transient_failure, message_transient_failure, permanent_failure, RuntimeState, probing,
  ProviderSettings, ProbePermit, probe, is_closed, begin_poll, poll_row, after_test_backend,
  heartbeat, finish_provider_probe, fail_provider, finish_provider_attempt, probe_due, probe_lost,
  Runtime, row_or_created,
}

module _ (settings : ProviderSettings) where
  -- One transaction of a worker.
  pub data Moves (s : RuntimeState) : RuntimeState → Type 0 where
    polled :
        (role : WorkerRole) (now token : ℕ)
        → Moves s (begin_poll settings role now token (some s)).1
    probed :
        (p : ProbePermit) (succeeded : Bool) (now : ℕ)
        → Moves s (finish_provider_probe settings p succeeded now s).1
    attempted :
        (version : ℕ) (outcome : ProviderOutcome) (now : ℕ) {s' : RuntimeState}
        → finish_provider_attempt settings version outcome now (some s) ≡ pure (some s')
        → Moves s s'

  pub data Steps : RuntimeState → RuntimeState → Type 0 where
    stay : {s : RuntimeState} → Steps s s
    move : {s t u : RuntimeState} → Moves s t → Steps t u → Steps s u

  -- The circuit breaker's own columns are the same.
  pub record SameCircuit (s t : RuntimeState) : Type 0 where
    pub same_state : t.provider_state ≡ s.provider_state
    pub same_token : t.provider_probe_token ≡ s.provider_probe_token
    pub same_lease : t.provider_probe_expires_at ≡ s.provider_probe_expires_at

  -- The version has grown, or nothing about the circuit has changed.
  abbrev pub Later : RuntimeState → RuntimeState → Type 0
  Later s t =
      (s.provider_version < t.provider_version)
      ⊎ ((t.provider_version ≡ s.provider_version) × SameCircuit s t)

  Later-refl : (s : RuntimeState) → Later s s
  Later-refl s = inr (refl, record { same_state = refl; same_token = refl; same_lease = refl })

  Later-trans : (s t u : RuntimeState) → Later s t → Later t u → Later s u
  Later-trans s t u (inl a) (inl b) = inl (omega arith)
  Later-trans s t u (inl a) (inr (b, _)) = inl (omega arith)
  Later-trans s t u (inr (a, _)) (inl b) = inl (omega arith)
  Later-trans s t u (inr (a, x)) (inr (b, y)) = inr (
    b ∙ a,
    record {
      same_state = y.same_state ∙ x.same_state;
      same_token = y.same_token ∙ x.same_token;
      same_lease = y.same_lease ∙ x.same_lease;
    },
  )

  beat-Later : (role : WorkerRole) (now : ℕ) (s : RuntimeState) → Later s (heartbeat role now s)
  beat-Later verification_delivery now s =
      inr (refl, record { same_state = refl; same_token = refl; same_lease = refl })
  beat-Later security_notification now s =
      inr (refl, record { same_state = refl; same_token = refl; same_lease = refl })

  test_backend-Later : (s : RuntimeState) → Later s (after_test_backend settings s)
  test_backend-Later s =
      elim (Bool-cases (settings.allow_test_email_backend && not (is_closed s.provider_state))) [
        | inl t ↦ rw t (inl (omega arith))
        | inr f ↦ rw f (Later-refl s)
      ]

  poll_row-Later : (now token : ℕ) (s : RuntimeState) → Later s (poll_row settings now token s).1
  unfolding poll_row
  poll_row-Later now token s = elim (Bool-cases (is_closed s.provider_state)) [
    | inl t ↦ rw t (Later-refl s)
    | inr f ↦ elim (Bool-cases (probe_due settings s now)) [
      | inl due ↦ rw (f, due) (inl (omega arith))
      | inr idle ↦ rw (f, idle) (Later-refl s)
    ]
  ]

  finish-Later :
      (p : ProbePermit) (b : Bool) (now : ℕ) (s : RuntimeState)
      → Later s (finish_provider_probe settings p b now s).1
  unfolding finish_provider_probe
  finish-Later p b now s = elim (Bool-cases (probe_lost settings p now s)) [
    | inl t ↦ rw t (Later-refl s)
    | inr f ↦ elim (Bool-cases b) [
      | inl y ↦ rw (f, y) (inl (omega arith))
      | inr n ↦ rw (f, n) (inl (omega arith))
    ]
  ]

  fail-Later : (v now : ℕ) (s : RuntimeState) → Later s (fail_provider settings v now s)
  fail-Later v now s =
      elim (Bool-cases (not (is_closed s.provider_state) || not (nat_eq s.provider_version v))) [
        | inl t ↦ rw t (Later-refl s)
        | inr f ↦ rw f (inl (omega arith))
      ]

  attempt-Later :
      (v : ℕ) (o : ProviderOutcome) (now : ℕ) (s t : RuntimeState)
      → finish_provider_attempt settings v o now (some s) ≡ pure (some t)
      → Later s t
  unfolding finish_provider_attempt
  attempt-Later v success now s t e = subst (Later s) (cc e) (Later-refl s)
  attempt-Later v message_transient_failure now s t e = subst (Later s) (cc e) (Later-refl s)
  attempt-Later v permanent_failure now s t e = subst (Later s) (cc e) (Later-refl s)
  attempt-Later v transient_failure now s t e = subst (Later s) (cc e) (fail-Later v now s)

  pub Moves-Later : (s t : RuntimeState) → Moves s t → Later s t
  unfolding begin_poll
  Moves-Later s _ (polled role now token) =
      Later-trans s (heartbeat role now s) _ (beat-Later role now s) (
        Later-trans _ (after_test_backend settings (heartbeat role now s)) _
          (test_backend-Later (heartbeat role now s))
          (poll_row-Later now token (after_test_backend settings (heartbeat role now s))))
  Moves-Later s _ (probed p b now) = finish-Later p b now s
  Moves-Later s t (attempted v o now e) = attempt-Later v o now s t e

  pub Steps-Later : (s t : RuntimeState) → Steps s t → Later s t
  Steps-Later s _ stay = Later-refl s
  Steps-Later s u (move {t = t} m rest) =
      Later-trans s t u (Moves-Later s t m) (Steps-Later t u rest)

  -- What a poll that starts a probe leaves.
  pub record Started (now : ℕ) (p : ProbePermit) (s : RuntimeState) : Type 0 where
    pub is_running : s.provider_state ≡ probing
    pub numbered : s.provider_version ≡ p.version
    pub held : s.provider_probe_token ≡ some p.token
    pub lease :
        s.provider_probe_expires_at ≡ some (now + seconds settings.provider_probe_lease_seconds)

  pub poll_row-Started :
      (now token : ℕ) (s s0 : RuntimeState) (p : ProbePermit)
      → poll_row settings now token s ≡ (probe p, s0)
      → Started now p s0
  unfolding poll_row
  poll_row-Started now token s s0 p e = elim (Bool-cases (is_closed s.provider_state)) [
    | inl t ↦ absurd (cc (ap (λ x. x.0) (rw t at e)))
    | inr f ↦ elim (Bool-cases (probe_due settings s now)) [
      | inl due ↦
          (let e' = rw (f, due) at e in
            let same = ap (λ x. x.1) e' in
            let given : probe (record { version = s.provider_version + 1; token = token })
                ≡ probe p =
              ap (λ x. x.0) e' in
            subst (Started now p) same (record {
              is_running = refl;
              numbered = ground arith;
              held = ground arith;
              lease = refl;
            }))
      | inr idle ↦ absurd (cc (ap (λ x. x.0) (rw (f, idle) at e)))
    ]
  ]

  pub begin_poll-Started :
      (role : WorkerRole) (now token : ℕ) (row : Runtime) (s0 : RuntimeState) (p : ProbePermit)
      → begin_poll settings role now token row ≡ (probe p, s0)
      → Started now p s0
  unfolding begin_poll
  begin_poll-Started role now token row s0 p e =
      poll_row-Started now token
        (after_test_backend settings (heartbeat role now (row_or_created row now))) s0 p e

  -- A verdict that counts.
  kept_parts :
      (p : ProbePermit) (b : Bool) (now v : ℕ) (s : RuntimeState)
      → (finish_provider_probe settings p b now s).0 ≡ some v
      → (b ≡ true)
        × (s.provider_version ≡ p.version)
        × (v ≡ p.version + 1)
        × (probe_lost settings p now s ≡ false)
  unfolding finish_provider_probe
  kept_parts p b now v s e = ground arith

  -- A probe of the mail provider closes the circuit only if it succeeded, only before its lease
  -- ends, and only if no transaction of any worker has changed the circuit since the probe began.
  pub probe_fenced :
      (role : WorkerRole) (now token done v : ℕ) (row : Runtime) (b : Bool) (s0 s1 : RuntimeState)
      (p : ProbePermit)
      → begin_poll settings role now token row ≡ (probe p, s0)
      → Steps s0 s1
      → (finish_provider_probe settings p b done s1).0 ≡ some v
      → (b ≡ true)
        × (done < now + seconds settings.provider_probe_lease_seconds)
        × SameCircuit s0 s1
  probe_fenced role now token done v row b s0 s1 p e steps kept =
      let st = begin_poll-Started role now token row s0 p e in
      let (succeeded, same_version, _, mine) = kept_parts p b done v s1 kept in
      elim (Steps-Later s0 s1 steps) [
        | inl later ↦ (let x = st.numbered in absurd (omega arith))
        | inr (_, same) ↦
            (succeeded, (let leased = same.same_lease ∙ st.lease in ground arith), same)
      ]

  poll_row-newer :
      (now token : ℕ) (s s0 : RuntimeState) (p : ProbePermit)
      → poll_row settings now token s ≡ (probe p, s0)
      → s.provider_version < s0.provider_version
  unfolding poll_row
  poll_row-newer now token s s0 p e = ground arith

  begin_poll-newer :
      (role : WorkerRole) (now token : ℕ) (s s0 : RuntimeState) (p : ProbePermit)
      → begin_poll settings role now token (some s) ≡ (probe p, s0)
      → s.provider_version < s0.provider_version
  unfolding begin_poll
  begin_poll-newer role now token s s0 p e =
      let newer = poll_row-newer now token _ s0 p e in
      elim (Later-trans s (heartbeat role now s) _ (beat-Later role now s)
        (test_backend-Later (heartbeat role now s))) [
          | inl grown ↦ omega arith
          | inr (same, _) ↦ omega arith
        ]

  lost_by_version :
      (p : ProbePermit) (now : ℕ) (s : RuntimeState)
      → p.version < s.provider_version
      → probe_lost settings p now s ≡ true
  lost_by_version p now s h = ground arith

  Later-le : (s t : RuntimeState) → Later s t → s.provider_version ≤ t.provider_version
  Later-le s t (inl h) = omega arith
  Later-le s t (inr (h, _)) = omega arith

  -- Once a later poll has begun another probe, the verdict of the earlier probe changes nothing,
  -- whatever the workers do in between.
  pub probe_superseded :
      (role role' : WorkerRole) (now now' token token' done : ℕ) (row : Runtime) (b : Bool)
      (s0 s1 s2 s3 : RuntimeState) (p q : ProbePermit)
      → begin_poll settings role now token row ≡ (probe p, s0)
      → Steps s0 s1
      → begin_poll settings role' now' token' (some s1) ≡ (probe q, s2)
      → Steps s2 s3
      → finish_provider_probe settings p b done s3 ≡ (none, s3)
  unfolding finish_provider_probe
  probe_superseded role role' now now' token token' done row b s0 s1 s2 s3 p q e steps e' steps' =
      let st = (begin_poll-Started role now token row s0 p e).numbered in
      let a = Later-le s0 s1 (Steps-Later s0 s1 steps) in
      let n = begin_poll-newer role' now' token' s1 s2 q e' in
      let z = Later-le s2 s3 (Steps-Later s2 s3 steps') in
      rw (lost_by_version p done s3 (omega arith))
