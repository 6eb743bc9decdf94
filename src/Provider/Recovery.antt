-- ===== src/Provider/Recovery.antt =====
-- authentication_baseline_operations.py: the constraint of the row, and polls that are due.
use new_mud_codex.Shared.{
  ℕ, ◌+◌, ◌≤◌, ◌<◌, ◌≡◌, refl, Bool, true, false, not, ◌&&◌, ◌||◌, Option, none, some, arith, inl,
  inr, Bool-cases, leb, nat_eq, nat_eq_refl, ℕ_equality, seconds, subst, is_some,
}
use new_mud_codex.Errors.{Result, pure}
use new_mud_codex.Provider.{
  WorkerRole, verification_delivery, security_notification, ProviderOutcome, success,
  transient_failure, message_transient_failure, permanent_failure, RuntimeState, ProviderState,
  closed, open_circuit, probing, ProviderSettings, ProbePermit, is_closed, begin_poll, poll_row,
  after_test_backend, heartbeat, finish_provider_probe, fail_provider, finish_provider_attempt,
  probe_due, probe_lost, Runtime, row_or_created, created, prepare_worker_poll, is_open, is_probing,
  is_past, start_probe, after_poll, close_provider,
}
use new_mud_codex.Provider.Fencing.{Moves, polled, probed, attempted, Steps, stay, move}

-- `identity_auth_baseline_provider_state`
abbrev pub circuit_columns : ProviderState → Bool → Bool → Bool → Bool
circuit_columns closed retry token lease = not retry && not token && not lease
circuit_columns open_circuit retry token lease = retry && not token && not lease
circuit_columns probing retry token lease = not retry && token && lease

-- The check constraints of the table.
pub record IsSound (s : RuntimeState) : Type 0 where
  pub columns :
      circuit_columns s.provider_state
        (is_some s.provider_retry_at)
        (is_some s.provider_probe_token)
        (is_some s.provider_probe_expires_at)
      ≡ true
  pub positive : 1 ≤ s.provider_version

abbrev pub latest : Option ℕ → Option ℕ → ℕ
latest none none = 0
latest none (some t) = t
latest (some t) _ = t

-- The moment from which a poll on the row is given a permit or a probe.
abbrev pub due_at : RuntimeState → ℕ
due_at s = latest s.provider_retry_at s.provider_probe_expires_at

module _ (settings : ProviderSettings) where
  created-IsSound : (now : ℕ) → IsSound (created now)
  created-IsSound now = record { columns = refl; positive = omega arith }

  beat-IsSound :
      (role : WorkerRole) (now : ℕ) (s : RuntimeState) → IsSound s → IsSound (heartbeat role now s)
  beat-IsSound verification_delivery now s i = record { columns = i.columns; positive = i.positive }
  beat-IsSound security_notification now s i = record { columns = i.columns; positive = i.positive }

  test_backend-IsSound : (s : RuntimeState) → IsSound s → IsSound (after_test_backend settings s)
  test_backend-IsSound s i =
      elim (Bool-cases (settings.allow_test_email_backend && not (is_closed s.provider_state))) [
        | inl t ↦ rw t (record { columns = refl; positive = omega arith })
        | inr f ↦ rw f i
      ]

  poll_row-IsSound :
      (now token : ℕ) (s : RuntimeState) → IsSound s → IsSound (poll_row settings now token s).1
  unfolding poll_row
  poll_row-IsSound now token s i = elim (Bool-cases (is_closed s.provider_state)) [
    | inl t ↦ rw t i
    | inr f ↦ elim (Bool-cases (probe_due settings s now)) [
      | inl due ↦ rw (f, due) (record { columns = refl; positive = omega arith })
      | inr idle ↦ rw (f, idle) i
    ]
  ]

  finish-IsSound :
      (p : ProbePermit) (b : Bool) (now : ℕ) (s : RuntimeState)
      → IsSound s
      → IsSound (finish_provider_probe settings p b now s).1
  unfolding finish_provider_probe
  finish-IsSound p b now s i = elim (Bool-cases (probe_lost settings p now s)) [
    | inl t ↦ rw t i
    | inr f ↦ elim (Bool-cases b) [
      | inl y ↦ rw (f, y) (record { columns = refl; positive = omega arith })
      | inr n ↦ rw (f, n) (record { columns = refl; positive = omega arith })
    ]
  ]

  fail-IsSound :
      (v now : ℕ) (s : RuntimeState) → IsSound s → IsSound (fail_provider settings v now s)
  fail-IsSound v now s i =
      elim (Bool-cases (not (is_closed s.provider_state) || not (nat_eq s.provider_version v))) [
        | inl t ↦ rw t i
        | inr f ↦ rw f (record { columns = refl; positive = omega arith })
      ]

  attempt-IsSound :
      (v : ℕ) (o : ProviderOutcome) (now : ℕ) (s t : RuntimeState)
      → finish_provider_attempt settings v o now (some s) ≡ pure (some t)
      → IsSound s
      → IsSound t
  unfolding finish_provider_attempt
  attempt-IsSound v success now s t e i = subst IsSound (cc e) i
  attempt-IsSound v message_transient_failure now s t e i = subst IsSound (cc e) i
  attempt-IsSound v permanent_failure now s t e i = subst IsSound (cc e) i
  attempt-IsSound v transient_failure now s t e i = subst IsSound (cc e) (fail-IsSound v now s i)

  row-IsSound :
      (row : Runtime) (now : ℕ)
      → ((s : RuntimeState) → row ≡ some s → IsSound s)
      → IsSound (row_or_created row now)
  row-IsSound none now h = created-IsSound now
  row-IsSound (some s) now h = h s refl

  -- The first poll creates a row that satisfies the constraints, and a poll keeps them.
  pub begin_poll-IsSound :
      (role : WorkerRole) (now token : ℕ) (row : Runtime)
      → ((s : RuntimeState) → row ≡ some s → IsSound s)
      → IsSound (begin_poll settings role now token row).1
  unfolding begin_poll
  begin_poll-IsSound role now token row h = poll_row-IsSound now token _ (
      test_backend-IsSound _
        (beat-IsSound role now (row_or_created row now) (row-IsSound row now h)))

  Moves-IsSound : (s t : RuntimeState) → Moves settings s t → IsSound s → IsSound t
  Moves-IsSound s _ (polled role now token) i =
      begin_poll-IsSound role now token (some s) (λ x e. subst IsSound (cc e) i)
  Moves-IsSound s _ (probed p b now) i = finish-IsSound p b now s i
  Moves-IsSound s t (attempted v o now e) i = attempt-IsSound v o now s t e i

  -- Every sequence of transactions of the workers keeps the check constraints of the row of the
  -- circuit breaker.
  pub Steps-IsSound : (s t : RuntimeState) → Steps settings s t → IsSound s → IsSound t
  Steps-IsSound s _ stay i = i
  Steps-IsSound s u (move {t = t} m rest) i = Steps-IsSound t u rest (Moves-IsSound s t m i)

  sound_due :
      (s : RuntimeState) (now : ℕ)
      → IsSound s
      → due_at s ≤ now
      → is_closed s.provider_state ≡ false
      → probe_due settings s now ≡ true
  sound_due s now i due f =
      by_state s.provider_state s.provider_retry_at s.provider_probe_token
        s.provider_probe_expires_at i.columns due f
    where
      by_state :
          (st : ProviderState) (r t x : Option ℕ)
          → circuit_columns st (is_some r) (is_some t) (is_some x) ≡ true
          → latest r x ≤ now
          → is_closed st ≡ false
          → ((is_open st && is_past r now) || (is_probing st && is_past x now)) ≡ true
      by_state closed r t x c d f = absurd (cc f)
      by_state open_circuit none t x c d f = absurd (cc c)
      by_state open_circuit (some r) t x c d f = ground arith
      by_state probing none t none c d f = ground arith
      by_state probing none t (some x) c d f = ground arith
      by_state probing (some r) t x c d f = absurd (cc c)

  -- The circuit is closed once the whole poll is over.
  abbrev pub Permitted : Result (Option ℕ × RuntimeState) → Type 0
  Permitted r = (v : ℕ) × (s : RuntimeState) × (r ≡ pure (some v, s)) × (s.provider_state ≡ closed)

  kept_probe :
      (now token done : ℕ) (s : RuntimeState)
      → done < now + seconds settings.provider_probe_lease_seconds
      → finish_provider_probe settings
          (record { version = s.provider_version + 1; token = token })
          true
          done
          (start_probe token (now + seconds settings.provider_probe_lease_seconds) s)
        ≡ (
          some (s.provider_version + 1 + 1),
          close_provider
              (start_probe token (now + seconds settings.provider_probe_lease_seconds) s),
        )
  unfolding finish_provider_probe
  kept_probe now token done s early =
      let held : leb (now + seconds settings.provider_probe_lease_seconds) done ≡ false =
        ground arith in
      rw (nat_eq_refl (s.provider_version + 1), nat_eq_refl token, held)

  row-recovers :
      (now token done : ℕ) (s : RuntimeState)
      → IsSound s
      → due_at s ≤ now
      → done < now + seconds settings.provider_probe_lease_seconds
      → Permitted (pure (after_poll settings (poll_row settings now token s) true done (λ t. t)))
  unfolding poll_row
  row-recovers now token done s i due early = elim (Bool-cases (is_closed s.provider_state)) [
    | inl t ↦ (s.provider_version, s, rw t, ground arith)
    | inr f ↦ (
      s.provider_version + 1 + 1,
      close_provider (start_probe token (now + seconds settings.provider_probe_lease_seconds) s),
      rw (f, sound_due s now i due f, kept_probe now token done s early),
      refl,
    )
  ]

  beat-due :
      (role : WorkerRole) (now : ℕ) (s : RuntimeState) → due_at (heartbeat role now s) ≡ due_at s
  beat-due verification_delivery now s = refl
  beat-due security_notification now s = refl

  test_backend-due : (s : RuntimeState) → due_at (after_test_backend settings s) ≤ due_at s
  test_backend-due s =
      elim (Bool-cases (settings.allow_test_email_backend && not (is_closed s.provider_state))) [
        | inl t ↦ rw t (omega arith)
        | inr f ↦ rw f (omega arith)
      ]

  -- On a row that satisfies the constraints of its table, or before there is a row, a poll made
  -- when the retry or the lease of the running probe is due, whose probe succeeds within its own
  -- lease with no other worker in between, is given a permit and leaves the circuit closed.
  pub poll-recovers :
      (role : WorkerRole) (now token done : ℕ) (row : Runtime)
      → settings.configured ≡ true
      → ((s : RuntimeState) → row ≡ some s → IsSound s)
      → due_at (row_or_created row now) ≤ now
      → done < now + seconds settings.provider_probe_lease_seconds
      → Permitted (prepare_worker_poll settings role now token true done (λ t. t) row)
  unfolding prepare_worker_poll begin_poll
  poll-recovers role now token done row configured h due early =
      let s = heartbeat role now (row_or_created row now) in
      let a = test_backend-due s in
      let b = beat-due role now (row_or_created row now) in
      simp (configured) (
        row-recovers now token done (after_test_backend settings s)
          (test_backend-IsSound s
            (beat-IsSound role now (row_or_created row now) (row-IsSound row now h)))
          (omega arith) early)
