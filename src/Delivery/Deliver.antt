-- ===== src/Delivery/Deliver.antt =====
-- verification_delivery.py: `deliver_one_verification`, one turn of the worker.
use new_mud_codex.Shared.{ℕ, Bool, true, false, Option, none, some, if◌then◌else◌}
use new_mud_codex.Shared.Text.{Text}
use new_mud_codex.Errors.{Result, pure, raise, provider_accepted_crash}
use new_mud_codex.Provider.{
  Runtime, RuntimeState, ProviderSettings, ProviderOutcome, success, transient_failure,
  message_transient_failure, permanent_failure, verification_delivery, prepare_worker_poll,
  finish_provider_attempt,
}
use new_mud_codex.Delivery.{
  Externals, DeliverySettings, DeliveryOutcome, no_work, delivery_failed, ClaimedDelivery,
  VerificationEmail, message_from_payload, terminalize_one_exhausted_lease, claim_delivery,
}
use new_mud_codex.Delivery.Finish.{finish_delivery, record_failure}
use new_mud_codex.Delivery.Tables.{Mail}

-- How `sender.send` ends.
pub data Sent : Type 0 where
  accepted refused_permanently message_deferred provider_failed : Sent

-- The values that the surroundings supply to one turn: the clock at each of its reads, the new probe
-- token and whether the probe succeeds, which rows others have locked, and what they do to the
-- tables between this worker's transactions.
pub record Turn : Type 0 where
  pub polled_at : ℕ
  pub probe_token : ℕ
  pub probe_succeeds : Bool
  pub probed_at : ℕ
  pub during_probe : RuntimeState → RuntimeState
  pub now : ℕ
  pub locked_exhausted : ℕ → Bool
  pub locked_eligible : ℕ → Bool
  pub during_send : Mail → Mail
  pub attempt_at : ℕ
  pub finished_at : ℕ
  pub crash_after_provider_accept : Bool

module _ (x : Externals) (provider : ProviderSettings) (settings : DeliverySettings)
    (send : VerificationEmail → Sent) where
  -- the verdict of sending, and an unusable payload counts as a permanent failure
  abbrev pub send_payload : Result VerificationEmail → Sent
  send_payload (pure m) = send m
  send_payload (raise e) = refused_permanently

  abbrev pub provider_outcome : Sent → ProviderOutcome
  provider_outcome accepted = success
  provider_outcome refused_permanently = permanent_failure
  provider_outcome message_deferred = message_transient_failure
  provider_outcome provider_failed = transient_failure

  abbrev pub settle : Sent → ClaimedDelivery → Turn → Mail → Result (DeliveryOutcome × Mail)
  settle accepted claim t mail =
      if t.crash_after_provider_accept
      then raise provider_accepted_crash
      else finish_delivery x settings claim t.finished_at mail
  settle refused_permanently claim t mail = record_failure x settings claim true t.finished_at mail
  settle message_deferred claim t mail = record_failure x settings claim false t.finished_at mail
  settle provider_failed claim t mail = record_failure x settings claim false t.finished_at mail

  -- The tables as they are when the turn ends: an exception undoes only the transaction it ends.
  abbrev pub kept : Result (DeliveryOutcome × Mail) → Mail → Result DeliveryOutcome × Mail
  kept (pure (outcome, mail')) mail = (pure outcome, mail')
  kept (raise e) mail = (raise e, mail)

  abbrev with_outcome :
      Result Runtime
      → Runtime
      → Result DeliveryOutcome × Mail
      → Mail
      → Result DeliveryOutcome × (Mail × Runtime)
  with_outcome (pure row') row (r, mail') mail = (r, (mail', row'))
  with_outcome (raise e) row done mail = (raise e, (mail, row))

  abbrev pub send_claim :
      ℕ → ClaimedDelivery → Turn → Mail → Runtime → Result DeliveryOutcome × (Mail × Runtime)
  send_claim version claim t mail row =
      let sent = send_payload (message_from_payload claim.payload) in
      let mail' = t.during_send mail in
      with_outcome
        (finish_provider_attempt provider version (provider_outcome sent) t.attempt_at row) row
        (kept (settle sent claim t mail') mail') mail'

  abbrev claimed :
      ℕ
      → Result (Option ClaimedDelivery × Mail)
      → Turn
      → Mail
      → Runtime
      → Result DeliveryOutcome × (Mail × Runtime)
  claimed version (raise e) t mail row = (raise e, (mail, row))
  claimed version (pure (none, mail')) t mail row = (pure no_work, (mail', row))
  claimed version (pure (some claim, mail')) t mail row = send_claim version claim t mail' row

  abbrev swept :
      ℕ
      → Result (Bool × Mail)
      → Text
      → Turn
      → Mail
      → Runtime
      → Result DeliveryOutcome × (Mail × Runtime)
  swept version (raise e) worker_id t mail row = (raise e, (mail, row))
  swept version (pure (true, mail')) worker_id t mail row = (pure delivery_failed, (mail', row))
  swept version (pure (false, mail')) worker_id t mail row =
      claimed version (claim_delivery x settings t.locked_eligible worker_id t.now mail') t mail'
        row

  abbrev permitted :
      Result (Option ℕ × RuntimeState)
      → Text
      → Turn
      → Mail
      → Runtime
      → Result DeliveryOutcome × (Mail × Runtime)
  permitted (raise e) worker_id t mail row = (raise e, (mail, row))
  permitted (pure (none, s)) worker_id t mail row = (pure no_work, (mail, some s))
  permitted (pure (some version, s)) worker_id t mail row =
      swept version (terminalize_one_exhausted_lease x settings t.locked_exhausted t.now mail)
        worker_id t mail (some s)

  unfoldable pub deliver_one_verification :
      Text → Turn → Mail → Runtime → Result DeliveryOutcome × (Mail × Runtime)
  deliver_one_verification worker_id t mail row =
      permitted
        (prepare_worker_poll provider verification_delivery t.polled_at t.probe_token
          t.probe_succeeds t.probed_at t.during_probe row)
        worker_id t mail row
