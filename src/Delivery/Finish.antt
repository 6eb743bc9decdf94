-- ===== src/Delivery/Finish.antt =====
-- verification_delivery.py: what a worker writes once the provider has answered.
use new_mud_codex.Shared.{
  ℕ, ◌+◌, ◌^◌, min, Bool, false, not, ◌&&◌, ◌||◌, none, some, List, [], ◌∷◌, leb, ◌==◌, ℕ_equality,
  holds, if◌then◌else◌, seconds,
}
use new_mud_codex.Shared.Text.{Text, codes, Text_equality}
use new_mud_codex.Shared.Table.{first, update}
use new_mud_codex.Errors.{
  Result, pure, ◌>>=◌, ◌>>◌, raise_if, or_raise, does_not_exist, verification_service_unavailable,
}
use new_mud_codex.Sessions.Request.{text}
use new_mud_codex.Contacts.{normalize_email, lookup_digests}
use new_mud_codex.Delivery.{
  Externals, DeliverySettings, DeliveryOutcome, delivered, retry_scheduled, delivery_failed,
  stale_claim, ClaimedDelivery, value_of, save_outbox, save_challenge, terminalize_delivery_failure,
}
use new_mud_codex.Delivery.Tables.{
  Mail, Challenge, ChallengeState, Outbox, OutboxState, is_active_challenge, is_leased,
  challenge_is, outbox_is, same_purpose, same_channel,
}

-- `x in xs`
abbrev pub member : Text → List Text → Bool
member t [] = false
member t (s ∷ rest) = s == t || member t rest

-- the claim no longer holds the lease
abbrev pub is_stale : ClaimedDelivery → Outbox → Bool
is_stale claim o = not (is_leased o.state) || not (holds o.lease_owner claim.worker_id)

-- the active challenges for the destination, without the challenge itself
abbrev pub is_rival : Challenge → List Text → Challenge → Bool
is_rival h digests r =
    same_purpose r.purpose h.purpose
    && same_channel r.channel h.channel
    && member r.destination_lookup_digest digests
    && is_active_challenge r.state
    && not (r.challenge_id == h.challenge_id)

abbrev pub superseded : ℕ → Challenge → Challenge
superseded now r = record r {
  state = ChallengeState.superseded;
  superseded_at = some now;
  terminal_at = some now;
  version = r.version + 1;
}

module _ (x : Externals) (settings : DeliverySettings) where
  abbrev pub activated : Challenge → ℕ → Challenge
  activated h now = record h {
    state = ChallengeState.active;
    activated_at = some now;
    expires_at = some (now + seconds settings.challenge_ttl_seconds);
    version = h.version + 1;
  }

  abbrev pub delivered_outbox : Outbox → ℕ → Outbox
  delivered_outbox o now = record o {
    state = OutboxState.delivered;
    payload_ciphertext = none;
    lease_owner = none;
    lease_expires_at = none;
    provider_category = some (codes "accepted");
    delivered_at = some now;
    terminal_at = some now;
    version = o.version + 1;
  }

  unfoldable pub activate : Challenge → List Text → ℕ → List Challenge → List Challenge
  activate h digests now rows =
      save_challenge (activated h now) (update (is_rival h digests) (superseded now) rows)

  abbrev pub finish_row :
      ClaimedDelivery → List Text → ℕ → Outbox → Mail → Result (DeliveryOutcome × Mail)
  finish_row claim digests now o mail = if is_stale claim o then pure (stale_claim, mail) else (do
    h ← or_raise (first (challenge_is claim.challenge_id) mail.challenges) does_not_exist
    pure (
      delivered,
      record mail {
        challenges = activate h digests now mail.challenges;
        outboxes = save_outbox (delivered_outbox o now) mail.outboxes;
      },
    ))

  unfoldable pub finish_delivery : ClaimedDelivery → ℕ → Mail → Result (DeliveryOutcome × Mail)
  finish_delivery claim now mail = do
    destination ← or_raise (value_of (codes "destination") claim.payload) does_not_exist
    normalized ← normalize_email x.unicode (text destination)
    raise_if (not settings.baseline_configured) verification_service_unavailable
    o ← or_raise (first (outbox_is claim.outbox_id) mail.outboxes) does_not_exist
    finish_row claim (lookup_digests x.unicode normalized settings.contact_lookup) now o mail

  abbrev pub rescheduled : Outbox → ℕ → Outbox
  rescheduled o now = record o {
    state = OutboxState.pending;
    next_attempt_at = now + seconds (min 300 (2 ^ o.attempt_count));
    lease_owner = none;
    lease_expires_at = none;
    provider_category = some (codes "transient_failure");
    version = o.version + 1;
  }

  abbrev pub fail_row : ClaimedDelivery → Bool → ℕ → Outbox → Mail → Result (DeliveryOutcome × Mail)
  fail_row claim permanent now o mail =
      if is_stale claim o
      then pure (stale_claim, mail)
      else if permanent || leb settings.max_delivery_attempts o.attempt_count
      then (do
        h ← or_raise (first (challenge_is claim.challenge_id) mail.challenges) does_not_exist
        pure (
          delivery_failed,
          terminalize_delivery_failure h o
              (if permanent then codes "permanent_failure" else codes "transient_failure") now mail,
        ))
      else pure (
        retry_scheduled,
        record mail { outboxes = save_outbox (rescheduled o now) mail.outboxes },
      )

  unfoldable pub record_failure :
      ClaimedDelivery → Bool → ℕ → Mail → Result (DeliveryOutcome × Mail)
  record_failure claim permanent now mail = do
    o ← or_raise (first (outbox_is claim.outbox_id) mail.outboxes) does_not_exist
    fail_row claim permanent now o mail
