-- ===== src/Delivery.antt =====
-- src/new_mud/apps/identity/verification_delivery.py: the worker that sends the codes.
pub mod Tables
pub mod Finish
pub mod Deliver
pub mod Steps
pub mod Outboxes
pub mod Activation
use new_mud_codex.Shared.{
  ℕ, ◌+◌, ◌*◌, ◌^◌, min, Bool, true, false, not, ◌&&◌, ◌||◌, Option, none, some, List, [], ◌∷◌,
  ◌++◌, leb, ltb, ◌==◌, ℕ_equality, holds, if◌then◌else◌, length, all, seconds,
}
use new_mud_codex.Shared.Text.{Text, codes, Text_equality}
use new_mud_codex.Shared.Table.{first, select, update, exists}
use new_mud_codex.Errors.{
  Result, pure, raise, ◌>>=◌, ◌>>◌, raise_if, or_raise, does_not_exist, delivery_permanent,
  verification_service_unavailable,
}
use new_mud_codex.Sessions.Request.{text}
use new_mud_codex.Contacts.{Unicode, KeyRing, normalize_email, lookup_digests}
use new_mud_codex.Sealed.{Aead, decrypt_value}
use new_mud_codex.Delivery.Tables.{
  Mail, Challenge, ChallengeState, Outbox, OutboxState, Purpose, is_active_challenge,
  is_pending_challenge, is_pending, is_leased, challenge_is, outbox_is, same_purpose, same_channel,
}

abbrev pub Payload : Type 0
Payload = List (Text × Text)

-- What `json.loads` makes of a text: an object whose values are strings, or another value.
pub data PayloadJson : Type 0 where
  strings : Payload → PayloadJson
  other_json : PayloadJson

-- Code outside the repository: Unicode and HMAC, AES-GCM, `str` of a UUID, and `json.loads`, none for
-- `JSONDecodeError`.
pub record Externals : Type 0 where
  pub unicode : Unicode
  pub aead : Aead
  pub str_of_uuid : ℕ → Text
  pub loads : Text → Option PayloadJson

pub record DeliverySettings : Type 0 where
  pub baseline_configured : Bool
  pub max_delivery_attempts : ℕ
  pub lease_seconds : ℕ
  pub challenge_ttl_seconds : ℕ
  pub delivery_payload : KeyRing
  pub contact_lookup : KeyRing

pub data DeliveryOutcome : Type 0 where
  no_work delivered retry_scheduled delivery_failed stale_claim : DeliveryOutcome

pub record VerificationEmail : Type 0 where
  pub destination : Text
  pub subject : Text
  pub body : Text

pub record ClaimedDelivery : Type 0 where
  pub outbox_id : ℕ
  pub challenge_id : ℕ
  pub worker_id : Text
  pub payload : Payload
  pub attempt_count : ℕ

-- `.order_by(…).first()`: a row before which no other stands
module _ {ℓ} {A : Type ℓ} (before : A → A → Bool) where
  abbrev pub sooner : A → Option A → Option A
  sooner x none = some x
  sooner x (some y) = if before y x then some y else some x

  abbrev pub earliest : List A → Option A
  earliest [] = none
  earliest (x ∷ xs) = sooner x (earliest xs)

-- tuples in lexicographic order
abbrev pub lex : ℕ → ℕ → Bool → Bool
lex a b rest = ltb a b || (a == b && rest)

abbrev pub lease_end : Outbox → ℕ
lease_end o = elim o.lease_expires_at [ none ↦ 0 | some t ↦ t ]

-- `moment is not null and moment <= now`
abbrev pub has_passed : Option ℕ → ℕ → Bool
has_passed none now = false
has_passed (some t) now = leb t now

abbrev pub save_outbox : Outbox → List Outbox → List Outbox
save_outbox o = update (outbox_is o.outbox_id) (λ _. o)

abbrev pub save_challenge : Challenge → List Challenge → List Challenge
save_challenge h = update (challenge_is h.challenge_id) (λ _. h)

abbrev pub failed_challenge : Challenge → ℕ → Challenge
failed_challenge h now =
    if is_pending_challenge h.state
    then record h {
      state = ChallengeState.delivery_failed;
      terminal_at = some now;
      version = h.version + 1;
    }
    else h

abbrev pub failed_outbox : Outbox → Text → ℕ → Outbox
failed_outbox o provider_category now = record o {
  state = OutboxState.delivery_failed;
  payload_ciphertext = none;
  lease_owner = none;
  lease_expires_at = none;
  provider_category = some provider_category;
  terminal_at = some now;
  version = o.version + 1;
}

unfoldable pub terminalize_delivery_failure : Challenge → Outbox → Text → ℕ → Mail → Mail
terminalize_delivery_failure h o provider_category now mail = record mail {
  challenges = save_challenge (failed_challenge h now) mail.challenges;
  outboxes = save_outbox (failed_outbox o provider_category now) mail.outboxes;
}

-- the keys of the payload are these four
abbrev payload_keys : List Text
payload_keys = codes "channel" ∷ codes "code" ∷ codes "destination" ∷ codes "purpose" ∷ []

abbrev pub value_of : Text → Payload → Option Text
value_of k [] = none
value_of k ((j, v) ∷ rest) = if j == k then some v else value_of k rest

abbrev has_keys : Payload → Bool
has_keys payload =
    all (λ k. exists (λ p. p.0 == k) payload) payload_keys
    && all (λ p. exists (λ k. k == p.0) payload_keys) payload

abbrev pub is_digit : ℕ → Bool
is_digit c = leb b'0' c && leb c b'9'

abbrev pub is_code : Text → Bool
is_code code = length code == 6 && all is_digit code

abbrev pub message : Text → Text → Text → VerificationEmail
message purpose destination code =
    if purpose == codes "password_reset"
    then record {
      destination = destination;
      subject = codes "[New_Mud] 密码重置验证码";
      body =
          codes "你的 New_Mud 密码重置验证码是："
          ++ code
          ++ codes "\n\n验证码在 10 分钟内有效。如果你没有请求重置密码，请忽略本邮件。\n工作人员不会索要验证码。";
    }
    else record {
      destination = destination;
      subject = codes "[New_Mud] 注册验证码";
      body =
          codes "你的 New_Mud 注册验证码是："
          ++ code
          ++ codes "\n\n验证码在 10 分钟内有效。如果你没有请求注册，请忽略本邮件。\n工作人员不会索要验证码。";
    }

unfoldable pub message_from_payload : Payload → Result VerificationEmail
message_from_payload payload = do
  raise_if (not (has_keys payload)) delivery_permanent
  channel ← or_raise (value_of (codes "channel") payload) delivery_permanent
  purpose ← or_raise (value_of (codes "purpose") payload) delivery_permanent
  raise_if
      (not (channel == codes "email")
        || not (purpose == codes "registration" || purpose == codes "password_reset"))
      delivery_permanent
  code ← or_raise (value_of (codes "code") payload) delivery_permanent
  raise_if (not (is_code code)) delivery_permanent
  destination ← or_raise (value_of (codes "destination") payload) delivery_permanent
  pure (message purpose destination code)

module _ (x : Externals) (settings : DeliverySettings) where
  -- rows that other transactions hold are skipped
  abbrev pub is_exhausted : (ℕ → Bool) → ℕ → Outbox → Bool
  is_exhausted locked now o =
      is_leased o.state
      && has_passed o.lease_expires_at now
      && leb settings.max_delivery_attempts o.attempt_count
      && not (locked o.outbox_id)

  abbrev pub lease_before : Outbox → Outbox → Bool
  lease_before a b = lex (lease_end a) (lease_end b) (ltb a.outbox_id b.outbox_id)

  abbrev pub exhaust : Option Outbox → ℕ → Mail → Result (Bool × Mail)
  exhaust none now mail = pure (false, mail)
  exhaust (some o) now mail = do
    h ← or_raise (first (challenge_is o.challenge_id) mail.challenges) does_not_exist
    pure (true, terminalize_delivery_failure h o (codes "attempts_exhausted") now mail)

  unfoldable pub terminalize_one_exhausted_lease : (ℕ → Bool) → ℕ → Mail → Result (Bool × Mail)
  terminalize_one_exhausted_lease locked now mail =
      exhaust (earliest lease_before (select (is_exhausted locked now) mail.outboxes)) now mail

  abbrev pub is_eligible : (ℕ → Bool) → ℕ → Outbox → Bool
  is_eligible locked now o =
      ((is_pending o.state && leb o.next_attempt_at now)
        || (is_leased o.state && has_passed o.lease_expires_at now))
      && ltb o.attempt_count settings.max_delivery_attempts
      && not (locked o.outbox_id)

  abbrev pub attempt_before : Outbox → Outbox → Bool
  attempt_before a b =
      lex a.next_attempt_at b.next_attempt_at
        (lex a.created_at b.created_at (ltb a.outbox_id b.outbox_id))

  abbrev pub next_outbox : (ℕ → Bool) → ℕ → Mail → Option Outbox
  next_outbox locked now mail =
      earliest attempt_before (select (is_eligible locked now) mail.outboxes)

  abbrev pub as_payload : Option PayloadJson → Result Payload
  as_payload (some (strings payload)) = pure payload
  as_payload _ = raise delivery_permanent

  unfoldable pub open_payload : Outbox → Result Payload
  open_payload o = do
    ciphertext ← or_raise o.payload_ciphertext delivery_permanent
    plaintext ←
        decrypt_value x.aead (record { ciphertext = ciphertext; key_id = o.payload_key_id })
          settings.delivery_payload (codes "verification-delivery:" ++ x.str_of_uuid o.challenge_id)
    as_payload (x.loads plaintext)

  abbrev pub leased_outbox : Outbox → Text → ℕ → Outbox
  leased_outbox o worker_id now = record o {
    state = OutboxState.leased;
    lease_owner = some worker_id;
    lease_expires_at = some (now + seconds settings.lease_seconds);
    attempt_count = o.attempt_count + 1;
    version = o.version + 1;
  }

  abbrev pub claim : Option Outbox → Text → ℕ → Mail → Result (Option ClaimedDelivery × Mail)
  claim none worker_id now mail = pure (none, mail)
  claim (some o) worker_id now mail = do
    payload ← open_payload o
    pure (
      some (record {
        outbox_id = o.outbox_id;
        challenge_id = o.challenge_id;
        worker_id = worker_id;
        payload = payload;
        attempt_count = o.attempt_count + 1;
      }),
      record mail { outboxes = save_outbox (leased_outbox o worker_id now) mail.outboxes },
    )

  unfoldable pub claim_delivery :
      (ℕ → Bool) → Text → ℕ → Mail → Result (Option ClaimedDelivery × Mail)
  claim_delivery locked worker_id now mail = do
    raise_if (not settings.baseline_configured) verification_service_unavailable
    claim (next_outbox locked now mail) worker_id now mail
