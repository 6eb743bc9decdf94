-- ===== src/CodeRequests.antt =====
-- src/new_mud/apps/identity/verification_requests.py: requests for a code by e-mail.
pub mod Tables
pub mod Issue
pub mod Repeat
pub mod Visible
pub mod Sent
use new_mud_codex.Shared.{
  ℕ, ◌+◌, ◌*◌, ◌/◌, ◌%◌, Bool, true, false, not, ◌&&◌, ◌||◌, Option, none, some, List, [], ◌∷◌,
  ◌++◌, ltb, ◌==◌, ℕ_equality, if◌then◌else◌, seconds, map,
}
use new_mud_codex.Shared.Text.{Text, codes, Text_equality}
use new_mud_codex.Shared.Table.{first, select, exists}
use new_mud_codex.Errors.{
  Result, pure, raise, ◌>>=◌, ◌>>◌, raise_if, contact_channel_unavailable,
  verification_request_invalid, verification_request_conflict, verification_service_unavailable,
  key_unavailable, ciphertext_invalid,
}
use new_mud_codex.Sessions.Tables.{GameAccount}
use new_mud_codex.Sessions.Request.{Value, text, not_text, is_idempotency_key}
use new_mud_codex.Contacts.{
  KeyRing, NormalizedEmail, DigestedValue, normalize_email, keyed_digest, lookup_digests,
}
use new_mud_codex.Sealed.{EncryptedValue, encrypt_value, decrypt_value}
use new_mud_codex.Delivery.{Externals, Payload, earliest}
use new_mud_codex.Delivery.Tables.{
  Mail, Challenge, ChallengeState, Outbox, OutboxState, Purpose, registration, password_reset,
  Channel, same_purpose,
}
use new_mud_codex.Registration.{is_email_value}
use new_mud_codex.Registration.Tables.{Realm, Contact}
use new_mud_codex.Registration.Code.{verification_code_digest, purpose_text}
use new_mud_codex.Reset.{is_located, is_open_lifecycle}
use new_mud_codex.Limits.{PersistentLimit, RateLimitDecision, Bucket, consume_persistent_limits}
use new_mud_codex.CodeRequests.Tables.{
  Answer, accepted, limited, RequestRecord, Desk, RequestHost, RequestSettings, RequestSupply,
  CodeRequest,
}
use new_mud_codex.CodeRequests.Issue.{subject_digest, issue_registration, issue_reset}

abbrev pub record_is : Purpose → Text → RequestRecord → Bool
record_is purpose idempotency_key r =
    same_purpose r.purpose purpose && r.idempotency_key == idempotency_key

-- `except (CiphertextInvalid, KeyUnavailable)`
abbrev pub except_sealed {ℓ} : {A : Type ℓ} → Result A → Result A
except_sealed (raise key_unavailable) = raise verification_service_unavailable
except_sealed (raise ciphertext_invalid) = raise verification_service_unavailable
except_sealed m = m

abbrev pub key_of : Value → Result Text
key_of not_text = raise verification_request_invalid
key_of (text t) = if is_idempotency_key t then pure t else raise verification_request_invalid

-- `_replay_or_conflict`
abbrev pub replayed : Option RequestRecord → Text → Result (Option Answer)
replayed none request_hash = pure none
replayed (some r) request_hash =
    if r.canonical_request_hash == request_hash
    then pure (some r.answer)
    else raise verification_request_conflict

unfoldable pub replay_or_conflict :
    Purpose → Text → Text → List RequestRecord → Result (Option Answer)
replay_or_conflict purpose idempotency_key request_hash rows =
    replayed (first (record_is purpose idempotency_key) rows) request_hash

abbrev pub namespace : Purpose → Text
namespace registration = codes "registration-verification"
namespace password_reset = codes "password-reset-verification"

module _ (h : RequestHost) (settings : RequestSettings) where
  -- `_request_hash`
  unfoldable pub request_hash : Purpose → Text → Text
  request_hash purpose comparison = h.sha256_hexdigest (
      h.dumps (
        (codes "channel", codes "email")
        ∷ (codes "destination", comparison)
        ∷ (codes "purpose", purpose_text purpose)
        ∷ []))

  abbrev window : Text → Text → ℕ → ℕ → PersistentLimit
  window scope subject_digest window_seconds limit = record {
    scope = scope;
    subject_digest = subject_digest;
    window_seconds = window_seconds;
    limit = limit;
  }

  -- `_rate_limits`
  unfoldable pub rate_limits : Text → Text → Text → Result (List PersistentLimit)
  rate_limits contact ip device = do
    c ← subject_digest h settings contact (codes "verification-rate-limit:contact")
    i ← subject_digest h settings ip (codes "verification-rate-limit:ip")
    d ← subject_digest h settings device (codes "verification-rate-limit:device")
    pure (
        window (codes "contact") c.digest 60 1
        ∷ window (codes "contact") c.digest (15 * 60) 5
        ∷ window (codes "contact") c.digest (24 * 60 * 60) 10
        ∷ window (codes "ip") i.digest (15 * 60) 20
        ∷ window (codes "ip") i.digest (24 * 60 * 60) 100
        ∷ window (codes "device") d.digest (15 * 60) 10
        ∷ window (codes "device") d.digest (24 * 60 * 60) 30
        ∷ [])

  abbrev pub new_record : Purpose → Text → Text → Answer → ℕ → RequestRecord
  new_record purpose idempotency_key hash answer now = record {
    purpose = purpose;
    idempotency_key = idempotency_key;
    canonical_request_hash = hash;
    answer = answer;
    created_at = now;
    expires_at = now + seconds settings.retention_seconds;
  }

  -- `VerificationRequestRecord.objects.create`, and the answer
  abbrev pub record_answer :
      Purpose → Text → Text → Answer → ℕ → Realm → List Bucket → Desk → Answer × Desk
  record_answer purpose idempotency_key hash answer now realm buckets desk = (
    answer,
    record {
      realm = realm;
      requests = desk.requests ++ new_record purpose idempotency_key hash answer now ∷ [];
      buckets = buckets;
    },
  )

  -- the request is over a limit, or issues a code
  abbrev pub decide :
      Purpose
      → Text
      → Text
      → RateLimitDecision × List Bucket
      → Result Realm
      → RequestSupply
      → Desk
      → Result (Answer × Desk)
  decide purpose idempotency_key hash (decision, buckets) issued s desk =
      if decision.allowed
      then (do
        realm ← issued
        pure (record_answer purpose idempotency_key hash accepted s.now realm buckets desk))
      else pure (
          record_answer purpose idempotency_key hash (limited decision.retry_after) s.now desk.realm
            buckets desk)

  abbrev pub first_time :
      Purpose
      → Text
      → Text
      → NormalizedEmail
      → CodeRequest
      → (NormalizedEmail → RequestSupply → Realm → Result Realm)
      → RequestSupply
      → Desk
      → Result (Answer × Desk)
  first_time purpose idempotency_key hash email q issues s desk = do
    limits ← rate_limits email.comparison q.client_ip q.device_id
    decide purpose idempotency_key hash
        (consume_persistent_limits (namespace purpose) limits s.now desk.buckets)
        (issues email s desk.realm) s desk

  abbrev pub unless_replayed :
      Option Answer → Desk → Result (Answer × Desk) → Result (Answer × Desk)
  unless_replayed (some answer) desk otherwise = pure (answer, desk)
  unless_replayed none desk otherwise = otherwise

  -- the transaction of either request
  abbrev pub transact :
      Purpose
      → Text
      → NormalizedEmail
      → CodeRequest
      → (NormalizedEmail → RequestSupply → Realm → Result Realm)
      → RequestSupply
      → Desk
      → Result (Answer × Desk)
  transact purpose idempotency_key email q issues s desk = do
    let hash = request_hash purpose email.comparison
    replay ← replay_or_conflict purpose idempotency_key hash desk.requests
    unless_replayed replay desk (first_time purpose idempotency_key hash email q issues s desk)

  -- the checks before the transaction: the key and the address
  unfoldable pub check_request : CodeRequest → Result (Text × NormalizedEmail)
  check_request q = do
    raise_if (not (is_email_value q.channel)) contact_channel_unavailable
    idempotency_key ← key_of q.idempotency_key
    email ← normalize_email h.externals.unicode q.destination
    raise_if (not settings.baseline_configured) verification_service_unavailable
    pure (idempotency_key, email)

  unfoldable pub request_registration_verification :
      CodeRequest → RequestSupply → Desk → Result (Answer × Desk)
  request_registration_verification q s desk = do
    checked ← check_request q
    transact registration checked.0 checked.1 q (issue_registration h settings) s desk

  unfoldable pub request_password_reset_verification :
      CodeRequest → RequestSupply → Desk → Result (Answer × Desk)
  request_password_reset_verification q s desk = do
    checked ← check_request q
    except_sealed (transact password_reset checked.0 checked.1 q (issue_reset h settings) s desk)
